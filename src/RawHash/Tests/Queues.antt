-- ===== src/RawHash/Tests/Queues.antt =====
-- The theorems on the queue of jobs at a worker that runs one job while another waits.
use flashsentry.Base.{ℕ, refl, true, false, [], ◌∷◌, Text, pos, codes, arith}
use flashsentry.RawHash.Job.{HashJob, sha256, full, partition}
use flashsentry.RawHash.Queue.{HashWorker, threw, new_state}
use flashsentry.RawHash.Queue.Busy.{IsBusy}
use flashsentry.RawHash.Queue.History.{
  start, cancel, set_max, finish, run_worker, run_worker-IsBusy,
}

abbrev scan : HashJob
scan = record {
  device_node = codes "/dev/sdb";
  algorithm = sha256;
  buffer_size_kb = pos 64;
  use_memory_mapping = true;
  scope = partition;
  scan_mode = full;
  resume_from_checkpoint = false;
}

abbrev worker : HashWorker
worker = record {
  jobs = (codes "a", new_state scan) ∷ [];
  pending_queue = (codes "b", scan) ∷ [];
  job_counter = 2;
  timer_is_active = true;
  max_concurrent = 1;
}

worker-IsBusy : IsBusy 2 worker
worker-IsBusy = record {
  working = λ e. cc;
  timed = refl;
  bounded = omega arith;
  some_allowed = omega arith;
  allowed = omega arith;
}

abbrev id_of : ℕ → ℕ → Text
id_of now i = codes "c"

run_worker-IsBusy_example : IsBusy 2 (
    run_worker id_of
      (set_max (pos 2) ∷ start 7 scan ∷ finish (codes "a") (threw []) ∷ cancel (codes "b") ∷ [])
      worker)
run_worker-IsBusy_example =
    run_worker-IsBusy 2 id_of
      (set_max (pos 2) ∷ start 7 scan ∷ finish (codes "a") (threw []) ∷ cancel (codes "b") ∷ [])
      worker (omega arith, (tt, (tt, (tt, tt)))) worker-IsBusy
