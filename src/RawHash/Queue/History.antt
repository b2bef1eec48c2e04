-- ===== src/RawHash/Queue/History.antt =====
-- What holds of the jobs of src/HashWorker.cpp through any history of calls and ends of runs.
use flashsentry.Base.{ℕ, ◌≤◌, List, [], ◌∷◌, Text, ℤ, All}
use flashsentry.RawHash.{at_least_one}
use flashsentry.RawHash.Job.{HashJob}
use flashsentry.RawHash.Queue.{
  HashWorker, FutureResult, start_hash, cancel_hash, cancel_all, set_max_concurrent,
  on_job_finished,
}
use flashsentry.RawHash.Queue.Busy.{
  IsBusy, start_hash-IsBusy, cancel_hash-IsBusy, cancel_all-IsBusy, on_job_finished-IsBusy,
  at_least_one_pos,
}

-- What the other threads and objects do to the worker.
pub data WorkerCall : Type 0 where
  start : ℕ → HashJob → WorkerCall
  cancel : Text → WorkerCall
  cancel_every : WorkerCall
  set_max : ℤ → WorkerCall
  finish : Text → FutureResult → WorkerCall

module _ (id_of : ℕ → ℕ → Text) where
  unfoldable pub call_worker : WorkerCall → HashWorker → HashWorker
  unfolding start_hash cancel_hash cancel_all set_max_concurrent on_job_finished
  call_worker (start now job) w = (start_hash id_of now job w).1
  call_worker (cancel job_id) w = (cancel_hash job_id w).0
  call_worker cancel_every w = cancel_all w
  call_worker (set_max max) w = set_max_concurrent max w
  call_worker (finish job_id future) w = (on_job_finished job_id future w).0

  unfoldable pub run_worker : List WorkerCall → HashWorker → HashWorker
  unfolding call_worker
  run_worker [] w = w
  run_worker (c ∷ cs) w = run_worker cs (call_worker c w)

-- A call does not raise the number of concurrent jobs over a bound.
abbrev pub IsWithin : ℕ → WorkerCall → Type 0
IsWithin bound (set_max max) = at_least_one max ≤ bound
IsWithin bound _ = Unit {0}

module _ (bound : ℕ) where
  call_worker-IsBusy :
      (id_of : ℕ → ℕ → Text) (c : WorkerCall) (w : HashWorker)
      → IsWithin bound c
      → IsBusy bound w
      → IsBusy bound (call_worker id_of c w)
  unfolding call_worker set_max_concurrent
  call_worker-IsBusy id_of (start now job) w within busy =
      start_hash-IsBusy bound id_of now job w busy
  call_worker-IsBusy id_of (cancel job_id) w within busy = cancel_hash-IsBusy bound job_id w busy
  call_worker-IsBusy id_of cancel_every w within busy = cancel_all-IsBusy bound w busy
  call_worker-IsBusy id_of (set_max max) w within busy = record {
    working = busy.working;
    timed = busy.timed;
    bounded = busy.bounded;
    some_allowed = at_least_one_pos max;
    allowed = within;
  }
  call_worker-IsBusy id_of (finish job_id future) w within busy =
      on_job_finished-IsBusy bound job_id future w busy

  -- Through any calls that set no more concurrent jobs than a bound, jobs wait only while others run,
  -- the timer is active exactly while one runs, and no more run than the bound, if that was so before.
  pub run_worker-IsBusy :
      (id_of : ℕ → ℕ → Text) (cs : List WorkerCall) (w : HashWorker)
      → All (IsWithin bound) cs
      → IsBusy bound w
      → IsBusy bound (run_worker id_of cs w)
  unfolding run_worker
  run_worker-IsBusy id_of [] w within busy = busy
  run_worker-IsBusy id_of (c ∷ cs) w (own, within) busy =
      run_worker-IsBusy id_of cs (call_worker id_of c w) within
        (call_worker-IsBusy id_of c w own busy)
