-- ===== src/RawHash/Queue.antt =====
-- The jobs of src/HashWorker.cpp: those that run, those that wait, and the signals. A run is known by
-- the outcome that its thread leaves. The methods are called from one thread. Progress is left out.
pub mod Drained
pub mod Busy
pub mod History
use flashsentry.Base.{
  ℕ, zero, suc, ◌+◌, ◌%◌, ◌^◌, Bool, true, false, not, ◌&&◌, ◌||◌, Option, none, some, List, [],
  ◌∷◌, ◌++◌, Text, ℤ, Table, lookup, insert, ltb, if◌then◌else◌, length, map, codes, text_eq,
  keep_if, any,
}
use flashsentry.RawHash.{HashResult, HashError, at_least_one}
use flashsentry.RawHash.Opened.{is_some}
use flashsentry.RawHash.Job.{
  HashJob, HashScanMode, full, quick_sample, watch_manifest_only, partition, whole_disk,
}

pub record JobState : Type 0 where
  pub config : HashJob
  pub cancelled : Bool

pub record HashWorker : Type 0 where
  pub jobs : Table JobState
  pub pending_queue : List (Text × HashJob)
  pub job_counter : ℕ
  pub timer_is_active : Bool
  pub max_concurrent : ℕ

abbrev pub is_nil : {A : Type 0} → List A → Bool
is_nil [] = true
is_nil (x ∷ xs) = false

-- What `future.result()` does.
pub data FutureResult : Type 0 where
  returned : HashResult → FutureResult
  threw : Text → FutureResult

-- The error of `hashFailed`.
pub data Failure : Type 0 where
  because : Option HashError → Failure
  exception : Text → Failure

-- What `onJobFinished` adds to a result.
pub record Labels : Type 0 where
  pub hash_scope_label : Text
  pub scan_mode_label : Text
  pub resumed_from_checkpoint : Bool

pub data HashSignal : Type 0 where
  hash_started : Text → Text → HashSignal
  hash_completed : Text → HashResult → Labels → HashSignal
  hash_failed : Text → Failure → HashSignal
  hash_cancelled : Text → HashSignal

unfoldable pub hash_scan_mode_to_string : HashScanMode → Text
hash_scan_mode_to_string quick_sample = codes "quick"
hash_scan_mode_to_string watch_manifest_only = codes "watch"
hash_scan_mode_to_string full = codes "full"

abbrev pub new_state : HashJob → JobState
new_state job = record { config = job; cancelled = false }

unfoldable pub launch_job : Text → HashJob → HashWorker → HashWorker × List HashSignal
unfolding insert
launch_job job_id job w = (
  record w { jobs = insert job_id (new_state job) w.jobs; timer_is_active = true },
  hash_started job_id job.device_node ∷ [],
)

-- `id_of` is the text of the time and the counter.
unfoldable pub start_hash :
    (ℕ → ℕ → Text) → ℕ → HashJob → HashWorker → Text × HashWorker × List HashSignal
unfolding launch_job
start_hash id_of now job w =
    let id = id_of now w.job_counter in
    let w' = record w { job_counter = (w.job_counter + 1) % 2 ^ 64 } in
    if not (ltb (length w'.jobs) w'.max_concurrent)
    then (id, record w' { pending_queue = w'.pending_queue ++ (id, job) ∷ [] }, [])
    else (let (w'', started) = launch_job id job w' in (id, w'', started))

is_job : Text → (Text × HashJob) → Bool
unfolding text_eq
is_job job_id (id, job) = text_eq id job_id

-- The loop over the queue, which takes off the first job with the id.
unfoldable pub remove_pending : Text → List (Text × HashJob) → List (Text × HashJob)
unfolding is_job
remove_pending job_id [] = []
remove_pending job_id (p ∷ ps) = if is_job job_id p then ps else p ∷ remove_pending job_id ps

unfoldable pub cancel_hash : Text → HashWorker → HashWorker × Bool
unfolding lookup insert remove_pending is_job any
cancel_hash job_id w = elim (lookup job_id w.jobs) [
  | some state ↦
      (record w { jobs = insert job_id (record state { cancelled = true }) w.jobs }, true)
  | none ↦ (
    record w { pending_queue = remove_pending job_id w.pending_queue },
    any (is_job job_id) w.pending_queue,
  )
]

pub cancel_entry : Text × JobState → Text × JobState
cancel_entry (id, state) = (id, record state { cancelled = true })

unfoldable pub cancel_all : HashWorker → HashWorker
unfolding cancel_entry
cancel_all w = record w { jobs = map cancel_entry w.jobs; pending_queue = [] }

unfoldable pub set_max_concurrent : ℤ → HashWorker → HashWorker
set_max_concurrent max w = record w { max_concurrent = at_least_one max }

unfoldable pub is_running : Text → HashWorker → Bool
unfolding lookup
is_running job_id w = is_some (lookup job_id w.jobs)

unfoldable pub has_active_jobs : HashWorker → Bool
has_active_jobs w = not (is_nil w.jobs) || not (is_nil w.pending_queue)

unfoldable pub active_job_count : HashWorker → ℕ
active_job_count w = length w.jobs + length w.pending_queue

-- The loop has the queue as fuel: each of its rounds but the last takes a job off.
unfoldable pub process_pending : List (Text × HashJob) → HashWorker → HashWorker × List HashSignal
unfolding launch_job
process_pending [] w = (record w { pending_queue = [] }, [])
process_pending ((id, job) ∷ rest) w =
    let (w', started) = launch_job id job (record w { pending_queue = rest }) in
    let (w'', more) = process_pending rest w' in
    if not (ltb (length w.jobs) w.max_concurrent)
    then (record w { pending_queue = (id, job) ∷ rest }, [])
    else (w'', started ++ more)

unfoldable pub process_pending_queue : HashWorker → HashWorker × List HashSignal
unfolding process_pending
process_pending_queue w = process_pending w.pending_queue w

unfoldable pub labels : HashJob → Labels
unfolding hash_scan_mode_to_string
labels job = record {
  hash_scope_label = elim job.scope [
    | whole_disk ↦ codes "whole_disk"
    | partition ↦ codes "partition"
  ];
  scan_mode_label = hash_scan_mode_to_string job.scan_mode;
  resumed_from_checkpoint = job.resume_from_checkpoint;
}

unfoldable pub ending : Text → JobState → FutureResult → HashSignal
unfolding labels
ending job_id state future = if state.cancelled then hash_cancelled job_id else elim future [
  | threw what ↦ hash_failed job_id (exception what)
  | returned result ↦
      if result.success
      then hash_completed job_id result (labels state.config)
      else hash_failed job_id (because result.error_message)
]

-- The job's entry is taken off, and the timer is stopped where no other job is left.
unfoldable pub erase_job : Text → HashWorker → HashWorker
unfolding keep_if text_eq
erase_job job_id w =
    let jobs = keep_if (λ e. not (text_eq e.0 job_id)) w.jobs in
    record w {
      jobs = jobs;
      timer_is_active = if is_nil jobs && is_nil w.pending_queue then false else w.timer_is_active;
    }

unfoldable pub on_job_finished : Text → FutureResult → HashWorker → HashWorker × List HashSignal
unfolding lookup erase_job process_pending_queue ending
on_job_finished job_id future w = elim (lookup job_id w.jobs) [
  | none ↦ (w, [])
  | some state ↦
      let (w', started) = process_pending_queue (erase_job job_id w) in
      (w', started ++ ending job_id state future ∷ [])
]
