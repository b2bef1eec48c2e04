-- ===== src/RawHash/Queue/Drained.antt =====
-- What follows where a job of src/HashWorker.cpp ends.
use flashsentry.Base.{
  ◌≤◌, ◌≡◌, refl, ap, ◌∙◌, true, some, List, [], ◌∷◌, ◌++◌, Text, lookup, lookup-insert, ltb,
  length, map, All, text_eq, text_eq_refl, arith, Bool-cases, inl, inr, ◌⊎◌,
}
use flashsentry.RawHash.Opened.{is_some}
use flashsentry.RawHash.Job.{HashJob}
use flashsentry.RawHash.Queue.{
  JobState, HashWorker, FutureResult, HashSignal, hash_started, new_state, launch_job, is_running,
  process_pending, process_pending_queue, ending, erase_job, on_job_finished,
}

abbrev pub started_signal : (Text × HashJob) → HashSignal
started_signal (id, job) = hash_started id job.device_node

-- The jobs that were started from a queue, and the worker then: they are its first ones, in their order,
-- each was announced and runs, and no job waits that could run.
pub record Drains (queue : List (Text × HashJob)) (w' : HashWorker) (signals : List HashSignal)
    : Type 0 where
  pub started : List (Text × HashJob)
  pub in_order : queue ≡ started ++ w'.pending_queue
  pub announced : signals ≡ map started_signal started
  pub runs : All (λ p. is_running p.0 w' ≡ true) started
  pub busy : (w'.pending_queue ≡ []) ⊎ (w'.max_concurrent ≤ length w'.jobs)

is_running-launch_job :
    (id j : Text) (job : HashJob) (w : HashWorker)
    → is_running j w ≡ true
    → is_running j (launch_job id job w).0 ≡ true
unfolding is_running launch_job
is_running-launch_job id j job w running =
    ap is_some (lookup-insert id j (new_state job) w.jobs)
    ∙ elim (Bool-cases (text_eq id j)) [ inl same ↦ rw same | inr other ↦ rw other running ]

launch_job-is_running :
    (id : Text) (job : HashJob) (w : HashWorker) → is_running id (launch_job id job w).0 ≡ true
unfolding is_running launch_job
launch_job-is_running id job w =
    ap is_some (lookup-insert id id (new_state job) w.jobs) ∙ rw (text_eq_refl id)

is_running-process_pending :
    (ps : List (Text × HashJob)) (j : Text) (w : HashWorker)
    → is_running j w ≡ true
    → is_running j (process_pending ps w).0 ≡ true
unfolding process_pending is_running
is_running-process_pending [] j w running = running
is_running-process_pending ((id, job) ∷ rest) j w running =
    let w' = record w { pending_queue = rest } in
    elim (Bool-cases (ltb (length w.jobs) w.max_concurrent)) [
      | inr none_free ↦ rw none_free running
      | inl free ↦ rw free (
          is_running-process_pending rest j (launch_job id job w').0
            (is_running-launch_job id j job w' running))
    ]

process_pending-Drains :
    (ps : List (Text × HashJob)) (w : HashWorker)
    → Drains ps (process_pending ps w).0 (process_pending ps w).1
unfolding process_pending launch_job
process_pending-Drains [] w = record {
  started = [];
  in_order = refl;
  announced = refl;
  runs = tt;
  busy = inl refl;
}
process_pending-Drains ((id, job) ∷ rest) w =
    let w' = (launch_job id job (record w { pending_queue = rest })).0 in
    let drains = process_pending-Drains rest w' in
    elim (Bool-cases (ltb (length w.jobs) w.max_concurrent)) [
      | inr none_free ↦ rw none_free (record {
        started = [];
        in_order = refl;
        announced = refl;
        runs = tt;
        busy = inr (ground arith);
      })
      | inl free ↦ rw free (record {
        started = (id, job) ∷ drains.started;
        in_order = ap (◌∷◌ (id, job)) drains.in_order;
        announced = ap (λ s. hash_started id job.device_node ∷ s) drains.announced;
        runs = (
          is_running-process_pending rest id w'
              (launch_job-is_running id job (record w { pending_queue = rest })),
          drains.runs,
        );
        busy = drains.busy;
      })
    ]

-- Where a running job ends, waiting jobs are started first, and then its own end is announced.
pub on_job_finished-Drains :
    (job_id : Text) (future : FutureResult) (w : HashWorker) (state : JobState)
    → lookup job_id w.jobs ≡ some state
    → (signals : List HashSignal) × ((on_job_finished job_id future w).1
        ≡ signals ++ ending job_id state future ∷ [])
      × Drains w.pending_queue (on_job_finished job_id future w).0 signals
unfolding on_job_finished process_pending_queue erase_job
on_job_finished-Drains job_id future w state there =
    let w' = erase_job job_id w in
    rw (there, on_job_finished)
      ((process_pending w.pending_queue w').1, refl, process_pending-Drains w.pending_queue w')
