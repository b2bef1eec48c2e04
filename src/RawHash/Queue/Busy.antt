-- ===== src/RawHash/Queue/Busy.antt =====
-- When jobs of src/HashWorker.cpp wait, and that each of its methods keeps to that.
use flashsentry.Base.{
  ℕ, suc, ◌+◌, ◌%◌, ◌^◌, ◌≤◌, ◌≡◌, refl, ap, ◌∙◌, true, false, not, ◌&&◌, some, List, [], ◌∷◌, Text,
  ℤ, pos, negsuc, Table, lookup, insert, text_eq, ltb, length, map, keep_if, length-keep_if-le,
  arith, Bool-cases, Option-cases, inl, inr,
}
use flashsentry.RawHash.{at_least_one}
use flashsentry.RawHash.Job.{HashJob}
use flashsentry.RawHash.Queue.{
  is_nil, JobState, HashWorker, FutureResult, new_state, launch_job, start_hash, cancel_hash,
  cancel_all, cancel_entry, process_pending, process_pending_queue, erase_job, on_job_finished,
  remove_pending,
}

-- Jobs wait only while others run, the timer is active exactly while one runs, and no more run than the
-- bound.
pub record IsBusy (bound : ℕ) (w : HashWorker) : Type 0 where
  pub working : is_nil w.jobs ≡ true → is_nil w.pending_queue ≡ true
  pub timed : w.timer_is_active ≡ not (is_nil w.jobs)
  pub bounded : length w.jobs ≤ bound
  pub some_allowed : 1 ≤ w.max_concurrent
  pub allowed : w.max_concurrent ≤ bound

module _ {V : Type 0} where
  is_nil-insert : (k : Text) (v : V) (m : Table V) → is_nil (insert k v m) ≡ false
  unfolding insert
  is_nil-insert k v [] = refl
  is_nil-insert k v ((j, u) ∷ m) = ground arith

  length-insert_le : (k : Text) (v : V) (m : Table V) → length (insert k v m) ≤ suc (length m)
  unfolding insert
  length-insert_le k v [] = omega arith
  length-insert_le k v ((j, u) ∷ m) = ground (arith, length-insert_le k v m)

  length-insert :
      (k : Text) (v u : V) (m : Table V) → lookup k m ≡ some u → length (insert k v m) ≡ length m
  unfolding insert lookup
  length-insert k v u [] e = cc
  length-insert k v u ((j, x) ∷ m) e = ground (arith, length-insert k v u m)

  is_nil-length : (xs : List V) → 1 ≤ length xs → is_nil xs ≡ false
  is_nil-length [] h = absurd (omega arith)
  is_nil-length (x ∷ xs) h = refl

  lookup-is_nil : (k : Text) (u : V) (m : Table V) → lookup k m ≡ some u → is_nil m ≡ false
  unfolding lookup
  lookup-is_nil k u [] e = cc
  lookup-is_nil k u (x ∷ m) e = refl

is_nil-map : (m : Table JobState) → is_nil m ≡ is_nil (map cancel_entry m)
is_nil-map [] = refl
is_nil-map (x ∷ m) = refl

length-map : (m : Table JobState) → length (map cancel_entry m) ≡ length m
length-map [] = refl
length-map (x ∷ m) = omega (arith, length-map m)

pub at_least_one_pos : (n : ℤ) → 1 ≤ at_least_one n
at_least_one_pos (pos n) = omega arith
at_least_one_pos (negsuc n) = omega arith

module _ (bound : ℕ) where
  launch_job-IsBusy :
      (id : Text) (job : HashJob) (w : HashWorker)
      → suc (length w.jobs) ≤ w.max_concurrent
      → w.max_concurrent ≤ bound
      → IsBusy bound (launch_job id job w).0
  unfolding launch_job
  launch_job-IsBusy id job w free allowed =
      let some_there = is_nil-insert id (new_state job) w.jobs in
      record {
        working = λ e. cc;
        timed = rw some_there;
        bounded = omega (arith, length-insert_le id (new_state job) w.jobs);
        some_allowed = omega arith;
        allowed = allowed;
      }

  process_pending-IsBusy :
      (ps : List (Text × HashJob)) (w : HashWorker)
      → w.timer_is_active ≡ not (is_nil w.jobs && is_nil ps)
      → length w.jobs ≤ bound
      → 1 ≤ w.max_concurrent
      → w.max_concurrent ≤ bound
      → IsBusy bound (process_pending ps w).0
  unfolding process_pending
  process_pending-IsBusy [] w timed bounded some_allowed allowed = record {
    working = λ e. refl;
    timed = timed ∙ ground arith;
    bounded = bounded;
    some_allowed = some_allowed;
    allowed = allowed;
  }
  process_pending-IsBusy ((id, job) ∷ rest) w timed bounded some_allowed allowed =
      let w' = record w { pending_queue = rest } in
      elim (Bool-cases (ltb (length w.jobs) w.max_concurrent)) [
        | inr none_free ↦
            let some_there = is_nil-length w.jobs (ground arith) in
            rw none_free (record {
              working = λ e. cc;
              timed = timed ∙ rw some_there;
              bounded = bounded;
              some_allowed = some_allowed;
              allowed = allowed;
            })
        | inl free ↦
            let busy = launch_job-IsBusy id job w' (ground arith) allowed in
            rw free (
              process_pending-IsBusy rest (launch_job id job w').0
                (rw (is_nil-insert id (new_state job) w.jobs)) busy.bounded some_allowed allowed)
      ]

  pub start_hash-IsBusy :
      (id_of : ℕ → ℕ → Text) (now : ℕ) (job : HashJob) (w : HashWorker)
      → IsBusy bound w
      → IsBusy bound (start_hash id_of now job w).1
  unfolding start_hash
  start_hash-IsBusy id_of now job w busy =
      elim (Bool-cases (ltb (length w.jobs) w.max_concurrent)) [
        | inl free ↦ rw free (
            launch_job-IsBusy (id_of now w.job_counter) job
              (record w { job_counter = (w.job_counter + 1) % 2 ^ 64 }) (ground arith) busy.allowed)
        | inr none_free ↦
            let some_there = is_nil-length w.jobs (ground (arith, busy.some_allowed)) in
            rw none_free (record {
              working = λ e. cc;
              timed = busy.timed;
              bounded = busy.bounded;
              some_allowed = busy.some_allowed;
              allowed = busy.allowed;
            })
      ]

  remove_pending-is_nil :
      (id : Text) (ps : List (Text × HashJob))
      → is_nil ps ≡ true
      → is_nil (remove_pending id ps) ≡ true
  unfolding remove_pending
  remove_pending-is_nil id [] e = refl
  remove_pending-is_nil id (p ∷ ps) e = cc

  pub cancel_hash-IsBusy :
      (id : Text) (w : HashWorker) → IsBusy bound w → IsBusy bound (cancel_hash id w).0
  unfolding cancel_hash
  cancel_hash-IsBusy id w busy = elim (Option-cases (lookup id w.jobs)) [
    | inl none_there ↦
        rw (none_there, cancel_hash)
          (record {
            working = λ e. remove_pending-is_nil id w.pending_queue (busy.working e);
            timed = busy.timed;
            bounded = busy.bounded;
            some_allowed = busy.some_allowed;
            allowed = busy.allowed;
          })
    | inr (state, there) ↦
        let flagged = record state { cancelled = true } in
        let still = is_nil-insert id flagged w.jobs in
        rw (there, cancel_hash)
          (record {
            working = λ e. cc;
            timed = busy.timed ∙ rw (still, lookup-is_nil id state w.jobs there);
            bounded = omega (arith, busy.bounded, length-insert id flagged state w.jobs there);
            some_allowed = busy.some_allowed;
            allowed = busy.allowed;
          })
  ]

  pub cancel_all-IsBusy : (w : HashWorker) → IsBusy bound w → IsBusy bound (cancel_all w)
  unfolding cancel_all
  cancel_all-IsBusy w busy = record {
    working = λ e. refl;
    timed = busy.timed ∙ ap not (is_nil-map w.jobs);
    bounded = omega (arith, busy.bounded, length-map w.jobs);
    some_allowed = busy.some_allowed;
    allowed = busy.allowed;
  }

  pub on_job_finished-IsBusy :
      (id : Text) (future : FutureResult) (w : HashWorker)
      → IsBusy bound w
      → IsBusy bound (on_job_finished id future w).0
  unfolding on_job_finished process_pending_queue erase_job
  on_job_finished-IsBusy id future w busy = elim (Option-cases (lookup id w.jobs)) [
    | inl none_there ↦ rw (none_there, on_job_finished) busy
    | inr (state, there) ↦
        let left = keep_if (λ e. not (text_eq e.0 id)) w.jobs in
        let was_active = busy.timed ∙ ap not (lookup-is_nil id state w.jobs there) in
        rw (there, on_job_finished)
          (process_pending-IsBusy w.pending_queue (erase_job id w)
            (elim (Bool-cases (is_nil left && is_nil w.pending_queue)) [
              | inl last ↦ rw last
              | inr more ↦ rw more was_active
            ])
            (omega (arith, busy.bounded, length-keep_if-le (λ e. not (text_eq e.0 id)) w.jobs))
            busy.some_allowed busy.allowed)
  ]
