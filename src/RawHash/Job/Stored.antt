-- ===== src/RawHash/Job/Stored.antt =====
-- The checkpoints of a device in the store that src/HashWorker.cpp keeps, and what settling a job
-- makes of them.
use flashsentry.Base.{
  ℕ, ◌≡◌, refl, sym, ◌∙◌, subst, Bool, true, not, ◌&&◌, Option, none, some, List, [], ◌∷◌, Text,
  codes, arith, find, text_eq, text_eq_iff, Bool-cases, inl, inr, ◌⊎◌,
}
use flashsentry.Platform.{Platform}
use flashsentry.HashCheckpoint.{
  HashCheckpoint, Checkpoints, is_valid, is_for, checkpoint_for, remove_checkpoint,
  upsert_checkpoint,
}
use flashsentry.HashCheckpoint.Store.{
  checkpoint_for-remove_checkpoint, checkpoint_for-upsert_checkpoint,
}
use flashsentry.RawHash
use flashsentry.RawHash.{
  Options, HashResult, Digests, DigestLaws, Device, IsFile, chunk_bytes, failure,
}
use flashsentry.RawHash.Blocks.Sound.{IsSound}
use flashsentry.RawHash.Blocks.Resumed.{Resumes}
use flashsentry.RawHash.Job.{
  Algorithm, HashJob, to_raw_algorithm, algorithm_name, no_checkpoint, or_new, resume_from,
  says_cancelled, settle,
}

same_raw :
    (j i : Algorithm)
    → algorithm_name j ≡ algorithm_name i
    → to_raw_algorithm j ≡ to_raw_algorithm i
unfolding algorithm_name to_raw_algorithm
same_raw j i e = ground arith

raw_named :
    (j i : Algorithm)
    → algorithm_name j ≡ RawHash.algorithm_name (to_raw_algorithm i)
    → to_raw_algorithm j ≡ to_raw_algorithm i
unfolding algorithm_name to_raw_algorithm RawHash.algorithm_name
raw_named j i e = ground arith

find-passes :
    {A : Type 0} (test : A → Bool) (xs : List A) (x : A) → find test xs ≡ some x → test x ≡ true
unfolding find
find-passes test [] x e = cc
find-passes test (y ∷ ys) x e = ground (arith, find-passes test ys x)

-- The algorithm of a valid checkpoint is the job's, by its own name or by that of its digest.
abbrev pub IsNamed : Algorithm → Option HashCheckpoint → Type 0
IsNamed a none = Unit {0}
IsNamed a (some cp) =
    is_valid cp ≡ true
    → (cp.algorithm ≡ algorithm_name a)
      ⊎ (cp.algorithm ≡ RawHash.algorithm_name (to_raw_algorithm a))

named_raw :
    (j a : Algorithm) (cp : HashCheckpoint)
    → IsNamed a (some cp)
    → is_valid cp ≡ true
    → cp.algorithm ≡ algorithm_name j
    → to_raw_algorithm j ≡ to_raw_algorithm a
named_raw j a cp named valid e = elim (named valid) [
  | inl own ↦ same_raw j a (sym e ∙ own)
  | inr raw ↦ raw_named j a (sym e ∙ raw)
]

pub Resumes-resume_from : (cp : Option HashCheckpoint) → Resumes cp (resume_from cp)
unfolding resume_from
Resumes-resume_from none = tt
Resumes-resume_from (some cp) = λ valid. rw valid

module _ {Ctx : Type 0} (g : Digests Ctx) (d : Device) (size : ℕ) (node : Text) where
  -- Every checkpoint of the device for a full scan is sound for its algorithm.
  abbrev pub AllSound : Checkpoints → Type 0
  AllSound s =
      (j : Algorithm) (cp : HashCheckpoint)
      → checkpoint_for node (algorithm_name j) (codes "full") s.checkpoints ≡ some cp
      → IsSound g d.content (to_raw_algorithm j) size (some cp)

  no_checkpoint-IsSound : (a : RawHash.Algorithm) → IsSound g d.content a size (some no_checkpoint)
  no_checkpoint-IsSound a = λ same. record {
    each = tt;
    counted = omega arith;
    some_done = λ e. refl;
    within = omega arith;
    bounded = omega arith;
  }

  pub or_new-IsSound :
      (s : Checkpoints) (j : Algorithm) (o : Option HashCheckpoint)
      → AllSound s
      → checkpoint_for node (algorithm_name j) (codes "full") s.checkpoints ≡ o
      → IsSound g d.content (to_raw_algorithm j) size (some (or_new o))
        × IsNamed j (some (or_new o))
  unfolding is_valid checkpoint_for is_for
  or_new-IsSound s j none all e = (no_checkpoint-IsSound (to_raw_algorithm j), λ v. cc)
  or_new-IsSound s j (some cp) all e =
      let passes = find-passes (is_for node (algorithm_name j) (codes "full")) s.checkpoints cp e in
      let own : text_eq cp.algorithm (algorithm_name j) ≡ true = ground arith in
      (all j cp e, λ v. inl ((text_eq_iff cp.algorithm (algorithm_name j)).0 own))

  module _ (p : Platform) (writable writable' : Bool) where
    removed-AllSound :
        (n a m : Text) (s : Checkpoints)
        → AllSound s
        → AllSound (remove_checkpoint p writable n a m s)
    removed-AllSound n a m s all j cp e =
        let law =
          checkpoint_for-remove_checkpoint p writable node (algorithm_name j) (codes "full") n a m
            s in
        elim (Bool-cases
          (text_eq n node && text_eq a (algorithm_name j) && text_eq m (codes "full"))) [
            | inl own ↦ cc (rw own at law)
            | inr other ↦ all j cp (sym (rw other at law) ∙ e)
          ]

    upserted-AllSound :
        (a : Algorithm) (new : HashCheckpoint) (s : Checkpoints)
        → AllSound s
        → IsNamed a (some new)
        → is_valid new ≡ true
        → IsSound g d.content (to_raw_algorithm a) size (some new)
        → AllSound (upsert_checkpoint p writable writable' new s)
    unfolding is_for
    upserted-AllSound a new s all named valid sound j cp e =
        let law =
          checkpoint_for-upsert_checkpoint p writable writable' node (algorithm_name j)
            (codes "full") new s in
        elim (Bool-cases (is_for node (algorithm_name j) (codes "full") new)) [
          | inr other ↦ all j cp (sym (rw other at law) ∙ e)
          | inl own ↦
              let same : some new ≡ some cp = sym (rw own at law) ∙ e in
              let it : new ≡ cp = cc in
              let key : text_eq new.algorithm (algorithm_name j) ≡ true = ground arith in
              let raw =
                named_raw j a new named valid
                  ((text_eq_iff new.algorithm (algorithm_name j)).0 key) in
              subst (λ x. IsSound g d.content (to_raw_algorithm j) size (some x)) it
                (subst (λ x. IsSound g d.content x size (some new)) (sym raw) sound)
        ]

    pub settle-AllSound :
        (job : HashJob) (r : HashResult) (cp : Option HashCheckpoint) (s : Checkpoints)
        → AllSound s
        → IsNamed job.algorithm cp
        → IsSound g d.content (to_raw_algorithm job.algorithm) size cp
        → AllSound (settle p writable writable' job r cp s)
    unfolding settle
    settle-AllSound job r none s all named sound = all
    settle-AllSound job r (some cp) s all named sound =
        elim (Bool-cases (r.success && (is_valid cp && not (says_cancelled r.error_message)))) [
          | inl ended ↦ rw ended (removed-AllSound job.device_node cp.algorithm cp.scan_mode s all)
          | inr going ↦
              elim (Bool-cases (not r.success && (says_cancelled r.error_message && is_valid cp))) [
                | inr failed ↦ rw (going, failed) all
                | inl stopped ↦
                    let valid : is_valid cp ≡ true = ground arith in
                    rw (going, stopped) (upserted-AllSound job.algorithm cp s all named valid sound)
              ]
        ]
