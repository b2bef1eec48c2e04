-- ===== src/HashCheckpoint/Store.antt =====
-- Which checkpoint is found behind an upsert or a removal (src/HashCheckpoint.cpp).
use flashsentry.Base.{
  ◌≡◌, refl, ap, ◌∙◌, Bool, true, false, not, ◌&&◌, Option, none, some, List, [], ◌∷◌, ◌++◌, Text,
  arith, if◌then◌else◌, find, find-append, keep_if, text_eq, text_eq_iff,
}
use flashsentry.Platform.{Platform}
use flashsentry.HashCheckpoint.{
  HashCheckpoint, Checkpoints, is_for, checkpoint_for, save_checkpoints, remove_checkpoint,
  upsert_checkpoint,
}

replaced :
    (cp : HashCheckpoint) (b : Bool) (old : Option HashCheckpoint)
    → elim (if b then none else old) as (λ o. Option HashCheckpoint) [
      | none ↦ if b then some cp else none
      | some x ↦ some x
    ]
      ≡ (if b then some cp else old)
replaced cp true old = refl
replaced cp false none = refl
replaced cp false (some x) = refl

module _ (p : Platform) where
  save-checkpoints :
      (writable : Bool) (s : Checkpoints)
      → (save_checkpoints p writable s).checkpoints ≡ s.checkpoints
  unfolding save_checkpoints
  save-checkpoints true s = refl
  save-checkpoints false s = refl

  -- The device, algorithm and scan mode that are asked for are those of the checkpoint.
  find-removed :
      (n a m n' a' m' : Text) (cps : List HashCheckpoint)
      → find (is_for n a m) (keep_if (λ c. not (is_for n' a' m' c)) cps)
        ≡ (if text_eq n' n && text_eq a' a && text_eq m' m then none else find (is_for n a m) cps)
  unfolding find keep_if is_for
  find-removed n a m n' a' m' [] = ground arith
  find-removed n a m n' a' m' (c ∷ cps) = ground (
    arith,
    find-removed n a m n' a' m' cps,
    text_eq_iff c.device_node n,
    text_eq_iff c.device_node n',
    text_eq_iff n' n,
    text_eq_iff c.algorithm a,
    text_eq_iff c.algorithm a',
    text_eq_iff a' a,
    text_eq_iff c.scan_mode m,
    text_eq_iff c.scan_mode m',
    text_eq_iff m' m,
  )

  -- Behind a removal there is no checkpoint for what was removed, and for any other device, algorithm
  -- or scan mode the one that there was: whether the file could be written or not.
  pub checkpoint_for-remove_checkpoint :
      (writable : Bool) (n a m n' a' m' : Text) (s : Checkpoints)
      → checkpoint_for n a m (remove_checkpoint p writable n' a' m' s).checkpoints ≡ (
          if text_eq n' n && text_eq a' a && text_eq m' m
          then none
          else checkpoint_for n a m s.checkpoints)
  unfolding checkpoint_for remove_checkpoint
  checkpoint_for-remove_checkpoint writable n a m n' a' m' s =
      ap (find (is_for n a m)) (save-checkpoints writable _)
      ∙ find-removed n a m n' a' m' s.checkpoints

  -- Behind an upsert the checkpoint for the device, algorithm and scan mode of the new one is the new
  -- one, and for any other it is the one that there was: whether the file could be written or not.
  pub checkpoint_for-upsert_checkpoint :
      (writable writable' : Bool) (n a m : Text) (cp : HashCheckpoint) (s : Checkpoints)
      → checkpoint_for n a m (upsert_checkpoint p writable writable' cp s).checkpoints
        ≡ (if is_for n a m cp then some cp else checkpoint_for n a m s.checkpoints)
  unfolding checkpoint_for upsert_checkpoint remove_checkpoint is_for
  checkpoint_for-upsert_checkpoint writable writable' n a m cp s =
      let kept =
        keep_if (λ c. not (is_for cp.device_node cp.algorithm cp.scan_mode c)) s.checkpoints in
      ap (find (is_for n a m))
        (save-checkpoints writable' _ ∙ ap (λ cps. cps ++ cp ∷ []) (save-checkpoints writable _))
      ∙ find-append (is_for n a m) kept (cp ∷ [])
      ∙ rw (find-removed n a m cp.device_node cp.algorithm cp.scan_mode s.checkpoints)
          (unfold find is_for in replaced cp (is_for n a m cp) (checkpoint_for n a m s.checkpoints))
