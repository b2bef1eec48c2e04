-- ===== src/Policy/Drives.antt =====
-- src/BlockedDriveStore.cpp: the list of blocked drives that the window keeps, over the gateway.
use flashsentry.Base.{
  ◌≡◌, refl, ap, Bool, true, false, not, Option, none, some, ◌&&◌, List, [], ◌∷◌, ◌++◌, Text,
  if◌then◌else◌, Bool-cases, inl, inr, ◌∙◌, sym, is_empty, codes, keep_if,
}
use flashsentry.Platform.{Platform}
use flashsentry.Policy.{BlockedDriveEntry, PolicySnapshot}
use flashsentry.Policy.Engine.Files.{World, Env, free}
use flashsentry.Policy.Engine.{Outcome, stuck, M, done, pure, ◌>>=◌, current_snapshot, matches}
use flashsentry.Policy.Engine.Commits.{
  committed, audit_line, block_drive-committed, unblock_drive-committed,
}
use flashsentry.Policy.Engine.Blocks.{
  is_blocked, is_blocked-any, is_blocked-append, is_blocked-keep_if,
}
use flashsentry.Policy.Gateway.{block, unblock, call}
use flashsentry.Policy.Gateway.Interface.{PolicyGateway, in_process}

-- `refreshFromGateway`, whose loop copies the list; its argument is what
-- `PolicyServiceLocator::gateway` gives.
unfoldable pub refresh_from_gateway : Option PolicyGateway → M (List BlockedDriveEntry)
refresh_from_gateway none = pure []
refresh_from_gateway (some g) = g.snapshot_now >>= λ s. pure s.blocks

-- The set of the keys that are not empty, and of the ids, as the list of what the loop inserts.
unfoldable pub blocked_drive_keys : List BlockedDriveEntry → List Text
unfolding is_empty
blocked_drive_keys [] = []
blocked_drive_keys (e ∷ es) =
    let rest = blocked_drive_keys es in
    if not (is_empty e.drive_key) then e.drive_key ∷ rest else rest

unfoldable pub blocked_unique_ids : List BlockedDriveEntry → List Text
unfolding is_empty
blocked_unique_ids [] = []
blocked_unique_ids (e ∷ es) =
    let rest = blocked_unique_ids es in
    if not (is_empty e.unique_id) then e.unique_id ∷ rest else rest

module _ (env : Env) (gate : Option PolicyGateway) where
  -- `block` and `unblock`, on the entries that the window keeps; the entries that it keeps next.
  unfoldable pub block_entry :
      Text → Text → Text → List BlockedDriveEntry → M (List BlockedDriveEntry)
  unfolding refresh_from_gateway is_blocked
  block_entry drive_key unique_id label entries =
      let blocked : M (List BlockedDriveEntry) = elim gate [
        | none ↦ pure entries
        | some g ↦ g.mutate env (codes "ui") (block drive_key unique_id label) >>= λ _.
            refresh_from_gateway (some g)
      ] in
      if is_blocked drive_key unique_id entries then pure entries else blocked

  unfoldable pub unblock_entry : Text → Text → List BlockedDriveEntry → M (List BlockedDriveEntry)
  unfolding refresh_from_gateway
  unblock_entry drive_key unique_id entries = elim gate [
    | none ↦ pure entries
    | some g ↦ g.mutate env (codes "ui") (unblock drive_key unique_id) >>= λ _.
        refresh_from_gateway (some g)
  ]

-- What follows the gateway's call in both.
abbrev refreshed : Platform → Outcome Bool → Outcome (List BlockedDriveEntry)
refreshed p (done b w) = refresh_from_gateway (in_process p) w
refreshed p (stuck w) = stuck w

-- The call returned, the window shows the engine's list, and the answer to `isBlocked` is this.
pub record Answers (drive_key unique_id : Text) (answer : Bool) (m : M (List BlockedDriveEntry))
    (w : World) : Type 0 where
  pub entries : List BlockedDriveEntry
  pub after : World
  pub returns : m w ≡ done entries after
  pub mirrors : entries ≡ after.snapshot.blocks
  pub unlocked : after.lock ≡ free
  pub answers : is_blocked drive_key unique_id entries ≡ answer

module _ (p : Platform) (env : Env) where
  -- While the window's list is the engine's, over the gateway in process, blocking a drive returns,
  -- whether the drive is blocked already or not: `block` does not make the call that deadlocks.
  -- Behind it the drive is blocked, if its key or its id is not empty, and the lists are the same.
  pub block_entry-Answers :
      (drive_key unique_id label : Text) (w : World)
      → w.lock ≡ free
      → (is_empty drive_key && is_empty unique_id) ≡ false
      → Answers drive_key unique_id true
          (block_entry env (in_process p) drive_key unique_id label w.snapshot.blocks)
          w
  unfolding block_entry call refresh_from_gateway current_snapshot
  block_entry-Answers drive_key unique_id label w l n =
      elim (Bool-cases (is_blocked drive_key unique_id w.snapshot.blocks)) [
        | inl old ↦ record {
          entries = w.snapshot.blocks;
          after = w;
          returns = rw old;
          mirrors = refl;
          unlocked = l;
          answers = old;
        }
        | inr new ↦
            let absent = sym (is_blocked-any drive_key unique_id w.snapshot.blocks) ∙ new in
            let s : PolicySnapshot = record w.snapshot {
              blocks =
                  w.snapshot.blocks
                  ++ record {
                    drive_key = drive_key;
                    unique_id = unique_id;
                    label = label;
                    blocked_at = env.now;
                  }
                    ∷ [];
            } in
            record {
              entries = s.blocks;
              after =
                  committed p env
                    (audit_line env (codes "ui") (codes "block_drive") unique_id label) s w;
              returns = rw new (
                  ap (refreshed p) (
                    block_drive-committed p env drive_key unique_id label (codes "ui") w l absent));
              mirrors = refl;
              unlocked = refl;
              answers = is_blocked-append drive_key unique_id label env.now w.snapshot.blocks n;
            }
      ]

  -- Unblocking a drive returns, and behind it the drive is not blocked.
  pub unblock_entry-Answers :
      (drive_key unique_id : Text) (entries : List BlockedDriveEntry) (w : World)
      → w.lock ≡ free
      → Answers drive_key unique_id false
          (unblock_entry env (in_process p) drive_key unique_id entries)
          w
  unfolding unblock_entry call refresh_from_gateway current_snapshot
  unblock_entry-Answers drive_key unique_id entries w l =
      let s : PolicySnapshot = record w.snapshot {
        blocks = keep_if (λ e. not (matches drive_key unique_id e)) w.snapshot.blocks;
      } in
      record {
        entries = s.blocks;
        after =
            committed p env (audit_line env (codes "ui") (codes "unblock_drive") unique_id []) s w;
        returns =
            ap (refreshed p) (unblock_drive-committed p env drive_key unique_id (codes "ui") w l);
        mirrors = refl;
        unlocked = refl;
        answers = is_blocked-keep_if drive_key unique_id w.snapshot.blocks;
      }
