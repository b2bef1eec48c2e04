-- ===== src/Policy/Engine/Commits.antt =====
-- Each mutation of the engine (src/policy/PolicyStoreEngine.cpp) as one equation: what it returns and
-- the world that it leaves.
use flashsentry.Base.{
  ◌≡◌, Bool, true, false, not, ◌&&◌, some, [], ◌∷◌, ◌++◌, Text, arith, if◌then◌else◌, any, keep_if,
  is_empty, codes,
}
use flashsentry.Platform.{Platform}
use flashsentry.Device.{DeviceRecord}
use flashsentry.Policy.{PolicySnapshot}
use flashsentry.Policy.Blob.{store_bytes}
use flashsentry.Policy.Engine.Files.{
  World, Env, AuditLine, free, writing, load_or_create_key, append_audit, write_store_file,
}
use flashsentry.Policy.Engine.{
  done, stuck, save, commit_mutation, lock_for_read, unlock, upsert_device, remove_device,
  clear_devices, block_drive, unblock_drive, put_device, drop_device, matches,
}

-- A write of the store works where the file opens and its commit does not fail.
abbrev pub writes : Env → Bool
writes env = env.store_writable && env.store_commits

-- The world behind a commit of the snapshot `s`: the lock is free, the audit log has one more line
-- if it opens, and the store holds the signed snapshot if the write works, and is as it was if not.
abbrev pub committed : Platform → Env → AuditLine → PolicySnapshot → World → World
committed p env line s w = record w {
  snapshot = s;
  lock = free;
  store_file =
      if writes env
      then some (store_bytes p (load_or_create_key env w.key_file).0 s)
      else w.store_file;
  key_file = (load_or_create_key env w.key_file).1;
  audit_log = if env.audit_opens then w.audit_log ++ line ∷ [] else w.audit_log;
}

abbrev pub audit_line : Env → Text → Text → Text → Text → AuditLine
audit_line env actor action target detail = record {
  at = env.now;
  actor = actor;
  action = action;
  target = target;
  detail = detail;
}

module _ (p : Platform) (env : Env) where
  pub commit_mutation-committed :
      (actor action target detail : Text) (w : World)
      → w.lock ≡ free
      → commit_mutation p env actor action target detail w
        ≡ done
            (writes env)
            (committed p env (audit_line env actor action target detail) w.snapshot w)
  unfolding commit_mutation save lock_for_read unlock append_audit write_store_file
  commit_mutation-committed actor action target detail w h = ground arith

  pub upsert_device-committed :
      (r : DeviceRecord) (actor reason : Text) (w : World)
      → w.lock ≡ free
      → upsert_device p env r actor reason w ≡ (
          if is_empty r.unique_id
          then done false w
          else done (writes env) (
              committed p env
                (audit_line env actor (codes "upsert_device") r.unique_id reason)
                (record w.snapshot { devices = put_device r w.snapshot.devices })
                w))
  unfolding upsert_device write_store_file put_device
  upsert_device-committed r actor reason w h = ground arith

  pub remove_device-committed :
      (id actor reason : Text) (w : World)
      → w.lock ≡ free
      → remove_device p env id actor reason w
        ≡ done (writes env) (
            committed p env
              (audit_line env actor (codes "remove_device") id reason)
              (record w.snapshot { devices = drop_device id w.snapshot.devices })
              w)
  unfolding remove_device write_store_file
  remove_device-committed id actor reason w h = ground arith

  pub clear_devices-committed :
      (actor reason : Text) (w : World)
      → w.lock ≡ free
      → clear_devices p env actor reason w
        ≡ done (writes env) (
            committed p env
              (audit_line env actor (codes "clear_devices") (codes "*") reason)
              (record w.snapshot { devices = [] })
              w)
  unfolding clear_devices write_store_file
  clear_devices-committed actor reason w h = ground arith

  pub unblock_drive-committed :
      (drive_key id actor : Text) (w : World)
      → w.lock ≡ free
      → unblock_drive p env drive_key id actor w
        ≡ done (writes env) (
            committed p env
              (audit_line env actor (codes "unblock_drive") id [])
              (record w.snapshot {
                blocks = keep_if (λ e. not (matches drive_key id e)) w.snapshot.blocks;
              })
              w)
  unfolding unblock_drive write_store_file
  unblock_drive-committed drive_key id actor w h = ground arith

  pub block_drive-committed :
      (drive_key id label actor : Text) (w : World)
      → w.lock ≡ free
      → any (matches drive_key id) w.snapshot.blocks ≡ false
      → block_drive p env drive_key id label actor w
        ≡ done (writes env) (
            committed p env
              (audit_line env actor (codes "block_drive") id label)
              (record w.snapshot {
                blocks =
                    w.snapshot.blocks
                    ++ record {
                      drive_key = drive_key;
                      unique_id = id;
                      label = label;
                      blocked_at = env.now;
                    }
                      ∷ [];
              })
              w)
  unfolding block_drive write_store_file
  block_drive-committed drive_key id label actor w h new = ground arith

  -- The deadlock: `commitMutation` takes the lock for reading while the loop holds it for writing.
  pub block_drive-stuck :
      (drive_key id label actor : Text) (w : World)
      → w.lock ≡ free
      → any (matches drive_key id) w.snapshot.blocks ≡ true
      → (w' : World) × (block_drive p env drive_key id label actor w ≡ stuck w')
  unfolding block_drive
  block_drive-stuck drive_key id label actor w h old = (
    append_audit env (audit_line env actor (codes "block_drive") id label)
        (record w { lock = writing }),
    ground arith,
  )
