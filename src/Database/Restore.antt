-- ===== src/Database/Restore.antt =====
-- What restoring a backup does to the table and to the store (src/DatabaseManager.cpp).
use flashsentry.Base.{
  ◌≡◌, refl, ap, ◌∙◌, Bool, true, false, not, ◌&&◌, any, text_eq, Option, none, some, List, [], ◌∷◌,
  ◌++◌, Text, if◌then◌else◌, length, lookup, arith,
}
use mathlib.Core.Option
use flashsentry.Platform.{Platform, PlatformLaws}
use flashsentry.Device.Stored.{stored}
use flashsentry.Policy.Gateway.Interface.{in_process}
use flashsentry.Policy.{PolicySnapshot}
use flashsentry.Policy.Blob.{store_bytes}
use flashsentry.Policy.Blob.RoundTrip.{stored_snapshot}
use flashsentry.Policy.Engine.Files.{World, Env, free, is_none, load_or_create_key}
use flashsentry.Policy.Engine.{done}
use flashsentry.Policy.Engine.Devices.{find_device, IsKeyed}
use flashsentry.Policy.Engine.Reload.{IsReadable, load-written}
use flashsentry.Policy.Gateway.History.{IsReady}
use flashsentry.Database.{Database, D, ◌>>◌, database_loaded, backup_not_installed}
use flashsentry.Database.Backup.{
  Folder, removed_backups, removed_by, touch, create_backup, after_restore, restored,
  restore_from_backup,
}
use flashsentry.Database.Files.{announce_loaded, fail}
use flashsentry.Database.Mirror.{filled, synced-done, filled-Mirrors}
use flashsentry.Database.Restart.{find-stored, stored-IsKeyed}
use flashsentry.Database.Refines.Tracks.{then_do, gated}

-- What a backup returns, and the database behind it.
abbrev backed_up : Env → Folder → Database → World → Option (Text × List Text) × Database
backed_up env f db w =
    if db.initialized && (not (is_none w.store_file) && f.copies)
    then (some (f.dest_path, removed_backups f.backups), record db { last_backup = env.now })
    else (none, db)

-- The database behind a load or a restoration that worked.
abbrev announced : Database → World → Database
announced db w =
    let d = filled db w in
    record d { signals = d.signals ++ database_loaded (length d.devices) ∷ [] }

module _ (p : Platform) (env env' : Env) where
  -- A backup returns and leaves the engine's world alone.
  create_backup-done :
      (f : Folder) (db : Database) (w : World)
      → create_backup p env env' (in_process p) f db w ≡ done (backed_up env f db w) w
  unfolding create_backup
  create_backup-done f db w = ground arith

  after_restore-done :
      (db : Database) (w : World)
      → w.lock ≡ free
      → after_restore p env env' (in_process p) none db w
        ≡ done (true, announced db w) (record w { lock = free })
  unfolding after_restore announce_loaded
  after_restore-done db w h =
      ap (then_do (λ _. announce_loaded p env env' (in_process p))) (synced-done p db w h)

  -- None of the older backups that `create_backup` removes is at a path, where none of those beyond
  -- the newest five is.
  removed_by-backed_up :
      (path : Text) (f : Folder) (db : Database) (w : World)
      → any (text_eq path) (removed_backups f.backups) ≡ false
      → any (text_eq path) (removed_by (backed_up env f db w).0) ≡ false
  unfolding any
  removed_by-backed_up path f db w h =
      elim (db.initialized && (not (is_none w.store_file) && f.copies))
        as (λ b.
          any (text_eq path) (
            removed_by (
              let r : Option (Text × List Text) × Database =
                if b
                then (
                  some (f.dest_path, removed_backups f.backups),
                  record db { last_backup = env.now },
                )
                else (none, db) in
              r.0))
          ≡ false) [ true ↦ h | false ↦ refl ]

  -- A backup that was copied from a store, restored over the gateway in process while the key is
  -- the one that it was signed with: the table has for each id the record of the snapshot that was
  -- backed up, as `stored` has it, where the engine is unlocked, the ids of the snapshot are
  -- distinct and not empty, the snapshot is readable, the store can be opened, removed and copied
  -- to, and the backup is not one of the old ones that `create_backup` removes before the copy.
  pub restore_from_backup-restores :
      (laws : PlatformLaws p) (f : Folder) (path : Text) (s : PolicySnapshot) (db : Database)
      (w : World)
      → w.lock ≡ free
      → IsKeyed s.devices
      → env.store_opens ≡ true
      → IsReadable p s
      → any (text_eq path) (removed_backups f.backups) ≡ false
      → (db' : Database) × (w' : World) × (restore_from_backup p env env'
            (in_process p)
            f
            path
            (some (store_bytes p (load_or_create_key env w.key_file).0 s))
            true
            true
            db
            w
          ≡ done (true, db') w')
        × ((id : Text) → lookup id db'.devices ≡ Option.map stored (find_device id s.devices))
  unfolding restore_from_backup restored
  restore_from_backup-restores laws f path s db w h keyed opens r kept =
      let backup = store_bytes p (load_or_create_key env w.key_file).0 s in
      let db1 = (backed_up env f db w).1 in
      let w1 = record w { store_file = some backup } in
      let w2 = record w1 {
        snapshot = stored_snapshot p s;
        key_file = (load_or_create_key env w.key_file).1;
      } in
      let install =
        touch (λ x. record x { store_file = some backup }) >> restored p env env' (in_process p) in
      let install_if : Bool → D Bool =
        (λ b. if b then install else fail p env env' (in_process p) backup_not_installed) in
      let ready : IsReady w2 = record { unlocked = h; keyed = stored-IsKeyed s.devices keyed } in
      (
        announced db1 w2,
        record w2 { lock = free },
        ap
              (then_do (λ made.
                touch (λ x. record x { store_file = none })
                >> install_if (not (any (text_eq path) (removed_by made)))))
              (create_backup-done f db w)
            ∙ ap (λ gone. install_if (not gone) db1 (record w { store_file = none }))
                (removed_by-backed_up path f db w kept)
            ∙ ap (λ x. then_do (after_restore p env env' (in_process p)) (gated db1 x))
                (load-written p laws env env' w1 s h refl opens r)
            ∙ after_restore-done db1 w2 h,
        λ id. (filled-Mirrors db1 w2 ready).same id ∙ find-stored id s.devices,
      )
