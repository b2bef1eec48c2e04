-- ===== src/Database/Backup.antt =====
-- Backups of the store file (`createBackup` and `restoreFromBackup` of src/DatabaseManager.cpp).
use flashsentry.Base.{
  ℕ, Bool, not, ◌&&◌, Option, none, some, List, [], Text, Bytes, if◌then◌else◌, drop, any, text_eq,
}
use flashsentry.Platform.{Platform}
use flashsentry.Policy.Engine.Files.{World, Env, StoreError, is_none}
use flashsentry.Policy.Engine.{done}
use flashsentry.Policy.Gateway.Interface.{PolicyGateway}
use flashsentry.Database.{
  D, pure, gets, modify, with_gate, ◌>>=◌, ◌>>◌, synced, not_loaded, backup_not_found,
  backup_not_installed,
}
use flashsentry.Database.Files.{announce_loaded, fail}

abbrev pub max_backup_count : ℕ
max_backup_count = 5

-- What the file system answers: the path of the copy, whether the copy works, and the backups beside
-- it, the newest first.
pub record Folder : Type 0 where
  pub dest_path : Text
  pub copies : Bool
  pub backups : List Text

-- The loop that takes the last backup off and removes it while there are too many: those it removes.
unfoldable pub removed_backups : List Text → List Text
removed_backups backups = drop max_backup_count backups

-- The backups that are gone behind a call of `create_backup`.
abbrev pub removed_by : Option (Text × List Text) → List Text
removed_by none = []
removed_by (some (dest_path, removed)) = removed

-- A change of the engine's world that is not a call of the gateway.
abbrev pub touch : (World → World) → D (Unit {0})
touch f db w = done (tt, db) (f w)

abbrev pub store_exists : D Bool
store_exists db w = done (not (is_none w.store_file), db) w

module _ (p : Platform) (env env' : Env) (gate : Option PolicyGateway) where
  -- The path of the backup and the older backups that are removed.
  unfoldable pub create_backup : Folder → D (Option (Text × List Text))
  unfolding removed_backups
  create_backup f =
      let copied =
        (modify (λ db. record db { last_backup = env.now })
          >> pure (some (f.dest_path, removed_backups f.backups))) in
      let copy =
        (store_exists >>= λ exists.
        if not exists then pure none else if not f.copies then pure none else copied) in
      gets (λ db. db.initialized) >>= λ ready. if not ready then pure none else copy

  -- Behind the gateway's `reload`.
  unfoldable pub after_restore : Option StoreError → D Bool
  unfolding fail synced announce_loaded
  after_restore (some e) = fail p env env' gate (not_loaded e)
  after_restore none = synced gate >> announce_loaded p env env' gate

  -- Once the backup is the store file.
  unfoldable pub restored : D Bool
  unfolding after_restore
  restored = elim gate [
    | none ↦ after_restore none
    | some g ↦ with_gate (g.reload_store env env') >>= after_restore
  ]

  -- `backup_path` is the absolute path of a file that is not the store's own, and `backup` what the
  -- file holds. The old store is removed, and the backup copied to its path, which must be free; a
  -- backup that `create_backup` has removed cannot be copied. `removes` and `installs` are what the
  -- file system answers.
  unfoldable pub restore_from_backup : Folder → Text → Option Bytes → Bool → Bool → D Bool
  unfolding create_backup restored fail
  restore_from_backup f backup_path none removes installs = fail p env env' gate backup_not_found
  restore_from_backup f backup_path (some backup) removes installs =
      let install = (touch (λ w. record w { store_file = some backup }) >> restored) in
      create_backup f >>= λ made.
      let found = not (any (text_eq backup_path) (removed_by made)) in
      (touch (λ w. if removes then record w { store_file = none } else w)
        >> (store_exists >>= λ exists.
            if not exists && (installs && found)
            then install
            else fail p env env' gate backup_not_installed))
