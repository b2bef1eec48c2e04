-- ===== src/Database/Tests.antt =====
-- The theorems on the database (src/DatabaseManager.cpp) at a concrete table.
use mathlib.Core.Option
use flashsentry.Base.{
  ◌≡◌, refl, true, false, none, some, [], ◌∷◌, codes, pos, lookup, List, is_empty, Text, text_eq,
  find, any, last_index_of,
}
use flashsentry.Device.{DeviceInfo, default_record, unique_id_of}
use flashsentry.Device.Stored.{stored}
use flashsentry.Policy.Gateway.Interface.{in_process}
use flashsentry.Policy.Blob.{store_bytes}
use flashsentry.Policy.Engine.Files.{World, Env, load_or_create_key}
use flashsentry.Policy.Engine.{done}
use flashsentry.Policy.Engine.Devices.{find_device}
use flashsentry.Policy.Gateway.{upsert}
use flashsentry.Policy.Tests.{qt, qt_laws, stick, stick-IsDecodable, only_stick, only_stick_small}
use flashsentry.Policy.Tests.Engine.{answers, start, start-IsReady, upserted, upsert_returns}
use flashsentry.Database.{
  Database, synced, last_section, partition_unique_id, resolve_id, is_block_suffix,
}
use flashsentry.Database.Changes
use flashsentry.Database.Files.{initialize}
use flashsentry.Database.Backup.{Folder, removed_backups, restore_from_backup}
use flashsentry.Database.Legacy.{HasNode, resolve_id-partition_unique_id}
use flashsentry.Database.Mirror.{Mirrors}
use flashsentry.Database.Refines.{Change, add, trust}
use flashsentry.Database.Refines.Sequence.{run_changes, replay, run_changes-Tracks}
use flashsentry.Database.Refines.Sound.{view_of}
use flashsentry.Database.Refines.Tracks.{Tracks}
use flashsentry.Database.Restart.{initialize-call}
use flashsentry.Database.Restore.{restore_from_backup-restores}
use flashsentry.Database.Unwritten.{add_device-unwritten}

abbrev empty : Database
empty = record {
  devices = [];
  initialized = true;
  modified = false;
  auto_save = true;
  last_saved = none;
  last_backup = none;
  signals = [];
}

empty-Mirrors : Mirrors empty start
unfolding lookup find
empty-Mirrors = record { same = λ id. refl }

-- The stick is added and then trusted.
abbrev calls : List (Env × Change)
calls = (answers, add stick) ∷ (answers, trust (codes "S1") (pos 2)) ∷ []

run_changes-Tracks_example :
    Tracks (run_changes qt calls empty start) (replay qt calls (view_of empty))
run_changes-Tracks_example =
    run_changes-Tracks qt calls empty start (refl, (refl, tt)) start-IsReady empty-Mirrors

initialize-call_example :
    (db' : Database) × (w'' : World) × (initialize qt answers answers (in_process qt) empty upserted
      ≡ done (true, db') w'')
    × ((id : Text) → lookup id db'.devices ≡ Option.map stored (find_device id (stick ∷ [])))
initialize-call_example =
    initialize-call qt qt_laws answers answers answers [] (upsert stick []) start upserted empty
      start-IsReady upsert_returns refl refl refl refl refl
      (record { devices = (stick-IsDecodable, tt); blocks = tt; size = only_stick_small })

abbrev folder : Folder
folder = record { dest_path = codes "b"; copies = true; backups = codes "a" ∷ [] }

abbrev full_folder : Folder
full_folder = record {
  dest_path = codes "a";
  copies = true;
  backups = codes "a" ∷ codes "b" ∷ codes "c" ∷ codes "d" ∷ codes "e" ∷ codes "f" ∷ [];
}

-- The backup that is restored is the newest.
restore_from_backup-restores_example :
    (db' : Database) × (w' : World) × (restore_from_backup qt answers answers
        (in_process qt)
        folder
        (codes "a")
        (some (store_bytes qt (load_or_create_key answers none).0 only_stick))
        true
        true
        empty
        start
      ≡ done (true, db') w')
    × ((id : Text) → lookup id db'.devices ≡ Option.map stored (find_device id (stick ∷ [])))
unfolding is_empty any removed_backups
restore_from_backup-restores_example =
    restore_from_backup-restores qt answers answers qt_laws folder (codes "a") only_stick empty
      start refl (refl, refl, tt) refl
      (record { devices = (stick-IsDecodable, tt); blocks = tt; size = only_stick_small }) refl

abbrev full_disk : Env
full_disk = record answers { store_commits = false }

add_device-unwritten_example :
    (w' : World) × (Changes.add_device qt full_disk (in_process qt) stick empty start
      ≡ done (false, empty) w')
    × (w'.store_file ≡ none)
    × (find_device (codes "S1") w'.snapshot.devices ≡ some stick)
    × (db' : Database) × (w'' : World) × (synced (in_process qt) empty w' ≡ done (tt, db') w'')
    × (lookup (codes "S1") db'.devices ≡ some stick)
unfolding lookup is_empty
add_device-unwritten_example =
    add_device-unwritten qt full_disk refl empty start start-IsReady stick refl refl

-- The stick is in the table and in the engine.
abbrev with_stick : Database
with_stick = record empty { devices = (codes "S1", stick) ∷ [] }

-- A drive behind `/dev/sdb1`.
abbrev sdb1 : DeviceInfo
sdb1 = record default_record.last_known_info {
  device_node = codes "/dev/sdb1";
  vendor = codes "V";
  model = codes "M";
}

sdb1-HasNode : HasNode qt sdb1
unfolding is_block_suffix last_section last_index_of
sdb1-HasNode = record { known = refl; whole = refl }

resolve_id-partition_unique_id_example :
    resolve_id qt (λ id. text_eq id (codes "V_M")) (partition_unique_id sdb1) ≡ some (codes "V_M")
unfolding text_eq partition_unique_id unique_id_of is_empty last_section
resolve_id-partition_unique_id_example =
    resolve_id-partition_unique_id qt (λ id. text_eq id (codes "V_M")) sdb1 sdb1-HasNode
