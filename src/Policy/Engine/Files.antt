-- ===== src/Policy/Engine/Files.antt =====
-- The files of the engine: the key (`PolicyBlobCodec::loadOrCreateKey`), the store, the legacy JSON
-- and the audit log (src/policy/PolicyAudit.cpp).
use flashsentry.Base.{
  Bool, true, false, not, ◌||◌, Option, none, some, List, [], ◌∷◌, ◌++◌, Text, Bytes, leb,
  if◌then◌else◌, length, take, codes,
}
use flashsentry.Json.{Items, nil, cons, value, to_items, to_fields, is_object}
use flashsentry.Platform.{Platform, DateTime}
use flashsentry.Device.{DeviceRecord}
use flashsentry.Device.Codec.{device_from_json}
use flashsentry.Policy.{BlockedDriveEntry, PolicySnapshot}
use flashsentry.Policy.Blob.{
  DecodeError, Decoded, store_bytes, decode, file_header_error, push_device, block_from_json,
}

pub data LockState : Type 0 where
  free reading writing : LockState

pub record AuditLine : Type 0 where
  pub at : DateTime
  pub actor : Text
  pub action : Text
  pub target : Text
  pub detail : Text

-- The engine's members and the files. A file that does not exist is `none`.
pub record World : Type 0 where
  pub snapshot : PolicySnapshot
  pub lock : LockState
  pub store_file : Option Bytes
  pub key_file : Option Bytes
  pub legacy_devices : Option Bytes
  pub legacy_blocks : Option Bytes
  pub audit_log : List AuditLine

-- What the system answers during one call: the time, the random key, and which file operations work.
pub record Env : Type 0 where
  pub now : DateTime
  pub fresh_key : Bytes
  pub key_opens : Bool
  pub key_writable : Bool
  pub store_opens : Bool
  pub store_writable : Bool
  pub store_commits : Bool
  pub legacy_opens : Bool
  pub legacy_renames : Bool
  pub audit_opens : Bool

pub data StoreError : Type 0 where
  cannot_open commit_failed not_found : StoreError
  bad_store : DecodeError → StoreError

abbrev pub is_none {ℓ} : {A : Type ℓ} → Option A → Bool
is_none none = true
is_none (some a) = false

abbrev pub empty_snapshot : PolicySnapshot
empty_snapshot = record { devices = []; blocks = [] }

abbrev pub opened : Bool → Option Bytes → Option Bytes
opened b file = if b then file else none

-- The key, and the key file behind the call.
create_key : Env → Option Bytes → Bytes × Option Bytes
create_key env file = (env.fresh_key, if env.key_writable then some env.fresh_key else file)

use_key : Env → Option Bytes → Option Bytes → Bytes × Option Bytes
unfolding create_key
use_key env file none = create_key env file
use_key env file (some key) =
    if leb 32 (length key) then (take 32 key, file) else create_key env file

unfoldable pub load_or_create_key : Env → Option Bytes → Bytes × Option Bytes
unfolding use_key
load_or_create_key env file = use_key env file (opened env.key_opens file)

-- `PolicyAudit::append`
unfoldable pub append_audit : Env → AuditLine → World → World
append_audit env line w =
    if env.audit_opens then record w { audit_log = w.audit_log ++ line ∷ [] } else w

module _ (p : Platform) where
  unfoldable pub write_store_file : Env → PolicySnapshot → World → Option StoreError × World
  write_store_file env s w =
      let (key, key_file) = load_or_create_key env w.key_file in
      let w' : World = record w { key_file = key_file } in
      if not env.store_writable
      then (some cannot_open, w')
      else if not env.store_commits
      then (some commit_failed, w')
      else (none, record w' { store_file = some (store_bytes p key s) })

  -- `decode` asks for the key where the header has passed.
  decode_file : Env → Bytes → World → Decoded × World
  decode_file env file w = elim (file_header_error file) [
    | some e ↦ (record { error = some e; out = w.snapshot }, w)
    | none ↦
        let (key, key_file) = load_or_create_key env w.key_file in
        (decode p key file w.snapshot, record w { key_file = key_file })
  ]

  after_decode : Decoded × World → Option StoreError × World
  after_decode (d, w) =
      (elim d.error [ none ↦ none | some e ↦ some (bad_store e) ], record w { snapshot = d.out })

  read_opened : Env → Option Bytes → World → Option StoreError × World
  unfolding decode_file after_decode
  read_opened env none w = (some not_found, w)
  read_opened env (some file) w = after_decode (decode_file env file w)

  unfoldable pub read_store_file : Env → World → Option StoreError × World
  unfolding read_opened
  read_store_file env w = read_opened env (opened env.store_opens w.store_file) w

  -- The loops of `migrateLegacyJsonIfNeeded`.
  legacy_device_loop : Items → List DeviceRecord → List DeviceRecord
  unfolding push_device is_object to_fields
  legacy_device_loop nil out = out
  legacy_device_loop (cons v vs) out =
      legacy_device_loop vs
        (if is_object v then push_device p out (device_from_json p (to_fields v)) else out)

  legacy_block_loop : Items → List BlockedDriveEntry → List BlockedDriveEntry
  unfolding is_object to_fields
  legacy_block_loop nil out = out
  legacy_block_loop (cons v vs) out =
      legacy_block_loop vs
        (if is_object v then out ++ block_from_json p (to_fields v) ∷ [] else out)

  unfoldable pub devices_of : Bytes → List DeviceRecord
  unfolding legacy_device_loop value to_items to_fields
  devices_of file =
      legacy_device_loop (to_items (value "devices" (to_fields (p.parse_json file)))) []

  unfoldable pub blocks_of : Bytes → List BlockedDriveEntry
  unfolding legacy_block_loop value to_items to_fields
  blocks_of file = legacy_block_loop (to_items (value "entries" (to_fields (p.parse_json file)))) []

  -- Each of the two files: what it adds, whether it was migrated, and the world behind its renaming.
  migrate_devices : Env → World → Option Bytes → List DeviceRecord × Bool × World
  unfolding devices_of
  migrate_devices env w none = ([], false, w)
  migrate_devices env w (some file) =
      (devices_of file, true, if env.legacy_renames then record w { legacy_devices = none } else w)

  migrate_blocks : Env → World → Option Bytes → List BlockedDriveEntry × Bool × World
  unfolding blocks_of
  migrate_blocks env w none = ([], false, w)
  migrate_blocks env w (some file) =
      (blocks_of file, true, if env.legacy_renames then record w { legacy_blocks = none } else w)

  unfoldable pub migrate_legacy_json : Env → World → Option StoreError × World
  unfolding migrate_devices migrate_blocks append_audit write_store_file
  migrate_legacy_json env w =
      let (devices, migrated, w') =
        migrate_devices env w (opened env.legacy_opens w.legacy_devices) in
      let (blocks, migrated', w'') =
        migrate_blocks env w' (opened env.legacy_opens w'.legacy_blocks) in
      let snap : PolicySnapshot = record { devices = devices; blocks = blocks } in
      if not (migrated || migrated')
      then (none, w'')
      else write_store_file env snap (
          append_audit env
            (record {
              at = env.now;
              actor = codes "engine";
              action = codes "migrate";
              target = codes "*";
              detail = codes "Imported legacy JSON stores";
            })
            (record w'' { snapshot = snap }))
