-- ===== src/Database/Queries.antt =====
-- What src/DatabaseManager.cpp answers from the table: records, hashes, statistics and integrity.
use flashsentry.Base.{
  ℕ, ◌+◌, Bool, false, not, ◌||◌, ◌&&◌, Option, none, some, List, [], ◌∷◌, ◌++◌, Text,
  if◌then◌else◌, is_empty, is_positive, length, Table, lookup,
}
use flashsentry.Platform.{Platform, DateTime}
use flashsentry.Device.{DeviceRecord, DeviceInfo, unique_id_of}
use flashsentry.Policy.Engine.Files.{is_none}
use flashsentry.Database.{
  Database, D, pure, gets, emit, ◌>>=◌, ◌>>◌, hash_mismatch, resolve_stored_id, partition_unique_id,
}

pub record Stats : Type 0 where
  pub total_devices : ℕ
  pub trusted_devices : ℕ
  pub auto_mount_devices : ℕ
  pub last_modified : DateTime
  pub last_backup : DateTime
  pub file_size_bytes : ℕ

-- The texts of `validateIntegrity`.
pub data Issue : Type 0 where
  empty_id : Issue
  trusted_without_hash invalid_first_seen : Text → Issue

-- `m_devices.values()` and `m_devices.keys()`
unfoldable pub values : Table DeviceRecord → List DeviceRecord
values [] = []
values ((k, r) ∷ t) = r ∷ values t

unfoldable pub keys : Table DeviceRecord → List Text
keys [] = []
keys ((k, r) ∷ t) = k ∷ keys t

unfoldable pub get_all_devices : Database → List DeviceRecord
unfolding values
get_all_devices db = values db.devices

unfoldable pub get_devices_where : (DeviceRecord → Bool) → Table DeviceRecord → List DeviceRecord
get_devices_where filter [] = []
get_devices_where filter ((k, r) ∷ t) =
    let rest = get_devices_where filter t in if filter r then r ∷ rest else rest

count_if : (DeviceRecord → Bool) → Table DeviceRecord → ℕ
count_if test [] = 0
count_if test ((k, r) ∷ t) = (if test r then 1 else 0) + count_if test t

-- `file` is the size of the store file, if it exists.
unfoldable pub get_stats : Option ℕ → Database → Stats
unfolding count_if
get_stats file db = record {
  total_devices = length db.devices;
  trusted_devices = count_if (λ r. is_positive r.trust_level) db.devices;
  auto_mount_devices = count_if (λ r. r.auto_mount) db.devices;
  last_modified = db.last_saved;
  last_backup = db.last_backup;
  file_size_bytes = elim file [ none ↦ 0 | some n ↦ n ];
}

issues_of : DeviceRecord → List Issue
unfolding is_empty
issues_of r =
    (if is_empty r.unique_id then empty_id ∷ [] else [])
    ++ ((if is_empty r.hash && is_positive r.trust_level
          then trusted_without_hash r.unique_id ∷ []
          else [])
        ++ (if is_none r.first_seen then invalid_first_seen r.unique_id ∷ [] else []))

unfoldable pub validate_integrity : Table DeviceRecord → List Issue
unfolding issues_of
validate_integrity [] = []
validate_integrity ((k, r) ∷ t) = issues_of r ++ validate_integrity t

-- `m_devices.value(*storedId)` of an id that was resolved, if one was.
find_resolved : Table DeviceRecord → Option Text → Option DeviceRecord
unfolding lookup
find_resolved devices none = none
find_resolved devices (some id) = lookup id devices

module _ (p : Platform) where
  unfoldable pub has_device : Table DeviceRecord → Text → Bool
  unfolding resolve_stored_id
  has_device devices unique_id = not (is_none (resolve_stored_id p devices unique_id))

  unfoldable pub get_device : Table DeviceRecord → Text → Option DeviceRecord
  unfolding resolve_stored_id find_resolved
  get_device devices unique_id = find_resolved devices (resolve_stored_id p devices unique_id)

  -- The overloads on a DeviceInfo.
  unfoldable pub has_device_info : Table DeviceRecord → DeviceInfo → Bool
  unfolding has_device partition_unique_id unique_id_of
  has_device_info devices d =
      has_device devices (partition_unique_id d) || has_device devices (unique_id_of d)

  unfoldable pub get_device_info : Table DeviceRecord → DeviceInfo → Option DeviceRecord
  unfolding get_device partition_unique_id unique_id_of
  get_device_info devices d = elim (get_device devices (unique_id_of d)) [
    | some r ↦ some r
    | none ↦ get_device devices (partition_unique_id d)
  ]

  hash_of : Option DeviceRecord → Option Text
  unfolding is_empty
  hash_of none = none
  hash_of (some r) = if not (is_empty r.hash) then some r.hash else none

  unfoldable pub get_hash : Table DeviceRecord → Text → Option Text
  unfolding hash_of get_device
  get_hash devices unique_id = hash_of (get_device devices unique_id)

  -- The comparison that both `verifyHash` make, with the id that was resolved.
  compare_hash : Text → Option Text → D Bool
  unfolding lookup is_empty
  compare_hash hash none = pure false
  compare_hash hash (some id) = gets (λ db. lookup id db.devices) >>= λ found.
      elim found as (λ _. D Bool) [
        | none ↦ pure false
        | some r ↦
            let matches = p.same_ignoring_case r.hash hash in
            let differ = (emit (hash_mismatch id r.hash hash) >> pure matches) in
            if not matches && not (is_empty r.hash) then differ else pure matches
      ]

  unfoldable pub verify_hash : Text → Text → D Bool
  unfolding compare_hash resolve_stored_id
  verify_hash unique_id hash =
      gets (λ db. resolve_stored_id p db.devices unique_id) >>= compare_hash hash

  unfoldable pub verify_hash_info : DeviceInfo → Text → D Bool
  unfolding compare_hash resolve_stored_id partition_unique_id unique_id_of
  verify_hash_info d hash =
      gets (λ db. elim (resolve_stored_id p db.devices (unique_id_of d)) [
        | some id ↦ some id
        | none ↦ resolve_stored_id p db.devices (partition_unique_id d)
      ])
      >>= compare_hash hash
