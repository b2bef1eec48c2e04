-- ===== src/Database.antt =====
-- src/DatabaseManager.cpp and include/DatabaseManager.h: the table of devices that the window reads,
-- filled from the policy gateway. `m_lock` is held by one thread at a time and never taken twice by
-- one, so it is left out; the engine's lock is in World.
pub mod Queries
pub mod Changes
pub mod Files
pub mod Mirror
pub mod Refines
pub mod Legacy
pub mod Restart
pub mod Unwritten
pub mod Backup
pub mod Restore
mod Tests
use flashsentry.Base.{
  ℕ, zero, suc, ◌+◌, Bool, true, false, not, ◌||◌, ◌&&◌, Option, none, some, List, [], ◌∷◌, ◌++◌,
  Text, if◌then◌else◌, ◌==◌, length, take, drop, codes, starts_with, last_index_of, Table, lookup,
  insert,
}
use flashsentry.Platform.{Platform, DateTime}
use flashsentry.Device.{DeviceRecord, DeviceInfo, unique_id_of}
use flashsentry.Policy.Engine.Files.{World, StoreError, is_none}
use flashsentry.Policy.Engine.{M, Outcome, done, stuck}
use flashsentry.Policy.Gateway.Interface.{PolicyGateway}

pub data DatabaseError : Type 0 where
  gateway_unavailable not_initialized backup_not_found backup_not_installed : DatabaseError
  not_loaded : StoreError → DatabaseError

-- The signals, in the order in which they are emitted.
pub data Signal : Type 0 where
  database_error : DatabaseError → Signal
  database_loaded : ℕ → Signal
  database_saved : Signal
  device_added : Text → Signal
  device_updated : Text → Signal
  device_removed : Text → Signal
  hash_mismatch : Text → Text → Text → Signal

pub record Database : Type 0 where
  pub devices : Table DeviceRecord
  pub initialized : Bool
  pub modified : Bool
  pub auto_save : Bool
  pub last_saved : DateTime
  pub last_backup : DateTime
  pub signals : List Signal

-- A method: on the database and, through the gateway, on the engine's world.
abbrev pub D {ℓ} : Type ℓ → Type ℓ
D A = Database → World → Outcome (A × Database)

infixl 5 ◌>>=◌ ◌>>◌
abbrev pub ◌>>=◌ {ℓ κ} : {A : Type ℓ} {B : Type κ} → D A → (A → D B) → D B
◌>>=◌ m f db w = elim (m db w) [ done (a, db') w' ↦ f a db' w' | stuck w' ↦ stuck w' ]

abbrev pub ◌>>◌ {ℓ} : {B : Type ℓ} → D (Unit {0}) → D B → D B
m >> k = m >>= λ _. k

abbrev pub pure {ℓ} : {A : Type ℓ} → A → D A
pure a db w = done (a, db) w

abbrev pub gets {ℓ} : {A : Type ℓ} → (Database → A) → D A
gets f db w = done (f db, db) w

abbrev pub modify : (Database → Database) → D (Unit {0})
modify f db w = done (tt, f db) w

abbrev pub emit : Signal → D (Unit {0})
emit s = modify (λ db. record db { signals = db.signals ++ s ∷ [] })

-- A call of the gateway.
abbrev pub with_gate {ℓ} : {A : Type ℓ} → M A → D A
with_gate m db w = elim (m w) [ done a w' ↦ done (a, db) w' | stuck w' ↦ stuck w' ]

abbrev pub has_key : Text → Table DeviceRecord → Bool
has_key id t = not (is_none (lookup id t))

-- `DeviceInfo::partitionUniqueId`: the id, and the device node behind its last slash.
unfoldable pub last_section : Text → Text
last_section s = elim (last_index_of s b'/') [ none ↦ s | some i ↦ drop (i + 1) s ]

unfoldable pub partition_unique_id : DeviceInfo → Text
unfolding unique_id_of last_section
partition_unique_id d = unique_id_of d ++ (codes "_" ++ last_section d.device_node)

module _ (p : Platform) where
  -- The two tests on the text behind the last underscore.
  unfoldable pub is_block_suffix : Text → Bool
  unfolding starts_with
  is_block_suffix tail =
      starts_with tail (codes "sd")
      || starts_with tail (codes "mmcblk")
      || starts_with tail (codes "nvme")

  unfoldable pub is_drive_suffix : Text → Bool
  is_drive_suffix (c ∷ []) = p.is_letter c
  is_drive_suffix _ = false

  -- What follows where the id itself is not a key; `contains` is the table's.
  unfoldable pub legacy_id : (Text → Bool) → Text → Option ℕ → Option Text
  unfolding is_block_suffix is_drive_suffix
  legacy_id contains unique_id none = none
  legacy_id contains unique_id (some zero) = none
  legacy_id contains unique_id (some (suc i)) =
      let tail = drop (suc i + 1) unique_id in
      let legacy = take (suc i) unique_id in
      if (is_block_suffix tail || is_drive_suffix tail) && contains legacy
      then some legacy
      else none

  unfoldable pub resolve_id : (Text → Bool) → Text → Option Text
  unfolding legacy_id last_index_of
  resolve_id contains unique_id =
      if contains unique_id
      then some unique_id
      else legacy_id contains unique_id (last_index_of unique_id b'_')

  -- `resolveStoredId`
  unfoldable pub resolve_stored_id : Table DeviceRecord → Text → Option Text
  unfolding resolve_id
  resolve_stored_id devices unique_id = resolve_id (λ id. has_key id devices) unique_id

-- The loop of `syncFromPolicyGateway`.
unfoldable pub insert_all : List DeviceRecord → Table DeviceRecord → Table DeviceRecord
unfolding insert
insert_all [] devices = devices
insert_all (r ∷ rs) devices = insert_all rs (insert r.unique_id r devices)

-- `gate` is what `PolicyServiceLocator::gateway` gives.
unfoldable pub sync_from_policy_gateway : Option PolicyGateway → D (Unit {0})
unfolding insert_all
sync_from_policy_gateway gate = elim gate [
  | none ↦ pure tt
  | some g ↦ with_gate g.snapshot_now >>= λ snap.
      modify (λ db. record db { devices = insert_all snap.devices [] })
]

-- The block that ends most methods.
unfoldable pub synced : Option PolicyGateway → D (Unit {0})
unfolding sync_from_policy_gateway
synced gate = do sync_from_policy_gateway gate; modify (λ db. record db { modified = false })
