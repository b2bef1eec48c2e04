-- ===== src/Policy/Engine.antt =====
-- src/policy/PolicyStoreEngine.cpp, src/policy/PolicyAudit.cpp and `PolicyBlobCodec::loadOrCreateKey`:
-- the engine that owns the snapshot, over the files that it reads and writes.
pub mod Files
pub mod Commits
pub mod Devices
pub mod Blocks
pub mod Reload
use flashsentry.Base.{
  ℕ, Bool, true, false, not, ◌&&◌, ◌||◌, Option, none, some, List, [], ◌∷◌, ◌++◌, Text,
  if◌then◌else◌, any, keep_if, text_eq, is_empty, codes,
}
use flashsentry.Platform.{Platform, DateTime}
use flashsentry.Device.{DeviceRecord}
use flashsentry.Policy.{BlockedDriveEntry, PolicySnapshot}
use Files.{
  World, Env, StoreError, LockState, free, reading, writing, AuditLine, append_audit,
  write_store_file, read_store_file, migrate_legacy_json, empty_snapshot, is_none,
}

-- A method returns, or waits for the lock for ever: the thread that would free it is its own.
pub data Outcome {ℓ} (A : Type ℓ) : Type ℓ where
  done : A → World → Outcome A
  stuck : World → Outcome A

abbrev pub M {ℓ} : Type ℓ → Type ℓ
M A = World → Outcome A

infixl 5 ◌>>=◌ ◌>>◌
abbrev pub ◌>>=◌ {ℓ κ} : {A : Type ℓ} {B : Type κ} → M A → (A → M B) → M B
◌>>=◌ m f w = elim (m w) [ done a w' ↦ f a w' | stuck w' ↦ stuck w' ]

abbrev pub ◌>>◌ {ℓ} : {B : Type ℓ} → M (Unit {0}) → M B → M B
m >> k = m >>= λ _. k

abbrev pub pure {ℓ} : {A : Type ℓ} → A → M A
pure a w = done a w

abbrev gets {ℓ} : {A : Type ℓ} → (World → A) → M A
gets f w = done (f w) w

abbrev modify : (World → World) → M (Unit {0})
modify f w = done tt (f w)

abbrev lifted {ℓ} : {A : Type ℓ} → A × World → M A
lifted (a, w') w = done a w'

-- `m_lock` is a QReadWriteLock, which is not recursive.
unfoldable pub lock_for_write : M (Unit {0})
lock_for_write w = elim w.lock [
  | free ↦ done tt (record w { lock = writing })
  | reading ↦ stuck w
  | writing ↦ stuck w
]

unfoldable pub lock_for_read : M (Unit {0})
lock_for_read w = elim w.lock [
  | free ↦ done tt (record w { lock = reading })
  | reading ↦ done tt w
  | writing ↦ stuck w
]

unfoldable pub unlock : M (Unit {0})
unlock w = done tt (record w { lock = free })

-- The loop of `upsertDevice`.
unfoldable pub put_device : DeviceRecord → List DeviceRecord → List DeviceRecord
unfolding text_eq
put_device r [] = r ∷ []
put_device r (d ∷ ds) =
    let rest = put_device r ds in if text_eq d.unique_id r.unique_id then r ∷ ds else d ∷ rest

unfoldable pub drop_device : Text → List DeviceRecord → List DeviceRecord
unfolding text_eq keep_if
drop_device id ds = keep_if (λ d. not (text_eq d.unique_id id)) ds

-- The test of `blockDrive` and `unblockDrive`.
unfoldable pub matches : Text → Text → BlockedDriveEntry → Bool
unfolding text_eq is_empty
matches drive_key unique_id e =
    not (is_empty drive_key) && text_eq e.drive_key drive_key
    || not (is_empty unique_id) && text_eq e.unique_id unique_id

-- `PolicyStoreEngine::snapshot`
unfoldable pub current_snapshot : M PolicySnapshot
unfolding lock_for_read unlock
current_snapshot = do lock_for_read; s ← gets (λ w. w.snapshot); unlock; pure s

-- `PolicyStoreEngine::setSnapshot`
unfoldable pub set_snapshot : PolicySnapshot → M (Unit {0})
unfolding lock_for_write unlock
set_snapshot s = do lock_for_write; modify (λ w. record w { snapshot = s }); unlock

module _ (p : Platform) where
  unfoldable pub save : Env → M (Option StoreError)
  unfolding lock_for_read unlock write_store_file
  save env = do
    lock_for_read
    r ← λ w. lifted (write_store_file p env w.snapshot w) w
    unlock
    pure r

  unfoldable pub commit_mutation : Env → Text → Text → Text → Text → M Bool
  unfolding append_audit save
  commit_mutation env actor action target detail = do
    modify (
        append_audit env (record {
          at = env.now;
          actor = actor;
          action = action;
          target = target;
          detail = detail;
        }))
    err ← save env
    pure (is_none err)

  unfoldable pub upsert_device : Env → DeviceRecord → Text → Text → M Bool
  unfolding lock_for_write unlock put_device commit_mutation is_empty
  upsert_device env r actor reason = if is_empty r.unique_id then pure false else do
    lock_for_write
    modify (λ w. record w {
      snapshot = record w.snapshot { devices = put_device r w.snapshot.devices };
    })
    unlock
    commit_mutation env actor (codes "upsert_device") r.unique_id reason

  unfoldable pub remove_device : Env → Text → Text → Text → M Bool
  unfolding lock_for_write unlock drop_device commit_mutation
  remove_device env unique_id actor reason = do
    lock_for_write
    modify (λ w. record w {
      snapshot = record w.snapshot { devices = drop_device unique_id w.snapshot.devices };
    })
    unlock
    commit_mutation env actor (codes "remove_device") unique_id reason

  unfoldable pub clear_devices : Env → Text → Text → M Bool
  unfolding lock_for_write unlock commit_mutation
  clear_devices env actor reason = do
    lock_for_write
    modify (λ w. record w { snapshot = record w.snapshot { devices = [] } })
    unlock
    commit_mutation env actor (codes "clear_devices") (codes "*") reason

  append_block : Env → Text → Text → Text → World → World
  append_block env drive_key unique_id label w = record w {
    snapshot = record w.snapshot {
      blocks =
          w.snapshot.blocks
          ++ record {
            drive_key = drive_key;
            unique_id = unique_id;
            label = label;
            blocked_at = env.now;
          }
            ∷ [];
    };
  }

  -- The lock is freed where its block ends: behind the `return` inside the loop.
  unfoldable pub block_drive : Env → Text → Text → Text → Text → M Bool
  unfolding lock_for_write unlock matches any commit_mutation append_block
  block_drive env drive_key unique_id label actor = do
    lock_for_write
    blocks ← gets (λ w. w.snapshot.blocks)
    let commit = commit_mutation env actor (codes "block_drive") unique_id label
    let again = do r ← commit; unlock; pure r
    let first = do modify (append_block env drive_key unique_id label); unlock; commit
    if any (matches drive_key unique_id) blocks then again else first

  unfoldable pub unblock_drive : Env → Text → Text → Text → M Bool
  unfolding lock_for_write unlock matches keep_if commit_mutation
  unblock_drive env drive_key unique_id actor = do
    lock_for_write
    modify (λ w. record w {
      snapshot = record w.snapshot {
        blocks = keep_if (λ e. not (matches drive_key unique_id e)) w.snapshot.blocks;
      };
    })
    unlock
    commit_mutation env actor (codes "unblock_drive") unique_id []

  -- Behind the lock. `env'` is the system behind the migration: a key that could not be saved is
  -- made anew.
  load_files : Env → Env → World → Option StoreError × World
  unfolding read_store_file migrate_legacy_json write_store_file
  load_files env env' w =
      let (_, w') = migrate_legacy_json p env w in
      elim w.store_file [
        | some file ↦ read_store_file p env w
        | none ↦ elim w'.store_file [
          | some file ↦ read_store_file p env' w'
          | none ↦ write_store_file p env' empty_snapshot (record w' { snapshot = empty_snapshot })
        ]
      ]

  unfoldable pub load : Env → Env → M (Option StoreError)
  unfolding lock_for_write unlock load_files
  load env env' = do lock_for_write; r ← λ w. lifted (load_files env env' w) w; unlock; pure r
