-- ===== src/Database/Restart.antt =====
-- The table of src/DatabaseManager.cpp at the next start of the program.
use flashsentry.Base.{
  ◌≡◌, refl, ap, ◌∙◌, true, false, none, List, [], ◌∷◌, ◌++◌, Text, length, map, any, find,
  Bool-cases, inl, inr, text_eq, lookup,
}
use mathlib.Core.Option
use flashsentry.Platform.{Platform, PlatformLaws}
use flashsentry.Device.{DeviceRecord}
use flashsentry.Device.Stored.{stored}
use flashsentry.Policy.Gateway.Interface.{in_process}
use flashsentry.Policy.Blob.RoundTrip.{stored_snapshot}
use flashsentry.Policy.Engine.Files.{World, Env, free}
use flashsentry.Policy.Engine.{done}
use flashsentry.Policy.Engine.Devices.{find_device, has_id, IsKeyed}
use flashsentry.Policy.Engine.Reload.{IsReadable}
use flashsentry.Policy.Gateway.{Call, call}
use flashsentry.Policy.Gateway.History.{IsReady, step-IsReady}
use flashsentry.Policy.Gateway.Durable.{load-call}
use flashsentry.Database.{Database, database_loaded}
use flashsentry.Database.Files.{initialize, after_load, announce_loaded}
use flashsentry.Database.Mirror.{filled, synced-done, filled-Mirrors}
use flashsentry.Database.Refines.Tracks.{then_do, gated}

any-stored :
    (id : Text) (ds : List DeviceRecord) → any (has_id id) (map stored ds) ≡ any (has_id id) ds
unfolding stored any
any-stored id [] = refl
any-stored id (d ∷ ds) = rw (any-stored id ds)

pub stored-IsKeyed : (ds : List DeviceRecord) → IsKeyed ds → IsKeyed (map stored ds)
unfolding stored
stored-IsKeyed [] k = tt
stored-IsKeyed (d ∷ ds) (named, absent, k) =
    (named, any-stored d.unique_id ds ∙ absent, stored-IsKeyed ds k)

pub find-stored :
    (id : Text) (ds : List DeviceRecord)
    → find_device id (map stored ds) ≡ Option.map stored (find_device id ds)
unfolding stored find
find-stored id [] = refl
find-stored id (d ∷ ds) = elim (Bool-cases (text_eq d.unique_id id)) [
  | inl own ↦ rw own
  | inr other ↦ rw (other, find-stored id ds)
]

-- What follows a load that worked.
abbrev announced : Database → World → Database
announced db w =
    let d = filled (record db { initialized = true; modified = false }) w in
    record d { signals = d.signals ++ database_loaded (length d.devices) ∷ [] }

initialized :
    (p : Platform) (env env' : Env) (db : Database) (w : World)
    → w.lock ≡ free
    → after_load p env env' (in_process p) none db w
      ≡ done (true, announced db w) (record w { lock = free })
unfolding after_load announce_loaded
initialized p env env' db w h =
    ap (then_do (λ _. announce_loaded p env env' (in_process p)))
      (synced-done p (record db { initialized = true; modified = false }) w h)

-- What a call of the gateway in process on a ready store that returned true left is what the
-- database has behind the next start, if its snapshot is readable (its records and blocks decode,
-- and the whole file is below 2 ^ 31 bytes): `initialize` returns true, and the table has for each
-- id the engine's record, as `stored` has it. The key file can be read and written, a fresh key has
-- 32 bytes, and the store opens.
pub initialize-call :
    (p : Platform) (laws : PlatformLaws p) (env env' env'' : Env) (actor : Text) (c : Call)
    → (w w' : World) (db : Database) → IsReady w
    → call p env actor c w ≡ done true w'
    → env.key_opens ≡ true
    → env.key_writable ≡ true
    → length env.fresh_key ≡ 32
    → env'.key_opens ≡ true
    → env'.store_opens ≡ true
    → IsReadable p w'.snapshot
    → (db' : Database) × (w'' : World) × (initialize p env' env'' (in_process p) db w'
        ≡ done (true, db') w'')
      × ((id : Text)
          → lookup id db'.devices ≡ Option.map stored (find_device id w'.snapshot.devices))
unfolding initialize
initialize-call p laws env env' env'' actor c w w' db ready e o k n o' s r =
    let after = step-IsReady p env actor c true ready e in
    let loaded = record w' { snapshot = stored_snapshot p w'.snapshot } in
    let fresh = record db { initialized = true; modified = false } in
    let keyed : IsReady loaded = record {
      unlocked = after.unlocked;
      keyed = stored-IsKeyed w'.snapshot.devices after.keyed;
    } in
    (
      _,
      record loaded { lock = free },
      ap (λ x. then_do (after_load p env' env'' (in_process p)) (gated db x))
            (load-call p laws env env' env'' actor c w w' ready e o k n o' s r)
          ∙ initialized p env' env'' db loaded after.unlocked,
      λ id. (filled-Mirrors fresh loaded keyed).same id ∙ find-stored id w'.snapshot.devices,
    )
