-- ===== src/Database/Mirror.antt =====
-- When the table is the engine's device list (src/DatabaseManager.cpp).
use flashsentry.Base.{
  or_else, or_else-none, ◌≡◌, refl, ◌∙◌, true, false, none, List, [], ◌∷◌, Text, arith, Bool-cases,
  inl, inr, any, find, find-any, text_eq, text_eq_iff, Table, lookup, insert, lookup-insert,
}
use flashsentry.Platform.{Platform}
use flashsentry.Device.{DeviceRecord}
use flashsentry.Policy.Gateway.Interface.{in_process}
use flashsentry.Policy.Engine.Files.{World, free}
use flashsentry.Policy.Engine.{done, current_snapshot}
use flashsentry.Policy.Engine.Devices.{has_id, find_device, IsKeyed}
use flashsentry.Policy.Gateway.History.{IsReady}
use flashsentry.Database.{Database, insert_all, synced}

-- The table has the record of each id that the engine has, and no other.
pub record Mirrors (db : Database) (w : World) : Type 0 where
  pub same : (id : Text) → lookup id db.devices ≡ find_device id w.snapshot.devices

absent_of_keyed :
    (d : DeviceRecord) (ds : List DeviceRecord) (id : Text)
    → any (has_id d.unique_id) ds ≡ false
    → text_eq d.unique_id id ≡ true
    → find_device id ds ≡ none
absent_of_keyed d ds id absent e =
    find-any (has_id id) ds (rw (← (text_eq_iff d.unique_id id).0 e) absent)

lookup-insert_all :
    (id : Text) (ds : List DeviceRecord) (t : Table DeviceRecord)
    → IsKeyed ds
    → lookup id (insert_all ds t) ≡ or_else (find_device id ds) (lookup id t)
unfolding insert_all find
lookup-insert_all id [] t k = refl
lookup-insert_all id (d ∷ ds) t (named, absent, k) = elim (Bool-cases (text_eq d.unique_id id)) [
  | inl own ↦
      lookup-insert_all id ds (insert d.unique_id d t) k
      ∙ rw (absent_of_keyed d ds id absent own, lookup-insert d.unique_id id d t, own)
  | inr other ↦
      lookup-insert_all id ds (insert d.unique_id d t) k
      ∙ rw (lookup-insert d.unique_id id d t, other)
]

-- A table that was filled from distinct ids has the record of each.
pub lookup-filled :
    (id : Text) (ds : List DeviceRecord)
    → IsKeyed ds
    → lookup id (insert_all ds []) ≡ find_device id ds
lookup-filled id ds k =
    lookup-insert_all id ds [] k ∙ unfold lookup in or_else-none (find_device id ds)

-- The table behind `synced`.
abbrev pub filled : Database → World → Database
filled db w = record db { devices = insert_all w.snapshot.devices []; modified = false }

pub synced-done :
    (p : Platform) (db : Database) (w : World)
    → w.lock ≡ free
    → synced (in_process p) db w ≡ done (tt, filled db w) (record w { lock = free })
unfolding synced current_snapshot
synced-done p db w h = ground arith

pub filled-Mirrors : (db : Database) (w : World) → IsReady w → Mirrors (filled db w) w
filled-Mirrors db w r = record { same = λ id. lookup-filled id w.snapshot.devices r.keyed }
