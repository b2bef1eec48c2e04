-- ===== src/Database/Refines.antt =====
-- The database as a map from ids to records: what each change of src/DatabaseManager.cpp does to it
-- where the store can be written.
pub mod Tracks
pub mod Sound
pub mod Runs
pub mod Sequence
use flashsentry.Base.{
  ℕ, ◌≡◌, refl, sym, ap, ◌∙◌, subst, Bool, true, false, not, Option, none, some, List, [], ◌∷◌,
  Text, ℤ, arith, if◌then◌else◌, Bool-cases, Option-cases, inl, inr, is_empty, text_eq, text_eq_iff,
  text_eq_refl, codes, lookup, insert, lookup-insert,
}
use flashsentry.Platform.{Platform, DateTime}
use flashsentry.Device.{DeviceRecord, WatchManifest, VerificationProfile}
use flashsentry.Policy.Gateway.Interface.{in_process}
use flashsentry.Policy.{PolicySnapshot}
use flashsentry.Policy.Engine.Files.{World, Env, free, is_none}
use flashsentry.Policy.Engine.{Outcome, done, stuck, put_device, drop_device}
use flashsentry.Policy.Engine.Commits.{
  writes, committed, audit_line, upsert_device-committed, remove_device-committed,
  clear_devices-committed,
}
use flashsentry.Policy.Engine.Devices.{
  find_device, find-put_device, find-drop_device, put_device-IsKeyed, drop_device-IsKeyed,
}
use flashsentry.Policy.Gateway.{Call, upsert, remove, clear, call}
use flashsentry.Policy.Gateway.History.{IsReady}
use flashsentry.Database.{Database, D, pure, modify, ◌>>=◌, ◌>>◌, resolve_id, synced}
use flashsentry.Database.Changes
use flashsentry.Database.Changes.{with_hash, with_manifest, persist_device}
use flashsentry.Database.Mirror.{Mirrors, filled, synced-done, filled-Mirrors}

abbrev pub View : Type 0
View = Text → Option DeviceRecord

-- The map with one entry set or removed.
abbrev pub put : Text → Option DeviceRecord → View → View
put k o f id = if text_eq k id then o else f id

-- The methods that change devices.
pub data Change : Type 0 where
  add update upsert_record : DeviceRecord → Change
  remove_id : Text → Change
  clear_all : Change
  update_hash : Text → Text → Text → ℕ → Text → Text → Change
  last_seen : Text → Change
  watch_manifest : Text → WatchManifest → Change
  profile : Text → VerificationProfile → Change
  trust : Text → ℤ → Change
  auto_mount : Text → Bool → Change

-- The record of an id, if there is one, changed by a function.
abbrev pub altered_found : (DeviceRecord → DeviceRecord) → Text → View → Option DeviceRecord → View
altered_found g k f none = f
altered_found g k f (some r) = put k (some (g r)) f

abbrev pub altered : (DeviceRecord → DeviceRecord) → Text → View → View
altered g k f = altered_found g k f (f k)

abbrev pub put_new : DeviceRecord → Option DeviceRecord → View → View
put_new r none f = if is_empty r.unique_id then f else put r.unique_id (some r) f
put_new r (some old) f = f

abbrev pub put_old : DeviceRecord → Option DeviceRecord → View → View
put_old r none f = f
put_old r (some old) f = if is_empty r.unique_id then f else put r.unique_id (some r) f

module _ (p : Platform) where
  -- The same at the id that an id resolves to.
  abbrev pub altered_at : (DeviceRecord → DeviceRecord) → Option Text → View → View
  altered_at g none f = f
  altered_at g (some k) f = altered g k f

  abbrev pub resolved : View → Text → Option Text
  resolved f id = resolve_id p (λ k. not (is_none (f k))) id

  -- What each change does to the map, at the time `now`.
  unfoldable pub specified : DateTime → Change → View → View
  specified now (add r) f = put_new r (f r.unique_id) f
  specified now (update r) f = put_old r (f r.unique_id) f
  specified now (upsert_record r) f = if is_empty r.unique_id then f else put r.unique_id (some r) f
  specified now (remove_id id) f = put id none f
  specified now clear_all f = λ id. none
  specified now (update_hash id hash algorithm ms scope mode) f =
      altered_at (with_hash now hash algorithm ms scope mode) (resolved f id) f
  specified now (last_seen id) f = altered_at (λ r. record r { last_seen = now }) (resolved f id) f
  specified now (watch_manifest id m) f = altered_at (with_manifest m) (resolved f id) f
  specified now (profile id v) f =
      altered_at (λ r. record r { verification_profile = v }) (resolved f id) f
  specified now (trust id level) f = altered (λ r. record r { trust_level = level }) id f
  specified now (auto_mount id b) f = altered (λ r. record r { auto_mount = b }) id f

-- The method of a change, its result dropped.
unfoldable pub run_change : Platform → Env → Change → D (Unit {0})
unfolding Changes.add_device Changes.update_device Changes.upsert_device Changes.remove_device
    Changes.clear_all_devices Changes.update_hash Changes.update_last_seen
    Changes.update_watch_manifest Changes.set_verification_profile Changes.set_trust_level
    Changes.set_auto_mount
run_change p env (add r) = Changes.add_device p env (in_process p) r >>= λ _. pure tt
run_change p env (update r) = Changes.update_device p env (in_process p) r >>= λ _. pure tt
run_change p env (upsert_record r) = Changes.upsert_device p env (in_process p) r
run_change p env (remove_id id) = Changes.remove_device p env (in_process p) id >>= λ _. pure tt
run_change p env clear_all = Changes.clear_all_devices p env (in_process p)
run_change p env (update_hash id hash algorithm ms scope mode) =
    Changes.update_hash p env (in_process p) id hash algorithm ms scope mode >>= λ _. pure tt
run_change p env (last_seen id) = Changes.update_last_seen p env (in_process p) id >>= λ _. pure tt
run_change p env (watch_manifest id m) =
    Changes.update_watch_manifest p env (in_process p) id m >>= λ _. pure tt
run_change p env (profile id v) =
    Changes.set_verification_profile p env (in_process p) id v >>= λ _. pure tt
run_change p env (trust id level) =
    Changes.set_trust_level p env (in_process p) id level >>= λ _. pure tt
run_change p env (auto_mount id b) =
    Changes.set_auto_mount p env (in_process p) id b >>= λ _. pure tt
