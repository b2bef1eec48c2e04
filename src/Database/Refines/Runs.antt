-- ===== src/Database/Refines/Runs.antt =====
-- Every change of src/DatabaseManager.cpp, run through the gateway.
use flashsentry.Base.{
  ◌≡◌, refl, sym, ap, subst, Bool, true, false, not, Option, none, some, Text, ℤ, if◌then◌else◌,
  Bool-cases, Option-cases, inl, inr, is_empty, text_eq, text_eq_iff, codes, lookup,
}
use flashsentry.Platform.{Platform}
use flashsentry.Device.{DeviceRecord}
use flashsentry.Policy.Gateway.Interface.{in_process}
use flashsentry.Policy.Engine.Files.{World, Env, is_none}
use flashsentry.Policy.Engine.{Outcome}
use flashsentry.Policy.Engine.Commits.{writes}
use flashsentry.Policy.Gateway.{remove}
use flashsentry.Policy.Gateway.History.{IsReady}
use flashsentry.Database.{
  Database, D, pure, emit, ◌>>=◌, ◌>>◌, device_added, device_updated, device_removed, synced,
  has_key, resolve_stored_id,
}
use flashsentry.Database.Changes
use flashsentry.Database.Changes.{
  persist_device, persisted, told, change_resolved, with_hash, with_manifest, emit_removed,
}
use flashsentry.Database.Queries.{keys}
use flashsentry.Database.Mirror.{Mirrors}
use flashsentry.Database.Refines.{
  View, put, Change, add, update, upsert_record, remove_id, clear_all, update_hash, last_seen,
  put_new, put_old, watch_manifest, profile, trust, auto_mount, altered, altered_at, resolved,
  specified, run_change,
}
use flashsentry.Database.Refines.Tracks.{
  Tracks, Tracks-eq, Quiet, Quiet-pure, then_do, finished-Tracks, remove-Tracks, clear-Tracks,
  put_world, put_world-IsReady, persist_device-done, find-put,
}
use flashsentry.Database.Refines.Sound.{
  view_of, Tracks-drop, Tracks-unchanged, emit-Quiet, emit_removed-Quiet, persist_device-empty,
  write-Tracks, change-Tracks, set_field-Tracks,
}

module _ (p : Platform) (env : Env) (ok : writes env ≡ true) (db : Database) (w : World)
    (ready : IsReady w) (m : Mirrors db w) where
  -- By whether the table has a record of the key.
  by_found :
      {A : Type 0} (k : Text) (run : Option DeviceRecord → Outcome (A × Database))
      (v : Option DeviceRecord → View)
      → (lookup k db.devices ≡ none → Tracks (run none) (v none))
      → ((old : DeviceRecord) → Tracks (run (some old)) (v (some old)))
      → Tracks (run (lookup k db.devices)) (v (lookup k db.devices))
  by_found k run v absent present = elim (Option-cases (lookup k db.devices)) [
    | inl e ↦ subst (λ o. Tracks (run o) (v o)) (sym e) (absent e)
    | inr (old, e) ↦ subst (λ o. Tracks (run o) (v o)) (sym e) (present old)
  ]

  add_device-Tracks :
      (r : DeviceRecord)
      → Tracks
          (Changes.add_device p env (in_process p) r db w)
          (put_new r (lookup r.unique_id db.devices) (view_of db))
  unfolding Changes.add_device
  add_device-Tracks r =
      let announce = emit (device_added r.unique_id) in
      by_found r.unique_id
        (λ o.
          (if not (is_none o)
              then pure false
              else (persist_device p env (in_process p) r (codes "add")
                  >>= persisted p env (in_process p) announce))
            db w)
        (λ o. put_new r o (view_of db))
        (λ e. write-Tracks p env ok announce r (codes "add") db w (emit-Quiet _) ready m)
        (λ old. Tracks-unchanged false db w ready m)

  update_device-Tracks :
      (r : DeviceRecord)
      → Tracks
          (Changes.update_device p env (in_process p) r db w)
          (put_old r (lookup r.unique_id db.devices) (view_of db))
  unfolding Changes.update_device
  update_device-Tracks r =
      let announce = emit (device_updated r.unique_id) in
      by_found r.unique_id
        (λ o.
          (if not (not (is_none o))
              then pure false
              else (persist_device p env (in_process p) r (codes "update")
                  >>= persisted p env (in_process p) announce))
            db w)
        (λ o. put_old r o (view_of db)) (λ e. Tracks-unchanged false db w ready m)
        (λ old. write-Tracks p env ok announce r (codes "update") db w (emit-Quiet _) ready m)

  upsert_device-Tracks :
      (r : DeviceRecord)
      → Tracks
          (Changes.upsert_device p env (in_process p) r db w)
          (if is_empty r.unique_id then view_of db else put r.unique_id (some r) (view_of db))
  unfolding Changes.upsert_device
  upsert_device-Tracks r =
      let announce : D (Unit {0}) = emit (
        if not (has_key r.unique_id db.devices)
        then device_added r.unique_id
        else device_updated r.unique_id) in
      elim (Bool-cases (is_empty r.unique_id)) [
        | inl empty ↦ rw empty (
            Tracks-eq
              (ap (then_do (λ _. synced (in_process p) >> announce))
                (persist_device-empty p env ok r (codes "upsert") db w ready empty))
              (λ id. refl)
              (finished-Tracks p announce db w (view_of db) (emit-Quiet _) ready
                (λ id. sym (m.same id))))
        | inr named ↦ rw named (
            Tracks-eq
              (ap (then_do (λ _. synced (in_process p) >> announce))
                (persist_device-done p env r (codes "upsert") db w ready.unlocked ok named))
              (λ id. refl)
              (finished-Tracks p announce db (put_world p env r (codes "upsert") w)
                (put r.unique_id (some r) (view_of db)) (emit-Quiet _)
                (put_world-IsReady p env r (codes "upsert") w ready named)
                (find-put p env r (codes "upsert") w (view_of db) (λ id. sym (m.same id)))))
      ]

  -- To remove an id that the map does not have changes nothing.
  put-none : (k id : Text) → lookup k db.devices ≡ none → put k none (view_of db) id ≡ view_of db id
  put-none k id e = elim (Bool-cases (text_eq k id)) [
    | inl same ↦ rw (same, ← (text_eq_iff k id).0 same, e)
    | inr other ↦ rw other
  ]

  remove_device-Tracks :
      (id : Text)
      → Tracks (Changes.remove_device p env (in_process p) id db w) (put id none (view_of db))
  unfolding Changes.remove_device
  remove_device-Tracks id =
      let rest : D Bool = emit (device_removed id) >> pure true in
      by_found id
        (λ o.
          (if not (not (is_none o))
              then pure false
              else (told p env (in_process p) (remove id (codes "remove"))
                  >> (synced (in_process p) >> rest)))
            db w)
        (λ o. put id none (view_of db))
        (λ e. Tracks-eq refl (λ k. sym (put-none id k e)) (Tracks-unchanged false db w ready m))
        (λ old.
          remove-Tracks p env rest id (codes "remove") db w (view_of db)
            (Quiet-pure (emit (device_removed id)) true (emit-Quiet _)) ready (λ k. sym (m.same k)))

  clear_all_devices-Tracks :
      Tracks (Changes.clear_all_devices p env (in_process p) db w) (λ id. none)
  unfolding Changes.clear_all_devices
  clear_all_devices-Tracks =
      clear-Tracks p env (emit_removed p env (in_process p) (keys db.devices)) (codes "clear_all")
        db w (emit_removed-Quiet (keys db.devices) p env) ready

  change_resolved-Tracks :
      (g : DeviceRecord → DeviceRecord) (reason : Text) (announce : Text → D (Unit {0})) (id : Text)
      → ((r : DeviceRecord) → (g r).unique_id ≡ r.unique_id)
      → ((k : Text) → Quiet (announce k))
      → Tracks
          (change_resolved p env (in_process p) g reason announce id db w)
          (altered_at p g (resolved p (view_of db) id) (view_of db))
  unfolding change_resolved resolve_stored_id
  change_resolved-Tracks g reason announce id keeps q =
      change-Tracks p env ok g reason db w keeps ready m announce
        (resolve_stored_id p db.devices id) q

  set_trust_level-Tracks :
      (id : Text) (level : ℤ)
      → Tracks
          (Changes.set_trust_level p env (in_process p) id level db w)
          (altered (λ r. record r { trust_level = level }) id (view_of db))
  unfolding Changes.set_trust_level
  set_trust_level-Tracks id level =
      set_field-Tracks p env ok (λ r. record r { trust_level = level }) (codes "set_trust") db w
        (λ r. refl) ready m id

  set_auto_mount-Tracks :
      (id : Text) (b : Bool)
      → Tracks
          (Changes.set_auto_mount p env (in_process p) id b db w)
          (altered (λ r. record r { auto_mount = b }) id (view_of db))
  unfolding Changes.set_auto_mount
  set_auto_mount-Tracks id b =
      set_field-Tracks p env ok (λ r. record r { auto_mount = b }) (codes "set_auto_mount") db w
        (λ r. refl) ready m id

  pub run_change-Tracks :
      (c : Change) → Tracks (run_change p env c db w) (specified p env.now c (view_of db))
  unfolding run_change specified Changes.update_hash Changes.update_last_seen
      Changes.update_watch_manifest Changes.set_verification_profile
  run_change-Tracks (add r) = Tracks-drop (add_device-Tracks r)
  run_change-Tracks (update r) = Tracks-drop (update_device-Tracks r)
  run_change-Tracks (upsert_record r) = upsert_device-Tracks r
  run_change-Tracks (remove_id id) = Tracks-drop (remove_device-Tracks id)
  run_change-Tracks clear_all = clear_all_devices-Tracks
  run_change-Tracks (update_hash id hash algorithm ms scope mode) = Tracks-drop (
      change_resolved-Tracks (with_hash env.now hash algorithm ms scope mode) (codes "update_hash")
        (λ k. emit (device_updated k)) id (λ r. refl) (λ k. emit-Quiet _))
  run_change-Tracks (last_seen id) = Tracks-drop (
      change_resolved-Tracks (λ r. record r { last_seen = env.now }) (codes "last_seen")
        (λ k. pure tt) id (λ r. refl) (λ k db' w'. (tt, db', refl, refl)))
  run_change-Tracks (watch_manifest id v) = Tracks-drop (
      change_resolved-Tracks (with_manifest v) (codes "watch_manifest")
        (λ k. emit (device_updated k)) id (λ r. refl) (λ k. emit-Quiet _))
  run_change-Tracks (profile id v) = Tracks-drop (
      change_resolved-Tracks (λ r. record r { verification_profile = v })
        (codes "verification_profile") (λ k. emit (device_updated k)) id (λ r. refl)
        (λ k. emit-Quiet _))
  run_change-Tracks (trust id level) = Tracks-drop (set_trust_level-Tracks id level)
  run_change-Tracks (auto_mount id b) = Tracks-drop (set_auto_mount-Tracks id b)
