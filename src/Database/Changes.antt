-- ===== src/Database/Changes.antt =====
-- The methods of src/DatabaseManager.cpp that change devices, each through the gateway.
use flashsentry.Base.{
  ℕ, suc, ltb, Bool, true, false, not, Option, none, some, List, [], ◌∷◌, Text, ℤ, if◌then◌else◌,
  is_empty, codes, Table, lookup, insert, keep_if,
}
use flashsentry.Platform.{Platform, DateTime}
use flashsentry.Device.{DeviceRecord, WatchManifest, VerificationProfile}
use flashsentry.Policy.Engine.Files.{Env}
use flashsentry.Policy.Gateway.{Call, upsert, remove, clear}
use flashsentry.Policy.Gateway.Interface.{PolicyGateway}
use flashsentry.Database.{
  D, pure, gets, modify, emit, with_gate, has_key, ◌>>=◌, ◌>>◌, device_added, device_updated,
  device_removed, resolve_stored_id, synced,
}
use flashsentry.Database.Queries.{keys}

-- The assignments of the methods to a record.
abbrev pub with_hash : DateTime → Text → Text → ℕ → Text → Text → DeviceRecord → DeviceRecord
with_hash now hash algorithm duration_ms scope scan_mode r = record r {
  hash = hash;
  hash_algorithm = algorithm;
  hash_duration_ms = duration_ms;
  hash_scope = if not (is_empty scope) then scope else r.hash_scope;
  hash_scan_mode = if not (is_empty scan_mode) then scan_mode else r.hash_scan_mode;
  last_hashed = now;
}

abbrev pub with_manifest : WatchManifest → DeviceRecord → DeviceRecord
with_manifest m r = record r { watch_manifest = m; last_manifest_root = m.manifest_root }

module _ (p : Platform) (env : Env) (gate : Option PolicyGateway) where
  unfoldable pub actor : Text
  actor = codes "database"

  unfoldable pub persist_device : DeviceRecord → Text → D Bool
  unfolding actor
  persist_device r reason = elim gate [
    | none ↦ pure false
    | some g ↦ with_gate (g.mutate env actor (upsert r reason))
  ]

  unfoldable pub persist_found : Text → Option DeviceRecord → D Bool
  unfolding persist_device
  persist_found reason none = pure false
  persist_found reason (some r) = persist_device r reason

  unfoldable pub persist_record_by_id : Text → Text → D Bool
  unfolding persist_found lookup
  persist_record_by_id unique_id reason =
      gets (λ db. lookup unique_id db.devices) >>= persist_found reason

  -- What follows a write: false, or the table is filled again and the signal emitted.
  unfoldable pub persisted : D (Unit {0}) → Bool → D Bool
  unfolding synced
  persisted announce false = pure false
  persisted announce true = do synced gate; announce; pure true

  unfoldable pub add_device : DeviceRecord → D Bool
  unfolding persist_device persisted lookup
  add_device r =
      let write =
        (persist_device r (codes "add") >>= persisted (emit (device_added r.unique_id))) in
      gets (λ db. has_key r.unique_id db.devices) >>= λ old. if old then pure false else write

  unfoldable pub update_device : DeviceRecord → D Bool
  unfolding persist_device persisted lookup
  update_device r =
      let write =
        (persist_device r (codes "update") >>= persisted (emit (device_updated r.unique_id))) in
      gets (λ db. has_key r.unique_id db.devices) >>= λ old. if not old then pure false else write

  unfoldable pub upsert_device : DeviceRecord → D (Unit {0})
  unfolding persist_device synced lookup
  upsert_device r = do
    old ← gets (λ db. has_key r.unique_id db.devices)
    _ ← persist_device r (codes "upsert")
    synced gate
    emit (if not old then device_added r.unique_id else device_updated r.unique_id)

  -- A call of the gateway whose result is not read.
  unfoldable pub told : Call → D (Unit {0})
  unfolding actor
  told c = elim gate [ none ↦ pure tt | some g ↦ with_gate (g.mutate env actor c) >>= λ _. pure tt ]

  unfoldable pub remove_device : Text → D Bool
  unfolding told synced lookup
  remove_device unique_id =
      let removed =
        (told (remove unique_id (codes "remove"))
          >> (synced gate >> (emit (device_removed unique_id) >> pure true))) in
      gets (λ db. has_key unique_id db.devices) >>= λ old. if not old then pure false else removed

  -- The loop over the ids that are keys, with the count so far.
  remove_loop : List Text → ℕ → D ℕ
  unfolding actor
  remove_loop [] removed = pure removed
  remove_loop (id ∷ ids) removed =
      let sent : D Bool = elim gate [
        | none ↦ pure false
        | some g ↦ with_gate (g.mutate env actor (remove id (codes "bulk_remove")))
      ] in
      sent >>= λ ok. remove_loop ids (if ok then suc removed else removed)

  unfoldable pub emit_removed : List Text → D (Unit {0})
  emit_removed [] = pure tt
  emit_removed (id ∷ ids) = emit (device_removed id) >> emit_removed ids

  unfoldable pub remove_devices : List Text → D ℕ
  unfolding remove_loop emit_removed synced lookup keep_if
  remove_devices unique_ids = do
    ids ← gets (λ db. keep_if (λ id. has_key id db.devices) unique_ids)
    removed ← remove_loop ids 0
    if ltb 0 removed then synced gate else pure tt
    emit_removed ids
    pure removed

  unfoldable pub clear_all_devices : D (Unit {0})
  unfolding told synced emit_removed keys
  clear_all_devices = do
    ids ← gets (λ db. keys db.devices)
    told (clear (codes "clear_all"))
    synced gate
    emit_removed ids

  -- The record of an id that was resolved, changed in the table and returned with its key.
  unfoldable pub change_found :
      (DeviceRecord → DeviceRecord) → Text → Option DeviceRecord → D (Option (Text × DeviceRecord))
  unfolding insert
  change_found f id none = pure none
  change_found f id (some r) =
      modify (λ db. record db { devices = insert id (f r) db.devices }) >> pure (some (id, f r))

  unfoldable pub change :
      (DeviceRecord → DeviceRecord) → Option Text → D (Option (Text × DeviceRecord))
  unfolding change_found lookup
  change f none = pure none
  change f (some id) = gets (λ db. lookup id db.devices) >>= change_found f id

  unfoldable pub write_changed :
      Text → (Text → D (Unit {0})) → Option (Text × DeviceRecord) → D Bool
  unfolding persist_device persisted
  write_changed reason announce none = pure false
  write_changed reason announce (some (id, r)) = persist_device r reason >>= persisted (announce id)

  -- The methods that resolve the id: change the record, write it, fill the table again.
  unfoldable pub change_resolved :
      (DeviceRecord → DeviceRecord) → Text → (Text → D (Unit {0})) → Text → D Bool
  unfolding change write_changed resolve_stored_id
  change_resolved f reason announce unique_id = do
    id ← gets (λ db. resolve_stored_id p db.devices unique_id)
    changed ← change f id
    write_changed reason announce changed

  unfoldable pub update_hash : Text → Text → Text → ℕ → Text → Text → D Bool
  unfolding change_resolved
  update_hash unique_id hash algorithm duration_ms scope scan_mode =
      change_resolved (with_hash env.now hash algorithm duration_ms scope scan_mode)
        (codes "update_hash") (λ id. emit (device_updated id)) unique_id

  unfoldable pub update_last_seen : Text → D Bool
  unfolding change_resolved
  update_last_seen unique_id =
      change_resolved (λ r. record r { last_seen = env.now }) (codes "last_seen") (λ id. pure tt)
        unique_id

  unfoldable pub update_watch_manifest : Text → WatchManifest → D Bool
  unfolding change_resolved
  update_watch_manifest unique_id m =
      change_resolved (with_manifest m) (codes "watch_manifest") (λ id. emit (device_updated id))
        unique_id

  unfoldable pub set_verification_profile : Text → VerificationProfile → D Bool
  unfolding change_resolved
  set_verification_profile unique_id profile =
      change_resolved (λ r. record r { verification_profile = profile })
        (codes "verification_profile") (λ id. emit (device_updated id)) unique_id

  -- The two methods that look for the id itself, and do not read whether the write worked.
  unfoldable pub set_field :
      (DeviceRecord → DeviceRecord) → Text → Text → Option (Text × DeviceRecord) → D Bool
  unfolding persist_record_by_id synced
  set_field f reason unique_id none = pure false
  set_field f reason unique_id (some changed) = do
    _ ← persist_record_by_id unique_id reason
    synced gate
    emit (device_updated unique_id)
    pure true

  unfoldable pub set_trust_level : Text → ℤ → D Bool
  unfolding change set_field
  set_trust_level unique_id level =
      let f = λ (r : DeviceRecord). record r { trust_level = level } in
      change f (some unique_id) >>= set_field f (codes "set_trust") unique_id

  unfoldable pub set_auto_mount : Text → Bool → D Bool
  unfolding change set_field
  set_auto_mount unique_id auto_mount =
      let f = λ (r : DeviceRecord). record r { auto_mount = auto_mount } in
      change f (some unique_id) >>= set_field f (codes "set_auto_mount") unique_id

  -- `compact`: the keys of records without an id.
  unnamed_keys : Table DeviceRecord → List Text
  unfolding is_empty
  unnamed_keys [] = []
  unnamed_keys ((k, r) ∷ t) =
      let rest = unnamed_keys t in if is_empty r.unique_id then k ∷ rest else rest

  compact_loop : List Text → D (Unit {0})
  unfolding told
  compact_loop [] = pure tt
  compact_loop (id ∷ ids) = told (remove id (codes "compact")) >> compact_loop ids

  compact_keys : List Text → D (Unit {0})
  unfolding compact_loop synced
  compact_keys [] = pure tt
  compact_keys (id ∷ ids) = compact_loop (id ∷ ids) >> synced gate

  unfoldable pub compact : D (Unit {0})
  unfolding unnamed_keys compact_keys
  compact = gets (λ db. unnamed_keys db.devices) >>= compact_keys
