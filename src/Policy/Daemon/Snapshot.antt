-- ===== src/Policy/Daemon/Snapshot.antt =====
-- The snapshot that src/policy/PolicyDaemonClient.cpp reads from the daemon.
use flashsentry.Base.{◌≡◌, refl, ap, ◌∙◌, List, [], ◌∷◌, Bytes, codes, All, map, text_eq, arith}
use flashsentry.Json.{
  obj, insert, value, to_array, to_items, to_string, to_fields, is_object, to_bool,
}
use flashsentry.Platform.{Platform}
use flashsentry.Device.{DeviceRecord}
use flashsentry.Device.Codec.{device_to_json, device_from_json}
use flashsentry.Device.Stored.{IsStorable, IsIso, stored, device-round_trip}
use flashsentry.Policy.{BlockedDriveEntry, PolicySnapshot}
use flashsentry.Policy.Blob.{block_to_json, block_from_json}
use flashsentry.Policy.Blob.RoundTrip.{stored_snapshot}
use flashsentry.Policy.Engine.Files.{World, Env, free}
use flashsentry.Policy.Engine.{done}
use flashsentry.Policy.Daemon.{Target, replied, dispatch, snapshot_reply}
use flashsentry.Policy.Daemon.Client.{
  Link, and_then, snapshot, snapshot_of, objects_of, op_request, received,
}
use flashsentry.Policy.Daemon.Carried.{
  Holds, Carries, lines_of, request-lines_of, read_response-line_of,
}

module _ (p : Platform) where
  objects_of-devices :
      (ds : List DeviceRecord)
      → All (IsStorable p) ds
      → objects_of (device_from_json p) (to_array (λ r. obj (device_to_json p r)) ds)
        ≡ map stored ds
  unfolding objects_of to_array is_object to_fields
  objects_of-devices [] h = refl
  objects_of-devices (d ∷ ds) (s, h) = rw (device-round_trip p d s, objects_of-devices ds h)

  block-round_trip :
      (e : BlockedDriveEntry) → IsIso p e.blocked_at → block_from_json p (block_to_json p e) ≡ e
  unfolding block_from_json block_to_json
  block-round_trip e h = rw h

  objects_of-blocks :
      (es : List BlockedDriveEntry)
      → All (λ e. IsIso p e.blocked_at) es
      → objects_of (block_from_json p) (to_array (λ e. obj (block_to_json p e)) es) ≡ es
  unfolding objects_of to_array is_object to_fields
  objects_of-blocks [] h = refl
  objects_of-blocks (e ∷ es) (s, h) = rw (block-round_trip e s, objects_of-blocks es h)

  snapshot_of-snapshot_reply :
      (s : PolicySnapshot)
      → All (IsStorable p) s.devices
      → All (λ e. IsIso p e.blocked_at) s.blocks
      → snapshot_of p (snapshot_reply p s) ≡ stored_snapshot p s
  unfolding snapshot_of snapshot_reply insert value to_items to_bool
  snapshot_of-snapshot_reply s d b =
      rw (objects_of-devices s.devices d, objects_of-blocks s.blocks b)

  module _ (env env' : Env) (target : Target) where
    dispatch-snapshot :
        (w : World)
        → w.lock ≡ free
        → dispatch p env env' target (op_request (codes "snapshot")) w
          ≡ done (replied (snapshot_reply p w.snapshot)) (record w { lock = free })
    unfolding dispatch insert value to_string text_eq
    dispatch-snapshot w h = ground arith

    -- Where the connection holds and carries the request and the answer, the client reads the
    -- daemon's snapshot, its records as `stored` has them, where the records are storable, the times
    -- of the blocked drives are whole seconds, and nobody holds the engine's lock.
    pub snapshot-stored :
        (trimmed : Bytes → Bytes) (link : Link) (w : World)
        → Holds link
        → w.lock ≡ free
        → All (IsStorable p) w.snapshot.devices
        → All (λ e. IsIso p e.blocked_at) w.snapshot.blocks
        → Carries p trimmed link.request_bytes (op_request (codes "snapshot"))
        → Carries p trimmed link.response_bytes (snapshot_reply p w.snapshot)
        → snapshot p env env' target trimmed link w
          ≡ (stored_snapshot p w.snapshot, done tt (record w { lock = free }))
    unfolding snapshot received
    snapshot-stored trimmed link w h unlocked d b asked answer =
        ap (and_then (snapshot_of p)) (
          request-lines_of p env env' target trimmed link h (op_request (codes "snapshot")) w asked)
        ∙ ap
            (λ o. and_then (snapshot_of p) (received p env env' target trimmed link (lines_of p o)))
            (dispatch-snapshot w unlocked)
        ∙ rw (
          h.answered,
          read_response-line_of p env env' target trimmed link h (snapshot_reply p w.snapshot)
              answer,
          snapshot_of-snapshot_reply w.snapshot d b,
        )
