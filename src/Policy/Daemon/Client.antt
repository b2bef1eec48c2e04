-- ===== src/Policy/Daemon/Client.antt =====
-- src/policy/PolicyDaemonClient.cpp: the gateway that sends each call to the daemon as one object.
use flashsentry.Base.{
  ℤ, negsuc, Bytes, ℕ, Bool, not, Text, List, if◌then◌else◌, codes, ◌∷◌, [], ◌++◌, take,
}
use flashsentry.Json.{
  Json, Fields, Items, nil, cons, bool, str, obj, num, none_left, insert, value, to_bool, in_int,
  to_items, to_fields, is_object,
}
use flashsentry.Platform.{Platform}
use flashsentry.Device.Codec.{device_to_json, device_from_json}
use flashsentry.Policy.{PolicySnapshot}
use flashsentry.Policy.Blob.{block_from_json}
use flashsentry.Policy.Engine.Files.{World, Env, empty_snapshot}
use flashsentry.Policy.Engine.{Outcome, done, stuck}
use flashsentry.Policy.Gateway.{Call, upsert, remove, clear, block, unblock}
use flashsentry.Policy.Daemon.{Target, ready_read}

-- How a connection goes: which of the waits end in time, whether the daemon runs its handler when
-- the client does not see the answer, and how many bytes are there when either side reads.
pub record Link : Type 0 where
  pub connected : Bool
  pub written : Bool
  pub handled : Bool
  pub answered : Bool
  pub request_bytes : ℕ
  pub response_bytes : ℕ

-- What a method returns to its caller, and what becomes of the daemon, which may never answer again.
abbrev pub Sent {ℓ} : Type ℓ → Type ℓ
Sent A = A × Outcome (Unit {0})

abbrev pub and_then {ℓ κ} : {A : Type ℓ} {B : Type κ} → (A → B) → Sent A → Sent B
and_then f (a, o) = (f a, o)

-- `.value("ok").toBool()`
abbrev pub is_ok : Fields → Bool
unfolding value to_bool
is_ok resp = to_bool (value "ok" resp)

abbrev pub op_request : Text → Fields
unfolding insert
op_request op = insert "op" (str op) none_left

-- `toInt(-1)`
count_of : Json → ℤ
unfolding in_int
count_of (num n) = if in_int n then n else negsuc 0
count_of _ = negsuc 0

-- The loops of `snapshot`.
unfoldable pub objects_of : {A : Type 0} → (Fields → A) → Items → List A
unfolding is_object to_fields
objects_of f nil = []
objects_of f (cons v vs) =
    let rest = objects_of f vs in if is_object v then f (to_fields v) ∷ rest else rest

-- The request of `importJson`.
unfoldable pub import_fields : Text → Bool → Text → Fields
unfolding insert
import_fields path merge actor =
    insert "actor" (str actor)
      (insert "merge" (bool merge) (insert "path" (str path) (op_request (codes "import_json"))))

module _ (p : Platform) where
  unfoldable pub snapshot_of : Fields → PolicySnapshot
  unfolding objects_of to_items value block_from_json
  snapshot_of resp = if not (is_ok resp) then empty_snapshot else record {
    devices = objects_of (device_from_json p) (to_items (value "devices" resp));
    blocks = objects_of (block_from_json p) (to_items (value "blocks" resp));
  }

  -- The requests of the five mutations.
  unfoldable pub request_of : Text → Call → Fields
  unfolding insert device_to_json
  request_of actor (upsert r reason) = insert "record" (obj (device_to_json p r)) (
      insert "reason" (str reason)
        (insert "actor" (str actor) (op_request (codes "upsert_device"))))
  request_of actor (remove unique_id reason) = insert "unique_id" (str unique_id) (
      insert "reason" (str reason)
        (insert "actor" (str actor) (op_request (codes "remove_device"))))
  request_of actor (clear reason) =
      insert "reason" (str reason) (insert "actor" (str actor) (op_request (codes "clear_devices")))
  request_of actor (block drive_key unique_id label) = insert "label" (str label) (
      insert "unique_id" (str unique_id) (
        insert "drive_key" (str drive_key)
          (insert "actor" (str actor) (op_request (codes "block_drive")))))
  request_of actor (unblock drive_key unique_id) = insert "unique_id" (str unique_id) (
      insert "drive_key" (str drive_key)
        (insert "actor" (str actor) (op_request (codes "unblock_drive"))))

module _ (p : Platform) (env env' : Env) (target : Target) (trimmed : Bytes → Bytes)
    (link : Link) where
  -- The object that the answer is, or the empty one.
  unfoldable pub read_response : Bytes → Fields
  unfolding is_object to_fields
  read_response resp =
      let doc = p.parse_json (trimmed (take link.response_bytes resp)) in
      if not (is_object doc) then none_left else to_fields doc

  unfoldable pub received : Outcome Bytes → Sent Fields
  unfolding read_response
  received (done resp w) = (if link.answered then read_response resp else none_left, done tt w)
  received (stuck w) = (none_left, stuck w)

  unfoldable pub request : Fields → World → Sent Fields
  unfolding received ready_read
  request req w =
      let line = p.to_compact req ++ b'\n' ∷ [] in
      let lost : Sent Fields = (none_left, done tt w) in
      let arrived =
        received (ready_read p env env' target trimmed (take link.request_bytes line) w) in
      if not link.connected
      then lost
      else if not link.handled
      then lost
      else if not link.written
      then and_then (λ o. none_left) arrived
      else arrived

  unfoldable pub ping : World → Sent Bool
  unfolding request
  ping w = and_then is_ok (request (op_request (codes "ping")) w)

  unfoldable pub load : World → Sent Bool
  unfolding request
  load w = and_then is_ok (request (op_request (codes "load")) w)

  unfoldable pub reload : World → Sent Bool
  unfolding request
  reload w = and_then is_ok (request (op_request (codes "reload")) w)

  unfoldable pub snapshot : World → Sent PolicySnapshot
  unfolding request snapshot_of
  snapshot w = and_then (snapshot_of p) (request (op_request (codes "snapshot")) w)

  unfoldable pub send : Text → Call → World → Sent Bool
  unfolding request request_of
  send actor c w = and_then is_ok (request (request_of p actor c) w)

  unfoldable pub export_json : Text → Bool → World → Sent Bool
  unfolding request insert
  export_json path pretty_print w = and_then is_ok (
      request
        (insert "pretty" (bool pretty_print)
          (insert "path" (str path) (op_request (codes "export_json"))))
        w)

  unfoldable pub import_json : Text → Bool → Text → World → Sent ℤ
  unfolding request import_fields count_of value
  import_json path merge actor w =
      and_then (λ resp. if not (is_ok resp) then negsuc 0 else count_of (value "count" resp))
        (request (import_fields path merge actor) w)
