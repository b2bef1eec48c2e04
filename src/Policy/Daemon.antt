-- ===== src/Policy/Daemon.antt =====
-- src/flashspartan-policyd.cpp: the process that owns the store, and answers one JSON object with
-- another. Listening is left out; one handler runs at a time.
pub mod Client
pub mod Carried
pub mod Snapshot
pub mod Import
use flashsentry.Base.{
  String, Option, none, some, ℤ, pos, Bytes, ℕ, suc, Bool, true, false, not, Text, if◌then◌else◌,
  is_empty, codes, text_eq, ◌∷◌, [], ◌++◌, ◌||◌,
}
use flashsentry.Json.{
  Json, Fields, Items, nil, cons, bool, str, num, arr, obj, none_left, insert, value, to_string,
  to_bool, to_items, to_fields, to_array, is_object,
}
use flashsentry.Platform.{Platform}
use flashsentry.Device.Codec.{device_to_json, device_from_json}
use flashsentry.Policy.{PolicySnapshot}
use flashsentry.Policy.Blob.{
  DecodeError, too_small, invalid_header, truncated, bad_hmac, corrupt_device, end_of_devices,
  end_of_blocks, block_to_json,
}
use flashsentry.Policy.Engine.Files.{
  Env, StoreError, cannot_open, commit_failed, not_found, bad_store,
}
use flashsentry.Policy.Engine.{
  M, pure, current_snapshot, ◌>>=◌, load, upsert_device, remove_device, clear_devices, block_drive,
  unblock_drive,
}
use flashsentry.Policy.Gateway.{import_loop}

-- The text that the engine gives for an error.
decode_error_text : DecodeError → Text
decode_error_text too_small = codes "Policy store file too small"
decode_error_text invalid_header = codes "Invalid policy store header"
decode_error_text truncated = codes "Truncated policy store"
decode_error_text bad_hmac = codes "Policy store integrity check failed (HMAC)"
decode_error_text corrupt_device = codes "Corrupt device record"
decode_error_text end_of_devices = codes "Unexpected end of device data"
decode_error_text end_of_blocks = codes "Unexpected end of block data"

unfoldable pub error_text : StoreError → Text
unfolding decode_error_text
error_text cannot_open = codes "Cannot open policy store for writing"
error_text commit_failed = codes "Failed to commit policy store"
error_text not_found = codes "Policy store not found"
error_text (bad_store e) = decode_error_text e

-- The objects that most answers are.
unfoldable pub ok_reply : Bool → Fields
unfolding insert
ok_reply ok = insert "ok" (bool ok) none_left

unfoldable pub error_reply : Text → Fields
unfolding insert
error_reply error = insert "error" (str error) (insert "ok" (bool false) none_left)

-- What a request leaves: the answer, and the text that it wrote to a file.
pub record Reply : Type 0 where
  pub response : Fields
  pub written : Option Bytes

abbrev pub replied : Fields → Reply
replied o = record { response = o; written = none }

-- A member that is text.
abbrev pub text_of : Fields → String → Text
unfolding value to_string
text_of req k = to_string (value k req) []

-- What a path of a request leads to: the bytes of the file, if it opens for reading, and whether it
-- opens for writing.
pub record Target : Type 0 where
  pub file : Option Bytes
  pub opens : Bool

load_reply : Option StoreError → Fields
unfolding ok_reply error_text insert
load_reply none = ok_reply true
load_reply (some e) = insert "error" (str (error_text e)) (ok_reply false)

unfoldable pub import_reply : ℕ → Fields
unfolding insert
import_reply count = insert "count" (num (pos count)) (insert "ok" (bool true) none_left)

-- The answer to `snapshot`.
unfoldable pub snapshot_reply : Platform → PolicySnapshot → Fields
unfolding insert to_array device_to_json block_to_json
snapshot_reply p snap =
    insert "blocks" (arr (to_array (λ e. obj (block_to_json p e)) snap.blocks)) (
      insert "devices" (arr (to_array (λ r. obj (device_to_json p r)) snap.devices))
        (insert "ok" (bool true) none_left))

module _ (p : Platform) (env env' : Env) (target : Target) where
  -- `export_json`; a write to a file that opened does not fail.
  export_reply : Bool → PolicySnapshot → Reply
  unfolding insert to_array ok_reply
  export_reply pretty snap =
      let root =
        insert "devices" (arr (to_array (λ r. obj (device_to_json p r)) snap.devices))
          (insert "version" (str (codes "1.0")) none_left) in
      let text = if pretty then p.to_indented root else p.to_compact root in
      record {
        response = ok_reply target.opens;
        written = if target.opens then some text else none;
      }

  unfoldable pub import_request : Text → Bool → Option Bytes → M Fields
  unfolding error_reply import_reply import_loop clear_devices to_items value to_fields
  import_request actor merge none = pure (error_reply (codes "cannot open import"))
  import_request actor merge (some file) =
      let arr = to_items (value "devices" (to_fields (p.parse_json file))) in
      let imported = (import_loop p env actor arr 0 >>= λ count. pure (import_reply count)) in
      let replaced = (clear_devices p env actor (codes "import replace") >>= λ _. imported) in
      if not merge then replaced else imported

  -- `dispatch`
  unfoldable pub dispatch : Fields → M Reply
  unfolding ok_reply error_reply load_reply snapshot_reply export_reply import_request value
      to_string to_bool to_fields text_eq load current_snapshot upsert_device remove_device
      clear_devices block_drive unblock_drive
  dispatch req =
      let op = text_of req "op" in
      let actor = to_string (value "actor" req) (codes "policyd") in
      let reason = text_of req "reason" in
      let unique_id = text_of req "unique_id" in
      let drive_key = text_of req "drive_key" in
      let label = text_of req "label" in
      let ok = λ (b : Bool). pure (replied (ok_reply b)) in
      if text_eq op (codes "ping")
      then pure (replied (ok_reply true))
      else if text_eq op (codes "load") || text_eq op (codes "reload")
      then (load p env env' >>= λ e. pure (replied (load_reply e)))
      else if text_eq op (codes "snapshot")
      then (current_snapshot >>= λ snap. pure (replied (snapshot_reply p snap)))
      else if text_eq op (codes "upsert_device")
      then (upsert_device p env (device_from_json p (to_fields (value "record" req))) actor reason
          >>= ok)
      else if text_eq op (codes "remove_device")
      then (remove_device p env unique_id actor reason >>= ok)
      else if text_eq op (codes "clear_devices")
      then (clear_devices p env actor reason >>= ok)
      else if text_eq op (codes "block_drive")
      then (block_drive p env drive_key unique_id label actor >>= ok)
      else if text_eq op (codes "unblock_drive")
      then (unblock_drive p env drive_key unique_id actor >>= ok)
      else if text_eq op (codes "export_json")
      then (current_snapshot >>= λ snap. pure (export_reply (to_bool (value "pretty" req)) snap))
      else if text_eq op (codes "import_json")
      then (import_request actor (to_bool (value "merge" req)) target.file >>= λ o.
          pure (replied o))
      else pure (replied (error_reply (codes "unknown op: " ++ op)))

  -- The handler of `readyRead`, on the bytes that had arrived, `trimmed` being `QByteArray::trimmed`:
  -- what it writes to the socket.
  unfoldable pub ready_read : (Bytes → Bytes) → Bytes → M Bytes
  unfolding dispatch error_reply is_object to_fields is_empty
  ready_read trimmed arrived =
      let line = trimmed arrived in
      let doc = p.parse_json line in
      let write = λ (o : Fields). p.to_compact o ++ b'\n' ∷ [] in
      let answered = (dispatch (to_fields doc) >>= λ reply. pure (write reply.response)) in
      if is_empty line
      then pure (write (error_reply (codes "empty request")))
      else if is_object doc
      then answered
      else pure (write (error_reply (codes "invalid json")))
