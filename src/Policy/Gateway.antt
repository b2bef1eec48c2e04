-- ===== src/Policy/Gateway.antt =====
-- The mutations of `PolicyGateway` (include/policy/PolicyGateway.h) as PolicyInProcessGateway
-- (src/policy/PolicyInProcessGateway.cpp) passes them to its engine, and histories of them.
pub mod History
pub mod Durable
pub mod Interface
use flashsentry.Base.{
  none, Option, some, ℤ, pos, negsuc, Bytes, ℕ, suc, Bool, not, Text, if◌then◌else◌, is_empty,
  codes,
}
use flashsentry.Json.{
  arr, str, obj, none_left, insert, to_array, Json, value, to_items, Items, nil, cons, to_fields,
  is_object,
}
use flashsentry.Platform.{Platform}
use flashsentry.Device.{DeviceRecord}
use flashsentry.Device.Codec.{device_to_json, device_from_json}
use flashsentry.Policy.Engine.Files.{Env}
use flashsentry.Policy.Engine.{
  M, pure, current_snapshot, ◌>>=◌, upsert_device, remove_device, clear_devices, block_drive,
  unblock_drive,
}

pub data Call : Type 0 where
  upsert : DeviceRecord → Text → Call
  remove : Text → Text → Call
  clear : Text → Call
  block : Text → Text → Text → Call
  unblock : Text → Text → Call

module _ (p : Platform) where
  -- One mutation, by `actor`.
  unfoldable pub call : Env → Text → Call → M Bool
  call env actor (upsert r reason) = upsert_device p env r actor reason
  call env actor (remove id reason) = remove_device p env id actor reason
  call env actor (clear reason) = clear_devices p env actor reason
  call env actor (block drive_key id label) = block_drive p env drive_key id label actor
  call env actor (unblock drive_key id) = unblock_drive p env drive_key id actor

  -- The loop of `importJson`, with the count so far.
  unfoldable pub import_loop : Env → Text → Items → ℕ → M ℕ
  unfolding upsert_device is_object to_fields is_empty
  import_loop env actor nil count = pure count
  import_loop env actor (cons v vs) count =
      let r = device_from_json p (to_fields v) in
      let skip = import_loop env actor vs count in
      let counted = do
        ok ← upsert_device p env r actor (codes "import")
        import_loop env actor vs (if ok then suc count else count)
      in if not (is_object v) then skip else if is_empty r.unique_id then skip else counted

  unfoldable pub import_document : Env → Text → Bool → Json → M ℤ
  unfolding clear_devices current_snapshot import_loop value to_items to_fields is_object
  import_document env actor merge doc =
      let loop = do
        count ← import_loop env actor (to_items (value "devices" (to_fields doc))) 0
        pure (pos count)
      in let merged = current_snapshot >>= λ _. loop in
        let replace = clear_devices p env actor (codes "import replace") >>= λ _. loop in
        if not (is_object doc) then pure (negsuc 0) else if merge then merged else replace

  -- `importJson` of the file's bytes, or of a file that does not open: the count of the records
  -- that were written, or -1.
  unfoldable pub import_json : Env → Text → Bool → Option Bytes → M ℤ
  unfolding import_document
  import_json env actor merge none = pure (negsuc 0)
  import_json env actor merge (some file) = import_document env actor merge (p.parse_json file)

  -- `exportJson`: the text that it writes, or nothing where the file does not open.
  unfoldable pub export_json : Bool → Bool → M (Option Bytes)
  unfolding current_snapshot to_array insert
  export_json opens pretty_print = current_snapshot >>= λ snap.
      let root =
        insert "devices" (arr (to_array (λ r. obj (device_to_json p r)) snap.devices))
          (insert "version" (str (codes "1.0")) none_left) in
      pure (
        if not opens
        then none
        else some (if pretty_print then p.to_indented root else p.to_compact root))
