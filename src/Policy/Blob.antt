-- ===== src/Policy/Blob.antt =====
-- src/policy/PolicyBlobCodec.cpp: the signed file of the policy store.
pub mod Stream
pub mod RoundTrip
pub mod Signed
pub mod Reject
use flashsentry.Base.{
  ℕ, zero, suc, ◌+◌, ◌*◌, ◌%◌, ◌^◌, Bool, true, false, not, ◌&&◌, ◌||◌, Option, none, some, List,
  [], ◌∷◌, ◌++◌, Text, Bytes, ℤ, pos, ltb, ◌==◌, if◌then◌else◌, length, text_eq, is_empty, to_int32,
  ltb_ℤ, codes,
}
use flashsentry.Json.{
  Json, Fields, none_left, obj, str, insert, value, to_string, to_fields, is_object,
}
use flashsentry.Platform.{Platform}
use flashsentry.Device.{DeviceRecord, default_record}
use flashsentry.Device.Codec.{device_to_json, device_from_json}
use flashsentry.Policy.{BlockedDriveEntry, PolicySnapshot}
use Stream.{le16, le32, read16, read32, read_raw}

abbrev pub magic : ℕ
magic = 0x31505346

abbrev pub version : ℕ
version = 1

abbrev pub max_device_blob : ℕ
max_device_blob = 8 * 1024 * 1024

-- The texts that `decode` leaves in `*error`.
pub data DecodeError : Type 0 where
  too_small invalid_header truncated bad_hmac : DecodeError
  corrupt_device end_of_devices end_of_blocks : DecodeError

-- What `decode` leaves behind: the error if it returns false, and the out parameter.
pub record Decoded : Type 0 where
  pub error : Option DecodeError
  pub out : PolicySnapshot

-- The checks of `decode` on the size of the file and its header. The sums are of type int: where they
-- overflow, which C++ leaves open, they wrap.
unfoldable pub header_error : ℕ → ℕ → ℕ → ℕ → Option DecodeError
header_error size magic_read version_read payload_len =
    if ltb size (10 + 32)
    then some too_small
    else if not (magic_read == magic) || not (version_read == version)
    then some invalid_header
    else if ltb_ℤ (pos size) (to_int32 ((10 + payload_len + 32) % 2 ^ 32))
    then some truncated
    else none

-- The same, on the fields as they are read from the file.
unfoldable pub file_header_error : Bytes → Option DecodeError
unfolding header_error
file_header_error file_bytes =
    let (magic_read, s) = read32 file_bytes in
    let (version_read, s') = read16 s in
    let (payload_len, _) = read32 s' in
    header_error (length file_bytes) magic_read version_read payload_len

module _ (p : Platform) where
  unfoldable pub serialize_device : DeviceRecord → Bytes
  serialize_device r = p.to_compact (device_to_json p r)

  unfoldable pub deserialize_device : Bytes → DeviceRecord
  unfolding is_object
  deserialize_device blob =
      let doc = p.parse_json blob in
      if not (is_object doc) then default_record else device_from_json p (to_fields doc)

  unfoldable pub block_to_json : BlockedDriveEntry → Fields
  unfolding insert
  block_to_json e = insert "blocked_at" (str (p.to_iso e.blocked_at)) (
      insert "label" (str e.label)
        (insert "unique_id" (str e.unique_id) (insert "drive_key" (str e.drive_key) none_left)))

  unfoldable pub block_from_json : Fields → BlockedDriveEntry
  unfolding value to_string
  block_from_json o = record {
    drive_key = to_string (value "drive_key" o) [];
    unique_id = to_string (value "unique_id" o) [];
    label = to_string (value "label" o) [];
    blocked_at = p.from_iso (to_string (value "blocked_at" o) []);
  }

  unfoldable pub serialize_block : BlockedDriveEntry → Bytes
  serialize_block e = p.to_compact (block_to_json e)

  unfoldable pub deserialize_block : Bytes → BlockedDriveEntry
  unfolding to_fields
  deserialize_block blob = block_from_json (to_fields (p.parse_json blob))

  -- The loops of `encode`, over devices and blocks.
  unfoldable pub encode_devices : List DeviceRecord → Bytes
  encode_devices [] = []
  encode_devices (r ∷ rs) =
      let blob = serialize_device r in le32 (length blob) ++ (blob ++ encode_devices rs)

  unfoldable pub encode_blocks : List BlockedDriveEntry → Bytes
  encode_blocks [] = []
  encode_blocks (e ∷ es) =
      let blob = serialize_block e in le32 (length blob) ++ (blob ++ encode_blocks es)

  unfoldable pub encode : PolicySnapshot → Bytes
  encode s =
      le32 (length s.devices)
      ++ (encode_devices s.devices ++ (le32 (length s.blocks) ++ encode_blocks s.blocks))

  unfoldable pub sign : Bytes → Bytes → Bytes
  sign payload key = p.hmac key payload

  unfoldable pub verify : Bytes → Bytes → Bytes → Bool
  unfolding sign text_eq
  verify payload signature key =
      let expected = sign payload key in
      if not (length expected == length signature) then false else text_eq expected signature

  -- The bytes that `writeStoreFile` of src/policy/PolicyStoreEngine.cpp writes.
  unfoldable pub store_bytes : Bytes → PolicySnapshot → Bytes
  unfolding sign
  store_bytes key s =
      let payload = encode s in
      le32 magic ++ (le16 version ++ (le32 (length payload) ++ (payload ++ sign payload key)))

  -- `if (!rec.uniqueId.isEmpty()) out.devices.append(rec)`
  unfoldable pub push_device : List DeviceRecord → DeviceRecord → List DeviceRecord
  unfolding is_empty
  push_device out r = if not (is_empty r.unique_id) then out ++ r ∷ [] else out

  unfoldable pub push_block : List BlockedDriveEntry → BlockedDriveEntry → List BlockedDriveEntry
  unfolding is_empty
  push_block out e =
      if not (is_empty e.drive_key) || not (is_empty e.unique_id) then out ++ e ∷ [] else out

  -- The device loop, with its count of rounds left: the error, the devices read and what is unread.
  unfoldable pub read_devices :
      ℕ → Bytes → List DeviceRecord → Option DecodeError × List DeviceRecord × Bytes
  unfolding push_device
  read_devices zero s out = (none, out, s)
  read_devices (suc n) s out =
      let (blob_len, s') = read32 s in
      elim (ltb max_device_blob blob_len) [
        | true ↦ (some corrupt_device, out, s')
        | false ↦ elim (read_raw blob_len s') [
          | none ↦ (some end_of_devices, out, s')
          | some (blob, s'') ↦ read_devices n s'' (push_device out (deserialize_device blob))
        ]
      ]

  unfoldable pub read_blocks :
      ℕ → Bytes → List BlockedDriveEntry → Option DecodeError × List BlockedDriveEntry
  unfolding push_block
  read_blocks zero s out = (none, out)
  read_blocks (suc n) s out =
      let (blob_len, s') = read32 s in
      elim (read_raw blob_len s') [
        | none ↦ (some end_of_blocks, out)
        | some (blob, s'') ↦ read_blocks n s'' (push_block out (deserialize_block blob))
      ]

  -- `decode` from `QDataStream in(payload)` on.
  unfoldable pub parse_blocks : Bytes → List DeviceRecord → Decoded
  parse_blocks s devices =
      let (block_count, s') = read32 s in
      let (failed, blocks) = read_blocks block_count s' [] in
      record { error = failed; out = record { devices = devices; blocks = blocks } }

  unfoldable pub after_devices :
      PolicySnapshot → Option DecodeError × List DeviceRecord × Bytes → Decoded
  unfolding parse_blocks
  after_devices out (some e, devices, s) = record {
    error = some e;
    out = record out { devices = devices };
  }
  after_devices out (none, devices, s) = parse_blocks s devices

  unfoldable pub parse_payload : Bytes → PolicySnapshot → Decoded
  unfolding after_devices
  parse_payload payload out =
      let (device_count, s) = read32 payload in after_devices out (read_devices device_count s [])

  -- `decode` after the header's checks.
  unfoldable pub decode_signed : Bytes → Bytes → Bytes → PolicySnapshot → Decoded
  decode_signed key payload sig out =
      if not (verify payload sig key)
      then record { error = some bad_hmac; out = out }
      else parse_payload payload out

  unfoldable pub decode_headed : Bytes → Bytes → PolicySnapshot → Option DecodeError → ℕ → Decoded
  decode_headed key file_bytes out (some e) payload_len = record { error = some e; out = out }
  decode_headed key file_bytes out none payload_len =
      decode_signed key (p.mid file_bytes (pos 10) (to_int32 payload_len))
        (p.mid file_bytes (to_int32 ((10 + payload_len) % 2 ^ 32)) (pos 32)) out

  -- `key` is what `loadOrCreateKey` returns.
  unfoldable pub decode : Bytes → Bytes → PolicySnapshot → Decoded
  unfolding header_error decode_headed
  decode key file_bytes out =
      let (magic_read, s) = read32 file_bytes in
      let (version_read, s') = read16 s in
      let (payload_len, _) = read32 s' in
      decode_headed key file_bytes out
        (header_error (length file_bytes) magic_read version_read payload_len) payload_len
