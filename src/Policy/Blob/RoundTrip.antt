-- ===== src/Policy/Blob/RoundTrip.antt =====
-- What `encode` writes, `decode` reads back (src/policy/PolicyBlobCodec.cpp).
use mathlib.Core.List.{append-nil, append_assoc}
use flashsentry.Base.{
  ◌&&◌, ℕ, suc, ◌≤◌, ◌<◌, ◌^◌, ◌≡◌, subst, false, none, List, [], ◌∷◌, ◌++◌, map, Bytes, length,
  All, is_empty, length-append, arith, le→ltb,
}
use flashsentry.Json.{obj, is_object, to_fields}
use flashsentry.Platform.{Platform}
use flashsentry.Device.{DeviceRecord}
use flashsentry.Device.Codec.{device_to_json}
use flashsentry.Device.Stored.{IsIso, IsStorable, stored, device-round_trip}
use flashsentry.Policy.{BlockedDriveEntry, PolicySnapshot}
use flashsentry.Policy.Blob.{
  serialize_device, deserialize_device, serialize_block, deserialize_block, block_to_json,
  block_from_json, encode_devices, encode_blocks, encode, read_devices, read_blocks, parse_blocks,
  parse_payload, push_device, push_block, max_device_blob,
}
use flashsentry.Policy.Blob.Stream.{le32, read32-le32, read_raw-append}

-- The device is one that the store can hold: it has an id, its text parses, and its blob is not
-- longer than `decode` allows.
pub record IsDecodable (p : Platform) (r : DeviceRecord) : Type 0 where
  pub named : is_empty r.unique_id ≡ false
  pub storable : IsStorable p r
  pub parses : p.parse_json (serialize_device p r) ≡ obj (device_to_json p r)
  pub fits : length (serialize_device p r) ≤ max_device_blob

pub record IsDecodableBlock (p : Platform) (e : BlockedDriveEntry) : Type 0 where
  pub named : (is_empty e.drive_key && is_empty e.unique_id) ≡ false
  pub blocked_at : IsIso p e.blocked_at
  pub parses : p.parse_json (serialize_block p e) ≡ obj (block_to_json p e)
  pub fits : length (serialize_block p e) < 2 ^ 31

module _ (p : Platform) where
  deserialize-serialize_device :
      (r : DeviceRecord) → IsDecodable p r → deserialize_device p (serialize_device p r) ≡ stored r
  unfolding deserialize_device is_object to_fields
  deserialize-serialize_device r h = rw h.parses (device-round_trip p r h.storable)

  deserialize-serialize_block :
      (e : BlockedDriveEntry) → IsDecodableBlock p e → deserialize_block p (serialize_block p e) ≡ e
  unfolding deserialize_block block_from_json block_to_json
  deserialize-serialize_block e h = rw (h.parses, block_to_json, h.blocked_at)

  push_device-stored :
      (out : List DeviceRecord) (r : DeviceRecord)
      → is_empty r.unique_id ≡ false
      → push_device p out (stored r) ≡ out ++ stored r ∷ []
  unfolding push_device stored
  push_device-stored out r h = rw h

  push_block-named :
      (out : List BlockedDriveEntry) (e : BlockedDriveEntry)
      → IsDecodableBlock p e
      → push_block p out e ≡ out ++ e ∷ []
  unfolding push_block
  push_block-named out e h = ground (arith, h.named)

  -- One round of each loop, on a blob behind its length.
  pub read_devices-blob :
      (n : ℕ) (b s : Bytes) (out : List DeviceRecord)
      → length b ≤ max_device_blob
      → read_devices p (suc n) (le32 (length b) ++ (b ++ s)) out
        ≡ read_devices p n s (push_device p out (deserialize_device p b))
  unfolding read_devices
  read_devices-blob n b s out h =
      let read = read32-le32 (length b) (b ++ s) (omega arith) in
      rw (read, le→ltb max_device_blob (length b) h, read_devices)
        (rw (read, read_raw-append b s (omega arith)))

  read_blocks-blob :
      (n : ℕ) (b s : Bytes) (out : List BlockedDriveEntry)
      → length b < 2 ^ 31
      → read_blocks p (suc n) (le32 (length b) ++ (b ++ s)) out
        ≡ read_blocks p n s (push_block p out (deserialize_block p b))
  unfolding read_blocks
  read_blocks-blob n b s out h =
      rw (read32-le32 (length b) (b ++ s) (omega arith), read_raw-append b s h, read_blocks)

  pub regroup : (a b c d : Bytes) → (a ++ (b ++ c)) ++ d ≡ a ++ (b ++ (c ++ d))
  regroup a b c d = simp append_assoc

  -- The loop gets through decodable devices, whatever stands behind them.
  pub read_devices-prefix :
      (rs rest : List DeviceRecord) (s : Bytes) (out : List DeviceRecord)
      → All (IsDecodable p) rs
      → read_devices p (length (rs ++ rest)) (encode_devices p (rs ++ rest) ++ s) out
        ≡ read_devices p (length rest) (encode_devices p rest ++ s) (out ++ map stored rs)
  unfolding encode_devices
  read_devices-prefix [] rest s out h = rw append-nil
  read_devices-prefix (r ∷ rs) rest s out (h, hs) =
      let b = serialize_device p r in
      rw (
        regroup (le32 (length b)) b (encode_devices p (rs ++ rest)) s,
        read_devices-blob (length (rs ++ rest)) b (encode_devices p (rs ++ rest) ++ s) out h.fits,
        deserialize-serialize_device r h,
        push_device-stored out r h.named,
        read_devices-prefix rs rest s (out ++ stored r ∷ []) hs,
        append_assoc,
      )

  read_devices-encode :
      (rs : List DeviceRecord) (s : Bytes) (out : List DeviceRecord)
      → All (IsDecodable p) rs
      → read_devices p (length rs) (encode_devices p rs ++ s) out ≡ (none, out ++ map stored rs, s)
  unfolding read_devices encode_devices
  read_devices-encode rs s out h =
      subst
        (λ l.
          read_devices p (length l) (encode_devices p l ++ s) out ≡ (none, out ++ map stored rs, s))
        (append-nil rs) (read_devices-prefix rs [] s out h)

  pub read_blocks-encode :
      (es : List BlockedDriveEntry) (out : List BlockedDriveEntry)
      → All (IsDecodableBlock p) es
      → read_blocks p (length es) (encode_blocks p es) out ≡ (none, out ++ es)
  unfolding encode_blocks
  read_blocks-encode [] out h = unfold read_blocks in rw append-nil
  read_blocks-encode (e ∷ es) out (h, hs) =
      let b = serialize_block p e in
      rw (
        read_blocks-blob (length es) b (encode_blocks p es) out h.fits,
        deserialize-serialize_block e h,
        push_block-named out e h,
        read_blocks-encode es (out ++ e ∷ []) hs,
        append_assoc,
      )

  abbrev pub stored_snapshot : PolicySnapshot → PolicySnapshot
  stored_snapshot s = record s { devices = map stored s.devices }

  -- Each entry takes at least the four bytes of its length.
  pub length-encode_devices : (rs : List DeviceRecord) → length rs ≤ length (encode_devices p rs)
  unfolding encode_devices le32
  length-encode_devices [] = omega arith
  length-encode_devices (r ∷ rs) =
      let b = serialize_device p r in
      omega (arith, length-encode_devices rs, length-append b (encode_devices p rs))

  length-encode_blocks : (es : List BlockedDriveEntry) → length es ≤ length (encode_blocks p es)
  unfolding encode_blocks le32
  length-encode_blocks [] = omega arith
  length-encode_blocks (e ∷ es) =
      let b = serialize_block p e in
      omega (arith, length-encode_blocks es, length-append b (encode_blocks p es))

  pub few_devices : (s : PolicySnapshot) → length s.devices ≤ length (encode p s)
  unfolding encode
  few_devices s =
      let blocks = le32 (length s.blocks) ++ encode_blocks p s.blocks in
      omega (
        arith,
        length-encode_devices s.devices,
        length-append (encode_devices p s.devices) blocks,
        length-append (le32 (length s.devices)) (encode_devices p s.devices ++ blocks),
      )

  few_blocks : (s : PolicySnapshot) → length s.blocks ≤ length (encode p s)
  unfolding encode
  few_blocks s =
      let blocks = le32 (length s.blocks) ++ encode_blocks p s.blocks in
      omega (
        arith,
        length-encode_blocks s.blocks,
        length-append (le32 (length s.blocks)) (encode_blocks p s.blocks),
        length-append (encode_devices p s.devices) blocks,
        length-append (le32 (length s.devices)) (encode_devices p s.devices ++ blocks),
      )

  pub parse_payload-encode :
      (s out : PolicySnapshot)
      → All (IsDecodable p) s.devices
      → All (IsDecodableBlock p) s.blocks
      → length (encode p s) < 2 ^ 31
      → parse_payload p (encode p s) out ≡ record { error = none; out = stored_snapshot s }
  unfolding parse_payload parse_blocks encode
  parse_payload-encode s out hd hb n = rw (
    read32-le32 (length s.devices) _ (omega (arith, few_devices s, n)),
    read_devices-encode s.devices _ [] hd,
    read32-le32 (length s.blocks) _ (omega (arith, few_blocks s, n)),
    read_blocks-encode s.blocks [] hb,
  )
