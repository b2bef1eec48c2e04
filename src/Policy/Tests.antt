-- ===== src/Policy/Tests.antt =====
-- A concrete platform, records and files for the theorems on the policy store.
mod Codec
pub mod Engine
mod Daemon
use flashsentry.Base.{
  is_empty, ℕ, zero, suc, ◌+◌, ◌<◌, ◌≢◌, ◌++◌, ◌+◌, ◌^◌, ◌≡◌, refl, true, false, none, some, [],
  ◌∷◌, Text, Bytes, ℤ, pos, length, take, drop, arith, codes, ap, map, to_int32, ◌+ℤ◌,
  length-append, if◌then◌else◌, any, keep_if, not, text_eq,
}
use flashsentry.Json.{Json, Fields, obj, null, value, is_object, none_left}
use flashsentry.Platform.{Platform, PlatformLaws, DateTime}
use flashsentry.Device.{DeviceRecord, default_record}
use flashsentry.Device.Codec.{device_to_json, manifest_to_json, group_to_json, device_from_json}
use flashsentry.Device.Stored.{IsStorable, IsIso, stored, device-round_trip}
use flashsentry.Policy.{BlockedDriveEntry, PolicySnapshot}
use flashsentry.Policy.Blob.{
  DecodeError, corrupt_device, serialize_device, serialize_block, block_to_json, encode,
  encode_devices, encode_blocks, store_bytes, decode, max_device_blob, magic, version,
}
use flashsentry.Policy.Blob.Stream.{le16, le32, read16, read32}
use flashsentry.Policy.Blob.RoundTrip.{IsDecodable, IsDecodableBlock, stored_snapshot}
use flashsentry.Policy.Blob.Signed.{decode-store_bytes}
use flashsentry.Policy.Blob.Reject.{
  payload_len_of, payload_of, signature_of, decode-forged, decode-oversized,
}
use flashsentry.Policy.Engine.Files.{
  World, Env, StoreError, free, load_or_create_key, empty_snapshot,
}
use flashsentry.Policy.Engine.{done, stuck, load, put_device, drop_device, matches}
use flashsentry.Policy.Engine.Commits.{committed, audit_line, upsert_device-committed}
use flashsentry.Policy.Engine.Devices.{find_device, find-put_device, find-drop_device}
use flashsentry.Policy.Engine.Blocks.{
  is_blocked, is_blocked-any, is_blocked-append, is_blocked-keep_if,
}
use flashsentry.Policy.Engine.Reload.{load-forged, load-new}
use flashsentry.Policy.Gateway.{upsert, block, call}
use flashsentry.Policy.Gateway.History.{
  IsReady, Ends, here, next, call-Ends, repeated_block-stuck, Reach-IsReady,
}
use flashsentry.Policy.Gateway.Durable.{load-call}

abbrev pub iso : DateTime → Text
iso none = []
iso (some n) = n ∷ []

abbrev pub from : Text → DateTime
from [] = none
from (n ∷ s) = some n

abbrev pub middle : Bytes → ℤ → ℤ → Bytes
middle b (pos i) (pos n) = take n (drop i b)
middle b _ _ = []

abbrev pub zeros : Bytes
zeros =
    0 ∷ 0 ∷ 0 ∷ 0 ∷ 0 ∷ 0 ∷ 0 ∷ 0 ∷ 0 ∷ 0 ∷ 0 ∷ 0 ∷ 0 ∷ 0 ∷ 0 ∷ 0 ∷ 0 ∷ 0 ∷ 0 ∷ 0 ∷ 0 ∷ 0 ∷ 0 ∷ 0
    ∷ 0 ∷ 0 ∷ 0 ∷ 0 ∷ 0 ∷ 0 ∷ 0 ∷ 0 ∷ []

-- Qt without JSON.
abbrev pub bare : Platform
bare = record {
  to_iso = iso;
  from_iso = from;
  to_compact = λ o. [];
  to_indented = λ o. [];
  parse_json = λ b. null;
  is_letter = λ c. true;
  same_ignoring_case = λ a b. false;
  mid = middle;
  hmac = λ key payload. zeros;
}

abbrev pub stick : DeviceRecord
stick = record default_record { unique_id = codes "S1"; first_seen = some 7 }

abbrev pub drive : BlockedDriveEntry
drive = record { drive_key = codes "K"; unique_id = []; label = []; blocked_at = some 9 }

-- The texts `0` and `1` are the JSON of the stick and of the drive.
abbrev pub parsed : Bytes → Json
parsed [] = null
parsed (zero ∷ b) = obj (device_to_json bare stick)
parsed (suc n ∷ b) = obj (block_to_json bare drive)

abbrev pub compact : Fields → Bytes
unfolding value
compact o = elim (value "drive_key" o) [ null ↦ 0 ∷ [] | _ ↦ 1 ∷ [] ]

abbrev pub qt : Platform
qt = record bare { to_compact = compact; parse_json = parsed }

pub qt_laws : PlatformLaws qt
qt_laws = record { mid_within = λ b i n h. refl; length-hmac = λ key payload. refl }

pub IsStorable-stick : (p : Platform) → IsIso p (some 7) → IsIso p none → IsStorable p stick
IsStorable-stick p seven never = record {
  first_seen = seven;
  last_seen = never;
  last_hashed = never;
  updated_at = never;
  built_at = tt;
  duration = omega arith;
  size = omega arith;
  trust = unfold flashsentry.Json.in_int in refl;
}

pub stick-IsStorable : IsStorable qt stick
stick-IsStorable = IsStorable-stick qt refl refl

pub stick-IsDecodable : IsDecodable qt stick
unfolding serialize_device device_to_json is_empty compact manifest_to_json group_to_json
stick-IsDecodable = record {
  named = refl;
  storable = stick-IsStorable;
  parses = refl;
  fits = omega arith;
}

pub drive-IsDecodableBlock : IsDecodableBlock qt drive
unfolding serialize_block block_to_json is_empty compact
drive-IsDecodableBlock = record {
  named = refl;
  blocked_at = refl;
  parses = refl;
  fits = omega arith;
}

abbrev pub both : PolicySnapshot
both = record { devices = stick ∷ []; blocks = drive ∷ [] }

abbrev pub only_stick : PolicySnapshot
only_stick = record { devices = stick ∷ []; blocks = [] }

pub both_small : 10 + length (encode qt both) + 32 < 2 ^ 31
unfolding encode encode_devices encode_blocks serialize_device serialize_block device_to_json
    block_to_json le32 compact
both_small = omega arith

pub only_stick_small : 10 + length (encode qt only_stick) + 32 < 2 ^ 31
unfolding encode encode_devices encode_blocks serialize_device device_to_json le32 compact
only_stick_small = omega arith

-- A header, no payload, and 32 ones.
abbrev pub forged : Bytes
forged = le32 magic ++ (le16 version ++ (le32 0 ++ map suc zeros))

pub forged_differs : qt.hmac zeros (payload_of qt forged) ≢ signature_of qt forged
unfolding payload_len_of payload_of signature_of le32 le16 read32 read16 to_int32 ◌+ℤ◌
forged_differs e = cc
