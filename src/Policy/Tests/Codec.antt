-- ===== src/Policy/Tests/Codec.antt =====
-- The theorems on the signed file (src/policy/PolicyBlobCodec.cpp) at concrete files.
use flashsentry.Base.{
  ℕ, zero, suc, ◌+◌, ◌<◌, ◌++◌, ◌+◌, ◌^◌, ◌≡◌, refl, none, some, [], ◌∷◌, Bytes, length, arith, ap,
  length-append,
}
use flashsentry.Platform.{Platform, PlatformLaws}
use flashsentry.Device.Codec.{device_to_json, device_from_json}
use flashsentry.Device.Stored.{stored, device-round_trip}
use flashsentry.Policy.Blob.{
  DecodeError, corrupt_device, serialize_device, encode, encode_devices, encode_blocks, store_bytes,
  decode, max_device_blob,
}
use flashsentry.Policy.Blob.Stream.{le32}
use flashsentry.Policy.Blob.RoundTrip.{stored_snapshot}
use flashsentry.Policy.Blob.Signed.{decode-store_bytes}
use flashsentry.Policy.Blob.Reject.{decode-forged, decode-oversized}
use flashsentry.Policy.Engine.Files.{empty_snapshot}
use flashsentry.Policy.Tests.{
  zeros, bare, stick, qt, qt_laws, stick-IsStorable, stick-IsDecodable, drive-IsDecodableBlock,
  both, only_stick, both_small, forged, forged_differs,
}

device-round_trip_example : device_from_json qt (device_to_json qt stick) ≡ stored stick
device-round_trip_example = device-round_trip qt stick stick-IsStorable

decode-store_bytes_example :
    decode qt zeros (store_bytes qt zeros both) empty_snapshot
    ≡ record { error = none; out = stored_snapshot qt both }
decode-store_bytes_example =
    decode-store_bytes qt qt_laws zeros both empty_snapshot (stick-IsDecodable, tt)
      (drive-IsDecodableBlock, tt) both_small

decode-forged_example :
    (e : DecodeError) × (decode qt zeros forged only_stick
      ≡ record { error = some e; out = only_stick })
decode-forged_example = decode-forged qt zeros forged only_stick forged_differs

big : ℕ → Bytes
big zero = []
big (suc n) = 0 ∷ big n

length-big : (n : ℕ) → length (big n) ≡ n
unfolding big
length-big zero = refl
length-big (suc n) = ap suc (length-big n)

-- A platform whose JSON of any device has one byte more than 8 MiB.
abbrev wide : Platform
wide = record bare { to_compact = λ o. big (max_device_blob + 1) }

wide_laws : PlatformLaws wide
wide_laws = record { mid_within = λ b i n h. refl; length-hmac = λ key payload. refl }

wide_blob : length (serialize_device wide stick) ≡ max_device_blob + 1
unfolding serialize_device
wide_blob = length-big (max_device_blob + 1)

wide_payload : 10 + length (encode wide only_stick) + 32 < 2 ^ 31
unfolding encode encode_devices encode_blocks le32
wide_payload = omega (
  arith,
  wide_blob,
  length-append (serialize_device wide stick ++ []) (le32 0 ++ []),
  length-append (serialize_device wide stick) [],
)

decode-oversized_example :
    (decode wide zeros (store_bytes wide zeros only_stick) empty_snapshot).error
    ≡ some corrupt_device
decode-oversized_example =
    decode-oversized wide wide_laws zeros only_stick empty_snapshot [] [] stick refl tt
      (omega (arith, wide_blob)) (omega (arith, wide_blob)) wide_payload
