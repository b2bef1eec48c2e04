-- ===== src/Policy/Blob/Reject.antt =====
-- What `decode` does not accept (src/policy/PolicyBlobCodec.cpp).
use flashsentry.Base.{
  ℕ, suc, ◌+◌, ◌%◌, ◌<◌, ◌^◌, ◌≡◌, refl, ◌≢◌, Option, none, some, List, [], ◌∷◌, ◌++◌, map, Bytes,
  pos, length, All, arith, text_eq_iff, to_int32, lt→ltb,
}
use flashsentry.Platform.{Platform, PlatformLaws}
use flashsentry.Device.{DeviceRecord}
use flashsentry.Device.Stored.{stored}
use flashsentry.Policy.{PolicySnapshot}
use flashsentry.Policy.Blob.{
  serialize_device, encode_devices, encode, store_bytes, sign, verify, read_devices, after_devices,
  parse_payload, decode, decode_signed, decode_headed, header_error, max_device_blob, DecodeError,
  corrupt_device, bad_hmac,
}
use flashsentry.Policy.Blob.Stream.{le32, read16, read32, read32-le32}
use flashsentry.Policy.Blob.RoundTrip.{IsDecodable, read_devices-prefix, regroup, few_devices}
use flashsentry.Policy.Blob.Signed.{store_bytes-framed}

-- The payload length of the header, and the parts of the file that it names.
unfoldable pub payload_len_of : Bytes → ℕ
payload_len_of file = (read32 (read16 (read32 file).1).1).0

module _ (p : Platform) where
  unfoldable pub payload_of : Bytes → Bytes
  unfolding payload_len_of
  payload_of file = p.mid file (pos 10) (to_int32 (payload_len_of file))

  unfoldable pub signature_of : Bytes → Bytes
  unfolding payload_len_of
  signature_of file = p.mid file (to_int32 ((10 + payload_len_of file) % 2 ^ 32)) (pos 32)

  -- A forged signature is seen.
  decode_signed-forged :
      (key payload sig : Bytes) (out : PolicySnapshot)
      → p.hmac key payload ≢ sig
      → decode_signed p key payload sig out ≡ record { error = some bad_hmac; out = out }
  unfolding decode_signed verify sign
  decode_signed-forged key payload sig out h = ground (arith, text_eq_iff (p.hmac key payload) sig)

  -- Where the signature of a file is not the HMAC of its payload under the key, `decode` returns
  -- an error and leaves the out parameter as it was.
  pub decode-forged :
      (key file : Bytes) (out : PolicySnapshot)
      → p.hmac key (payload_of file) ≢ signature_of file
      → (e : DecodeError) × (decode p key file out ≡ record { error = some e; out = out })
  unfolding decode payload_of signature_of
  decode-forged key file out h = headed (header_error (length file) m v n)
    where
      m : ℕ
      m = (read32 file).0

      v : ℕ
      v = (read16 (read32 file).1).0

      n : ℕ
      n = payload_len_of file

      headed :
          (o : Option DecodeError)
          → (e : DecodeError) × (decode_headed p key file out o n
              ≡ record { error = some e; out = out })
      headed (some e) = (e, refl)
      headed none = (bad_hmac, decode_signed-forged key (payload_of file) (signature_of file) out h)

  read_devices-oversized :
      (n : ℕ) (b s : Bytes) (out : List DeviceRecord)
      → max_device_blob < length b
      → length b < 2 ^ 32
      → read_devices p (suc n) (le32 (length b) ++ (b ++ s)) out
        ≡ (some corrupt_device, out, b ++ s)
  unfolding read_devices
  read_devices-oversized n b s out h k =
      rw (read32-le32 (length b) (b ++ s) k, lt→ltb max_device_blob (length b) h, read_devices)
        (rw (read32-le32 (length b) (b ++ s) k))

  stopped :
      (rs rest : List DeviceRecord) (r : DeviceRecord) (s : Bytes)
      → All (IsDecodable p) rs
      → max_device_blob < length (serialize_device p r)
      → length (serialize_device p r) < 2 ^ 32
      → (read_devices p (length (rs ++ r ∷ rest)) (encode_devices p (rs ++ r ∷ rest) ++ s) []).0
        ≡ some corrupt_device
  stopped rs rest r s hs h k =
      let b = serialize_device p r in
      rw (read_devices-prefix p rs (r ∷ rest) s [] hs) (
        unfold encode_devices in
        rw (
          regroup p (le32 (length b)) b (encode_devices p rest) s,
          read_devices-oversized (length rest) b (encode_devices p rest ++ s) (map stored rs) h k,
        ))

  after_devices-error :
      (out : PolicySnapshot) (r : Option DecodeError × List DeviceRecord × Bytes) (e : DecodeError)
      → r.0 ≡ some e
      → (after_devices p out r).error ≡ some e
  unfolding after_devices
  after_devices-error out (some x, devices, s) e h = h
  after_devices-error out (none, devices, s) e h = cc

module _ (p : Platform) (laws : PlatformLaws p) where
  -- A store that the program writes and does not read back: where a record's blob is longer than
  -- 8 MiB, behind records that decode, `decode` refuses the file that `writeStoreFile` made of the
  -- snapshot, as corrupt, if the blob's length is below 2 ^ 32 and the whole file's below 2 ^ 31.
  pub decode-oversized :
      (key : Bytes) (s out : PolicySnapshot) (rs rest : List DeviceRecord) (r : DeviceRecord)
      → s.devices ≡ rs ++ r ∷ rest
      → All (IsDecodable p) rs
      → max_device_blob < length (serialize_device p r)
      → length (serialize_device p r) < 2 ^ 32
      → 10 + length (encode p s) + 32 < 2 ^ 31
      → (decode p key (store_bytes p key s) out).error ≡ some corrupt_device
  unfolding parse_payload encode
  decode-oversized key s out rs rest r e hs h k n =
      rw
        (
          store_bytes-framed p laws key s out n,
          parse_payload,
          encode,
          read32-le32 (length s.devices) _ (omega (arith, few_devices p s, n)),
          e,
        )
        (after_devices-error p out _ corrupt_device (stopped p rs rest r _ hs h k))
