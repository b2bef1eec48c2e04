-- ===== src/Policy/Blob/Signed.antt =====
-- The file around the payload: its header and signature (src/policy/PolicyBlobCodec.cpp).
use native.Mathlib.Nat.{zero-add}
use flashsentry.Base.{
  ℕ, zero, suc, ◌+◌, ◌%◌, ◌<◌, ◌^◌, ◌≡◌, refl, sym, ap, ◌∙◌, none, List, [], ◌∷◌, ◌++◌, Bytes, pos,
  length, take, drop, All, length-append, arith, text_eq_refl, ==_refl, to_int32, take-append,
  take-length, drop-append,
}
use flashsentry.Platform.{Platform, PlatformLaws}
use flashsentry.Policy.{PolicySnapshot}
use flashsentry.Policy.Blob.{
  encode, store_bytes, sign, verify, parse_payload, decode, decode_signed, header_error,
  file_header_error, magic, version,
}
use flashsentry.Policy.Blob.Stream.{le16, le32, read32, read32-le32, read16-le16}
use flashsentry.Policy.Blob.RoundTrip.{
  IsDecodable, IsDecodableBlock, stored_snapshot, parse_payload-encode,
}

drop_nil {ℓ} : {A : Type ℓ} (n : ℕ) → drop {A = A} n [] ≡ []
drop_nil zero = refl
drop_nil (suc n) = refl

drop_add {ℓ} : {A : Type ℓ} (i j : ℕ) (xs : List A) → drop (i + j) xs ≡ drop j (drop i xs)
drop_add zero j xs = rw zero-add
drop_add (suc i) j [] = drop_nil (suc i + j) ∙ sym (drop_nil j)
drop_add (suc i) j (x ∷ xs) =
    let e : suc i + j ≡ suc (i + j) = omega arith in rw e (drop_add i j xs)

-- A file with this payload and signature behind a good header.
framed : Bytes → Bytes → Bytes
framed payload sig = le32 magic ++ (le16 version ++ (le32 (length payload) ++ (payload ++ sig)))

length-framed :
    (payload sig : Bytes) → length (framed payload sig) ≡ 10 + length payload + length sig
unfolding framed le32 le16
length-framed payload sig = omega (arith, length-append payload sig)

read_magic :
    (payload sig : Bytes)
    → read32 (framed payload sig)
      ≡ (magic, le16 version ++ (le32 (length payload) ++ (payload ++ sig)))
unfolding framed
read_magic payload sig = read32-le32 magic _ (omega arith)

to_int32_small : (n : ℕ) → n < 2 ^ 31 → to_int32 n ≡ pos n
unfolding to_int32
to_int32_small n h = ground arith

-- An int that does not overflow.
wrapped_small : (n : ℕ) → n < 2 ^ 31 → to_int32 (n % 2 ^ 32) ≡ pos n
wrapped_small n h = ap to_int32 (omega arith) ∙ to_int32_small n h

header_error-none :
    (size n : ℕ)
    → 10 + n + 32 < 2 ^ 31
    → size ≡ 10 + n + 32
    → header_error size magic version n ≡ none
unfolding header_error
header_error-none size n h e = rw (wrapped_small (10 + n + 32) h) (ground arith)

file_header_error-framed :
    (payload sig : Bytes)
    → 10 + length payload + 32 < 2 ^ 31
    → length sig ≡ 32
    → file_header_error (framed payload sig) ≡ none
unfolding file_header_error
file_header_error-framed payload sig n m =
    let size : length (framed payload sig) ≡ 10 + length payload + 32 =
      omega (arith, length-framed payload sig) in
    rw
      (
        read_magic payload sig,
        read16-le16 version (le32 (length payload) ++ (payload ++ sig)) (omega arith),
        read32-le32 (length payload) (payload ++ sig) (omega arith),
      )
      (header_error-none (length (framed payload sig)) (length payload) n size)

module _ (p : Platform) (laws : PlatformLaws p) where
  decode_signed-hmac :
      (key payload : Bytes) (out : PolicySnapshot)
      → decode_signed p key payload (p.hmac key payload) out ≡ parse_payload p payload out
  unfolding decode_signed verify sign
  decode_signed-hmac key payload out =
      rw (==_refl (length (p.hmac key payload)), text_eq_refl (p.hmac key payload))

  mid-payload :
      (payload sig : Bytes) → p.mid (framed payload sig) (pos 10) (pos (length payload)) ≡ payload
  mid-payload payload sig =
      laws.mid_within (framed payload sig) 10 (length payload)
        (omega (arith, length-framed payload sig))
      ∙ unfold framed le32 le16 in take-append payload sig

  mid-signature :
      (payload sig : Bytes)
      → length sig ≡ 32
      → p.mid (framed payload sig) (pos (10 + length payload)) (pos 32) ≡ sig
  mid-signature payload sig m =
      laws.mid_within (framed payload sig) (10 + length payload) 32
        (omega (arith, length-framed payload sig, m))
      ∙ ap (take 32) (drop_add 10 (length payload) (framed payload sig))
      ∙ unfold framed le32 le16 in (rw (drop-append payload sig, ← m) (take-length sig))

  -- A file with a good header is decoded by its signature and payload alone.
  decode-framed :
      (key payload sig : Bytes) (out : PolicySnapshot)
      → 10 + length payload + 32 < 2 ^ 31
      → length sig ≡ 32
      → decode p key (framed payload sig) out ≡ decode_signed p key payload sig out
  unfolding decode
  decode-framed key payload sig out n m =
      let size : length (framed payload sig) ≡ 10 + length payload + 32 =
        omega (arith, length-framed payload sig) in
      let body = le32 (length payload) ++ (payload ++ sig) in
      rw (
        read_magic payload sig,
        read16-le16 version body (omega arith),
        read32-le32 (length payload) (payload ++ sig) (omega arith),
        header_error-none (length (framed payload sig)) (length payload) n size,
        to_int32_small (length payload) (omega arith),
        wrapped_small (10 + length payload) (omega arith),
        mid-payload payload sig,
        mid-signature payload sig m,
      )

  -- The program's own file passes the checks of `decode`.
  pub store_bytes-framed :
      (key : Bytes) (s out : PolicySnapshot)
      → 10 + length (encode p s) + 32 < 2 ^ 31
      → decode p key (store_bytes p key s) out ≡ parse_payload p (encode p s) out
  store_bytes-framed key s out n =
      unfold store_bytes framed sign in
      (decode-framed key (encode p s) (p.hmac key (encode p s)) out n (laws.length-hmac key _)
        ∙ decode_signed-hmac key (encode p s) out)

  -- What the program wrote it reads back, where that decodes: a snapshot of decodable records (whose
  -- text parses back, with an id, whole seconds, numbers in range and at most 8 MiB) and blocks, encoded,
  -- signed and framed with a key, is decoded with that key to the snapshot with its records as
  -- `stored` has them, whatever the out parameter held, where the whole file is below 2 ^ 31 bytes.
  pub decode-store_bytes :
      (key : Bytes) (s out : PolicySnapshot)
      → All (IsDecodable p) s.devices
      → All (IsDecodableBlock p) s.blocks
      → 10 + length (encode p s) + 32 < 2 ^ 31
      → decode p key (store_bytes p key s) out ≡ record { error = none; out = stored_snapshot p s }
  decode-store_bytes key s out hd hb n =
      store_bytes-framed key s out n ∙ parse_payload-encode p s out hd hb (omega arith)

  -- The header of the program's own file passes.
  pub file_header_error-store_bytes :
      (key : Bytes) (s : PolicySnapshot)
      → 10 + length (encode p s) + 32 < 2 ^ 31
      → file_header_error (store_bytes p key s) ≡ none
  file_header_error-store_bytes key s n =
      unfold store_bytes framed sign in
      (file_header_error-framed (encode p s) (p.hmac key (encode p s)) n (laws.length-hmac key _))
