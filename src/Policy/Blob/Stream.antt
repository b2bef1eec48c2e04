-- ===== src/Policy/Blob/Stream.antt =====
-- QDataStream in little-endian byte order: what is written, and reading from what is left.
use flashsentry.Base.{
  ℕ, ◌+◌, ◌*◌, ◌-◌, ◌/◌, ◌%◌, ◌^◌, ◌<◌, ◌≡◌, ap, Option, none, some, [], ◌∷◌, ◌++◌, Bytes, ltb, leb,
  ◌==◌, if◌then◌else◌, length, take, drop, arith, take-append, drop-append, length-append, lt→ltb,
  le→leb,
}

unfoldable pub le16 : ℕ → Bytes
le16 n = (n % 256) ∷ (n / 256 % 256) ∷ []

unfoldable pub le32 : ℕ → Bytes
le32 n = (n % 256) ∷ (n / 256 % 256) ∷ (n / 65536 % 256) ∷ (n / 16777216 % 256) ∷ []

-- A read past the end yields 0 and leaves nothing.
unfoldable pub read16 : Bytes → ℕ × Bytes
read16 (a ∷ b ∷ s) = (a + 256 * b, s)
read16 _ = (0, [])

unfoldable pub read32 : Bytes → ℕ × Bytes
read32 (a ∷ b ∷ c ∷ d ∷ s) = (a + 256 * b + 65536 * c + 16777216 * d, s)
read32 _ = (0, [])

-- `readRawData(buf, static_cast<int>(len))` when it returns its length argument, and nothing when it
-- does not. On a negative argument it returns -1, which is the argument where `len` is all ones.
unfoldable pub read_raw : ℕ → Bytes → Option (Bytes × Bytes)
read_raw len s =
    if ltb len (2 ^ 31)
    then if leb len (length s) then some (take len s, drop len s) else none
    else if len == 2 ^ 32 - 1
    then some ([], s)
    else none

le32_sum :
    (n : ℕ)
    → n < 2 ^ 32
    → n % 256 + 256 * (n / 256 % 256) + 65536 * (n / 65536 % 256) + 16777216 * (n / 16777216 % 256)
      ≡ n
le32_sum n h = omega arith

le16_sum : (n : ℕ) → n < 2 ^ 16 → n % 256 + 256 * (n / 256 % 256) ≡ n
le16_sum n h = omega arith

pub read32-le32 : (n : ℕ) (s : Bytes) → n < 2 ^ 32 → read32 (le32 n ++ s) ≡ (n, s)
unfolding read32 le32
read32-le32 n s h = ap (λ (m : ℕ). (m, s)) (le32_sum n h)

pub read16-le16 : (n : ℕ) (s : Bytes) → n < 2 ^ 16 → read16 (le16 n ++ s) ≡ (n, s)
unfolding read16 le16
read16-le16 n s h = ap (λ (m : ℕ). (m, s)) (le16_sum n h)

pub read_raw-append : (b s : Bytes) → length b < 2 ^ 31 → read_raw (length b) (b ++ s) ≡ some (b, s)
unfolding read_raw
read_raw-append b s h = rw (
  lt→ltb (length b) (2 ^ 31) h,
  le→leb (length b) (length (b ++ s)) (omega (arith, length-append b s)),
  take-append b s,
  drop-append b s,
)
