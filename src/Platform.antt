-- ===== src/Platform.antt =====
-- What the program takes from Qt and OpenSSL, as one record of functions. A QDateTime is the
-- milliseconds since the epoch, or nothing where it is not valid.
use flashsentry.Base.{ℕ, ◌+◌, ◌≤◌, ◌≡◌, Bool, Option, Text, Bytes, ℤ, pos, length, take, drop}
use flashsentry.Json.{Json, Fields}

abbrev pub DateTime : Type 0
DateTime = Option ℕ

pub record Platform : Type 0 where
  -- `QDateTime::toString(Qt::ISODate)` and `QDateTime::fromString(s, Qt::ISODate)`
  pub to_iso : DateTime → Text
  pub from_iso : Text → DateTime
  -- `QJsonDocument(o).toJson`, compact and indented, and the value of `QJsonDocument::fromJson`
  pub to_compact : Fields → Bytes
  pub to_indented : Fields → Bytes
  pub parse_json : Bytes → Json
  -- `QChar::isLetter`, and `a.compare(b, Qt::CaseInsensitive) == 0`
  pub is_letter : ℕ → Bool
  pub same_ignoring_case : Text → Text → Bool
  -- `QByteArray::mid`
  pub mid : Bytes → ℤ → ℤ → Bytes
  -- `HMAC(EVP_sha256(), key, payload)`
  pub hmac : Bytes → Bytes → Bytes

-- The documented behaviour that proofs about the signed file need.
pub record PlatformLaws (p : Platform) : Type 0 where
  -- `mid(pos, n)` of a range inside the array is that range.
  pub mid_within :
      (b : Bytes) (i n : ℕ) → i + n ≤ length b → p.mid b (pos i) (pos n) ≡ take n (drop i b)
  -- An HMAC-SHA256 has 32 bytes.
  pub length-hmac : (key payload : Bytes) → length (p.hmac key payload) ≡ 32
