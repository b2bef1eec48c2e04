-- ===== src/RawHash.antt =====
-- include/RawDeviceHash.h, and what the loops of src/RawDeviceHash.cpp and
-- src/RawDeviceHashAdvanced.cpp share, in the code for Linux: the options, the result, the device as
-- the system answers for it, and OpenSSL's digests. Times, progress and handles are left out.
pub mod Blocks
pub mod Whole
pub mod Quick
pub mod Opened
pub mod Job
pub mod Queue
mod Tests
use Prim.Native.Nat.{max}
use flashsentry.Base.{
  ℕ, ◌+◌, ◌-◌, ◌*◌, ◌/◌, ◌%◌, ◌^◌, ◌≤◌, ◌≡◌, Bool, true, false, Option, none, some, List, [], ◌∷◌,
  ◌++◌, Text, Bytes, ℤ, pos, negsuc, ltb, if◌then◌else◌, codes, take, drop, length, of_int64, ltb_ℤ,
  is_positive, not,
}
use flashsentry.HashCheckpoint.{HashCheckpoint}

pub data Algorithm : Type 0 where
  sha256 sha512 blake2b : Algorithm

pub data ScanMode : Type 0 where
  full quick_sample : ScanMode

-- The texts of `errorMessage`. `buffer_overrun` stands for a read past the end of the buffer, behind
-- which C++ leaves everything open.
pub data HashError : Type 0 where
  cancelled init_failed seek_failed read_failed unexpected_eof update_failed finalize_failed :
      HashError
  mmap_failed no_size combine_failed not_opened helper_failed buffer_overrun : HashError

abbrev pub default_buffer_size_kb : ℕ
default_buffer_size_kb = 1024

abbrev pub min_buffer_size_kb : ℕ
min_buffer_size_kb = 64

abbrev pub max_buffer_size_kb : ℕ
max_buffer_size_kb = 16384

-- `kDefaultChunkBytes`
abbrev pub chunk_bytes : ℕ
chunk_bytes = 67108864

-- `checkpoint_out` is what the pointer leads to, if it is not null.
pub record Options : Type 0 where
  pub device_node : Text
  pub algorithm : Algorithm
  pub buffer_size_kb : ℤ
  pub use_memory_mapping : Bool
  pub scan_mode : ScanMode
  pub resume_from_bytes : ℕ
  pub checkpoint_out : Option HashCheckpoint
  pub checkpoint_every_blocks : ℤ

pub record HashResult : Type 0 where
  pub device_node : Text
  pub hash : Text
  pub algorithm : Text
  pub bytes_processed : ℕ
  pub success : Bool
  pub error_message : Option HashError

unfoldable pub algorithm_name : Algorithm → Text
algorithm_name sha256 = codes "SHA256"
algorithm_name sha512 = codes "SHA512"
algorithm_name blake2b = codes "BLAKE2b"

unfoldable pub scan_mode_tag : ScanMode → Text
scan_mode_tag quick_sample = codes "quick"
scan_mode_tag full = codes "full"

unfoldable pub normalized_buffer_size_kb : ℤ → ℕ
normalized_buffer_size_kb (negsuc n) = default_buffer_size_kb
normalized_buffer_size_kb (pos n) =
    if not (ltb 0 n)
    then default_buffer_size_kb
    else if ltb n min_buffer_size_kb
    then min_buffer_size_kb
    else if ltb max_buffer_size_kb n
    then max_buffer_size_kb
    else n

-- What OpenSSL does with a context: start one, add bytes (with whether it worked), end it. `from_hex`
-- is `QByteArray::fromHex` of a text's Latin-1 bytes.
pub record Digests (Ctx : Type 0) : Type 0 where
  pub init : Algorithm → Option Ctx
  pub update : Ctx → Bytes → Ctx × Bool
  pub final : Ctx → Option Bytes
  pub from_hex : Text → Bytes

-- Bytes may be added in parts.
pub record DigestLaws {Ctx : Type 0} (g : Digests Ctx) : Type 0 where
  pub update_nothing : (c : Ctx) → (g.update c []).0 ≡ c
  pub update_twice :
      (c : Ctx) (x y : Bytes) → (g.update (g.update c x).0 y).0 ≡ (g.update c (x ++ y)).0

-- What `read` returns: an error, or the number of bytes, which is 0 at the end.
pub data ReadAnswer : Type 0 where
  failed : ReadAnswer
  got : ℕ → ReadAnswer

-- A device, and how the system answers: `read` at an offset of up to so many bytes, `lseek` and `mmap`
-- at an offset, and what the flag `cancelled` holds when it is read: before a block (by its number),
-- and before or behind a read (by the offset).
pub record Device : Type 0 where
  pub content : Bytes
  pub read : ℕ → ℕ → ReadAnswer
  pub seeks : ℕ → Bool
  pub maps : ℕ → Bool
  pub stop_before : ℕ → Bool
  pub stop_within : ℕ → Bool

-- A read returns no more than was asked for, and only bytes that the device has.
pub record IsFile (d : Device) (size : ℕ) : Type 0 where
  pub whole : length d.content ≡ size
  pub read_within : (i n k : ℕ) → d.read i n ≡ got k → (k ≤ n) × (k ≤ size - i)

abbrev pub bytes_at : Bytes → ℕ → ℕ → Bytes
bytes_at content i n = take n (drop i content)

hex_digit : ℕ → ℕ
hex_digit n = if ltb n 10 then 48 + n else 87 + n

-- The loop over the digest's bytes, each with two digits.
unfoldable pub digest_to_hex : Bytes → Text
unfolding hex_digit
digest_to_hex [] = []
digest_to_hex (b ∷ bs) = hex_digit (b / 16) ∷ (hex_digit (b % 16) ∷ digest_to_hex bs)

-- `qMax(1, n)`
abbrev pub at_least_one : ℤ → ℕ
at_least_one (pos n) = max 1 n
at_least_one (negsuc n) = 1

unfoldable pub failure : Options → Text → HashError → HashResult
failure o algorithm e = record {
  device_node = o.device_node;
  hash = [];
  algorithm = algorithm;
  bytes_processed = 0;
  success = false;
  error_message = some e;
}

module _ {Ctx : Type 0} (g : Digests Ctx) where
  unfoldable pub finalize_ctx : Ctx → Option Text
  unfolding digest_to_hex
  finalize_ctx c = elim (g.final c) [ none ↦ none | some h ↦ some (digest_to_hex h) ]

  -- The loop of `combineBlockHashes`.
  unfoldable pub update_all : Ctx → List Text → Ctx
  update_all c [] = c
  update_all c (hex ∷ rest) = update_all (g.update c (g.from_hex hex)).0 rest

  unfoldable pub combine_block_hashes : List Text → Algorithm → Text
  unfolding finalize_ctx update_all
  combine_block_hashes block_hex algo = elim (g.init algo) [
    | none ↦ []
    | some c ↦ elim (finalize_ctx (update_all c block_hex)) [ none ↦ [] | some hex ↦ hex ]
  ]

  -- The digest of all the bytes at once, which the loops are compared with.
  unfoldable pub digest_hex : Algorithm → Bytes → Option Text
  unfolding finalize_ctx
  digest_hex algo b = elim (g.init algo) [ none ↦ none | some c ↦ finalize_ctx (g.update c b).0 ]
