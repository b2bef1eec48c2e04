-- ===== src/RawHash/Quick.antt =====
-- `hashQuickSample` of src/RawDeviceHashAdvanced.cpp: one digest of at most 15 samples of 1 MiB. The
-- loop that reads a sample has its length as fuel, since each of its rounds reads a byte at least; the
-- count of the bytes, at most 15 MiB, does not wrap.
pub mod Offsets
pub mod Samples
use Prim.Native.Nat.{min}
use flashsentry.Base.{
  ℕ, zero, suc, ◌+◌, ◌-◌, ◌*◌, ◌/◌, ◌%◌, ◌^◌, Bool, true, false, not, Option, none, some, List, [],
  ◌∷◌, ◌++◌, Text, Bytes, ltb, ◌==◌, if◌then◌else◌, any, codes,
}
use flashsentry.RawHash.{
  Options, HashResult, HashError, cancelled, init_failed, seek_failed, read_failed, unexpected_eof,
  finalize_failed, Digests, Device, ReadAnswer, failed, got, algorithm_name, failure, bytes_at,
  finalize_ctx,
}

abbrev pub mebibyte : ℕ
mebibyte = 1048576

abbrev pub sample_size : ℕ → ℕ
sample_size size = min mebibyte size

-- `spaced`
abbrev pub spaced : ℕ
spaced = 14

unfoldable pub has_offset : List ℕ → ℕ → Bool
unfolding any
has_offset offsets off = any (λ x. x == off) offsets

-- The offset of the loop's round `i`.
unfoldable pub spaced_offset : ℕ → ℕ → ℕ
spaced_offset size i =
    let off = ((size * i) % 2 ^ 64) / spaced in
    if ltb size ((off + sample_size size) % 2 ^ 64)
    then (if ltb (sample_size size) size then size - sample_size size else 0)
    else off

unfoldable pub append_new : List ℕ → ℕ → List ℕ
unfolding has_offset
append_new offsets off = if not (has_offset offsets off) then offsets ++ off ∷ [] else offsets

-- The loop, with the rounds that are left.
unfoldable pub spaced_loop : ℕ → ℕ → ℕ → List ℕ → List ℕ
unfolding append_new spaced_offset
spaced_loop size zero i offsets = offsets
spaced_loop size (suc rounds) i offsets =
    spaced_loop size rounds (i + 1) (append_new offsets (spaced_offset size i))

unfoldable pub first_offsets : ℕ → List ℕ
first_offsets size =
    if ltb (sample_size size) size then 0 ∷ (size - sample_size size) ∷ [] else 0 ∷ []

unfoldable pub sample_offsets : ℕ → List ℕ
sample_offsets size = spaced_loop size (spaced - 1) 1 (first_offsets size)

-- How the loop that reads a sample ends.
pub data Sample : Type 0 where
  filled : Bytes → ℕ → Sample
  lost : HashError → Sample

module _ {Ctx : Type 0} (g : Digests Ctx) (d : Device) (o : Options) (size : ℕ) where
  failed_quick : HashError → HashResult
  unfolding failure algorithm_name
  failed_quick e = failure o (algorithm_name o.algorithm ++ codes "-QUICK") e

  -- What a read of a sample leads to: an error, or what the loop does next.
  unfoldable pub behind_read : ReadAnswer → (ℕ → Sample) → Sample
  behind_read failed next = lost read_failed
  behind_read (got zero) next = lost unexpected_eof
  behind_read (got (suc n)) next = next (suc n)

  -- The loop that reads a sample, with `got` and the bytes that the buffer has so far.
  unfoldable pub read_sample : ℕ → ℕ → ℕ → ℕ → Bytes → Sample
  unfolding behind_read
  read_sample zero off to_read n b = filled b n
  read_sample (suc fuel) off to_read n b =
      let rest =
        behind_read (d.read (off + n) (to_read - n))
          (λ m. read_sample fuel off to_read (n + m) (b ++ bytes_at d.content (off + n) m)) in
      if not (ltb n to_read) then filled b n else rest

  unfoldable pub with_sample : Sample → (Bytes → ℕ → HashResult) → HashResult
  unfolding failed_quick
  with_sample (lost e) next = failed_quick e
  with_sample (filled b n) next = next b n

  unfoldable pub with_quick : Option Text → ℕ → HashResult
  unfolding failed_quick algorithm_name
  with_quick none processed = failed_quick finalize_failed
  with_quick (some hex) processed = record {
    device_node = o.device_node;
    hash = hex;
    algorithm = algorithm_name o.algorithm ++ codes "-QUICK";
    bytes_processed = processed;
    success = true;
    error_message = none;
  }

  -- The loop over the offsets.
  unfoldable pub sample_loop : List ℕ → Ctx → ℕ → HashResult
  unfolding failed_quick with_sample read_sample with_quick finalize_ctx
  sample_loop [] c processed = with_quick (finalize_ctx g c) processed
  sample_loop (off ∷ offsets) c processed =
      let to_read = min (sample_size size) (size - off) in
      let sampled =
        with_sample (read_sample to_read off to_read 0 [])
          (λ b n. sample_loop offsets (g.update c b).0 (processed + n)) in
      if d.stop_within off
      then failed_quick cancelled
      else if not (d.seeks off)
      then failed_quick seek_failed
      else sampled

  unfoldable pub start_quick : Option Ctx → (Ctx → HashResult) → HashResult
  unfolding failed_quick
  start_quick none next = failed_quick init_failed
  start_quick (some c) next = next c

  unfoldable pub hash_quick_sample : HashResult
  unfolding start_quick sample_loop
  hash_quick_sample = start_quick (g.init o.algorithm) λ c. sample_loop (sample_offsets size) c 0
