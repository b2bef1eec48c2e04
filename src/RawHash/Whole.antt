-- ===== src/RawHash/Whole.antt =====
-- `hashReadLoop` and `hashMmapLoop` of src/RawDeviceHash.cpp: one digest of all the bytes of a device.
-- The first has the device's size and one more as fuel, since each of its rounds but the last reads a
-- byte at least; the second the size, since each of its rounds maps a byte at least.
pub mod Digest
use Prim.Native.Nat.{min}
use flashsentry.Base.{
  ℕ, zero, suc, ◌+◌, ◌-◌, ◌*◌, ◌%◌, ◌^◌, Bool, true, false, not, Option, none, some, Text, Bytes,
  ltb, if◌then◌else◌,
}
use flashsentry.RawHash.{
  Options, HashResult, HashError, cancelled, init_failed, read_failed, update_failed,
  finalize_failed, mmap_failed, no_size, Digests, Device, ReadAnswer, failed, got, algorithm_name,
  failure, bytes_at, finalize_ctx, normalized_buffer_size_kb,
}

-- `chunkSize` of the mapped loop.
abbrev pub map_bytes : ℕ
map_bytes = 268435456

unfoldable pub failed_with : Options → HashError → HashResult
unfolding failure algorithm_name
failed_with o e = failure o (algorithm_name o.algorithm) e

module _ {Ctx : Type 0} (g : Digests Ctx) (d : Device) (o : Options) (size : ℕ) where
  -- The end of both: the digest in hexadecimal, and the bytes that were counted.
  unfoldable pub with_final : Option Text → ℕ → HashResult
  unfolding failed_with algorithm_name
  with_final none total = failed_with o finalize_failed
  with_final (some hex) total = record {
    device_node = o.device_node;
    hash = hex;
    algorithm = algorithm_name o.algorithm;
    bytes_processed = total;
    success = true;
    error_message = none;
  }

  unfoldable pub start_digest : Option Ctx → (Ctx → HashResult) → HashResult
  unfolding failed_with
  start_digest none next = failed_with o init_failed
  start_digest (some c) next = next c

  -- What a round of the loop does with the answer; `next` goes on behind so many bytes.
  unfoldable pub with_read : ReadAnswer → Ctx → ℕ → (ℕ → HashResult) → HashResult
  unfolding failed_with with_final finalize_ctx
  with_read failed c total next = failed_with o read_failed
  with_read (got zero) c total next = with_final (finalize_ctx g c) total
  with_read (got (suc n)) c total next =
      if d.stop_within total
      then failed_with o cancelled
      else if not (g.update c (bytes_at d.content total (suc n))).1
      then failed_with o update_failed
      else next (suc n)

  unfoldable pub read_loop : ℕ → Ctx → ℕ → HashResult
  unfolding with_read failed_with normalized_buffer_size_kb
  read_loop zero c total = failed_with o read_failed
  read_loop (suc fuel) c total =
      with_read (d.read total (normalized_buffer_size_kb o.buffer_size_kb * 1024)) c total
        λ n. read_loop fuel (g.update c (bytes_at d.content total n)).0 ((total + n) % 2 ^ 64)

  unfoldable pub hash_read_loop : HashResult
  unfolding read_loop start_digest
  hash_read_loop = start_digest (g.init o.algorithm) λ c. read_loop (suc size) c 0

  unfoldable pub mmap_loop : ℕ → Ctx → ℕ → HashResult
  unfolding failed_with with_final finalize_ctx
  mmap_loop zero c offset = with_final (finalize_ctx g c) offset
  mmap_loop (suc fuel) c offset =
      let map_size = min (size - offset) map_bytes in
      let (c', updated) = g.update c (bytes_at d.content offset map_size) in
      let rest = mmap_loop fuel c' (offset + map_size) in
      if not (ltb offset size)
      then with_final (finalize_ctx g c) offset
      else if d.stop_within offset
      then failed_with o cancelled
      else if not (d.maps offset)
      then failed_with o mmap_failed
      else if not updated
      then failed_with o update_failed
      else rest

  unfoldable pub hash_mmap_loop : HashResult
  unfolding mmap_loop start_digest failed_with
  hash_mmap_loop =
      let hashed = start_digest (g.init o.algorithm) (λ c. mmap_loop size c 0) in
      if not (ltb 0 size) then failed_with o no_size else hashed
