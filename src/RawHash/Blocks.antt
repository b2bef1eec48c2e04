-- ===== src/RawHash/Blocks.antt =====
-- `hashChunkedResume` of src/RawDeviceHashAdvanced.cpp: a device hashed in blocks of 64 MiB, from a
-- checkpoint if one fits. The loop in a block has the block's length as fuel, since each of its rounds
-- reads a byte at least; `block * blockSize` is below the device's size and does not wrap.
pub mod Content
pub mod Sound
pub mod Resumed
pub mod Completes
pub mod Written
use Prim.Native.Nat.{min}
use flashsentry.Base.{
  ℕ, zero, suc, ◌+◌, ◌-◌, ◌*◌, ◌/◌, ◌%◌, ◌^◌, Bool, true, false, not, ◌&&◌, ◌||◌, Option, none,
  some, List, [], ◌∷◌, ◌++◌, Text, of_int64, to_int32, pos_part, ltb, ◌==◌, if◌then◌else◌, take,
  length, is_empty,
}
use flashsentry.HashCheckpoint.{HashCheckpoint, is_valid}
use flashsentry.RawHash.{
  Options, HashResult, HashError, cancelled, init_failed, seek_failed, read_failed, unexpected_eof,
  finalize_failed, combine_failed, buffer_overrun, Digests, Device, ReadAnswer, failed, got,
  chunk_bytes, algorithm_name, scan_mode_tag, at_least_one, failure, bytes_at, finalize_ctx,
  combine_block_hashes,
}

-- The result, and what `checkpointOut` leads to.
abbrev pub Run : Type 0
Run = HashResult × Option HashCheckpoint

-- How the loop in a block ends, with `bytesDone`.
pub data Block (Ctx : Type 0) : Type 0 where
  finished : Ctx → ℕ → Block Ctx
  stopped : ℕ → Block Ctx
  broke : HashError → Block Ctx

unfoldable pub write_checkpoint :
    Options → ℕ → List Text → ℕ → Option HashCheckpoint → Option HashCheckpoint
unfolding algorithm_name scan_mode_tag
write_checkpoint o device_size block_hashes bytes_done none = none
write_checkpoint o device_size block_hashes bytes_done (some cp) = some (record {
  device_node = o.device_node;
  algorithm = algorithm_name o.algorithm;
  scan_mode = scan_mode_tag o.scan_mode;
  device_size = device_size;
  block_size = chunk_bytes;
  block_hashes = block_hashes;
  bytes_completed = bytes_done;
})

-- `numBlocks`
abbrev pub num_blocks : ℕ → ℕ
num_blocks size = ((size + (chunk_bytes - 1)) % 2 ^ 64) / chunk_bytes

-- `bufSize`, which is not the normalized one.
abbrev pub buffer_bytes : Options → ℕ
buffer_bytes o = (of_int64 o.buffer_size_kb * 1024) % 2 ^ 64

-- The length of `buffer`: `resize` takes an int, and leaves nothing where that is negative.
unfoldable pub buffer_length : Options → ℕ
unfolding to_int32 of_int64
buffer_length o = pos_part (to_int32 (buffer_bytes o % 2 ^ 32))

-- `blockHashes`, `startBlock` and `bytesDone` before the loop.
pub record Start : Type 0 where
  pub hashes : List Text
  pub block : ℕ
  pub bytes_done : ℕ

unfoldable pub fits : ℕ → HashCheckpoint → Bool
unfolding is_valid
fits size cp = is_valid cp && (cp.device_size == size && cp.block_size == chunk_bytes)

abbrev pub from_zero : Start
from_zero = record { hashes = []; block = 0; bytes_done = 0 }

-- The loop that takes the last hash off while there are more than `startBlock` is `take`.
unfoldable pub resumed : ℕ → HashCheckpoint → Start
resumed resume_from_bytes cp =
    if ltb 0 resume_from_bytes
    then record {
      hashes = take (resume_from_bytes / chunk_bytes) cp.block_hashes;
      block = resume_from_bytes / chunk_bytes;
      bytes_done = (resume_from_bytes / chunk_bytes) * chunk_bytes;
    }
    else record {
      hashes = cp.block_hashes;
      block = length cp.block_hashes;
      bytes_done = cp.bytes_completed;
    }

unfoldable pub start_of : Options → ℕ → Option HashCheckpoint → Start
unfolding fits resumed
start_of o size none = from_zero
start_of o size (some cp) = if fits size cp then resumed o.resume_from_bytes cp else from_zero

module _ {Ctx : Type 0} (g : Digests Ctx) (d : Device) (o : Options) (size : ℕ) where
  unfoldable pub after_read : ReadAnswer → (ℕ → Block Ctx) → Block Ctx
  after_read failed next = broke read_failed
  after_read (got zero) next = broke unexpected_eof
  after_read (got (suc n)) next = next (suc n)

  -- The `while` in a block, with `readInBlock` and `bytesDone`.
  unfoldable pub read_block : ℕ → ℕ → ℕ → ℕ → ℕ → Ctx → Block Ctx
  unfolding after_read of_int64 buffer_length
  read_block zero offset len read_in_block bytes_done c = finished c bytes_done
  read_block (suc fuel) offset len read_in_block bytes_done c =
      let i = offset + read_in_block in
      let rest = after_read (d.read i (min (buffer_bytes o) (len - read_in_block))) (λ n.
        read_block fuel offset len (read_in_block + n) ((bytes_done + n) % 2 ^ 64)
          (g.update c (bytes_at d.content i n)).0) in
      if not (ltb read_in_block len)
      then finished c bytes_done
      else if d.stop_within i
      then stopped bytes_done
      else if ltb (buffer_length o) (min (buffer_bytes o) (len - read_in_block))
      then broke buffer_overrun
      else rest

  failed_with : HashError → HashResult
  unfolding failure algorithm_name
  failed_with e = failure o (algorithm_name o.algorithm) e

  unfoldable pub with_ctx : Option Ctx → Option HashCheckpoint → (Ctx → Run) → Run
  unfolding failed_with
  with_ctx none cp next = (failed_with init_failed, cp)
  with_ctx (some c) cp next = next c

  unfoldable pub with_hex : Option Text → Option HashCheckpoint → (Text → Run) → Run
  unfolding failed_with
  with_hex none cp next = (failed_with finalize_failed, cp)
  with_hex (some hex) cp next = next hex

  unfoldable pub after_block :
      Block Ctx → List Text → Option HashCheckpoint → (Text → ℕ → Run) → Run
  unfolding failed_with with_hex finalize_ctx write_checkpoint
  after_block (broke e) hashes cp next = (failed_with e, cp)
  after_block (stopped n) hashes cp next =
      (failed_with cancelled, write_checkpoint o size hashes n cp)
  after_block (finished c n) hashes cp next = with_hex (finalize_ctx g c) cp (λ hex. next hex n)

  -- The checkpoint behind a block.
  unfoldable pub checkpointed : ℕ → List Text → ℕ → Option HashCheckpoint → Option HashCheckpoint
  unfolding write_checkpoint
  checkpointed block hashes bytes_done cp =
      if (length hashes % at_least_one o.checkpoint_every_blocks) == 0
        || (block + 1) == num_blocks size
      then write_checkpoint o size hashes bytes_done cp
      else cp

  -- Behind the loop.
  unfoldable pub combined : List Text → ℕ → HashResult
  unfolding combine_block_hashes is_empty algorithm_name
  combined hashes bytes_done =
      let hash = combine_block_hashes g hashes o.algorithm in
      record {
        device_node = o.device_node;
        hash = hash;
        algorithm = algorithm_name o.algorithm;
        bytes_processed = bytes_done;
        success = not (is_empty hash);
        error_message = if is_empty hash then some combine_failed else none;
      }

  -- The `for` over the blocks, with the rounds that are left.
  unfoldable pub block_loop : ℕ → ℕ → List Text → ℕ → Option HashCheckpoint → Run
  unfolding failed_with with_ctx after_block read_block combined checkpointed write_checkpoint
  block_loop zero block hashes bytes_done cp = (combined hashes bytes_done, cp)
  block_loop (suc rounds) block hashes bytes_done cp =
      let offset = block * chunk_bytes in
      let len = min chunk_bytes (size - offset) in
      let hashed = with_ctx (g.init o.algorithm) cp (λ c.
        after_block (read_block len offset len 0 bytes_done c) hashes cp (λ hex n.
          block_loop rounds (block + 1) (hashes ++ hex ∷ []) n
            (checkpointed block (hashes ++ hex ∷ []) n cp))) in
      if d.stop_before block
      then (failed_with cancelled, write_checkpoint o size hashes bytes_done cp)
      else if not (d.seeks offset)
      then (failed_with seek_failed, cp)
      else hashed

  unfoldable pub hash_chunked_resume : Run
  unfolding start_of block_loop
  hash_chunked_resume =
      let s = start_of o size o.checkpoint_out in
      block_loop (num_blocks size - s.block) s.block s.hashes s.bytes_done o.checkpoint_out
