-- ===== src/RawHash/Opened.antt =====
-- `hashOpenFd` and `hashDevice` of src/RawDeviceHash.cpp, and src/flashspartan-read-helper.cpp, which
-- hashes for a user who may not open the device. The helper's process and its answer on standard
-- output are left out, but for the number that JSON rounds.
pub mod Plain
use flashsentry.Base.{
  ℕ, Bool, true, false, not, ◌&&◌, ◌||◌, Option, none, some, Text, pos, ltb, if◌then◌else◌, codes,
  text_eq, to_double,
}
use flashsentry.HashCheckpoint.{HashCheckpoint}
use flashsentry.RawHash.{
  Algorithm, sha256, sha512, blake2b, ScanMode, full, quick_sample, Options, HashResult, HashError,
  cancelled, mmap_failed, no_size, not_opened, helper_failed, Digests, Device, algorithm_name,
  failure, normalized_buffer_size_kb,
}
use flashsentry.RawHash.Blocks.{Run, hash_chunked_resume}
use flashsentry.RawHash.Whole.{hash_read_loop, hash_mmap_loop}
use flashsentry.RawHash.Quick.{hash_quick_sample}

-- `upper` is `QString::toUpper`.
unfoldable pub algorithm_from_name : (Text → Text) → Text → Algorithm
unfolding text_eq
algorithm_from_name upper name =
    if text_eq (upper name) (codes "SHA512")
    then sha512
    else if text_eq (upper name) (codes "BLAKE2B") || text_eq (upper name) (codes "BLAKE2b")
    then blake2b
    else sha256

abbrev pub is_quick : ScanMode → Bool
is_quick quick_sample = true
is_quick full = false

abbrev pub is_some : {A : Type 0} → Option A → Bool
is_some none = false
is_some (some a) = true

-- The message of an error contains `mmap`.
unfoldable pub names_mmap : Option HashError → Bool
names_mmap (some mmap_failed) = true
names_mmap _ = false

-- A quick sample, or a run with a checkpoint.
unfoldable pub wants_advanced : Options → Bool
wants_advanced o = is_quick o.scan_mode || (is_some o.checkpoint_out || ltb 0 o.resume_from_bytes)

-- What `openDevice` and `deviceSize` answer.
pub data Opened : Type 0 where
  opened : Device → ℕ → Opened
  denied : Opened
  broken : Opened

module _ {Ctx : Type 0} (g : Digests Ctx) where
  unfoldable pub hash_advanced : Device → Options → ℕ → Run
  hash_advanced d o size =
      if is_quick o.scan_mode
      then (hash_quick_sample g d o size, o.checkpoint_out)
      else hash_chunked_resume g d o size

  unfoldable pub hash_mapped : Device → Options → ℕ → HashResult
  unfolding names_mmap
  hash_mapped d o size =
      let result = hash_mmap_loop g d o size in
      if not result.success && names_mmap result.error_message
      then hash_read_loop g d o size
      else result

  -- The result with no size names no algorithm.
  unfoldable pub hash_open_fd : Device → Options → ℕ → Run
  unfolding failure wants_advanced
  hash_open_fd d o size =
      if not (ltb 0 size)
      then (failure o (codes "") no_size, o.checkpoint_out)
      else if wants_advanced o
      then hash_advanced d o size
      else if o.use_memory_mapping && ltb 0 size
      then (hash_mapped d o size, o.checkpoint_out)
      else (hash_read_loop g d o size, o.checkpoint_out)

  module _ (upper : Text → Text) where
    -- The options that the helper makes of its arguments.
    unfoldable pub helper_options : Options → Options
    unfolding algorithm_name normalized_buffer_size_kb
    helper_options o = record {
      device_node = o.device_node;
      algorithm = algorithm_from_name upper (algorithm_name o.algorithm);
      buffer_size_kb = pos (normalized_buffer_size_kb o.buffer_size_kb);
      use_memory_mapping = o.use_memory_mapping;
      scan_mode = full;
      resume_from_bytes = 0;
      checkpoint_out = none;
      checkpoint_every_blocks = pos 4;
    }

    -- The helper's result as the program reads it.
    unfoldable pub of_helper : Options → HashResult → HashResult
    unfolding failure algorithm_name to_double
    of_helper o r =
        if not r.success then failure o (algorithm_name o.algorithm) helper_failed else record {
          device_node = o.device_node;
          hash = r.hash;
          algorithm = algorithm_name o.algorithm;
          bytes_processed = to_double r.bytes_processed;
          success = true;
          error_message = none;
        }

    -- `hashViaPkexec`: what the helper could open, and whether the user cancelled before it ended.
    unfoldable pub hash_via_pkexec : Opened → Bool → Options → HashResult
    unfolding failure algorithm_name
    hash_via_pkexec (opened d size) stop o =
        let result = of_helper o (hash_open_fd d (helper_options o) size).0 in
        if stop then failure o (algorithm_name o.algorithm) cancelled else result
    hash_via_pkexec _ stop o =
        failure o (algorithm_name o.algorithm) (if stop then cancelled else helper_failed)

    -- `hashDevice`, with what the helper would open.
    unfoldable pub hash_device : Opened → Opened → Bool → Options → Run
    unfolding failure algorithm_name
    hash_device (opened d size) helper stop o = hash_open_fd d o size
    hash_device denied helper stop o = (hash_via_pkexec helper stop o, o.checkpoint_out)
    hash_device broken helper stop o =
        (failure o (algorithm_name o.algorithm) not_opened, o.checkpoint_out)
