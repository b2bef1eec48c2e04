-- ===== src/RawHash/Job.antt =====
-- `executeHash` of src/HashWorker.cpp: one job, with the checkpoints that src/HashCheckpoint.cpp keeps.
-- Threads, the queue of jobs and times are left out.
pub mod Stored
pub mod Sound
pub mod Attempts
use flashsentry.Base.{
  ℕ, Bool, true, false, not, ◌&&◌, Option, none, some, [], Text, ℤ, pos, if◌then◌else◌, codes,
}
use flashsentry.Platform.{Platform}
use flashsentry.HashCheckpoint.{
  HashCheckpoint, Checkpoints, is_valid, checkpoint_for, remove_checkpoint, upsert_checkpoint,
}
use flashsentry.RawHash
use flashsentry.RawHash.{Options, HashResult, HashError, cancelled, Digests, ScanMode}
use flashsentry.RawHash.Blocks.{Run}
use flashsentry.RawHash.Opened.{Opened, hash_device}

-- `HashWorker::Algorithm`
pub data Algorithm : Type 0 where
  sha256 sha512 blake2b xxh3_128 : Algorithm

pub data HashScanMode : Type 0 where
  full quick_sample watch_manifest_only : HashScanMode

pub data HashScope : Type 0 where
  partition whole_disk : HashScope

pub record HashJob : Type 0 where
  pub device_node : Text
  pub algorithm : Algorithm
  pub buffer_size_kb : ℤ
  pub use_memory_mapping : Bool
  pub scope : HashScope
  pub scan_mode : HashScanMode
  pub resume_from_checkpoint : Bool

unfoldable pub to_raw_algorithm : Algorithm → RawHash.Algorithm
to_raw_algorithm sha512 = RawHash.Algorithm.sha512
to_raw_algorithm blake2b = RawHash.Algorithm.blake2b
to_raw_algorithm sha256 = RawHash.Algorithm.sha256
to_raw_algorithm xxh3_128 = RawHash.Algorithm.sha256

unfoldable pub to_raw_scan_mode : HashScanMode → ScanMode
to_raw_scan_mode quick_sample = ScanMode.quick_sample
to_raw_scan_mode full = ScanMode.full
to_raw_scan_mode watch_manifest_only = ScanMode.full

unfoldable pub algorithm_name : Algorithm → Text
algorithm_name sha256 = codes "SHA256"
algorithm_name sha512 = codes "SHA512"
algorithm_name blake2b = codes "BLAKE2b"
algorithm_name xxh3_128 = codes "XXH3-128"

abbrev pub no_checkpoint : HashCheckpoint
no_checkpoint = record {
  device_node = [];
  algorithm = [];
  scan_mode = [];
  device_size = 0;
  block_size = 0;
  block_hashes = [];
  bytes_completed = 0;
}

-- `checkpoint`, once it is filled from the one that was found.
abbrev pub or_new : Option HashCheckpoint → HashCheckpoint
or_new none = no_checkpoint
or_new (some cp) = cp

-- `checkpointOut` of the options.
unfoldable pub checkpoint_of : HashJob → Checkpoints → Option HashCheckpoint
unfolding checkpoint_for algorithm_name
checkpoint_of job s = elim job.scan_mode [
  | full ↦ some (
      or_new (
        checkpoint_for job.device_node (algorithm_name job.algorithm) (codes "full") s.checkpoints))
  | _ ↦ none
]

abbrev pub resume_from : Option HashCheckpoint → ℕ
unfolding is_valid
resume_from none = 0
resume_from (some cp) = if is_valid cp then cp.bytes_completed else 0

unfoldable pub options_of : HashJob → Option HashCheckpoint → Options
unfolding to_raw_algorithm to_raw_scan_mode is_valid
options_of job cp = record {
  device_node = job.device_node;
  algorithm = to_raw_algorithm job.algorithm;
  buffer_size_kb = job.buffer_size_kb;
  use_memory_mapping = job.use_memory_mapping;
  scan_mode = to_raw_scan_mode job.scan_mode;
  resume_from_bytes = resume_from cp;
  checkpoint_out = cp;
  checkpoint_every_blocks = pos 4;
}

-- The message contains `Cancelled`.
unfoldable pub says_cancelled : Option HashError → Bool
says_cancelled (some cancelled) = true
says_cancelled _ = false

-- The last step, for a job that ran with XXH3-128.
unfoldable pub renamed : Algorithm → HashResult → HashResult
renamed xxh3_128 r = if r.success then record r { algorithm = codes "SHA256" } else r
renamed _ r = r

module _ (p : Platform) (writable writable' : Bool) where
  -- What becomes of the store of checkpoints.
  unfoldable pub settle : HashJob → HashResult → Option HashCheckpoint → Checkpoints → Checkpoints
  unfolding is_valid says_cancelled
  settle job r none s = s
  settle job r (some cp) s =
      if r.success && (is_valid cp && not (says_cancelled r.error_message))
      then remove_checkpoint p writable job.device_node cp.algorithm cp.scan_mode s
      else if not r.success && (says_cancelled r.error_message && is_valid cp)
      then upsert_checkpoint p writable writable' cp s
      else s

  module _ {Ctx : Type 0} (g : Digests Ctx) (upper : Text → Text) where
    -- `stop` is whether the user cancelled while the helper ran.
    unfoldable pub execute_hash :
        Opened → Opened → Bool → HashJob → Checkpoints → HashResult × Checkpoints
    unfolding renamed
    execute_hash device helper stop job s =
        let (r, cp) =
          hash_device g upper device helper stop (options_of job (checkpoint_of job s)) in
        (renamed job.algorithm r, settle job r cp s)
