-- ===== src/RawHash/Tests/Jobs.antt =====
-- The theorems on jobs at a job that hashes the device of three bytes.
use flashsentry.Base.{◌≡◌, refl, true, false, none, [], ◌∷◌, pos, codes, arith, subst}
use flashsentry.Json.{null}
use flashsentry.Platform.{Platform}
use flashsentry.HashCheckpoint.{upsert_checkpoint, HashCheckpoint, Checkpoints, checkpoint_for}
use flashsentry.RawHash
use flashsentry.RawHash.{chunk_bytes, IsFile}
use flashsentry.RawHash.Blocks.{hash_chunked_resume}
use flashsentry.RawHash.Blocks.Sound.{IsDeviceHash, IsPart}
use flashsentry.RawHash.Opened.{opened, broken, hash_device, hash_open_fd, hash_advanced}
use flashsentry.RawHash.Job.{
  HashJob, partition, sha256, sha512, blake2b, xxh3_128, algorithm_name, full, execute_hash, settle,
  checkpoint_of, options_of, to_raw_algorithm,
}
use flashsentry.RawHash.Job.Stored.{AllSound}
use flashsentry.RawHash.Job.Sound.{full_job, execute_hash-AllSound, execute_hash-IsDeviceHash}
use flashsentry.RawHash.Job.Attempts.{Attempt, no_checkpoints, attempt, attempts, attempt-agrees}
use flashsentry.RawHash.Tests.{keeping, keeping-DigestLaws, device, device-IsFile, upper}

abbrev qt : Platform
qt = record {
  to_iso = λ t. [];
  from_iso = λ s. none;
  to_compact = λ o. [];
  to_indented = λ o. [];
  parse_json = λ b. null;
  is_letter = λ c. true;
  same_ignoring_case = λ a b. false;
  mid = λ b i n. b;
  hmac = λ key payload. [];
}

abbrev job : HashJob
job = record {
  device_node = codes "/dev/sdb";
  algorithm = xxh3_128;
  buffer_size_kb = pos 64;
  use_memory_mapping = true;
  scope = partition;
  scan_mode = full;
  resume_from_checkpoint = true;
}

-- A run that was stopped before its first block was done.
abbrev stopped_run : HashCheckpoint
stopped_run = record {
  device_node = codes "/dev/sdb";
  algorithm = codes "XXH3-128";
  scan_mode = codes "full";
  device_size = 3;
  block_size = chunk_bytes;
  block_hashes = [];
  bytes_completed = 0;
}

abbrev kept : Checkpoints
kept = record { checkpoints = stopped_run ∷ []; file = none }

stopped_run-IsPart : (a : RawHash.Algorithm) → IsPart keeping (device 2).content a 3 stopped_run
stopped_run-IsPart a = record {
  each = tt;
  counted = omega arith;
  some_done = λ e. refl;
  within = omega arith;
  bounded = omega arith;
}

kept-AllSound : AllSound keeping (device 2) 3 (codes "/dev/sdb") kept
unfolding checkpoint_for algorithm_name
kept-AllSound sha256 cp e = cc
kept-AllSound sha512 cp e = cc
kept-AllSound blake2b cp e = cc
kept-AllSound xxh3_128 cp e = λ same.
    let it : stopped_run ≡ cp = cc in
    subst (IsPart keeping (device 2).content (to_raw_algorithm xxh3_128) 3) it
      (stopped_run-IsPart (to_raw_algorithm xxh3_128))

execute_hash-AllSound_example :
    AllSound keeping
      (device 2)
      3
      (codes "/dev/sdb")
      (execute_hash qt true true keeping upper
        (opened (device 2) 3)
        broken
        false
        (full_job job)
        kept).1
execute_hash-AllSound_example =
    execute_hash-AllSound keeping (device 2) 3 qt true true keeping-DigestLaws (device-IsFile 2)
      (omega arith) upper broken false job kept kept-AllSound

execute_hash-IsDeviceHash_example :
    IsDeviceHash keeping
      (device 2).content
      RawHash.Algorithm.sha256
      3
      (execute_hash qt true true keeping upper
        (opened (device 2) 3)
        broken
        false
        (full_job job)
        kept).0.hash
    × ((execute_hash qt true true keeping upper
          (opened (device 2) 3)
          broken
          false
          (full_job job)
          kept).0.bytes_processed
        ≡ 3)
unfolding execute_hash hash_device hash_open_fd options_of checkpoint_of hash_advanced
    hash_chunked_resume
execute_hash-IsDeviceHash_example =
    execute_hash-IsDeviceHash keeping (device 2) 3 qt true true keeping-DigestLaws (device-IsFile 2)
      (omega arith) upper broken false job kept kept-AllSound refl

-- A run that the user stops, and runs that read three and two bytes at a time.
abbrev stopped_early : Attempt
stopped_early = record {
  job = job;
  answers = record (device 3) { stop_within = λ i. true };
  helper = broken;
  stop = false;
}

abbrev whole_read : Attempt
whole_read = record { job = job; answers = device 3; helper = broken; stop = false }

abbrev cut_read : Attempt
cut_read = record { job = job; answers = device 2; helper = broken; stop = false }

stopped_early-IsFile : IsFile (record (device 3) { stop_within = λ i. true }) 3
stopped_early-IsFile = record {
  whole = (device-IsFile 3).whole;
  read_within = (device-IsFile 3).read_within;
}

attempt-agrees_example :
    (attempt keeping qt true true upper (device 2).content 3 (codes "/dev/sdb") whole_read (
      attempts keeping qt true true upper
        (device 2).content
        3
        (codes "/dev/sdb")
        (stopped_early ∷ [])
        no_checkpoints)).0.hash
    ≡ (attempt keeping qt true true upper (device 2).content 3 (codes "/dev/sdb") cut_read (
        attempts keeping qt true true upper
          (device 2).content
          3
          (codes "/dev/sdb")
          []
          no_checkpoints)).0.hash
unfolding attempt attempts execute_hash hash_device hash_open_fd options_of checkpoint_of
    hash_advanced hash_chunked_resume settle upsert_checkpoint
attempt-agrees_example =
    attempt-agrees keeping qt true true upper (device 2).content 3 (codes "/dev/sdb")
      keeping-DigestLaws (omega arith) (stopped_early ∷ []) [] whole_read cut_read
      (stopped_early-IsFile, tt) (device-IsFile 3) tt (device-IsFile 2) refl refl refl
