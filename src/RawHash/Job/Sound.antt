-- ===== src/RawHash/Job/Sound.antt =====
-- The jobs of src/HashWorker.cpp that scan a device in full: their hash, and the checkpoints that
-- they leave.
use flashsentry.Base.{
  ℕ, ◌+◌, ◌^◌, ◌<◌, ◌≡◌, refl, Bool, true, Option, none, some, List, Text, ltb, codes, Bool-cases,
  inl, inr,
}
use flashsentry.Platform.{Platform}
use flashsentry.HashCheckpoint.{HashCheckpoint, Checkpoints, checkpoint_for}
use flashsentry.RawHash.{HashResult, Digests, DigestLaws, Device, IsFile, chunk_bytes, failure}
use flashsentry.RawHash.Blocks.{Run, write_checkpoint}
use flashsentry.RawHash.Blocks.Sound.{IsDeviceHash, IsSound, IsGood}
use flashsentry.RawHash.Blocks.Resumed.{hash_chunked_resume-IsGood}
use flashsentry.RawHash.Blocks.Written.{hash_chunked_resume-keeps}
use flashsentry.RawHash.Opened.{
  Opened, opened, hash_open_fd, hash_advanced, hash_device, wants_advanced,
}
use flashsentry.RawHash.Job.Stored.{
  IsNamed, AllSound, or_new-IsSound, Resumes-resume_from, settle-AllSound,
}
use flashsentry.RawHash.Job.{
  Algorithm, sha256, sha512, blake2b, xxh3_128, HashJob, full, to_raw_algorithm, to_raw_scan_mode,
  algorithm_name, or_new, checkpoint_of, options_of, renamed, execute_hash,
}

-- A job that scans in full.
abbrev pub full_job : HashJob → HashJob
full_job job = record job { scan_mode = full }

module _ {Ctx : Type 0} (g : Digests Ctx) (d : Device) (size : ℕ) (p : Platform)
    (writable writable' : Bool) (laws : DigestLaws g) (file : IsFile d size)
    (small : size + chunk_bytes < 2 ^ 64) (upper : Text → Text) (helper : Opened)
    (stop : Bool) where
  -- What a run of the job leaves of the checkpoint that it was given, and its result.
  abbrev IsOutcome : Algorithm → Run → Type 0
  IsOutcome a run = IsGood g d.content (to_raw_algorithm a) size run × IsNamed a run.1

  write_checkpoint-IsNamed :
      (job : HashJob) (start : Option HashCheckpoint) (hs : List Text) (n : ℕ)
      (cp : Option HashCheckpoint)
      → IsNamed job.algorithm cp
      → IsNamed job.algorithm (write_checkpoint (options_of (full_job job) start) size hs n cp)
  unfolding write_checkpoint options_of
  write_checkpoint-IsNamed job start hs n none named = tt
  write_checkpoint-IsNamed job start hs n (some cp) named = λ valid. inr refl

  hash_device-IsOutcome :
      (job : HashJob) (cp : HashCheckpoint)
      → IsSound g d.content (to_raw_algorithm job.algorithm) size (some cp)
      → IsNamed job.algorithm (some cp)
      → IsOutcome job.algorithm
          (hash_device g upper (opened d size) helper stop (options_of (full_job job) (some cp)))
  unfolding hash_device hash_open_fd hash_advanced wants_advanced options_of to_raw_scan_mode
      failure
  hash_device-IsOutcome job cp sound named =
      let o = options_of (full_job job) (some cp) in
      elim (Bool-cases (ltb 0 size)) [
        | inr nothing ↦ rw nothing ((sound, λ e. cc), named)
        | inl something ↦ rw something (
          hash_chunked_resume-IsGood g laws d o size file small sound
              (Resumes-resume_from (some cp)),
          hash_chunked_resume-keeps g d o size (IsNamed job.algorithm)
              (write_checkpoint-IsNamed job (some cp)) named,
        )
      ]

  renamed-IsGood :
      (a : Algorithm) (r : HashResult)
      → (r.success ≡ true
          → IsDeviceHash g d.content (to_raw_algorithm a) size r.hash × (r.bytes_processed ≡ size))
      → (renamed a r).success ≡ true
      → IsDeviceHash g d.content (to_raw_algorithm a) size (renamed a r).hash
        × ((renamed a r).bytes_processed ≡ size)
  unfolding renamed
  renamed-IsGood sha256 r good e = good e
  renamed-IsGood sha512 r good e = good e
  renamed-IsGood blake2b r good e = good e
  renamed-IsGood xxh3_128 r good e = elim (Bool-cases r.success) [
    | inl worked ↦ rw worked (good worked)
    | inr failed ↦ cc (rw failed at e)
  ]

  hash_device-or_new :
      (job : HashJob) (s : Checkpoints)
      → AllSound g d size job.device_node s
      → IsOutcome job.algorithm (
          hash_device g upper
            (opened d size)
            helper
            stop
            (options_of (full_job job) (checkpoint_of (full_job job) s)))
  unfolding checkpoint_of
  hash_device-or_new job s all =
      let found =
        checkpoint_for job.device_node (algorithm_name job.algorithm) (codes "full")
          s.checkpoints in
      let (sound, named) = or_new-IsSound g d size job.device_node s job.algorithm found all refl in
      hash_device-IsOutcome job (or_new found) sound named

  -- A job that scans an open device in full, also where it fails or is cancelled, leaves every
  -- checkpoint of the device sound, if they were: where reads return bytes of the device, whose size
  -- and a block fit 64 bits.
  pub execute_hash-AllSound :
      (job : HashJob) (s : Checkpoints)
      → AllSound g d size job.device_node s
      → AllSound g d size job.device_node
          (execute_hash p writable writable' g upper (opened d size) helper stop (full_job job) s).1
  unfolding execute_hash
  execute_hash-AllSound job s all =
      let run =
        hash_device g upper (opened d size) helper stop
          (options_of (full_job job) (checkpoint_of (full_job job) s)) in
      let (good, named) = hash_device-or_new job s all in
      settle-AllSound g d size job.device_node p writable writable' (full_job job) run.0 run.1 s all
        named good.0

  -- Where such a job succeeds, over checkpoints of the device that are sound, its hash is that of the
  -- device's blocks under the algorithm that the job's becomes, and it counted all bytes.
  pub execute_hash-IsDeviceHash :
      (job : HashJob) (s : Checkpoints)
      → AllSound g d size job.device_node s
      → (execute_hash p writable writable' g upper
          (opened d size)
          helper
          stop
          (full_job job)
          s).0.success
        ≡ true
      → IsDeviceHash g d.content
          (to_raw_algorithm job.algorithm)
          size
          (execute_hash p writable writable' g upper
            (opened d size)
            helper
            stop
            (full_job job)
            s).0.hash
        × ((execute_hash p writable writable' g upper
              (opened d size)
              helper
              stop
              (full_job job)
              s).0.bytes_processed
            ≡ size)
  unfolding execute_hash
  execute_hash-IsDeviceHash job s all e =
      let run =
        hash_device g upper (opened d size) helper stop
          (options_of (full_job job) (checkpoint_of (full_job job) s)) in
      renamed-IsGood job.algorithm run.0 (hash_device-or_new job s all).0.1 e
