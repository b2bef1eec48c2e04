-- ===== src/RawHash/Job/Attempts.antt =====
-- One device over the jobs of src/HashWorker.cpp that hash it in full: some end, and others are stopped
-- or fail, and a later one goes on from the checkpoint that they left.
use flashsentry.Base.{
  ℕ, ◌+◌, ◌^◌, ◌<◌, ◌≡◌, subst, Bool, true, none, List, [], ◌∷◌, Text, Bytes, All,
}
use flashsentry.Platform.{Platform}
use flashsentry.HashCheckpoint.{Checkpoints, checkpoint_for}
use flashsentry.RawHash.{HashResult, Digests, DigestLaws, Device, IsFile, chunk_bytes}
use flashsentry.RawHash.Blocks.Sound.{IsDeviceHash, IsDeviceHash-unique}
use flashsentry.RawHash.Opened.{Opened, opened}
use flashsentry.RawHash.Job.{HashJob, to_raw_algorithm, execute_hash}
use flashsentry.RawHash.Job.Stored.{AllSound}
use flashsentry.RawHash.Job.Sound.{full_job, execute_hash-AllSound, execute_hash-IsDeviceHash}

-- A job, and how the system answers while it runs; the content and the node are those of the device.
pub record Attempt : Type 0 where
  pub job : HashJob
  pub answers : Device
  pub helper : Opened
  pub stop : Bool

abbrev pub no_checkpoints : Checkpoints
no_checkpoints = record { checkpoints = []; file = none }

module _ {Ctx : Type 0} (g : Digests Ctx) (p : Platform) (writable writable' : Bool)
    (upper : Text → Text) (content : Bytes) (size : ℕ) (node : Text) where
  abbrev pub device_of : Attempt → Device
  device_of a = record a.answers { content = content }

  unfoldable pub attempt : Attempt → Checkpoints → HashResult × Checkpoints
  unfolding execute_hash
  attempt a s =
      execute_hash p writable writable' g upper (opened (device_of a) size) a.helper a.stop
        (full_job (record a.job { device_node = node })) s

  unfoldable pub attempts : List Attempt → Checkpoints → Checkpoints
  unfolding attempt
  attempts [] s = s
  attempts (a ∷ xs) s = attempts xs (attempt a s).1

  abbrev pub IsRead : Attempt → Type 0
  IsRead a = IsFile (device_of a) size

  module _ (laws : DigestLaws g) (small : size + chunk_bytes < 2 ^ 64) where
    attempts-AllSound :
        (xs : List Attempt) (a : Attempt) (s : Checkpoints)
        → All IsRead xs
        → AllSound g (device_of a) size node s
        → AllSound g (device_of a) size node (attempts xs s)
    unfolding attempts attempt
    attempts-AllSound [] a s read sound = sound
    attempts-AllSound (b ∷ ys) a s (own, read) sound = attempts-AllSound ys a (attempt b s).1 read (
        execute_hash-AllSound g (device_of b) size p writable writable' laws own small upper
          b.helper b.stop (record b.job { device_node = node }) s sound)

    attempt-IsDeviceHash :
        (xs : List Attempt) (a : Attempt)
        → All IsRead xs
        → IsRead a
        → (attempt a (attempts xs no_checkpoints)).0.success ≡ true
        → IsDeviceHash g content
            (to_raw_algorithm a.job.algorithm)
            size
            (attempt a (attempts xs no_checkpoints)).0.hash
    unfolding attempt checkpoint_for
    attempt-IsDeviceHash xs a read own success =
        (execute_hash-IsDeviceHash g (device_of a) size p writable writable' laws own small upper
          a.helper a.stop (record a.job { device_node = node }) (attempts xs no_checkpoints)
          (attempts-AllSound xs a no_checkpoints read (λ j cp e. cc)) success).0

    -- Two jobs that hash a device in full under one algorithm, and succeed, return one hash, whatever
    -- jobs on the device ran before each, with no checkpoint at the start: stopped, failed or ended,
    -- and however their reads were cut.
    pub attempt-agrees :
        (xs ys : List Attempt) (a b : Attempt)
        → All IsRead xs
        → IsRead a
        → All IsRead ys
        → IsRead b
        → to_raw_algorithm a.job.algorithm ≡ to_raw_algorithm b.job.algorithm
        → (attempt a (attempts xs no_checkpoints)).0.success ≡ true
        → (attempt b (attempts ys no_checkpoints)).0.success ≡ true
        → (attempt a (attempts xs no_checkpoints)).0.hash
          ≡ (attempt b (attempts ys no_checkpoints)).0.hash
    attempt-agrees xs ys a b read own read' own' same success success' =
        let h = attempt-IsDeviceHash xs a read own success in
        let h' = attempt-IsDeviceHash ys b read' own' success' in
        IsDeviceHash-unique g content (to_raw_algorithm b.job.algorithm) size _ _
          (subst
            (λ algo.
              IsDeviceHash g content algo size (attempt a (attempts xs no_checkpoints)).0.hash)
            same h)
          h'
