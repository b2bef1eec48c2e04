-- ===== src/RawHash/Tests.antt =====
-- The theorems on raw hashes at a device of three bytes, with digests that keep their bytes.
mod Jobs
mod Queues
use Prim.Native.Nat.{min}
use flashsentry.Base.{
  ℕ, suc, ◌+◌, ◌-◌, ◌*◌, ◌^◌, ◌≤◌, ◌<◌, ◌≡◌, refl, ap, true, false, Option, none, some, List, [],
  ◌∷◌, ◌++◌, Text, Bytes, pos, codes, text_eq, length, arith, to_double, of_int64, ltb,
  if◌then◌else◌,
}
use flashsentry.Json.{null}
use flashsentry.Platform.{Platform}
use flashsentry.HashCheckpoint.{HashCheckpoint, Checkpoints, is_valid, checkpoint_for}
use flashsentry.RawHash.{
  sha256, ScanMode, Options, Digests, DigestLaws, Device, IsFile, ReadAnswer, failed, got,
  chunk_bytes, digest_hex, finalize_ctx,
}
use flashsentry.RawHash.Blocks.{hash_chunked_resume}
use flashsentry.RawHash.Blocks.Sound.{IsDeviceHash, IsSound}
use flashsentry.RawHash.Blocks.Completes.{IsOpen, Digesting, hash_chunked_resume-completes}
use flashsentry.RawHash.Quick.{sample_offsets, spaced_loop, first_offsets, hash_quick_sample}
use flashsentry.RawHash.Quick.Offsets.{AreSamples, sample_offsets-AreSamples}
use flashsentry.RawHash.Quick.Samples.{sampled, sampled_count, hash_quick_sample-digest}
use flashsentry.RawHash.Opened.{
  opened, denied, hash_device, hash_via_pkexec, of_helper, hash_open_fd, helper_options,
  hash_mapped,
}
use flashsentry.RawHash.Whole.{hash_mmap_loop}
use flashsentry.RawHash.Opened.Plain.{EndsAtEnd, IsUpper, hash_device-denied}

append-nil : (b : Bytes) → b ++ [] ≡ b
append-nil [] = refl
append-nil (x ∷ b) = ap (◌∷◌ x) (append-nil b)

append-append : (c x y : Bytes) → (c ++ x) ++ y ≡ c ++ (x ++ y)
append-append [] x y = refl
append-append (z ∷ c) x y = ap (◌∷◌ z) (append-append c x y)

-- A context has the bytes so far, and its digest has one more.
abbrev pub keeping : Digests Bytes
keeping = record {
  init = λ a. some [];
  update = λ c x. (c ++ x, true);
  final = λ c. some (7 ∷ c);
  from_hex = λ t. t;
}

pub keeping-DigestLaws : DigestLaws keeping
keeping-DigestLaws = record { update_nothing = append-nil; update_twice = append-append }

-- Reads return at most so many bytes.
abbrev pub device : ℕ → Device
device most = record {
  content = 1 ∷ 2 ∷ 3 ∷ [];
  read = λ i n. got (min most (min n (3 - i)));
  seeks = λ i. true;
  maps = λ i. true;
  stop_before = λ k. false;
  stop_within = λ i. false;
}

abbrev bytes_of : ReadAnswer → ℕ
bytes_of failed = 0
bytes_of (got n) = n

pub device-IsFile : (most : ℕ) → IsFile (device most) 3
device-IsFile most = record {
  whole = refl;
  read_within = λ i n k e.
      let same : min most (min n (3 - i)) ≡ k = ap bytes_of e in (omega arith, omega arith);
}

device-IsOpen : IsOpen (device 2) 3
device-IsOpen = record {
  reads = λ i n some_asked inside. (min 2 (min n (3 - i)) - 1, ap got (omega arith));
  finds = λ i. refl;
  goes = λ k. refl;
  goes_on = λ i. refl;
}

device-EndsAtEnd : EndsAtEnd (device 2) 3
device-EndsAtEnd =
    λ i n some_asked e. let same : min 2 (min n (3 - i)) ≡ 0 = ap bytes_of e in omega arith

keeping-Digesting : (o : Options) → Digesting keeping o
keeping-Digesting o = record { starts = ([], refl); ends = λ c. (7, c, refl) }

-- No hash so far.
abbrev begun : HashCheckpoint
begun = record {
  device_node = codes "/dev/sdb";
  algorithm = codes "SHA256";
  scan_mode = codes "full";
  device_size = 3;
  block_size = chunk_bytes;
  block_hashes = [];
  bytes_completed = 0;
}

abbrev options : Option HashCheckpoint → Options
options cp = record {
  device_node = codes "/dev/sdb";
  algorithm = sha256;
  buffer_size_kb = pos 64;
  use_memory_mapping = true;
  scan_mode = ScanMode.full;
  resume_from_bytes = 0;
  checkpoint_out = cp;
  checkpoint_every_blocks = pos 4;
}

begun-IsSound : IsSound keeping (device 2).content sha256 3 (some begun)
begun-IsSound = λ same. record {
  each = tt;
  counted = omega arith;
  some_done = λ e. refl;
  within = omega arith;
  bounded = omega arith;
}

hash_chunked_resume-completes_example :
    ((hash_chunked_resume keeping (device 2) (options (some begun)) 3).0.success ≡ true)
    × IsDeviceHash keeping
        (device 2).content
        sha256
        3
        (hash_chunked_resume keeping (device 2) (options (some begun)) 3).0.hash
    × ((hash_chunked_resume keeping (device 2) (options (some begun)) 3).0.bytes_processed ≡ 3)
unfolding of_int64
hash_chunked_resume-completes_example =
    hash_chunked_resume-completes keeping (device 2) (options (some begun)) 3 (device-IsFile 2)
      (omega arith) device-IsOpen (keeping-Digesting (options (some begun))) (omega arith)
      (omega arith) keeping-DigestLaws begun-IsSound (λ valid. refl)

hash_quick_sample-digest_example :
    (digest_hex keeping sha256 (sampled (1 ∷ 2 ∷ 3 ∷ []) 3 (sample_offsets 3))
      ≡ some (hash_quick_sample keeping (device 2) (options none) 3).hash)
    × ((hash_quick_sample keeping (device 2) (options none) 3).bytes_processed
        ≡ sampled_count 3 (sample_offsets 3))
unfolding hash_quick_sample sample_offsets spaced_loop first_offsets
hash_quick_sample-digest_example =
    hash_quick_sample-digest keeping keeping-DigestLaws (device 2) (options none) 3
      (device-IsFile 2) refl

sample_offsets-AreSamples_example : AreSamples 3000000 15 (sample_offsets 3000000)
sample_offsets-AreSamples_example = sample_offsets-AreSamples 3000000

-- `toUpper` of ASCII letters.
abbrev pub upper : Text → Text
upper [] = []
upper (c ∷ s) = (if ltb c 97 then c else if ltb 122 c then c else c - 32) ∷ upper s

upper-IsUpper : IsUpper upper
upper-IsUpper = record { of_sha256 = refl; of_sha512 = refl; of_blake2b = refl }

hash_device-denied_example :
    (digest_hex keeping sha256 (1 ∷ 2 ∷ 3 ∷ [])
      ≡ some (hash_device keeping upper denied (opened (device 2) 3) false (options none)).0.hash)
    × ((hash_device keeping upper denied
          (opened (device 2) 3)
          false
          (options none)).0.bytes_processed
        ≡ to_double 3)
unfolding hash_device hash_via_pkexec of_helper hash_open_fd helper_options hash_mapped
    hash_mmap_loop
hash_device-denied_example =
    hash_device-denied keeping keeping-DigestLaws (device 2) 3 (device-IsFile 2) device-EndsAtEnd
      (omega arith) upper upper-IsUpper (options none) false refl
