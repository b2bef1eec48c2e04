-- ===== src/RawHash/Opened/Plain.antt =====
-- Which digest an open device gets (src/RawDeviceHash.cpp), and which one the helper returns.
use flashsentry.Base.{
  ℕ, ◌^◌, ◌≤◌, ◌<◌, ◌≡◌, refl, sym, ap, ◌∙◌, Bool, true, false, not, ◌&&◌, some, Text, ltb, codes,
  Bool-cases, inl, inr, to_double,
}
use flashsentry.RawHash.{
  Algorithm, sha256, sha512, blake2b, Options, HashResult, Digests, DigestLaws, Device, IsFile, got,
  algorithm_name, digest_hex,
}
use flashsentry.RawHash.Whole.{hash_mmap_loop}
use flashsentry.RawHash.Whole.Digest.{IsWhole, hash_read_loop-IsWhole, hash_mmap_loop-IsWhole}
use flashsentry.RawHash.Opened.{
  algorithm_from_name, names_mmap, wants_advanced, opened, denied, hash_mapped, hash_open_fd,
  helper_options, of_helper, hash_via_pkexec, hash_device,
}

-- A read returns nothing only at the device's end.
abbrev pub EndsAtEnd : Device → ℕ → Type 0
EndsAtEnd d size = (i n : ℕ) → 0 < n → d.read i n ≡ got 0 → size ≤ i

-- `toUpper` of the names.
pub record IsUpper (upper : Text → Text) : Type 0 where
  pub of_sha256 : upper (codes "SHA256") ≡ codes "SHA256"
  pub of_sha512 : upper (codes "SHA512") ≡ codes "SHA512"
  pub of_blake2b : upper (codes "BLAKE2b") ≡ codes "BLAKE2B"

algorithm_from_name-algorithm_name :
    (upper : Text → Text) (h : IsUpper upper) (a : Algorithm)
    → algorithm_from_name upper (algorithm_name a) ≡ a
unfolding algorithm_from_name algorithm_name
algorithm_from_name-algorithm_name upper h sha256 = rw h.of_sha256
algorithm_from_name-algorithm_name upper h sha512 = rw h.of_sha512
algorithm_from_name-algorithm_name upper h blake2b = rw h.of_blake2b

module _ {Ctx : Type 0} (g : Digests Ctx) (laws : DigestLaws g) (d : Device) (size : ℕ)
    (file : IsFile d size) (ends : EndsAtEnd d size) (small : size < 2 ^ 64) where
  hash_mapped-IsWhole : (o : Options) → IsWhole g d o size (hash_mapped g d o size)
  unfolding hash_mapped
  hash_mapped-IsWhole o =
      elim (Bool-cases (
        not (hash_mmap_loop g d o size).success
        && names_mmap (hash_mmap_loop g d o size).error_message)) [
          | inl again ↦ rw again (hash_read_loop-IsWhole g laws d o size file small ends)
          | inr first ↦ rw first (hash_mmap_loop-IsWhole g laws d o size file small)
        ]

  -- An open device, hashed with no checkpoint and not by samples.
  pub hash_open_fd-IsWhole :
      (o : Options) → wants_advanced o ≡ false → IsWhole g d o size (hash_open_fd g d o size).0
  unfolding hash_open_fd
  hash_open_fd-IsWhole o plain = elim (Bool-cases (ltb 0 size)) [
    | inr nothing ↦ rw nothing (λ e. cc)
    | inl something ↦ elim (Bool-cases o.use_memory_mapping) [
      | inl map ↦ simp (something, plain, map) (hash_mapped-IsWhole o)
      | inr read ↦
          simp (something, plain, read) (hash_read_loop-IsWhole g laws d o size file small ends)
    ]
  ]

  module _ (upper : Text → Text) (names : IsUpper upper) where
    helper_options-plain : (o : Options) → wants_advanced (helper_options g upper o) ≡ false
    unfolding helper_options wants_advanced
    helper_options-plain o = refl

    helper_options-algorithm : (o : Options) → (helper_options g upper o).algorithm ≡ o.algorithm
    unfolding helper_options
    helper_options-algorithm o = algorithm_from_name-algorithm_name upper names o.algorithm

    of_helper-success :
        (o : Options) (r : HashResult)
        → (of_helper g upper o r).success ≡ true
        → (r.success ≡ true)
          × ((of_helper g upper o r).hash ≡ r.hash)
          × ((of_helper g upper o r).bytes_processed ≡ to_double r.bytes_processed)
    unfolding of_helper
    of_helper-success o r e = elim (Bool-cases r.success) [
      | inl worked ↦ (worked, rw worked refl, rw worked refl)
      | inr failed ↦ cc (rw failed at e)
    ]

    via_pkexec-success :
        (o : Options) (stop : Bool)
        → (hash_via_pkexec g upper (opened d size) stop o).success ≡ true
        → hash_via_pkexec g upper (opened d size) stop o
          ≡ of_helper g upper o (hash_open_fd g d (helper_options g upper o) size).0
    unfolding hash_via_pkexec
    via_pkexec-success o true e = cc
    via_pkexec-success o false e = refl

    -- A device that the program may not open and the helper may: where that succeeds, the hash is the
    -- digest of the device's bytes, also where samples were asked for or a checkpoint was given, and
    -- the number of bytes is the device's size as a double has it.
    pub hash_device-denied :
        (o : Options) (stop : Bool)
        → (hash_device g upper denied (opened d size) stop o).0.success ≡ true
        → (digest_hex g o.algorithm d.content
            ≡ some (hash_device g upper denied (opened d size) stop o).0.hash)
          × ((hash_device g upper denied (opened d size) stop o).0.bytes_processed ≡ to_double size)
    unfolding hash_device
    hash_device-denied o stop e =
        let o' = helper_options g upper o in
        let r = (hash_open_fd g d o' size).0 in
        let same = via_pkexec-success o stop e in
        let (worked, hash, count) = of_helper-success o r (ap (λ x. x.success) (sym same) ∙ e) in
        let (whole, bytes) = hash_open_fd-IsWhole o' (helper_options-plain o) worked in
        (
          ap (λ a. digest_hex g a d.content) (sym (helper_options-algorithm o))
              ∙ whole
              ∙ ap some (sym hash ∙ ap (λ x. x.hash) (sym same)),
          ap (λ x. x.bytes_processed) same ∙ count ∙ ap to_double bytes,
        )
