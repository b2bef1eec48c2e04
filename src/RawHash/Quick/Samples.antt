-- ===== src/RawHash/Quick/Samples.antt =====
-- What the samples of src/RawDeviceHashAdvanced.cpp give where the run succeeds: the digest of their
-- bytes.
use Prim.Native.Nat.{min}
use flashsentry.Base.{
  ℕ, zero, suc, ◌+◌, ◌-◌, ◌≤◌, ◌≡◌, refl, sym, ap, ◌∙◌, true, Option, none, some, List, [], ◌∷◌,
  ◌++◌, Text, Bytes, ltb, take, drop, drop-drop, take-append_drop, arith, Bool-cases, inl, inr,
}
use flashsentry.RawHash.{
  Options, HashResult, Digests, DigestLaws, Device, IsFile, ReadAnswer, failed, got, bytes_at,
  finalize_ctx, digest_hex,
}
use flashsentry.RawHash.Quick.{
  sample_size, sample_offsets, Sample, filled, lost, behind_read, read_sample, with_sample,
  with_quick, sample_loop, start_quick, hash_quick_sample,
}

-- The bytes of the samples, one behind the other, and their number.
abbrev pub sampled : Bytes → ℕ → List ℕ → Bytes
sampled content size [] = []
sampled content size (off ∷ offsets) =
    bytes_at content off (min (sample_size size) (size - off)) ++ sampled content size offsets

abbrev pub sampled_count : ℕ → List ℕ → ℕ
sampled_count size [] = 0
sampled_count size (off ∷ offsets) =
    min (sample_size size) (size - off) + sampled_count size offsets

module _ {Ctx : Type 0} (g : Digests Ctx) (laws : DigestLaws g) (d : Device) (o : Options)
    (size : ℕ) (file : IsFile d size) where
  behind_read-filled :
      (a : ReadAnswer) (next : ℕ → Sample) (b : Bytes) (n : ℕ)
      → behind_read g d o size a next ≡ filled b n
      → (k : ℕ) × (a ≡ got (suc k)) × (next (suc k) ≡ filled b n)
  unfolding behind_read
  behind_read-filled failed next b n h = cc
  behind_read-filled (got zero) next b n h = cc
  behind_read-filled (got (suc k)) next b n h = (k, refl, h)

  -- A sample that was read is whole.
  read_sample-filled :
      (fuel off to_read n : ℕ) (b b' : Bytes) (n' : ℕ)
      → n ≤ to_read
      → to_read ≤ n + fuel
      → b ≡ bytes_at d.content off n
      → read_sample g d o size fuel off to_read n b ≡ filled b' n'
      → (b' ≡ bytes_at d.content off to_read) × (n' ≡ to_read)
  unfolding read_sample
  read_sample-filled zero off to_read n b b' n' le enough has e =
      let all : n ≡ to_read = omega arith in
      let bytes : b' ≡ b = cc in
      let count : n ≡ n' = cc in (bytes ∙ has ∙ ap (bytes_at d.content off) all, omega arith)
  read_sample-filled (suc fuel) off to_read n b b' n' le enough has e =
      elim (Bool-cases (ltb n to_read)) [
        | inr last ↦
            let e' : filled b n ≡ filled b' n' = rw (last) at e in
            let all : n ≡ to_read = ground arith in
            let bytes : b' ≡ b = cc in
            let count : n ≡ n' = cc in (bytes ∙ has ∙ ap (bytes_at d.content off) all, omega arith)
        | inl more ↦
            let (k, read, e') =
              behind_read-filled (d.read (off + n) (to_read - n))
                (λ m.
                  read_sample g d o size fuel off to_read (n + m)
                    (b ++ bytes_at d.content (off + n) m))
                b' n' (rw more at e) in
            let (fits, within) = file.read_within (off + n) (to_read - n) (suc k) read in
            read_sample-filled fuel off to_read (n + suc k)
              (b ++ bytes_at d.content (off + n) (suc k)) b' n' (omega arith) (omega arith)
              (ap (λ x. x ++ bytes_at d.content (off + n) (suc k)) has
                ∙ ap (λ x. bytes_at d.content off n ++ take (suc k) x)
                    (sym (drop-drop off n d.content))
                ∙ take-append_drop n (suc k) (drop off d.content))
              e'
      ]

  -- The context and the count with the rest of the samples.
  abbrev IsRest : Ctx → ℕ → List ℕ → HashResult → Type 0
  IsRest c n offsets r =
      r.success ≡ true
      → (finalize_ctx g (g.update c (sampled d.content size offsets)).0 ≡ some r.hash)
        × (r.bytes_processed ≡ n + sampled_count size offsets)

  with_quick-IsRest :
      (c : Ctx) (n : ℕ) (x : Option Text)
      → finalize_ctx g c ≡ x
      → IsRest c n [] (with_quick g d o size x n)
  unfolding with_quick
  with_quick-IsRest c n none e = λ e'. cc
  with_quick-IsRest c n (some hex) e =
      λ _. (ap (finalize_ctx g) (laws.update_nothing c) ∙ e, omega arith)

  with_sample-IsRest :
      (x : Sample) (next : Bytes → ℕ → HashResult) (c : Ctx) (n : ℕ) (offsets : List ℕ)
      → ((b : Bytes) (m : ℕ) → x ≡ filled b m → IsRest c n offsets (next b m))
      → IsRest c n offsets (with_sample g d o size x next)
  unfolding with_sample
  with_sample-IsRest (lost e) next c n offsets h = λ e'. cc
  with_sample-IsRest (filled b m) next c n offsets h = h b m refl

  sample_loop-IsRest :
      (offsets : List ℕ) (c : Ctx) (n : ℕ) → IsRest c n offsets (sample_loop g d o size offsets c n)
  unfolding sample_loop
  sample_loop-IsRest [] c n = with_quick-IsRest c n (finalize_ctx g c) refl
  sample_loop-IsRest (off ∷ offsets) c n =
      let to_read = min (sample_size size) (size - off) in
      let own = bytes_at d.content off to_read in
      elim (Bool-cases (d.stop_within off)) [
        | inl stop ↦ rw stop (λ e. cc)
        | inr go ↦ elim (Bool-cases (d.seeks off)) [
          | inr broken ↦ rw (go, broken) (λ e. cc)
          | inl found ↦
              rw (go, found)
                (with_sample-IsRest (read_sample g d o size to_read off to_read 0 [])
                  (λ b m. sample_loop g d o size offsets (g.update c b).0 (n + m)) c n
                  (off ∷ offsets)
                  λ b m read success.
                    let (bytes, count) =
                      read_sample-filled to_read off to_read 0 [] b m (omega arith) (omega arith)
                        refl read in
                    let (hash, total) =
                      sample_loop-IsRest offsets (g.update c b).0 (n + m) success in
                    (
                      ap (finalize_ctx g) (
                            sym (laws.update_twice c own (sampled d.content size offsets))
                            ∙ ap
                                (λ x.
                                  (g.update (g.update c x).0 (sampled d.content size offsets)).0)
                                (sym bytes))
                          ∙ hash,
                      total ∙ omega arith,
                    ))
        ]
      ]

  start_quick-digest :
      (c : Option Ctx) (next : Ctx → HashResult) (b : Bytes) (n : ℕ)
      → ((x : Ctx)
          → (next x).success ≡ true
          → (finalize_ctx g (g.update x b).0 ≡ some (next x).hash) × ((next x).bytes_processed ≡ n))
      → c ≡ g.init o.algorithm
      → (start_quick g d o size c next).success ≡ true
      → (digest_hex g o.algorithm b ≡ some (start_quick g d o size c next).hash)
        × ((start_quick g d o size c next).bytes_processed ≡ n)
  unfolding start_quick digest_hex
  start_quick-digest none next b n h e s = cc
  start_quick-digest (some x) next b n h e s = (rw (← e, digest_hex) ((h x s).0), (h x s).1)

  -- Where the quick sample succeeds, its hash is the digest of the samples, one behind the other, and
  -- it counted their bytes: however the reads were cut.
  pub hash_quick_sample-digest :
      (hash_quick_sample g d o size).success ≡ true
      → (digest_hex g o.algorithm (sampled d.content size (sample_offsets size))
          ≡ some (hash_quick_sample g d o size).hash)
        × ((hash_quick_sample g d o size).bytes_processed
            ≡ sampled_count size (sample_offsets size))
  unfolding hash_quick_sample
  hash_quick_sample-digest =
      start_quick-digest (g.init o.algorithm)
        (λ c. sample_loop g d o size (sample_offsets size) c 0)
        (sampled d.content size (sample_offsets size)) (sampled_count size (sample_offsets size))
        (λ x e.
          let (hash, count) = sample_loop-IsRest (sample_offsets size) x 0 e in
          (hash, count ∙ omega arith))
        refl
