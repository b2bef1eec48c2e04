-- ===== src/RawHash/Quick/Offsets.antt =====
-- Where the samples of src/RawDeviceHashAdvanced.cpp lie.
use flashsentry.Base.{
  ℕ, zero, suc, ◌+◌, ◌-◌, ◌≤◌, ◌≡◌, refl, ◌∙◌, true, false, List, [], ◌∷◌, ◌++◌, ltb, ◌==◌, any,
  any-append, length, length-append, subst, All, arith, Bool-cases, inl, inr,
}
use flashsentry.RawHash.Quick.{
  sample_size, spaced_offset, append_new, has_offset, first_offsets, spaced_loop, sample_offsets,
}

-- No offset is there twice.
abbrev pub Distinct : List ℕ → Type 0
Distinct [] = Unit {0}
Distinct (x ∷ xs) = (any (λ y. y == x) xs ≡ false) × Distinct xs

module _ (size : ℕ) where
  -- The sample at an offset is inside the device.
  abbrev pub Fits : ℕ → Type 0
  Fits off = off + sample_size size ≤ size

  spaced_offset-Fits : (i : ℕ) → Fits (spaced_offset size i)
  unfolding spaced_offset
  spaced_offset-Fits i = ground arith

  All-snoc : (xs : List ℕ) (x : ℕ) → All Fits xs → Fits x → All Fits (xs ++ x ∷ [])
  All-snoc [] x h f = (f, tt)
  All-snoc (y ∷ ys) x (own, h) f = (own, All-snoc ys x h f)

  Distinct-snoc :
      (xs : List ℕ) (x : ℕ) → Distinct xs → any (λ y. y == x) xs ≡ false → Distinct (xs ++ x ∷ [])
  unfolding any
  Distinct-snoc [] x h f = (refl, tt)
  Distinct-snoc (y ∷ ys) x (own, h) f =
      (any-append (λ z. z == y) ys (x ∷ []) ∙ ground arith, Distinct-snoc ys x h (ground arith))

  -- What the samples are: inside, each once, at most so many, the first and the last one among them.
  pub record AreSamples (most : ℕ) (offsets : List ℕ) : Type 0 where
    pub inside : All Fits offsets
    pub distinct : Distinct offsets
    pub bounded : length offsets ≤ most
    pub first : has_offset offsets 0 ≡ true
    pub last : has_offset offsets (size - sample_size size) ≡ true

  has_offset-append :
      (xs : List ℕ) (x y : ℕ) → has_offset xs y ≡ true → has_offset (xs ++ x ∷ []) y ≡ true
  unfolding has_offset any
  has_offset-append xs x y h = any-append (λ z. z == y) xs (x ∷ []) ∙ rw h

  append_new-AreSamples :
      (most : ℕ) (offsets : List ℕ) (i : ℕ)
      → AreSamples most offsets
      → AreSamples (most + 1) (append_new offsets (spaced_offset size i))
  unfolding append_new has_offset
  append_new-AreSamples most offsets i h =
      let off = spaced_offset size i in
      elim (Bool-cases (has_offset offsets off)) [
        | inl old ↦ rw old (record {
          inside = h.inside;
          distinct = h.distinct;
          bounded = omega (arith, h.bounded);
          first = h.first;
          last = h.last;
        })
        | inr new ↦ rw new (record {
          inside = All-snoc offsets off h.inside (spaced_offset-Fits i);
          distinct = Distinct-snoc offsets off h.distinct new;
          bounded = omega (arith, h.bounded, length-append offsets (off ∷ []));
          first = has_offset-append offsets off 0 h.first;
          last = has_offset-append offsets off (size - sample_size size) h.last;
        })
      ]

  spaced_loop-AreSamples :
      (rounds i most : ℕ) (offsets : List ℕ)
      → AreSamples most offsets
      → AreSamples (most + rounds) (spaced_loop size rounds i offsets)
  unfolding spaced_loop
  spaced_loop-AreSamples zero i most offsets h = subst (λ m. AreSamples m offsets) (omega arith) h
  spaced_loop-AreSamples (suc rounds) i most offsets h =
      subst (λ m. AreSamples m (spaced_loop size (suc rounds) i offsets)) (omega arith)
        (spaced_loop-AreSamples rounds (i + 1) (most + 1)
          (append_new offsets (spaced_offset size i)) (append_new-AreSamples most offsets i h))

  first_offsets-AreSamples : AreSamples 2 (first_offsets size)
  unfolding first_offsets any has_offset
  first_offsets-AreSamples = elim (Bool-cases (ltb (sample_size size) size)) [
    | inl large ↦ rw large (record {
      inside = (ground arith, (ground arith, tt));
      distinct = (ground arith, (refl, tt));
      bounded = omega arith;
      first = refl;
      last = ground arith;
    })
    | inr small ↦ rw small (record {
      inside = (ground arith, tt);
      distinct = (refl, tt);
      bounded = omega arith;
      first = refl;
      last = ground arith;
    })
  ]

  -- The samples are inside the device, no two begin at one place, there are at most 15, and one begins
  -- at the device's start, and one ends at its end.
  pub sample_offsets-AreSamples : AreSamples 15 (sample_offsets size)
  unfolding sample_offsets
  sample_offsets-AreSamples =
      spaced_loop-AreSamples 13 1 2 (first_offsets size) first_offsets-AreSamples
