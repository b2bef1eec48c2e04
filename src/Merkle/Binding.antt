-- ===== src/Merkle/Binding.antt =====
-- A root determines the digests below it, or shows a collision of SHA-256 (src/MerkleTree.cpp).
use native.Mathlib.Nat.{le_refl}
use flashsentry.Base.{
  true, subst, ◌<◌, ℕ, zero, suc, ◌*◌, ◌≡◌, ◌⊎◌, inl, inr, refl, sym, ap, ◌∙◌, some, List, [], ◌∷◌,
  ◌++◌, map, Bytes, length, arith, ltb, Bool-cases, All,
}
use flashsentry.Merkle.{
  Hashing, Leaf, sha256, combine, leaf_digest, next_level, reduce, root_of, first,
}
use flashsentry.Merkle.Inputs.{
  Collides, payload, digests, pair_inputs, reduce_inputs, root_inputs, next_level-pair_inputs,
  digests-payload, length-pair_inputs, sha256-binding, Collides-front, Collides-behind,
}
use flashsentry.Merkle.Reduce.{length-next_level, reduce_single}

pub record HashingLaws (h : Hashing) : Type 0 where
  -- OpenSSL answers, with the 32 bytes of a SHA-256.
  pub hashes : (b : Bytes) → (d : Bytes) × (h.evp_sha256 b ≡ some d) × (length d ≡ 32)
  pub length-to_hex : (b : Bytes) → length (h.to_hex b) ≡ 2 * length b
  pub to_hex-injective : (a b : Bytes) → h.to_hex a ≡ h.to_hex b → a ≡ b

append-injective : (a b c d : Bytes) → length a ≡ length c → a ++ b ≡ c ++ d → (a ≡ c) × (b ≡ d)
append-injective [] b [] d n e = (refl, e)
append-injective [] b (y ∷ c) d n e = absurd (omega arith)
append-injective (x ∷ a) b [] d n e = absurd (omega arith)
append-injective (x ∷ a) b (y ∷ c) d n e =
    let (p, q) = append-injective a b c d (omega arith) (cc) in (cc, q)

module _ (h : Hashing) (laws : HashingLaws h) where
  length-sha256 : (b : Bytes) → length (sha256 h b) ≡ 32
  unfolding sha256
  length-sha256 b = let (d, e, n) = laws.hashes b in rw e n

  pair-injective :
      (a b c d : Bytes)
      → length a ≡ length c
      → h.to_hex a ++ h.to_hex b ≡ h.to_hex c ++ h.to_hex d
      → (a ≡ c) × (b ≡ d)
  pair-injective a b c d n e =
      let (p, q) =
        append-injective (h.to_hex a) (h.to_hex b) (h.to_hex c) (h.to_hex d)
          (omega (arith, laws.length-to_hex a, laws.length-to_hex c, n)) e in
      (laws.to_hex-injective a c p, laws.to_hex-injective b d q)

  -- All digests of a level have 32 bytes.
  abbrev pub IsLevel : List Bytes → Type 0
  IsLevel = All (λ d. length d ≡ 32)

  next_level-IsLevel : (l : List Bytes) → IsLevel l → IsLevel (next_level h l)
  unfolding next_level combine
  next_level-IsLevel [] k = tt
  next_level-IsLevel (x ∷ []) k = (length-sha256 _, tt)
  next_level-IsLevel (x ∷ y ∷ rest) (_, (_, k)) = (length-sha256 _, next_level-IsLevel rest k)

  pair_inputs-injective :
      (l m : List Bytes)
      → length l ≡ length m
      → IsLevel l
      → IsLevel m
      → pair_inputs h l ≡ pair_inputs h m
      → l ≡ m
  pair_inputs-injective [] [] n k k' e = refl
  pair_inputs-injective [] (y ∷ m) n k k' e = absurd (omega arith)
  pair_inputs-injective (x ∷ l) [] n k k' e = absurd (omega arith)
  pair_inputs-injective (x ∷ []) (y ∷ []) n k k' e =
      let (p, q) = pair-injective x x y y (k.0 ∙ sym k'.0) (cc) in cc
  pair_inputs-injective (x ∷ []) (y ∷ y' ∷ m) n k k' e = absurd (omega arith)
  pair_inputs-injective (x ∷ x' ∷ l) (y ∷ []) n k k' e = absurd (omega arith)
  pair_inputs-injective (x ∷ x' ∷ l) (y ∷ y' ∷ m) n (a, (_, k)) (b, (_, k')) e =
      let (p, q) = pair-injective x x' y y' (a ∙ sym b) (cc) in
      let rest = pair_inputs-injective l m (omega arith) k k' (cc) in cc

  reduce-binding :
      (fuel : ℕ) (l m : List Bytes)
      → length l ≡ length m
      → IsLevel l
      → IsLevel m
      → reduce h fuel l ≡ reduce h fuel m
      → (l ≡ m) ⊎ Collides h (reduce_inputs h fuel l) (reduce_inputs h fuel m)
  unfolding reduce reduce_inputs
  reduce-binding zero l m n k k' e = inl e
  reduce-binding (suc fuel) l m n k k' e = elim (Bool-cases (ltb 1 (length l))) [
    | inr few ↦ inl (ground arith)
    | inl many ↦
        let many' : ltb 1 (length m) ≡ true = ground arith in
        let below : reduce h fuel (next_level h l) ≡ reduce h fuel (next_level h m) =
          ground arith in
        let same : length (next_level h l) ≡ length (next_level h m) =
          omega (arith, length-next_level h l, length-next_level h m) in
        let us = reduce_inputs h fuel (next_level h l) in
        let vs = reduce_inputs h fuel (next_level h m) in
        rw (many, many')
          (elim (reduce-binding fuel (next_level h l) (next_level h m) same (next_level-IsLevel l k)
            (next_level-IsLevel m k') below) [
              | inr found ↦ inr (
                  Collides-behind h (pair_inputs h l) (pair_inputs h m) us vs
                    (length-pair_inputs h l m n) found)
              | inl q ↦
                  elim (sha256-binding h (pair_inputs h l) (pair_inputs h m)
                    (sym (next_level-pair_inputs h l) ∙ q ∙ next_level-pair_inputs h m)) [
                      | inr found ↦ inr (Collides-front h us vs found)
                      | inl r ↦ inl (pair_inputs-injective l m n k k' r)
                    ]
            ])
  ]

  length-digests : (ls : List Leaf) → length (digests h ls) ≡ length ls
  unfolding digests
  length-digests [] = refl
  length-digests (l ∷ ls) = ap suc (length-digests ls)

  length-payloads : (ls : List Leaf) → length (map (payload h) ls) ≡ length ls
  length-payloads [] = refl
  length-payloads (l ∷ ls) = ap suc (length-payloads ls)

  digests-IsLevel : (ls : List Leaf) → IsLevel (digests h ls)
  unfolding digests leaf_digest
  digests-IsLevel [] = tt
  digests-IsLevel (l ∷ ls) = (length-sha256 _, digests-IsLevel ls)

  single : (l m : List Bytes) → length l ≡ 1 → length m ≡ 1 → first l ≡ first m → l ≡ m
  single [] m n k e = absurd (omega arith)
  single (x ∷ []) [] n k e = absurd (omega arith)
  single (x ∷ []) (y ∷ []) n k e = cc
  single (x ∷ []) (y ∷ y' ∷ m) n k e = absurd (omega arith)
  single (x ∷ x' ∷ l) m n k e = absurd (omega arith)

  some_digest : (l : Leaf) (ls : List Leaf) → 0 < length (digests h (l ∷ ls))
  some_digest l ls = omega (arith, length-digests (l ∷ ls))

  rooted :
      (l m : Leaf) (ls ms : List Leaf)
      → root_of h (l ∷ ls) ≡ root_of h (m ∷ ms)
      → h.to_hex (first (reduce h (length (digests h (l ∷ ls))) (digests h (l ∷ ls))))
        ≡ h.to_hex (first (reduce h (length (digests h (m ∷ ms))) (digests h (m ∷ ms))))
  unfolding root_of digests
  rooted l m ls ms e = e

  -- Two sorted leaf lists of one length with one root agree, leaf by leaf, in the bytes that the
  -- digests cover (the path's UTF-8, a zero byte and the content hash), or two different inputs with
  -- one SHA-256 stand at one position among the bytes that are hashed on the way to the two roots;
  -- where a SHA-256 has 32 bytes and hexadecimal digits tell bytes apart.
  pub root_of-binding :
      (ls ms : List Leaf)
      → length ls ≡ length ms
      → root_of h ls ≡ root_of h ms
      → (map (payload h) ls ≡ map (payload h) ms) ⊎ Collides h (root_inputs h ls) (root_inputs h ms)
  unfolding root_inputs
  root_of-binding [] [] n e = inl refl
  root_of-binding [] (m ∷ ms) n e = absurd (omega arith)
  root_of-binding (l ∷ ls) [] n e = absurd (omega arith)
  root_of-binding (l ∷ ls) (m ∷ ms) n e =
      let a = digests h (l ∷ ls) in
      let b = digests h (m ∷ ms) in
      let one = map (payload h) (l ∷ ls) in
      let other = map (payload h) (m ∷ ms) in
      let same : length a ≡ length b =
        length-digests (l ∷ ls) ∙ n ∙ sym (length-digests (m ∷ ms)) in
      let top : first (reduce h (length a) a) ≡ first (reduce h (length b) b) =
        laws.to_hex-injective _ _ (rooted l m ls ms e) in
      let roots : reduce h (length a) a ≡ reduce h (length b) b =
        single _ _ (reduce_single h (length a) a (some_digest l ls) (le_refl (length a)))
          (reduce_single h (length b) b (some_digest m ms) (le_refl (length b))) top in
      let us = reduce_inputs h (length a) a in
      let vs = reduce_inputs h (length b) b in
      elim (reduce-binding (length a) a b same (digests-IsLevel (l ∷ ls)) (digests-IsLevel (m ∷ ms))
        (roots ∙ ap (λ k. reduce h k b) (sym same))) [
          | inr found ↦ inr (
              Collides-behind h one other us vs
                (length-payloads (l ∷ ls) ∙ n ∙ sym (length-payloads (m ∷ ms)))
                (subst (λ k. Collides h us (reduce_inputs h k b)) same found))
          | inl q ↦
              elim (sha256-binding h one other
                (sym (digests-payload h (l ∷ ls)) ∙ q ∙ digests-payload h (m ∷ ms))) [
                  | inr found ↦ inr (Collides-front h us vs found)
                  | inl p ↦ inl p
                ]
        ]
