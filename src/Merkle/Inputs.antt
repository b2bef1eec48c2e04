-- ===== src/Merkle/Inputs.antt =====
-- What `MerkleTree::build` of src/MerkleTree.cpp hashes on its way to a root, and collisions there.
use flashsentry.Base.{
  ℕ, zero, suc, ◌≡◌, ◌≢◌, ◌⊎◌, inl, inr, refl, ap, List, [], ◌∷◌, ◌++◌, map, Bytes, length, arith,
  ltb, if◌then◌else◌, Bool-cases, text_eq, text_eq_iff,
}
use flashsentry.Merkle.{Hashing, Leaf, sha256, combine, leaf_digest, next_level}

-- At one position of the lists there are two different inputs with one SHA-256.
pub data Collides (h : Hashing) : List Bytes → List Bytes → Type 0 where
  at_front :
      {x y : Bytes} {xs ys : List Bytes}
      → x ≢ y
      → sha256 h x ≡ sha256 h y
      → Collides h (x ∷ xs) (y ∷ ys)
  behind : {x y : Bytes} {xs ys : List Bytes} → Collides h xs ys → Collides h (x ∷ xs) (y ∷ ys)

module _ (h : Hashing) where
  -- The bytes that a leaf's digest covers.
  abbrev pub payload : Leaf → Bytes
  payload l = h.to_utf8 l.relative_path ++ (0 ∷ h.to_latin1 l.content_hash_hex)

  unfoldable pub digests : List Leaf → List Bytes
  digests = map (λ l. leaf_digest h l.relative_path l.content_hash_hex)

  -- What a round hashes.
  abbrev pub pair_inputs : List Bytes → List Bytes
  pair_inputs [] = []
  pair_inputs (x ∷ []) = (h.to_hex x ++ h.to_hex x) ∷ []
  pair_inputs (x ∷ y ∷ rest) = (h.to_hex x ++ h.to_hex y) ∷ pair_inputs rest

  -- What all rounds of the loop hash.
  unfoldable pub reduce_inputs : ℕ → List Bytes → List Bytes
  reduce_inputs zero level = []
  reduce_inputs (suc fuel) level =
      let rest = pair_inputs level ++ reduce_inputs fuel (next_level h level) in
      if ltb 1 (length level) then rest else []

  -- What is hashed on the way from the leaves to their root.
  unfoldable pub root_inputs : List Leaf → List Bytes
  unfolding digests
  root_inputs ls = map payload ls ++ reduce_inputs (length (digests ls)) (digests ls)

  pub next_level-pair_inputs : (l : List Bytes) → next_level h l ≡ map (sha256 h) (pair_inputs l)
  unfolding next_level combine
  next_level-pair_inputs [] = refl
  next_level-pair_inputs (x ∷ []) = refl
  next_level-pair_inputs (x ∷ y ∷ rest) =
      ap (◌∷◌ (sha256 h (h.to_hex x ++ h.to_hex y))) (next_level-pair_inputs rest)

  pub digests-payload : (ls : List Leaf) → digests ls ≡ map (sha256 h) (map payload ls)
  unfolding digests leaf_digest
  digests-payload [] = refl
  digests-payload (l ∷ ls) = ap (◌∷◌ (sha256 h (payload l))) (digests-payload ls)

  pub length-pair_inputs :
      (l m : List Bytes) → length l ≡ length m → length (pair_inputs l) ≡ length (pair_inputs m)
  length-pair_inputs [] [] e = refl
  length-pair_inputs [] (y ∷ m) e = absurd (omega arith)
  length-pair_inputs (x ∷ l) [] e = absurd (omega arith)
  length-pair_inputs (x ∷ []) (y ∷ []) e = refl
  length-pair_inputs (x ∷ []) (y ∷ y' ∷ m) e = absurd (omega arith)
  length-pair_inputs (x ∷ x' ∷ l) (y ∷ []) e = absurd (omega arith)
  length-pair_inputs (x ∷ x' ∷ l) (y ∷ y' ∷ m) e = ap suc (length-pair_inputs l m (omega arith))

  -- Equal hashes come from equal inputs, or collide.
  pub sha256-binding :
      (xs ys : List Bytes) → map (sha256 h) xs ≡ map (sha256 h) ys → (xs ≡ ys) ⊎ Collides h xs ys
  sha256-binding [] [] e = inl refl
  sha256-binding [] (y ∷ ys) e = cc
  sha256-binding (x ∷ xs) [] e = cc
  sha256-binding (x ∷ xs) (y ∷ ys) e = elim (Bool-cases (text_eq x y)) [
    | inr other ↦ inr (at_front (λ q. cc ((text_eq_iff x y).1 q)) (cc))
    | inl same ↦ elim (sha256-binding xs ys (cc)) [
      | inr found ↦ inr (behind found)
      | inl rest ↦ inl (cc ((text_eq_iff x y).0 same))
    ]
  ]

  pub Collides-front :
      {xs ys : List Bytes} (us vs : List Bytes)
      → Collides h xs ys
      → Collides h (xs ++ us) (ys ++ vs)
  Collides-front us vs (at_front d e) = at_front d e
  Collides-front us vs (behind c) = behind (Collides-front us vs c)

  pub Collides-behind :
      (xs ys us vs : List Bytes)
      → length xs ≡ length ys
      → Collides h us vs
      → Collides h (xs ++ us) (ys ++ vs)
  Collides-behind [] [] us vs e c = c
  Collides-behind [] (y ∷ ys) us vs e c = absurd (omega arith)
  Collides-behind (x ∷ xs) [] us vs e c = absurd (omega arith)
  Collides-behind (x ∷ xs) (y ∷ ys) us vs e c = behind (Collides-behind xs ys us vs (omega arith) c)
