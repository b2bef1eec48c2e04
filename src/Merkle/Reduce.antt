-- ===== src/Merkle/Reduce.antt =====
-- The `while` loop of `MerkleTree::build` (src/MerkleTree.cpp).
use flashsentry.Base.{ℕ, zero, suc, ◌+◌, ◌/◌, ◌≤◌, ◌<◌, ◌≡◌, List, [], ◌∷◌, Bytes, length, arith}
use flashsentry.Merkle.{Hashing, next_level, reduce}

module _ (h : Hashing) where
  -- A round halves the level, rounding up.
  pub length-next_level : (l : List Bytes) → length (next_level h l) ≡ (length l + 1) / 2
  unfolding next_level
  length-next_level [] = omega arith
  length-next_level (x ∷ []) = omega arith
  length-next_level (x ∷ y ∷ rest) = omega (arith, length-next_level rest)

  -- Given as many rounds as there are digests, the loop ends by its test: from a level that is not
  -- empty it leaves one digest.
  pub reduce_single :
      (fuel : ℕ) (l : List Bytes) → 0 < length l → length l ≤ fuel → length (reduce h fuel l) ≡ 1
  unfolding reduce
  reduce_single zero l n f = absurd (omega arith)
  reduce_single (suc fuel) l n f =
      ground (arith, length-next_level l, reduce_single fuel (next_level h l))

  -- More rounds change nothing.
  pub reduce_stable :
      (fuel : ℕ) (l : List Bytes) → length l ≤ fuel → reduce h (suc fuel) l ≡ reduce h fuel l
  unfolding reduce
  reduce_stable zero l f = ground arith
  reduce_stable (suc fuel) l f =
      ground (arith, length-next_level l, reduce_stable fuel (next_level h l))
