-- ===== src/Merkle.antt =====
-- src/MerkleTree.cpp and include/MerkleTree.h. `std::sort` is insertion by the comparison it is given.
pub mod Reduce
pub mod Inputs
pub mod Binding
pub mod Order
mod Tests
use flashsentry.Base.{
  ℕ, zero, suc, ◌*◌, ◌≡◌, Bool, Option, none, some, List, [], ◌∷◌, ◌++◌, map, Text, Bytes, ltb,
  if◌then◌else◌, length,
}

-- What the tree takes from OpenSSL and Qt.
pub record Hashing : Type 0 where
  -- The EVP calls: nothing where one of them fails.
  pub evp_sha256 : Bytes → Option Bytes
  pub to_hex : Bytes → Text
  pub to_utf8 : Text → Bytes
  pub to_latin1 : Text → Bytes
  -- `QString::operator<`
  pub less : Text → Text → Bool

pub record Leaf : Type 0 where
  pub relative_path : Text
  pub content_hash_hex : Text
  pub digest : Bytes

pub record MerkleTree : Type 0 where
  pub leaves : List Leaf
  pub root_hex : Text

abbrev pub or_empty : Option Bytes → Bytes
or_empty none = []
or_empty (some b) = b

-- The leaf that `less` puts first goes first; `leaves` is sorted.
unfoldable pub insert_leaf : (Text → Text → Bool) → Leaf → List Leaf → List Leaf
insert_leaf less x [] = x ∷ []
insert_leaf less x (y ∷ ys) =
    let rest = insert_leaf less x ys in
    if less y.relative_path x.relative_path then y ∷ rest else x ∷ y ∷ ys

unfoldable pub sort_leaves : (Text → Text → Bool) → List Leaf → List Leaf
unfolding insert_leaf
sort_leaves less [] = []
sort_leaves less (x ∷ xs) = insert_leaf less x (sort_leaves less xs)

-- `level.first()`; the loop leaves one digest.
abbrev pub first : List Bytes → Bytes
first [] = []
first (d ∷ ds) = d

module _ (h : Hashing) where
  unfoldable pub sha256 : Bytes → Bytes
  sha256 payload = or_empty (h.evp_sha256 payload)

  -- `sha256HexPair`
  unfoldable pub combine : Bytes → Bytes → Bytes
  unfolding sha256
  combine left right = sha256 (h.to_hex left ++ h.to_hex right)

  unfoldable pub leaf_digest : Text → Text → Bytes
  unfolding sha256
  leaf_digest relative_path content_hash_hex =
      sha256 (h.to_utf8 relative_path ++ (0 ∷ h.to_latin1 content_hash_hex))

  -- One round of the `while` loop: the last of an odd number is paired with itself.
  unfoldable pub next_level : List Bytes → List Bytes
  next_level [] = []
  next_level (x ∷ []) = combine x x ∷ []
  next_level (x ∷ y ∷ rest) = combine x y ∷ next_level rest

  -- The loop, with the rounds that it may still make.
  unfoldable pub reduce : ℕ → List Bytes → List Bytes
  unfolding next_level
  reduce zero level = level
  reduce (suc fuel) level =
      let rest = reduce fuel (next_level level) in if ltb 1 (length level) then rest else level

  abbrev with_digest : Leaf → Leaf
  with_digest l = record l { digest = leaf_digest l.relative_path l.content_hash_hex }

  unfoldable pub root_of : List Leaf → Text
  unfolding reduce leaf_digest
  root_of [] = []
  root_of (l ∷ ls) =
      let level = map (λ x. leaf_digest x.relative_path x.content_hash_hex) (l ∷ ls) in
      h.to_hex (first (reduce (length level) level))

  unfoldable pub build : List Leaf → MerkleTree
  unfolding sort_leaves root_of
  build leaves =
      let sorted = sort_leaves h.less leaves in
      record { leaves = map with_digest sorted; root_hex = root_of sorted }

  -- `MerkleTree::rootHex(leaves)`
  unfoldable pub root_hex : List Leaf → Text
  unfolding build
  root_hex leaves = (build leaves).root_hex
