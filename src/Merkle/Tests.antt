-- ===== src/Merkle/Tests.antt =====
-- Concrete trees, and the theorems on them.
use mathlib.Core.List.{Mem, Memᴰ, Permᴰ}
use mathlib.Core.Logic.{∥∥₁_elim}
use flashsentry.Base.{
  ◌*◌, ◌≡◌, refl, sym, ◌∙◌, ap, Bool, true, false, some, List, [], ◌∷◌, map, Text, Bytes, length,
  arith, codes, ltb, if◌then◌else◌, ◌⊎◌,
}
use flashsentry.Merkle.{Hashing, Leaf, reduce, build}
use flashsentry.Merkle.Reduce.{reduce_single}
use flashsentry.Merkle.Binding.{HashingLaws, root_of-binding}
use flashsentry.Merkle.Inputs.{Collides, payload, root_inputs}
use flashsentry.Merkle.Order.{IsStrictOrder, IsPathKeyed, root_hex-perm}

abbrev digits : Bytes → Text
digits [] = []
digits (c ∷ b) = c ∷ c ∷ digits b

length-digits : (b : Bytes) → length (digits b) ≡ 2 * length b
length-digits [] = refl
length-digits (c ∷ b) = omega (arith, length-digits b)

digits-injective : (a b : Bytes) → digits a ≡ digits b → a ≡ b
digits-injective [] [] e = refl
digits-injective [] (d ∷ b) e = cc
digits-injective (c ∷ a) [] e = cc
digits-injective (c ∷ a) (d ∷ b) e = let q = digits-injective a b (cc) in cc

-- The order of `QString::operator<`.
less : Text → Text → Bool
less s [] = false
less [] (d ∷ t) = true
less (c ∷ s) (d ∷ t) =
    let rest = less s t in if ltb c d then true else if ltb d c then false else rest

less-asymmetric : (a b : Text) → less a b ≡ true → less b a ≡ false
unfolding less
less-asymmetric [] [] h = cc
less-asymmetric [] (d ∷ t) h = refl
less-asymmetric (c ∷ s) [] h = cc
less-asymmetric (c ∷ s) (d ∷ t) h = ground (arith, less-asymmetric s t)

less-transitive : (a b c : Text) → less a b ≡ true → less b c ≡ true → less a c ≡ true
unfolding less
less-transitive a [] c h k = cc
less-transitive a (d ∷ t) [] h k = cc
less-transitive [] (d ∷ t) (e ∷ u) h k = refl
less-transitive (c ∷ s) (d ∷ t) (e ∷ u) h k = ground (arith, less-transitive s t u)

less-total : (a b : Text) → less a b ≡ false → less b a ≡ false → a ≡ b
unfolding less
less-total [] [] h k = refl
less-total [] (d ∷ t) h k = cc
less-total (c ∷ s) [] h k = cc
less-total (c ∷ s) (d ∷ t) h k = ground (arith, less-total s t)

less-IsStrictOrder : IsStrictOrder less
less-IsStrictOrder = record {
  asymmetric = less-asymmetric;
  transitive = less-transitive;
  total = less-total;
}

abbrev ones : Bytes
ones =
    1 ∷ 1 ∷ 1 ∷ 1 ∷ 1 ∷ 1 ∷ 1 ∷ 1 ∷ 1 ∷ 1 ∷ 1 ∷ 1 ∷ 1 ∷ 1 ∷ 1 ∷ 1 ∷ 1 ∷ 1 ∷ 1 ∷ 1 ∷ 1 ∷ 1 ∷ 1 ∷ 1
    ∷ 1 ∷ 1 ∷ 1 ∷ 1 ∷ 1 ∷ 1 ∷ 1 ∷ 1 ∷ []

abbrev hashing : Hashing
hashing = record {
  evp_sha256 = λ b. some ones;
  to_hex = digits;
  to_utf8 = λ s. s;
  to_latin1 = λ s. s;
  less = less;
}

hashing_laws : HashingLaws hashing
hashing_laws = record {
  hashes = λ b. (ones, refl, refl);
  length-to_hex = length-digits;
  to_hex-injective = digits-injective;
}

abbrev leaf : Text → Leaf
leaf path = record { relative_path = path; content_hash_hex = codes "0f"; digest = [] }

abbrev a_b : List Leaf
a_b = leaf (codes "a") ∷ leaf (codes "b") ∷ []

abbrev b_a : List Leaf
b_a = leaf (codes "b") ∷ leaf (codes "a") ∷ []

reduce_single_example : length (reduce hashing 3 (ones ∷ ones ∷ ones ∷ [])) ≡ 1
reduce_single_example =
    reduce_single hashing 3 (ones ∷ ones ∷ ones ∷ []) (omega arith) (omega arith)

root_of-binding_example :
    (map (payload hashing) a_b ≡ map (payload hashing) a_b)
    ⊎ Collides hashing (root_inputs hashing a_b) (root_inputs hashing a_b)
root_of-binding_example = root_of-binding hashing hashing_laws a_b a_b refl refl

leaf_set : IsSet Leaf
leaf_set = hlevel

from_path : (x : Leaf) → Mem x a_b → x ≡ leaf x.relative_path
from_path x m = ∥∥₁_elim m (leaf_set _ _) found
  where
    found : Memᴰ x a_b → x ≡ leaf x.relative_path
    found (Memᴰ.head e) = e ∙ ap (λ (y : Leaf). leaf y.relative_path) (sym e)
    found (Memᴰ.tail (Memᴰ.head e)) = e ∙ ap (λ (y : Leaf). leaf y.relative_path) (sym e)
    found (Memᴰ.tail (Memᴰ.tail m')) = elim m' [ ]

a_b-IsPathKeyed : IsPathKeyed a_b
a_b-IsPathKeyed x y m n e = from_path x m ∙ ap leaf e ∙ sym (from_path y n)

root_hex-perm_example : (build hashing a_b).root_hex ≡ (build hashing b_a).root_hex
root_hex-perm_example =
    root_hex-perm hashing a_b b_a less-IsStrictOrder a_b-IsPathKeyed ∣ Permᴰ.swap refl refl ∣₁
