-- ===== src/Merkle/Order.antt =====
-- The root does not depend on the order in which the files were found (src/MerkleTree.cpp).
use mathlib.Core.List.{Mem, Perm, Permᴰ, mem-cons_self, mem-cons_of_mem}
use mathlib.Core.List.Perm
use mathlib.Core.Logic.{∥∥₁_elim}
use mathlib.Core.Path.{ap₂}
use flashsentry.Base.{
  ◌≡◌, refl, sym, ap, ◌∙◌, Bool, true, false, List, [], ◌∷◌, Text, arith, Bool-cases, inl, inr,
}
use flashsentry.Merkle.{Hashing, Leaf, insert_leaf, sort_leaves, root_of, build}

-- `QString::operator<` is a strict order that tells any two texts apart.
pub record IsStrictOrder (less : Text → Text → Bool) : Type 0 where
  pub asymmetric : (a b : Text) → less a b ≡ true → less b a ≡ false
  pub transitive : (a b c : Text) → less a b ≡ true → less b c ≡ true → less a c ≡ true
  pub total : (a b : Text) → less a b ≡ false → less b a ≡ false → a ≡ b

-- Leaves of one path are one leaf.
abbrev pub IsPathKeyed : List Leaf → Type 0
IsPathKeyed l = (a b : Leaf) → Mem a l → Mem b l → a.relative_path ≡ b.relative_path → a ≡ b

module _ (less : Text → Text → Bool) (order : IsStrictOrder less) where
  insert_swap_less :
      (x y : Leaf) (s : List Leaf)
      → less x.relative_path y.relative_path ≡ true
      → insert_leaf less x (insert_leaf less y s) ≡ insert_leaf less y (insert_leaf less x s)
  unfolding insert_leaf
  insert_swap_less x y [] h = ground (arith, order.asymmetric x.relative_path y.relative_path)
  insert_swap_less x y (z ∷ s) h = ground (
    arith,
    order.asymmetric x.relative_path y.relative_path,
    order.transitive z.relative_path x.relative_path y.relative_path,
    insert_swap_less x y s h,
  )

  insert_swap :
      (x y : Leaf) (s : List Leaf)
      → (x.relative_path ≡ y.relative_path → x ≡ y)
      → insert_leaf less x (insert_leaf less y s) ≡ insert_leaf less y (insert_leaf less x s)
  insert_swap x y s same = elim (Bool-cases (less x.relative_path y.relative_path)) [
    | inl h ↦ insert_swap_less x y s h
    | inr h ↦ elim (Bool-cases (less y.relative_path x.relative_path)) [
      | inl k ↦ sym (insert_swap_less y x s k)
      | inr k ↦
          let e = same (order.total x.relative_path y.relative_path h k) in
          ap₂ (λ a b. insert_leaf less a (insert_leaf less b s)) e (sym e)
    ]
  ]

  sort_leaves-permᴰ :
      {l m : List Leaf} → IsPathKeyed l → Permᴰ l m → sort_leaves less l ≡ sort_leaves less m
  unfolding sort_leaves
  sort_leaves-permᴰ k Permᴰ.nil = refl
  sort_leaves-permᴰ k (Permᴰ.cons e p) =
      ap₂ (insert_leaf less) e
        (sort_leaves-permᴰ (λ a b m n. k a b (mem-cons_of_mem _ m) (mem-cons_of_mem _ n)) p)
  sort_leaves-permᴰ k (Permᴰ.swap {a} {b} {a'} {b'} {l} e f) =
      insert_swap a b (sort_leaves less l) (k a b mem-cons_self (mem-cons_of_mem _ mem-cons_self))
      ∙ ap₂ (λ x y. insert_leaf less x (insert_leaf less y (sort_leaves less l))) f e
  sort_leaves-permᴰ k (Permᴰ.trans p q) =
      sort_leaves-permᴰ k p
      ∙ sort_leaves-permᴰ (λ a b m n. k a b ((Perm.mem_iff ∣ p ∣₁).1 m) ((Perm.mem_iff ∣ p ∣₁).1 n))
          q

-- The same leaves in another order give the same root, where no two of them have one path.
pub root_hex-perm :
    (h : Hashing) (l m : List Leaf)
    → IsStrictOrder h.less
    → IsPathKeyed l
    → Perm l m
    → (build h l).root_hex ≡ (build h m).root_hex
unfolding build
root_hex-perm h l m order k p =
    ∥∥₁_elim p (text_set _ _) (λ q. ap (root_of h) (sort_leaves-permᴰ h.less order k q))
  where
    text_set : IsSet Text
    text_set = hlevel
