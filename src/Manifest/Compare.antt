-- ===== src/Manifest/Compare.antt =====
-- When two groups match (`verifyGroup` of src/ManifestService.cpp).
use flashsentry.Base.{
  ◌≡◌, ◌≢◌, ◌↔◌, refl, sym, ◌∙◌, true, ◌&&◌, none, some, List, [], ◌∷◌, Text, arith, Option-cases,
  inl, inr, text_eq_iff, text_eq_refl, lookup, insert, lookup-insert,
}
use flashsentry.Device.{WatchFileEntry, WatchGroup}
use flashsentry.Manifest.{compare_group, none_of}
use flashsentry.Manifest.Diff.{PathMap, path_map, missing_paths, changed_paths}

-- No key stands twice.
abbrev IsDistinct : PathMap → Type 0
IsDistinct [] = Unit {0}
IsDistinct ((k, v) ∷ m) = (lookup k m ≡ none) × IsDistinct m

insert-IsDistinct : (k v : Text) (m : PathMap) → IsDistinct m → IsDistinct (insert k v m)
unfolding insert
insert-IsDistinct k v [] d = unfold lookup in (refl, tt)
insert-IsDistinct k v ((i, w) ∷ m) (n, d) =
    ground
      (arith, insert-IsDistinct k v m d, text_eq_iff i k, text_eq_iff k i, lookup-insert k i v m)

path_map-IsDistinct :
    (es : List WatchFileEntry) (m : PathMap) → IsDistinct m → IsDistinct (path_map es m)
unfolding path_map
path_map-IsDistinct [] m d = d
path_map-IsDistinct (e ∷ es) m d =
    path_map-IsDistinct es _ (insert-IsDistinct e.relative_path e.content_hash m d)

-- Every entry of the one map is in the other, with its value.
abbrev IsWithin : PathMap → PathMap → Type 0
IsWithin [] other = Unit {0}
IsWithin ((k, v) ∷ m) other = (lookup k other ≡ some v) × IsWithin m other

IsWithin-of_none :
    (m other : PathMap)
    → none_of (changed_paths m other) ≡ true
    → none_of (missing_paths m other) ≡ true
    → IsWithin m other
unfolding changed_paths missing_paths
IsWithin-of_none [] other c n = tt
IsWithin-of_none ((k, v) ∷ m) other c n = elim (Option-cases (lookup k other)) [
  | inl e ↦ ground arith
  | inr (w, e) ↦ ground (arith, text_eq_iff w v, IsWithin-of_none m other)
]

none_of_within :
    (m other : PathMap)
    → IsWithin m other
    → (none_of (changed_paths m other) ≡ true) × (none_of (missing_paths m other) ≡ true)
unfolding changed_paths missing_paths
none_of_within [] other h = (refl, refl)
none_of_within ((k, v) ∷ m) other (e, h) = ground (arith, text_eq_refl v, none_of_within m other h)

lookup-within :
    (m other : PathMap) (k v : Text)
    → IsWithin m other
    → lookup k m ≡ some v
    → lookup k other ≡ some v
unfolding lookup
lookup-within [] other k v h e = cc
lookup-within ((j, w) ∷ m) other k v (l, h) e =
    ground (arith, text_eq_iff j k, lookup-within m other k v h)

-- A map with distinct keys whose lookups the other map answers alike is within it.
IsWithin-of_lookup :
    (m other : PathMap)
    → IsDistinct m
    → ((k v : Text) → lookup k m ≡ some v → lookup k other ≡ some v)
    → IsWithin m other
unfolding lookup
IsWithin-of_lookup [] other d h = tt
IsWithin-of_lookup ((k, v) ∷ m) other (n, d) h = (
  h k v (rw (text_eq_refl k)),
  IsWithin-of_lookup m other d λ j w e. h j w (ground (arith, text_eq_iff k j)),
)

lookup_covered :
    (m other : PathMap) (k v : Text)
    → none_of (missing_paths m other) ≡ true
    → lookup k m ≡ some v
    → lookup k other ≢ none
unfolding missing_paths lookup
lookup_covered [] other k v n e = cc
lookup_covered ((j, w) ∷ m) other k v n e =
    ground (arith, text_eq_iff j k, lookup_covered m other k v)

-- The three lists are empty exactly where the maps answer every lookup alike.
pub same_lookups_iff :
    (expected actual : PathMap)
    → IsDistinct expected
    → IsDistinct actual
    → ((none_of (changed_paths expected actual)
          && none_of (missing_paths expected actual)
          && none_of (missing_paths actual expected))
        ≡ true)
      ↔ ((k : Text) → lookup k actual ≡ lookup k expected)
same_lookups_iff expected actual d d' = (there, back)
  where
    there :
        (none_of (changed_paths expected actual)
            && none_of (missing_paths expected actual)
            && none_of (missing_paths actual expected))
          ≡ true
        → (k : Text) → lookup k actual ≡ lookup k expected
    there h k =
        let c : none_of (changed_paths expected actual) ≡ true = ground arith in
        let n : none_of (missing_paths expected actual) ≡ true = ground arith in
        let a : none_of (missing_paths actual expected) ≡ true = ground arith in
        let w = IsWithin-of_none expected actual c n in
        elim (Option-cases (lookup k expected)) [
          | inr (v, e) ↦ lookup-within expected actual k v w e ∙ sym e
          | inl e ↦ elim (Option-cases (lookup k actual)) [
            | inl e' ↦ e' ∙ sym e
            | inr (v, e') ↦ absurd (lookup_covered actual expected k v a e' e)
          ]
        ]

    back :
        ((k : Text) → lookup k actual ≡ lookup k expected)
        → (none_of (changed_paths expected actual)
            && none_of (missing_paths expected actual)
            && none_of (missing_paths actual expected))
          ≡ true
    back h =
        let w = IsWithin-of_lookup expected actual d (λ k v e. h k ∙ e) in
        let w' = IsWithin-of_lookup actual expected d' (λ k v e. sym (h k) ∙ e) in
        ground (arith, none_of_within expected actual w, none_of_within actual expected w')

-- A group matches its baseline exactly where it has the baseline's root, and each path has the
-- content hash in the one that it has in the other, or is in neither.
pub compare_group-matches_iff :
    (baseline group : WatchGroup)
    → ((compare_group baseline group).matches ≡ true) ↔ (
        (group.merkle_root ≡ baseline.merkle_root)
        × ((k : Text) → lookup k (path_map group.files []) ≡ lookup k (path_map baseline.files [])))
unfolding compare_group
compare_group-matches_iff baseline group =
    let roots = text_eq_iff group.merkle_root baseline.merkle_root in
    let maps =
      same_lookups_iff (path_map baseline.files []) (path_map group.files [])
        (path_map-IsDistinct baseline.files [] tt) (path_map-IsDistinct group.files [] tt) in
    (
      λ m. (roots.0 (ground arith), maps.0 (ground arith)),
      λ (e, k). ground (arith, roots.1 e, maps.1 k),
    )

-- A group matches itself.
pub compare_group_self :
    (baseline group : WatchGroup)
    → group.merkle_root ≡ baseline.merkle_root
    → path_map group.files [] ≡ path_map baseline.files []
    → (compare_group baseline group).matches ≡ true
compare_group_self baseline group e m = (compare_group-matches_iff baseline group).1 (e, λ k. rw m)
