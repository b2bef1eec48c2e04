-- ===== src/Manifest/Within.antt =====
-- Which files are watched (`collectFilesForPaths` of src/ManifestService.cpp).
use flashsentry.Base.{
  ◌≡◌, refl, subst, Bool, true, false, not, ◌||◌, List, [], ◌∷◌, ◌++◌, Text, All, arith,
  if◌then◌else◌, is_empty, Bool-cases, inl, inr,
}
use flashsentry.Manifest.Paths.{
  Volume, path_escapes, no_mount_point, Collected, files, failed, normalize_mount, is_within_mount,
  collect_dir, collect_path, collect_paths, collect_files_for_paths, sort_texts, insert_text,
  contains, unique, finish,
}

All-append : (P : Text → Type 0) (xs ys : List Text) → All P xs → All P ys → All P (xs ++ ys)
All-append P [] ys h k = k
All-append P (x ∷ xs) ys (p, h) k = (p, All-append P xs ys h k)

if_both :
    (Q : Collected → Type 0) (b : Bool) (x y : Collected)
    → (b ≡ true → Q x)
    → (b ≡ false → Q y)
    → Q (if b then x else y)
if_both Q true x y h k = h refl
if_both Q false x y h k = k refl

-- The branches of one watch path.
path_cases :
    (Q : Collected → Type 0) (empty out_of_mount absent link_out file dir : Bool)
    (same bad bad' one below : Collected)
    → Q same
    → Q bad
    → Q bad'
    → (link_out ≡ false → Q one)
    → Q below
    → Q (
        if empty
        then same
        else if out_of_mount
        then bad
        else if absent
        then same
        else if link_out
        then bad'
        else if file
        then one
        else if dir
        then below
        else same)
path_cases Q true b c d e f same bad bad' one below s x y o t = s
path_cases Q false true c d e f same bad bad' one below s x y o t = x
path_cases Q false false true d e f same bad bad' one below s x y o t = s
path_cases Q false false false true e f same bad bad' one below s x y o t = y
path_cases Q false false false false true f same bad bad' one below s x y o t = o refl
path_cases Q false false false false false true same bad bad' one below s x y o t = t
path_cases Q false false false false false false same bad bad' one below s x y o t = s

module _ (P : Text → Type 0) where
  -- Every file that was collected, if there was no error.
  abbrev Each : Collected → Type 0
  Each (failed e) = Unit {0}
  Each (files fs) = All P fs

  Each-sort_texts :
      (less : Text → Text → Bool) (fs : List Text) → All P fs → All P (sort_texts less fs)
  unfolding sort_texts
  Each-sort_texts less [] h = tt
  Each-sort_texts less (x ∷ xs) (p, h) = inserted (sort_texts less xs) (Each-sort_texts less xs h)
    where
      inserted : (ys : List Text) → All P ys → All P (insert_text less x ys)
      inserted [] h = (p, tt)
      inserted (y ∷ ys) (q, h) = elim (Bool-cases (less y x)) [
        | inl e ↦ rw e (q, inserted ys h)
        | inr e ↦ rw e (p, (q, h))
      ]

  Each-unique : (seen fs : List Text) → All P fs → All P (unique seen fs)
  unfolding unique
  Each-unique seen [] h = tt
  Each-unique seen (x ∷ xs) (p, h) = elim (Bool-cases (contains x seen)) [
    | inl e ↦ rw e (Each-unique seen xs h)
    | inr e ↦ rw e (p, Each-unique (x ∷ seen) xs h)
  ]

module _ (v : Volume) (mount : Text) where
  -- A file that is inside the mount point by its own path, in which all links are resolved.
  pub record Inside (path : Text) : Type 0 where
    pub is_within : is_within_mount v mount path ≡ true
    pub is_named : is_empty path ≡ false
    pub origin : Text
    pub is_canonical : path ≡ v.canonical_file_path origin

  found :
      (path : Text) (out : List Text)
      → All Inside out
      → (is_empty (v.canonical_file_path path)
          || not (is_within_mount v mount (v.canonical_file_path path)))
        ≡ false
      → All Inside (out ++ v.canonical_file_path path ∷ [])
  found path out h e = All-append Inside out (v.canonical_file_path path ∷ []) h (
    record {
      is_within = ground arith;
      is_named = ground arith;
      origin = path;
      is_canonical = refl;
    },
    tt,
  )

  collect_dir-Each :
      (paths out : List Text) → All Inside out → Each Inside (collect_dir v mount paths out)
  unfolding collect_dir
  collect_dir-Each [] out h = h
  collect_dir-Each (path ∷ paths) out h =
      let canonical = v.canonical_file_path path in
      if_both (Each Inside) (is_empty canonical || not (is_within_mount v mount canonical)) _ _
        (λ e. tt) (λ e. collect_dir-Each paths (out ++ canonical ∷ []) (found path out h e))

  collect_path-Each :
      (path : Text) (out : List Text) → All Inside out → Each Inside (collect_path v mount path out)
  unfolding collect_path
  collect_path-Each path out h =
      let trimmed = v.trimmed path in
      let absolute =
        if not (v.is_absolute_path trimmed) then v.absolute_file_path mount trimmed else trimmed in
      let clean = v.clean_path (v.from_native_separators absolute) in
      let canonical = v.canonical_file_path clean in
      path_cases (Each Inside) (is_empty trimmed) (not (is_within_mount v mount clean))
        (not (v.exists clean)) (is_empty canonical || not (is_within_mount v mount canonical))
        (v.is_file clean) (v.is_dir clean) (files out) (failed path_escapes) (failed path_escapes)
        (files (out ++ canonical ∷ [])) (collect_dir v mount (v.files_below canonical) out) h tt tt
        (found clean out h) (collect_dir-Each (v.files_below canonical) out h)

  collect_paths-Each :
      (paths out : List Text) → All Inside out → Each Inside (collect_paths v mount paths out)
  unfolding collect_paths
  collect_paths-Each [] out h = h
  collect_paths-Each (path ∷ paths) out h =
      go (collect_path v mount path out) (collect_path-Each path out h)
        (λ o. collect_paths-Each paths o)
    where
      go :
          (c : Collected)
          → Each Inside c
          → ((o : List Text) → All Inside o → Each Inside (collect_paths v mount paths o))
          → Each Inside (elim c as (λ x. Collected) [
            | failed e ↦ failed e
            | files o ↦ collect_paths v mount paths o
          ])
      go (failed e) h rest = tt
      go (files o) h rest = rest o h

  finish-Each :
      (less : Text → Text → Bool) (c : Collected) → Each Inside c → Each Inside (finish v less c)
  finish-Each less (failed e) h = tt
  finish-Each less (files fs) h =
      Each-unique Inside [] (sort_texts less fs) (Each-sort_texts Inside less fs h)

-- Every file that is collected for watch paths is the canonical path of a file, that is, one with its
-- links resolved, is not empty, and is as such inside the mount point, whose links are resolved too.
pub collect_files_for_paths-Each :
    (v : Volume) (less : Text → Text → Bool) (mount_point : Text) (paths fs : List Text)
    → collect_files_for_paths v less mount_point paths ≡ files fs
    → All (Inside v (v.canonical_file_path (normalize_mount v mount_point))) fs
unfolding collect_files_for_paths
collect_files_for_paths-Each v less mount_point paths fs e =
    let mount = v.canonical_file_path (normalize_mount v mount_point) in
    subst (Each (Inside v mount)) e (
      if_both (Each (Inside v mount)) (is_empty mount) (failed no_mount_point) _ (λ e. tt)
        (λ e.
          if_both (Each (Inside v mount)) (not (v.dir_exists mount)) (failed no_mount_point) _
            (λ e. tt)
            (λ e.
              finish-Each v mount less (collect_paths v mount paths [])
                (collect_paths-Each v mount paths [] tt))))
