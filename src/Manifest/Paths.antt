-- ===== src/Manifest/Paths.antt =====
-- src/ManifestService.cpp: which files a group of watch paths names.
use flashsentry.Base.{
  ℕ, zero, suc, ◌+◌, Bool, false, not, ◌&&◌, ◌||◌, Option, List, [], ◌∷◌, ◌++◌, Text, Bytes, ltb,
  if◌then◌else◌, length, drop, text_eq, is_empty, starts_with, codes,
}
use flashsentry.Platform.{DateTime}

-- What QDir, QFileInfo, QDirIterator and QFile answer about the mounted volume.
pub record Volume : Type 0 where
  pub trimmed : Text → Text
  pub from_native_separators : Text → Text
  -- `QDir::cleanPath`
  pub clean_path : Text → Text
  -- `QFileInfo::canonicalFilePath`, which is empty where there is no such file
  pub canonical_file_path : Text → Text
  pub dir_exists : Text → Bool
  pub is_absolute_path : Text → Bool
  -- `QDir(root).absoluteFilePath(path)`
  pub absolute_file_path : Text → Text → Text
  pub exists : Text → Bool
  pub is_file : Text → Bool
  pub is_dir : Text → Bool
  -- the files that QDirIterator yields, in its order
  pub files_below : Text → List Text
  -- what reading the file to its end yields; nothing where it does not open or a read fails
  pub contents : Text → Option Bytes
  pub file_size : Text → ℕ
  pub last_modified : Text → DateTime

abbrev pub slash : ℕ
slash = b'/'

-- `m.chop(1)` while `m` ends with a slash and is longer than one unit.
ends_with_slash : Text → Bool
ends_with_slash [] = false
ends_with_slash (c ∷ []) = text_eq (c ∷ []) (slash ∷ [])
ends_with_slash (c ∷ d ∷ s) = ends_with_slash (d ∷ s)

chop : Text → Text
chop [] = []
chop (c ∷ []) = []
chop (c ∷ d ∷ s) = c ∷ chop (d ∷ s)

chop_slashes : ℕ → Text → Text
unfolding ends_with_slash chop text_eq
chop_slashes zero m = m
chop_slashes (suc fuel) m =
    let rest = chop_slashes fuel (chop m) in
    if ends_with_slash m && ltb 1 (length m) then rest else m

-- `prefix + '/'` is at the start of `path`.
abbrev pub below : Text → Text → Bool
below mount path = starts_with path (mount ++ codes "/")

-- The texts that are left in `*errorOut`.
pub data PathError : Type 0 where
  no_mount_point path_escapes file_escapes : PathError

pub data Collected : Type 0 where
  files : List Text → Collected
  failed : PathError → Collected

-- `files.sort(); files.removeDuplicates();`
unfoldable pub insert_text : (Text → Text → Bool) → Text → List Text → List Text
insert_text less x [] = x ∷ []
insert_text less x (y ∷ ys) =
    let rest = insert_text less x ys in if less y x then y ∷ rest else x ∷ y ∷ ys

unfoldable pub sort_texts : (Text → Text → Bool) → List Text → List Text
unfolding insert_text
sort_texts less [] = []
sort_texts less (x ∷ xs) = insert_text less x (sort_texts less xs)

unfoldable pub contains : Text → List Text → Bool
unfolding text_eq
contains x [] = false
contains x (y ∷ ys) = text_eq x y || contains x ys

-- The first of equal texts stays: `seen` holds those that stayed.
unfoldable pub unique : List Text → List Text → List Text
unfolding contains
unique seen [] = []
unique seen (x ∷ xs) =
    let kept = x ∷ unique (x ∷ seen) xs in
    let dropped = unique seen xs in if contains x seen then dropped else kept

module _ (v : Volume) where
  unfoldable pub normalize_mount : Text → Text
  unfolding chop_slashes
  normalize_mount mount_point =
      let m = v.from_native_separators mount_point in chop_slashes (length m) m

  unfoldable pub is_within_mount : Text → Text → Bool
  unfolding normalize_mount starts_with text_eq
  is_within_mount mount_point path =
      let mount = normalize_mount (v.clean_path (v.from_native_separators mount_point)) in
      let clean = v.clean_path (v.from_native_separators path) in
      text_eq clean mount || below mount clean

  unfoldable pub relative_path_under : Text → Text → Text
  unfolding normalize_mount starts_with text_eq
  relative_path_under mount_point absolute_path =
      let mount = normalize_mount mount_point in
      let abs = v.clean_path (v.from_native_separators absolute_path) in
      if text_eq abs mount then [] else if below mount abs then drop (length mount + 1) abs else []

  -- The loop over the files of a directory; `out` is `files`.
  unfoldable pub collect_dir : Text → List Text → List Text → Collected
  unfolding is_within_mount is_empty
  collect_dir mount [] out = files out
  collect_dir mount (path ∷ paths) out =
      let canonical = v.canonical_file_path path in
      let rest = collect_dir mount paths (out ++ canonical ∷ []) in
      if is_empty canonical || not (is_within_mount mount canonical)
      then failed file_escapes
      else rest

  -- One watch path.
  unfoldable pub collect_path : Text → Text → List Text → Collected
  unfolding collect_dir
  collect_path mount path out =
      let trimmed = v.trimmed path in
      let absolute =
        if not (v.is_absolute_path trimmed) then v.absolute_file_path mount trimmed else trimmed in
      let clean_absolute = v.clean_path (v.from_native_separators absolute) in
      let canonical = v.canonical_file_path clean_absolute in
      if is_empty trimmed
      then files out
      else if not (is_within_mount mount clean_absolute)
      then failed path_escapes
      else if not (v.exists clean_absolute)
      then files out
      else if is_empty canonical || not (is_within_mount mount canonical)
      then failed path_escapes
      else if v.is_file clean_absolute
      then files (out ++ canonical ∷ [])
      else if v.is_dir clean_absolute
      then collect_dir mount (v.files_below canonical) out
      else files out

  unfoldable pub collect_paths : Text → List Text → List Text → Collected
  unfolding collect_path
  collect_paths mount [] out = files out
  collect_paths mount (path ∷ paths) out = elim (collect_path mount path out) [
    | failed e ↦ failed e
    | files out' ↦ collect_paths mount paths out'
  ]

  abbrev pub finish : (Text → Text → Bool) → Collected → Collected
  finish less (failed e) = failed e
  finish less (files out) = files (unique [] (sort_texts less out))

  unfoldable pub collect_files_for_paths : (Text → Text → Bool) → Text → List Text → Collected
  unfolding collect_paths sort_texts unique
  collect_files_for_paths less mount_point paths =
      let mount = v.canonical_file_path (normalize_mount mount_point) in
      if is_empty mount
      then failed no_mount_point
      else if not (v.dir_exists mount)
      then failed no_mount_point
      else finish less (collect_paths mount paths [])
