-- ===== src/Manifest.antt =====
-- src/ManifestService.cpp and include/ManifestService.h: building a group of watched files and
-- comparing it with its baseline.
pub mod Paths
pub mod Diff
pub mod Compare
pub mod Baseline
pub mod Within
mod Tests
use flashsentry.Base.{
  ◌+◌, codes, false, not, ◌⊎◌, inl, inr, ℕ, suc, ◌+◌, Bool, true, false, not, ◌&&◌, ◌||◌, Option,
  none, some, List, [], ◌∷◌, ◌++◌, map, Text, Bytes, if◌then◌else◌, length, text_eq, is_empty,
  codes,
}
use flashsentry.Platform.{DateTime}
use flashsentry.Device.{WatchFileEntry, WatchGroup, WatchManifest}
use flashsentry.Merkle.{Hashing, Leaf, sha256, root_hex}
use Paths.{
  Volume, PathError, Collected, files, failed, slash, normalize_mount, relative_path_under,
  collect_files_for_paths,
}
use Diff.{path_map, missing_paths, changed_paths}

-- The texts that are left in `errorMessage`.
pub data ManifestError : Type 0 where
  bad_path : PathError → ManifestError
  no_files : ManifestError
  cannot_hash : Text → ManifestError
  no_groups : ManifestError
  no_baseline : Text → ManifestError

pub data BuildResult : Type 0 where
  built : WatchGroup → BuildResult
  not_built : ManifestError → BuildResult

pub record VerifyResult : Type 0 where
  pub success : Bool
  pub matches : Bool
  pub computed_root_hex : Text
  pub expected_root_hex : Text
  pub changed : List Text
  pub missing : List Text
  pub added : List Text
  pub error_message : Option ManifestError
  pub files_checked : ℕ

abbrev pub none_of : List Text → Bool
none_of [] = true
none_of (x ∷ xs) = false

abbrev no_group : List WatchGroup → Bool
no_group [] = true
no_group (g ∷ gs) = false

abbrev pub no_result : VerifyResult
no_result = record {
  success = false;
  matches = false;
  computed_root_hex = [];
  expected_root_hex = [];
  changed = [];
  missing = [];
  added = [];
  error_message = none;
  files_checked = 0;
}

module _ (h : Hashing) (v : Volume) where
  -- The hash of a file that could be read, and the empty text for another.
  unfoldable pub hash_file_contents : Text → Text
  unfolding sha256
  hash_file_contents path = elim (v.contents path) [ none ↦ [] | some b ↦ h.to_hex (sha256 h b) ]

  -- The loop over the files in `finalizeGroup`.
  unfoldable pub file_entry : Text → Leaf → WatchFileEntry
  unfolding normalize_mount
  file_entry mount_point leaf =
      let path = normalize_mount v mount_point ++ (slash ∷ leaf.relative_path) in
      let found = v.exists path in
      record {
        relative_path = leaf.relative_path;
        content_hash = leaf.content_hash_hex;
        size_bytes = if found then v.file_size path else 0;
        modified_utc = if found then v.last_modified path else none;
      }

  -- The loop of `buildGroup`: the leaves, or the first file that has no hash.
  unfoldable pub leaves_of : Text → List Text → List Leaf → Text ⊎ List Leaf
  unfolding hash_file_contents relative_path_under is_empty
  leaves_of mount_point [] out = inr out
  leaves_of mount_point (abs ∷ rest) out =
      let hash = hash_file_contents abs in
      let leaf : Leaf = record {
        relative_path = relative_path_under v mount_point abs;
        content_hash_hex = hash;
        digest = [];
      } in
      let more = leaves_of mount_point rest (out ++ leaf ∷ []) in
      if is_empty hash then inl abs else more

-- `verifyGroup` on the group that was built.
unfoldable pub compare_group : WatchGroup → WatchGroup → VerifyResult
unfolding path_map missing_paths changed_paths text_eq
compare_group baseline group =
    let expected = path_map baseline.files [] in
    let actual = path_map group.files [] in
    let changed = changed_paths expected actual in
    let missing = missing_paths expected actual in
    let added = missing_paths actual expected in
    record {
      success = true;
      matches =
          text_eq group.merkle_root baseline.merkle_root
          && none_of changed
          && none_of missing
          && none_of added;
      computed_root_hex = group.merkle_root;
      expected_root_hex = baseline.merkle_root;
      changed = changed;
      missing = missing;
      added = added;
      error_message = none;
      files_checked = length group.files;
    }

module _ (h : Hashing) (v : Volume) (now : DateTime) where
  unfoldable pub finalize_group : Text → WatchGroup → List Leaf → WatchGroup
  unfolding file_entry root_hex
  finalize_group mount_point spec leaves = record {
    id = spec.id;
    name = spec.name;
    watch_paths = spec.watch_paths;
    merkle_root = root_hex h leaves;
    files = map (file_entry h v mount_point) leaves;
    built_at = now;
  }

  build_from : Text → WatchGroup → Collected → BuildResult
  unfolding leaves_of finalize_group
  build_from mount_point spec (failed e) = not_built (bad_path e)
  build_from mount_point spec (files []) = not_built no_files
  build_from mount_point spec (files (f ∷ fs)) = elim (leaves_of h v mount_point (f ∷ fs) []) [
    | inl path ↦ not_built (cannot_hash path)
    | inr leaves ↦ built (finalize_group mount_point spec leaves)
  ]

  unfoldable pub build_group : Text → WatchGroup → BuildResult
  unfolding build_from collect_files_for_paths
  build_group mount_point spec =
      build_from mount_point spec (collect_files_for_paths v h.less mount_point spec.watch_paths)

  unfoldable pub verify_group : Text → WatchGroup → VerifyResult
  unfolding build_group compare_group
  verify_group mount_point baseline = elim (build_group mount_point baseline) [
    | not_built e ↦ record no_result { error_message = some e }
    | built group ↦ compare_group baseline group
  ]

  -- `group.name + ": " + p`, for each path.
  abbrev labelled : Text → List Text → List Text
  labelled name = map (λ p. name ++ (codes ": " ++ p))

  -- A group that was compared, added to `combined`.
  combine : WatchGroup → VerifyResult → VerifyResult → VerifyResult
  combine group one combined = record combined {
    matches = combined.matches && one.matches;
    files_checked = combined.files_checked + one.files_checked;
    changed = combined.changed ++ (if one.matches then [] else labelled group.name one.changed);
    missing = combined.missing ++ (if one.matches then [] else labelled group.name one.missing);
    added = combined.added ++ (if one.matches then [] else labelled group.name one.added);
  }

  -- The loop of `verifyManifest`: the result that it returns, or `combined` behind it.
  unfoldable pub verify_groups : Text → List WatchGroup → VerifyResult → VerifyResult ⊎ VerifyResult
  unfolding verify_group combine is_empty
  verify_groups mount_point [] combined = inr combined
  verify_groups mount_point (group ∷ groups) combined =
      let one = verify_group mount_point group in
      let rest = verify_groups mount_point groups (combine group one combined) in
      if is_empty group.merkle_root
      then inl (record combined { matches = false; error_message = some (no_baseline group.name) })
      else if not one.success
      then inl one
      else rest

  insert_group : WatchGroup → List WatchGroup → List WatchGroup
  insert_group x [] = x ∷ []
  insert_group x (y ∷ ys) =
      let rest = insert_group x ys in if h.less y.id x.id then y ∷ rest else x ∷ y ∷ ys

  sort_groups : List WatchGroup → List WatchGroup
  unfolding insert_group
  sort_groups [] = []
  sort_groups (x ∷ xs) = insert_group x (sort_groups xs)

  group_leaf : WatchGroup → Leaf
  group_leaf g = record { relative_path = g.id; content_hash_hex = g.merkle_root; digest = [] }

  unfoldable pub manifest_root_hex : WatchManifest → Text
  unfolding sort_groups group_leaf root_hex
  manifest_root_hex manifest = root_hex h (map group_leaf (sort_groups manifest.groups))

  finish_manifest : WatchManifest → VerifyResult → VerifyResult
  unfolding manifest_root_hex is_empty text_eq
  finish_manifest manifest combined =
      let root = manifest_root_hex manifest in
      record combined {
        computed_root_hex = root;
        expected_root_hex = manifest.manifest_root;
        matches =
            if not (is_empty manifest.manifest_root) && not (text_eq root manifest.manifest_root)
            then false
            else combined.matches;
      }

  unfoldable pub verify_manifest : Text → WatchManifest → VerifyResult
  unfolding verify_groups finish_manifest
  verify_manifest mount_point manifest =
      let start : VerifyResult = record no_result { success = true; matches = true } in
      if no_group manifest.groups
      then record start { matches = false; error_message = some no_groups }
      else elim (verify_groups mount_point manifest.groups start) [
        | inl result ↦ result
        | inr combined ↦ finish_manifest manifest combined
      ]

  rebuild_groups : Text → List WatchGroup → List WatchGroup
  unfolding build_group
  rebuild_groups mount_point [] = []
  rebuild_groups mount_point (g ∷ gs) =
      let rest = rebuild_groups mount_point gs in
      elim (build_group mount_point g) [ built group ↦ group ∷ rest | not_built e ↦ rest ]

  -- `rebuildManifestRoots`: a group that cannot be built is left out.
  unfoldable pub rebuild_manifest_roots : Text → WatchManifest → WatchManifest
  unfolding rebuild_groups manifest_root_hex
  rebuild_manifest_roots mount_point spec =
      let out : WatchManifest = record spec { groups = rebuild_groups mount_point spec.groups } in
      record out { manifest_root = manifest_root_hex out; updated_at = now }
