-- ===== src/Manifest/Tests.antt =====
-- A concrete volume, and the theorems on manifests there.
use flashsentry.Base.{
  All, lookup, List, ◌≡◌, ◌↔◌, refl, true, false, none, some, [], ◌∷◌, Text, codes,
}
use flashsentry.Json.{null}
use flashsentry.Platform.{Platform, DateTime}
use flashsentry.Device.Codec.{group_to_json, group_from_json}
use flashsentry.Device.{WatchGroup}
use flashsentry.Merkle.{Hashing, Leaf}
use flashsentry.Manifest.{built, build_group, finalize_group, verify_group, compare_group}
use flashsentry.Manifest.Paths.{Volume, files, normalize_mount, collect_files_for_paths}
use flashsentry.Manifest.Within.{Inside, collect_files_for_paths-Each}
use flashsentry.Manifest.Diff.{path_map}
use flashsentry.Manifest.Compare.{compare_group-matches_iff}
use flashsentry.Manifest.Baseline.{verify_group-build_group}

abbrev hashing : Hashing
hashing = record {
  evp_sha256 = λ b. some (1 ∷ []);
  to_hex = λ b. b;
  to_utf8 = λ s. s;
  to_latin1 = λ s. s;
  less = λ a b. false;
}

-- Every path names an empty file.
abbrev volume : Volume
volume = record {
  trimmed = λ s. s;
  from_native_separators = λ s. s;
  clean_path = λ s. s;
  canonical_file_path = λ s. s;
  dir_exists = λ s. true;
  is_absolute_path = λ s. true;
  absolute_file_path = λ root s. s;
  exists = λ s. true;
  is_file = λ s. true;
  is_dir = λ s. false;
  files_below = λ s. [];
  contents = λ s. some [];
  file_size = λ s. 0;
  last_modified = λ s. some 3;
}

abbrev spec : WatchGroup
spec = record {
  id = codes "g";
  name = codes "G";
  watch_paths = codes "/m/a" ∷ [];
  merkle_root = [];
  files = [];
  built_at = none;
}

abbrev leaf : Leaf
leaf = record { relative_path = codes "a"; content_hash_hex = 1 ∷ []; digest = [] }

abbrev group : WatchGroup
group = finalize_group hashing volume (some 5) (codes "/m") spec (leaf ∷ [])

builds : build_group hashing volume (some 5) (codes "/m") spec ≡ built group
unfolding build_group
builds = refl

abbrev iso : DateTime → Text
iso none = []
iso (some n) = n ∷ []

abbrev from : Text → DateTime
from [] = none
from (n ∷ s) = some n

abbrev qt : Platform
qt = record {
  to_iso = iso;
  from_iso = from;
  to_compact = λ o. [];
  to_indented = λ o. [];
  parse_json = λ b. null;
  is_letter = λ c. true;
  same_ignoring_case = λ a b. false;
  mid = λ b i n. b;
  hmac = λ key payload. [];
}

verify_group-build_group_example :
    ((verify_group hashing volume (some 6) (codes "/m") group).success ≡ true)
    × ((verify_group hashing volume (some 6) (codes "/m") group).matches ≡ true)
    × ((verify_group hashing volume
          (some 6)
          (codes "/m")
          (group_from_json qt (group_to_json qt group))).success
        ≡ true)
    × ((verify_group hashing volume
          (some 6)
          (codes "/m")
          (group_from_json qt (group_to_json qt group))).matches
        ≡ true)
unfolding finalize_group
verify_group-build_group_example =
    verify_group-build_group hashing volume qt (some 5) (some 6) (codes "/m") spec group builds refl

compare_group-matches_iff_example : ((compare_group group group).matches ≡ true) ↔ (
    (group.merkle_root ≡ group.merkle_root)
    × ((k : Text) → lookup k (path_map group.files []) ≡ lookup k (path_map group.files [])))
compare_group-matches_iff_example = compare_group-matches_iff group group

abbrev watched : List Text
watched = codes "/m/a" ∷ []

collects : collect_files_for_paths volume hashing.less (codes "/m") watched ≡ files watched
unfolding collect_files_for_paths
collects = refl

collect_files_for_paths-Each_example :
    All (Inside volume (volume.canonical_file_path (normalize_mount volume (codes "/m")))) watched
collect_files_for_paths-Each_example =
    collect_files_for_paths-Each volume hashing.less (codes "/m") watched watched collects
