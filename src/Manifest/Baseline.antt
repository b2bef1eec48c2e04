-- ===== src/Manifest/Baseline.antt =====
-- A baseline that was just built matches (src/ManifestService.cpp).
use flashsentry.Base.{ap, subst, ◌⊎◌, ◌≡◌, refl, sym, ◌∙◌, true, List, [], ◌∷◌, Text, inl, inr, map}
use flashsentry.Device.{WatchFileEntry, WatchGroup}
use flashsentry.Device.Stored.{stored_file, stored_group, IsIso, group-round_trip}
use flashsentry.Device.Codec.{group_to_json, group_from_json}
use flashsentry.Platform.{Platform, DateTime}
use flashsentry.Merkle.{Hashing, Leaf}
use flashsentry.Manifest.{
  VerifyResult, built, build_group, build_from, finalize_group, leaves_of, verify_group,
}
use flashsentry.Manifest.Paths.{Volume, Collected, files, failed, collect_files_for_paths}
use flashsentry.Manifest.Diff.{PathMap, path_map}
use flashsentry.Manifest.Compare.{compare_group_self}

path_map-stored :
    (es : List WatchFileEntry) (m : PathMap) → path_map (map stored_file es) m ≡ path_map es m
unfolding path_map stored_file
path_map-stored [] m = refl
path_map-stored (e ∷ es) m = path_map-stored es _

module _ (h : Hashing) (v : Volume) where
  -- A build that succeeded found leaves, which do not depend on the time or on the rest of the group.
  record Leaves (mount_point : Text) (c : Collected) : Type 0 where
    leaves : List Leaf
    builds :
        (now : DateTime) (spec : WatchGroup)
        → build_from h v now mount_point spec c
          ≡ built (finalize_group h v now mount_point spec leaves)

  Leaves-of_built :
      (now : DateTime) (mount_point : Text) (spec group : WatchGroup) (c : Collected)
      → build_from h v now mount_point spec c ≡ built group
      → Leaves mount_point c
  unfolding build_from
  Leaves-of_built now mount_point spec group (failed e) q = cc
  Leaves-of_built now mount_point spec group (files []) q = cc
  Leaves-of_built now mount_point spec group (files (f ∷ fs)) q =
      go (leaves_of h v mount_point (f ∷ fs) []) refl
    where
      go :
          (r : Text ⊎ List Leaf)
          → leaves_of h v mount_point (f ∷ fs) [] ≡ r
          → Leaves mount_point (files (f ∷ fs))
      go (inl path) e = cc (rw (e, build_from) at q)
      go (inr ls) e = record { leaves = ls; builds = λ now' spec'. rw (e, build_from) }

  abbrev Verifies : VerifyResult → Type 0
  Verifies r = (r.success ≡ true) × (r.matches ≡ true)

  -- A baseline with the files and the paths of the group that was built, and its root.
  Verifies-same :
      (now later : DateTime) (mount_point : Text) (spec baseline : WatchGroup)
      → (l : Leaves mount_point (collect_files_for_paths v h.less mount_point spec.watch_paths))
      → baseline.watch_paths ≡ spec.watch_paths
      → baseline.merkle_root ≡ (finalize_group h v now mount_point spec l.leaves).merkle_root
      → path_map (finalize_group h v now mount_point spec l.leaves).files []
        ≡ path_map baseline.files []
      → Verifies (verify_group h v later mount_point baseline)
  unfolding verify_group build_group finalize_group
  Verifies-same now later mount_point spec baseline l paths root map_of =
      let builds =
        ap
          (λ ws.
            build_from h v later mount_point baseline
              (collect_files_for_paths v h.less mount_point ws))
          paths
        ∙ l.builds later baseline in
      rw (builds, verify_group)
        (
          refl,
          compare_group_self baseline (finalize_group h v later mount_point baseline l.leaves)
              (sym root) map_of,
        )

  built-injective : (a b : WatchGroup) → built a ≡ built b → a ≡ b
  built-injective a b e = cc

  -- Where the volume answers as it did when a group was built, the group verifies, at any time: as it
  -- was built, and as `fromJson` reads what `toJson` wrote, where its time is a whole second.
  pub verify_group-build_group :
      (p : Platform) (now later : DateTime) (mount_point : Text) (spec group : WatchGroup)
      → build_group h v now mount_point spec ≡ built group
      → IsIso p group.built_at
      → ((verify_group h v later mount_point group).success ≡ true)
        × ((verify_group h v later mount_point group).matches ≡ true)
        × ((verify_group h v later mount_point (group_from_json p (group_to_json p group))).success
            ≡ true)
        × ((verify_group h v later mount_point (group_from_json p (group_to_json p group))).matches
            ≡ true)
  unfolding build_group finalize_group stored_group
  verify_group-build_group p now later mount_point spec group e whole =
      let l = Leaves-of_built now mount_point spec group _ e in
      let fresh = finalize_group h v now mount_point spec l.leaves in
      let same : fresh ≡ group = built-injective fresh group (sym (l.builds now spec) ∙ e) in
      let plain : Verifies (verify_group h v later mount_point group) =
        subst (λ g. Verifies (verify_group h v later mount_point g)) same
          (Verifies-same now later mount_point spec fresh l refl refl refl) in
      let back : Verifies (verify_group h v later mount_point (stored_group group)) =
        subst (λ g. Verifies (verify_group h v later mount_point (stored_group g))) same
          (Verifies-same now later mount_point spec (stored_group fresh) l refl refl
            (sym (path_map-stored fresh.files []))) in
      let read : Verifies
          (verify_group h v later mount_point (group_from_json p (group_to_json p group))) =
        subst (λ g. Verifies (verify_group h v later mount_point g))
          (sym (group-round_trip p group whole)) back in
      (plain.0, plain.1, read.0, read.1)
