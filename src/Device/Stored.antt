-- ===== src/Device/Stored.antt =====
-- What a device record is after it was written as JSON and read back (include/Types.h).
use flashsentry.Base.{
  ◌<◌, ◌^◌, ◌≡◌, refl, ap, true, false, List, [], ◌∷◌, none, map, ℤ, Text, of_int64-to_int64, All,
  text_eq,
}
use flashsentry.Json.{str, in_int, to_int, num, to_array, from_array}
use flashsentry.Platform.{Platform, DateTime}
use flashsentry.Device.{
  DeviceInfo, VerificationProfile, full_partition, hybrid, WatchFileEntry, WatchGroup,
  WatchManifest, DeviceRecord,
}
use flashsentry.Device.Codec.{
  profile_to_string, profile_from_string, info_to_json, info_from_json, file_to_json,
  file_from_json, path_from_json, group_to_json, group_from_json, manifest_to_json,
  manifest_from_json, device_to_json, device_from_json,
}

-- The members that the JSON does not hold are at their defaults.
unfoldable pub stored_info : DeviceInfo → DeviceInfo
stored_info d = record d {
  parent_device = [];
  mount_point = [];
  is_removable = true;
  is_mounted = false;
}

unfoldable pub stored_file : WatchFileEntry → WatchFileEntry
stored_file f = record f { size_bytes = 0; modified_utc = none }

unfoldable pub stored_group : WatchGroup → WatchGroup
stored_group g = record g { files = map stored_file g.files }

unfoldable pub stored_manifest : WatchManifest → WatchManifest
stored_manifest m = record m { groups = map stored_group m.groups }

unfoldable pub stored : DeviceRecord → DeviceRecord
stored r = record r {
  last_known_info = stored_info r.last_known_info;
  watch_manifest = stored_manifest r.watch_manifest;
}

-- A time that the ISO format keeps, which has no milliseconds.
abbrev pub IsIso : Platform → DateTime → Type 0
IsIso p t = p.from_iso (p.to_iso t) ≡ t

-- The record's times are whole seconds and its numbers are in the range of their C++ types.
pub record IsStorable (p : Platform) (r : DeviceRecord) : Type 0 where
  pub first_seen : IsIso p r.first_seen
  pub last_seen : IsIso p r.last_seen
  pub last_hashed : IsIso p r.last_hashed
  pub updated_at : IsIso p r.watch_manifest.updated_at
  pub built_at : All (λ g. IsIso p g.built_at) r.watch_manifest.groups
  pub duration : r.hash_duration_ms < 2 ^ 64
  pub size : r.last_known_info.size_bytes < 2 ^ 64
  pub trust : in_int r.trust_level ≡ true

profile-round_trip : (v : VerificationProfile) → profile_from_string (profile_to_string v) ≡ v
unfolding profile_from_string profile_to_string text_eq
profile-round_trip VerificationProfile.watch_manifest = refl
profile-round_trip full_partition = refl
profile-round_trip hybrid = refl

info-round_trip :
    (d : DeviceInfo) → d.size_bytes < 2 ^ 64 → info_from_json (info_to_json d) ≡ stored_info d
unfolding info_from_json info_to_json stored_info
info-round_trip d h = rw (of_int64-to_int64 d.size_bytes h)

paths-round_trip : (xs : List Text) → from_array path_from_json (to_array str xs) ≡ xs
unfolding from_array to_array path_from_json
paths-round_trip [] = refl
paths-round_trip (x ∷ xs) = ap (◌∷◌ x) (paths-round_trip xs)

files-round_trip :
    (xs : List WatchFileEntry)
    → from_array file_from_json (to_array file_to_json xs) ≡ map stored_file xs
unfolding from_array to_array file_from_json file_to_json stored_file
files-round_trip [] = refl
files-round_trip (x ∷ xs) = ap (◌∷◌ (stored_file x)) (files-round_trip xs)

module _ (p : Platform) where
  pub group-round_trip :
      (g : WatchGroup) → IsIso p g.built_at → group_from_json p (group_to_json p g) ≡ stored_group g
  unfolding group_from_json group_to_json stored_group
  group-round_trip g h = rw (files-round_trip g.files, paths-round_trip g.watch_paths, h)

  groups-round_trip :
      (gs : List WatchGroup)
      → All (λ g. IsIso p g.built_at) gs
      → from_array (group_from_json p) (to_array (group_to_json p) gs) ≡ map stored_group gs
  unfolding from_array to_array
  groups-round_trip [] h = refl
  groups-round_trip (g ∷ gs) h = rw (group-round_trip g h.0, groups-round_trip gs h.1)

  manifest-round_trip :
      (m : WatchManifest)
      → IsIso p m.updated_at
      → All (λ g. IsIso p g.built_at) m.groups
      → manifest_from_json p (manifest_to_json p m) ≡ stored_manifest m
  unfolding manifest_from_json manifest_to_json stored_manifest
  manifest-round_trip m h hs = rw (groups-round_trip m.groups hs, h)

  to_int-num : (n : ℤ) → in_int n ≡ true → to_int (num n) ≡ n
  unfolding to_int
  to_int-num n h = rw h

  -- A storable record that is written as JSON and read back is the same record, but for the members
  -- that are not written: the parent device, mount point and mount flags of the last known device,
  -- and the size and modification time of each watched file, which are at their defaults.
  pub device-round_trip :
      (r : DeviceRecord) → IsStorable p r → device_from_json p (device_to_json p r) ≡ stored r
  unfolding device_from_json device_to_json stored
  device-round_trip r h = rw (
    h.first_seen,
    h.last_seen,
    h.last_hashed,
    of_int64-to_int64 r.hash_duration_ms h.duration,
    h.trust,
    info-round_trip r.last_known_info h.size,
    profile-round_trip r.verification_profile,
    manifest-round_trip r.watch_manifest h.updated_at h.built_at,
  )
