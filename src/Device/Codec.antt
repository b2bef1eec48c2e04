-- ===== src/Device/Codec.antt =====
-- include/Types.h: `toJson` and `fromJson` of DeviceInfo, WatchManifest and DeviceRecord.
use flashsentry.Base.{
  true, false, [], none, Text, codes, text_eq, to_int64, of_int64, if◌then◌else◌,
}
use flashsentry.Json.{
  Json, Fields, none_left, bool, num, str, arr, obj, insert, value, to_string, to_bool, to_integer,
  to_int, to_items, to_fields, to_array, from_array,
}
use flashsentry.Platform.{Platform}
use flashsentry.Device.{
  DeviceInfo, VerificationProfile, full_partition, hybrid, WatchFileEntry, WatchGroup,
  WatchManifest, DeviceRecord,
}

unfoldable pub profile_to_string : VerificationProfile → Text
profile_to_string VerificationProfile.watch_manifest = codes "watch_manifest"
profile_to_string full_partition = codes "full_partition"
profile_to_string hybrid = codes "hybrid"

unfoldable pub profile_from_string : Text → VerificationProfile
profile_from_string s =
    if text_eq s (codes "full_partition")
    then full_partition
    else if text_eq s (codes "hybrid")
    then hybrid
    else VerificationProfile.watch_manifest

unfoldable pub info_to_json : DeviceInfo → Fields
unfolding insert
info_to_json d = insert "size_bytes" (num (to_int64 d.size_bytes)) (
    insert "fs_type" (str d.fs_type) (
      insert "label" (str d.label) (
        insert "model" (str d.model) (
          insert "vendor" (str d.vendor) (
            insert "serial" (str d.serial) (insert "device_node" (str d.device_node) none_left))))))

-- What `fromJson` does not read keeps the member's default.
unfoldable pub info_from_json : Fields → DeviceInfo
unfolding value to_string to_integer
info_from_json o = record {
  device_node = to_string (value "device_node" o) [];
  parent_device = [];
  serial = to_string (value "serial" o) [];
  vendor = to_string (value "vendor" o) [];
  model = to_string (value "model" o) [];
  label = to_string (value "label" o) [];
  fs_type = to_string (value "fs_type" o) [];
  mount_point = [];
  size_bytes = of_int64 (to_integer (value "size_bytes" o));
  is_removable = true;
  is_mounted = false;
}

unfoldable pub file_to_json : WatchFileEntry → Json
unfolding insert
file_to_json f =
    obj (insert "hash" (str f.content_hash) (insert "path" (str f.relative_path) none_left))

unfoldable pub file_from_json : Json → WatchFileEntry
unfolding value to_string to_fields
file_from_json j = record {
  relative_path = to_string (value "path" (to_fields j)) [];
  content_hash = to_string (value "hash" (to_fields j)) [];
  size_bytes = 0;
  modified_utc = none;
}

unfoldable pub path_from_json : Json → Text
unfolding to_string
path_from_json j = to_string j []

module _ (p : Platform) where
  unfoldable pub group_to_json : WatchGroup → Json
  unfolding insert
  group_to_json g = obj (
      insert "files" (arr (to_array file_to_json g.files)) (
        insert "watch_paths" (arr (to_array str g.watch_paths)) (
          insert "built_at" (str (p.to_iso g.built_at)) (
            insert "merkle_root" (str g.merkle_root)
              (insert "name" (str g.name) (insert "id" (str g.id) none_left))))))

  unfoldable pub group_from_json : Json → WatchGroup
  unfolding value to_string to_fields to_items
  group_from_json j = record {
    id = to_string (value "id" o) [];
    name = to_string (value "name" o) [];
    watch_paths = from_array path_from_json (to_items (value "watch_paths" o));
    merkle_root = to_string (value "merkle_root" o) [];
    files = from_array file_from_json (to_items (value "files" o));
    built_at = p.from_iso (to_string (value "built_at" o) []);
  }
    where
      o : Fields
      o = to_fields j

  unfoldable pub manifest_to_json : WatchManifest → Fields
  unfolding insert
  manifest_to_json m = insert "updated_at" (str (p.to_iso m.updated_at)) (
      insert "manifest_root" (str m.manifest_root) (
        insert "groups" (arr (to_array group_to_json m.groups))
          (insert "version" (str m.version) none_left)))

  unfoldable pub manifest_from_json : Fields → WatchManifest
  unfolding value to_string to_items
  manifest_from_json o = record {
    version = to_string (value "version" o) (codes "1.0");
    groups = from_array group_from_json (to_items (value "groups" o));
    manifest_root = to_string (value "manifest_root" o) [];
    updated_at = p.from_iso (to_string (value "updated_at" o) []);
  }

  unfoldable pub device_to_json : DeviceRecord → Fields
  unfolding insert
  device_to_json r = insert "last_manifest_root" (str r.last_manifest_root) (
      insert "watch_manifest" (obj (manifest_to_json r.watch_manifest)) (
        insert "verification_profile" (str (profile_to_string r.verification_profile)) (
          insert "device_info" (obj (info_to_json r.last_known_info)) (
            insert "notes" (str r.notes) (
              insert "auto_mount" (bool r.auto_mount) (
                insert "trust_level" (num r.trust_level) (
                  insert "hash_duration_ms" (num (to_int64 r.hash_duration_ms)) (
                    insert "last_hashed" (str (p.to_iso r.last_hashed)) (
                      insert "last_seen" (str (p.to_iso r.last_seen)) (
                        insert "first_seen" (str (p.to_iso r.first_seen)) (
                          insert "hash_algorithm" (str r.hash_algorithm) (
                            insert "hash_scan_mode" (str r.hash_scan_mode) (
                              insert "hash_scope" (str r.hash_scope) (
                                insert "hash" (str r.hash)
                                  (insert "unique_id" (str r.unique_id) none_left)))))))))))))))

  unfoldable pub device_from_json : Fields → DeviceRecord
  unfolding value to_string to_bool to_integer to_int to_fields
  device_from_json o = record {
    unique_id = to_string (value "unique_id" o) [];
    hash = to_string (value "hash" o) [];
    hash_algorithm = to_string (value "hash_algorithm" o) (codes "SHA256");
    hash_scope = to_string (value "hash_scope" o) [];
    hash_scan_mode = to_string (value "hash_scan_mode" o) [];
    first_seen = p.from_iso (to_string (value "first_seen" o) []);
    last_seen = p.from_iso (to_string (value "last_seen" o) []);
    last_hashed = p.from_iso (to_string (value "last_hashed" o) []);
    hash_duration_ms = of_int64 (to_integer (value "hash_duration_ms" o));
    trust_level = to_int (value "trust_level" o);
    auto_mount = to_bool (value "auto_mount" o);
    notes = to_string (value "notes" o) [];
    last_known_info = info_from_json (to_fields (value "device_info" o));
    verification_profile = profile_from_string (to_string (value "verification_profile" o) []);
    watch_manifest = manifest_from_json (to_fields (value "watch_manifest" o));
    last_manifest_root = to_string (value "last_manifest_root" o) [];
  }
