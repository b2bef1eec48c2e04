-- ===== src/Device.antt =====
-- include/Types.h: DeviceInfo, the watch manifest and DeviceRecord.
pub mod Codec
pub mod Stored
use flashsentry.Base.{
  ℕ, Bool, true, false, none, List, Text, ℤ, pos, [], ◌++◌, codes, is_empty, if◌then◌else◌,
}
use flashsentry.Platform.{DateTime}

pub record DeviceInfo : Type 0 where
  pub device_node : Text
  pub parent_device : Text
  pub serial : Text
  pub vendor : Text
  pub model : Text
  pub label : Text
  pub fs_type : Text
  pub mount_point : Text
  pub size_bytes : ℕ
  pub is_removable : Bool
  pub is_mounted : Bool

pub data VerificationProfile : Type 0 where
  watch_manifest full_partition hybrid : VerificationProfile

pub record WatchFileEntry : Type 0 where
  pub relative_path : Text
  pub content_hash : Text
  pub size_bytes : ℕ
  pub modified_utc : DateTime

pub record WatchGroup : Type 0 where
  pub id : Text
  pub name : Text
  pub watch_paths : List Text
  pub merkle_root : Text
  pub files : List WatchFileEntry
  pub built_at : DateTime

pub record WatchManifest : Type 0 where
  pub version : Text
  pub groups : List WatchGroup
  pub manifest_root : Text
  pub updated_at : DateTime

pub record DeviceRecord : Type 0 where
  pub unique_id : Text
  pub hash : Text
  pub hash_algorithm : Text
  pub hash_scope : Text
  pub hash_scan_mode : Text
  pub first_seen : DateTime
  pub last_seen : DateTime
  pub last_hashed : DateTime
  pub hash_duration_ms : ℕ
  pub trust_level : ℤ
  pub auto_mount : Bool
  pub notes : Text
  pub last_known_info : DeviceInfo
  pub verification_profile : VerificationProfile
  pub watch_manifest : WatchManifest
  pub last_manifest_root : Text

-- `DeviceInfo::uniqueId`
unfoldable pub unique_id_of : DeviceInfo → Text
unique_id_of d =
    if is_empty d.serial
    then d.vendor ++ (codes "_" ++ d.model)
    else d.serial ++ (codes "_" ++ (d.vendor ++ (codes "_" ++ d.model)))

-- A default-constructed DeviceRecord.
abbrev pub default_record : DeviceRecord
default_record = record {
  unique_id = [];
  hash = [];
  hash_algorithm = codes "SHA256";
  hash_scope = [];
  hash_scan_mode = [];
  first_seen = none;
  last_seen = none;
  last_hashed = none;
  hash_duration_ms = 0;
  trust_level = pos 0;
  auto_mount = false;
  notes = [];
  last_known_info = record {
    device_node = [];
    parent_device = [];
    serial = [];
    vendor = [];
    model = [];
    label = [];
    fs_type = [];
    mount_point = [];
    size_bytes = 0;
    is_removable = true;
    is_mounted = false;
  };
  verification_profile = watch_manifest;
  watch_manifest = record {
    version = codes "1.0";
    groups = [];
    manifest_root = [];
    updated_at = none;
  };
  last_manifest_root = [];
}
