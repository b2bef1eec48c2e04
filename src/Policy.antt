-- ===== src/Policy.antt =====
-- include/BlockedDriveStore.h and include/policy/PolicySnapshot.h: the policy data.
pub mod Blob
pub mod Engine
pub mod Gateway
pub mod Drives
pub mod Daemon
pub mod Tests
use flashsentry.Base.{List, Text}
use flashsentry.Platform.{DateTime}
use flashsentry.Device.{DeviceRecord}

pub record BlockedDriveEntry : Type 0 where
  pub drive_key : Text
  pub unique_id : Text
  pub label : Text
  pub blocked_at : DateTime

pub record PolicySnapshot : Type 0 where
  pub devices : List DeviceRecord
  pub blocks : List BlockedDriveEntry
