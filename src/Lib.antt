-- ===== src/Lib.antt =====
-- FlashSentry: the policy store that decides which USB devices are known, trusted and blocked, the
-- database of devices over it and the daemon that owns it, the Merkle-backed manifests of watched files,
-- the hashes of whole devices, the records of verification, and the rules and baselines of HID devices.
--
-- How the parts interact. The window asks DatabaseManager and BlockedDriveStore, which ask a
-- PolicyGateway; in one process that is PolicyInProcessGateway over PolicyStoreEngine, and else
-- PolicyDaemonClient, which sends requests to the daemon with its own engine. The engine owns the
-- snapshot (device records and blocked drives) under a lock that is not recursive, appends to the audit
-- log, and writes the snapshot through PolicyBlobCodec into a file that is signed with an HMAC of the key
-- file. ManifestService builds groups of watched files, whose root is a MerkleTree, and compares them
-- with the baseline in a device record. HashWorker hashes a whole device with RawDeviceHash, from a
-- checkpoint that HashCheckpointStore keeps. VerifyHistory and HashCheckpointStore keep lists in JSON.
--
-- Files and what they model:
--   Base, Json, Platform: shared names, JSON values, and Qt and OpenSSL as a record of functions
--   Device, Device/Codec: include/Types.h, the records (fields in snake_case) and toJson, fromJson
--   Device/Stored: what a record is behind the JSON
--   Policy/Blob, Policy/Blob/Stream: src/policy/PolicyBlobCodec.cpp, encode, decode, sign, verify
--   Policy/Blob/RoundTrip, Signed, Reject: what decode accepts and what it refuses
--   Policy/Engine/Files: loadOrCreateKey, writeStoreFile, readStoreFile, migrateLegacyJsonIfNeeded,
--     and PolicyAudit::append of src/policy/PolicyAudit.cpp
--   Policy/Engine: src/policy/PolicyStoreEngine.cpp, each method in a monad over World, which holds
--     the snapshot, the lock and the files; a method that waits for a lock of its own thread is stuck
--   Policy/Engine/Commits, Devices, Blocks, Reload: the laws of the methods
--   Policy/Gateway: src/policy/PolicyInProcessGateway.cpp; Interface:
--     include/policy/PolicyGateway.h; History, Durable: histories of calls
--   Policy/Daemon, Policy/Daemon/Client: src/flashspartan-policyd.cpp and
--     src/policy/PolicyDaemonClient.cpp; Carried, Snapshot, Import: what a request comes to
--   Policy/Drives: src/BlockedDriveStore.cpp
--   Database, and its Files, Changes, Queries, Backup, Legacy: src/DatabaseManager.cpp; Mirror, Refines,
--     Restart, Restore, Unwritten: its laws
--   Merkle: src/MerkleTree.cpp; Reduce, Inputs, Binding, Order: its loop, what it
--     hashes, its binding, and the order of leaves
--   Manifest, Manifest/Paths, Manifest/Diff: src/ManifestService.cpp; Compare, Baseline,
--     Within: its laws
--   RawHash: include/RawDeviceHash.h; Whole: hashReadLoop and hashMmapLoop of src/RawDeviceHash.cpp;
--     Blocks, Quick: hashChunkedResume and hashQuickSample of src/RawDeviceHashAdvanced.cpp; Opened:
--     hashOpenFd, hashDevice, and src/flashspartan-read-helper.cpp; Job: executeHash of
--     src/HashWorker.cpp, and Queue: its jobs and signals; the modules under them: their laws
--   VerifyHistory: src/VerifyHistory.cpp; Bounded, Saved: its bound and its file
--   HashCheckpoint: src/HashCheckpoint.cpp; Store: its laws
--   BadUsb: src/BadUsbAnalyzer.cpp and the HID types of include/Types.h; Rules: when it reports
--   BadUsb/Baselines, and its Store: their JSON, and src/BadUsbBaselineStore.cpp; Codec, Saved: its file
--   the modules named Tests: concrete data, and the theorems there
--
-- Bounds and fuel. A QString is the list of its UTF-16 units and a QByteArray of its bytes. The casts to
-- int, qint64, uint64_t and double are written out, and sums of uint64_t wrap at 2 ^ 64. The loop of
-- MerkleTree::build has the number of digests as fuel, the loop that trims the history its length, and
-- the loop that chops slashes the length of the path; each round makes them shorter. The loops that read
-- a block or a sample have its length as fuel, hashReadLoop the device's size and one more, and
-- hashMmapLoop its size: each round takes a byte at least. Lengths are not bounded by the memory. Sums of
-- int in the blob's header wrap, where C++ leaves their overflow open: the theorems bound the whole file
-- below 2 ^ 31. A read of the block loop that is longer than its buffer is an error of its own,
-- buffer_overrun, as C++ leaves it open; the other loops read at most the length of their buffers.
--
-- Assumptions. Qt, OpenSSL, the volume and the file operations are arguments. PlatformLaws,
-- HashingLaws and IsStrictOrder are what theorems ask of them; DigestLaws asks that a digest may be fed
-- in parts, and IsFile that a read returns bytes that the device has. A device's content does not change
-- while it is read. DatabaseManager and BlockedDriveStore are modelled over any gateway that acts on
-- the engine's world, or none; their theorems take the one in process, and what a mutation through the
-- daemon comes to is a theorem of its own, in Policy/Daemon/Carried. A call of the engine runs alone:
-- the lock is modelled for what one thread does to itself. Elapsed times, progress and file
-- permissions are left out.
--
-- Not modelled: ISO verification, device monitors, mounting, and the user interface;
-- of raw device hashing the code for Windows, how a path is validated and opened, the process of pkexec,
-- and the threads and the progress of HashWorker; of the daemon its sockets and threads; of VerifyHistory,
-- formatEntryLine.
pub mod Base
pub mod Json
pub mod Platform
pub mod Device
pub mod Policy
pub mod Merkle
pub mod Manifest
pub mod VerifyHistory
pub mod HashCheckpoint
pub mod BadUsb
pub mod Database
pub mod RawHash
