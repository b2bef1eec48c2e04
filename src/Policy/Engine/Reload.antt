-- ===== src/Policy/Engine/Reload.antt =====
-- `load` of src/policy/PolicyStoreEngine.cpp on a store that the engine wrote, on one that was
-- tampered with, and where there is none.
use flashsentry.Base.{
  ◌+◌, ◌<◌, ◌^◌, ◌≡◌, ◌≢◌, refl, true, false, Option, none, some, Bytes, length, arith, All,
  take-length,
}
use flashsentry.Platform.{Platform, PlatformLaws}
use flashsentry.Policy.{PolicySnapshot}
use flashsentry.Policy.Blob.{Decoded, store_bytes, encode, decode, file_header_error}
use flashsentry.Policy.Blob.RoundTrip.{IsDecodable, IsDecodableBlock, stored_snapshot}
use flashsentry.Policy.Blob.Signed.{decode-store_bytes, file_header_error-store_bytes}
use flashsentry.Policy.Blob.Reject.{payload_of, signature_of, decode-forged}
use flashsentry.Policy.Engine.Files.{
  World, Env, StoreError, bad_store, not_found, free, load_or_create_key, empty_snapshot,
}
use flashsentry.Policy.Engine.{done, load}

-- The snapshot is one that `decode` reads back.
pub record IsReadable (p : Platform) (s : PolicySnapshot) : Type 0 where
  pub devices : All (IsDecodable p) s.devices
  pub blocks : All (IsDecodableBlock p) s.blocks
  pub size : 10 + length (encode p s) + 32 < 2 ^ 31

-- A key that a call used is the key that the next one reads.
pub same_key :
    (env env' : Env) (file : Option Bytes)
    → env.key_opens ≡ true
    → env.key_writable ≡ true
    → length env.fresh_key ≡ 32
    → env'.key_opens ≡ true
    → load_or_create_key env' (load_or_create_key env file).1 ≡ load_or_create_key env file
unfolding load_or_create_key
same_key env env' none o w n o' = rw (o, w, o') (ground (arith, take-length env.fresh_key))
same_key env env' (some key) o w n o' = ground (arith, take-length env.fresh_key)

module _ (p : Platform) where
  load-present :
      (env env' : Env) (w : World) (file : Bytes)
      → w.lock ≡ free
      → w.store_file ≡ some file
      → env.store_opens ≡ true
      → file_header_error file ≡ none
      → (let d : Decoded = decode p (load_or_create_key env w.key_file).0 file w.snapshot in
          load p env env' w
          ≡ done
              (elim d.error [ none ↦ none | some e ↦ some (bad_store e) ])
              (record w { snapshot = d.out; key_file = (load_or_create_key env w.key_file).1 }))
  unfolding load
  load-present env env' w file l f o h = ground arith

  -- A store whose signature is not the HMAC of its payload under the key is not loaded: `load`
  -- returns an error, and the snapshot and the file are as they were.
  pub load-forged :
      (env env' : Env) (w : World) (file : Bytes)
      → w.lock ≡ free
      → w.store_file ≡ some file
      → p.hmac (load_or_create_key env w.key_file).0 (payload_of p file) ≢ signature_of p file
      → (e : StoreError) × (w' : World) × (load p env env' w ≡ done (some e) w')
        × (w'.snapshot ≡ w.snapshot)
        × (w'.store_file ≡ some file)
  unfolding load
  load-forged env env' w file l f forged =
      let key = load_or_create_key env w.key_file in
      let (e, rejected) = decode-forged p key.0 file w.snapshot forged in
      let error : StoreError = elim env.store_opens [
        | false ↦ not_found
        | true ↦ elim (file_header_error file) [ none ↦ bad_store e | some e' ↦ bad_store e' ]
      ] in
      let key_file : Option Bytes = elim env.store_opens [
        | false ↦ w.key_file
        | true ↦ elim (file_header_error file) [ none ↦ key.1 | some e' ↦ w.key_file ]
      ] in
      (error, record w { key_file = key_file }, ground arith, refl, f)

  -- With no store and no legacy files `load` makes an empty store.
  pub load-new :
      (env env' : Env) (w : World)
      → w.lock ≡ free
      → w.store_file ≡ none
      → w.legacy_devices ≡ none
      → w.legacy_blocks ≡ none
      → env'.store_writable ≡ true
      → env'.store_commits ≡ true
      → load p env env' w
        ≡ done none (record w {
          snapshot = empty_snapshot;
          store_file = some (store_bytes p (load_or_create_key env' w.key_file).0 empty_snapshot);
          key_file = (load_or_create_key env' w.key_file).1;
        })
  unfolding load
  load-new env env' w l f d b o c = ground arith

module _ (p : Platform) (laws : PlatformLaws p) where
  -- A readable snapshot that was written with the key is loaded.
  pub load-written :
      (env env' : Env) (w : World) (s : PolicySnapshot)
      → w.lock ≡ free
      → w.store_file ≡ some (store_bytes p (load_or_create_key env w.key_file).0 s)
      → env.store_opens ≡ true
      → IsReadable p s
      → load p env env' w
        ≡ done none (record w {
          snapshot = stored_snapshot p s;
          key_file = (load_or_create_key env w.key_file).1;
        })
  load-written env env' w s l f o r =
      let key = (load_or_create_key env w.key_file).0 in
      rw (
        load-present p env env' w (store_bytes p key s) l f o
            (file_header_error-store_bytes p laws key s r.size),
        decode-store_bytes p laws key s w.snapshot r.devices r.blocks r.size,
      )
