-- ===== src/Policy/Gateway/Durable.antt =====
-- From a mutation to the next start of the program (src/policy/PolicyStoreEngine.cpp).
use flashsentry.Base.{◌≡◌, sym, ap, ◌∙◌, true, none, Text, length}
use flashsentry.Platform.{Platform, PlatformLaws}
use flashsentry.Policy.Blob.RoundTrip.{stored_snapshot}
use flashsentry.Policy.Engine.Files.{World, Env, load_or_create_key}
use flashsentry.Policy.Engine.{done, load}
use flashsentry.Policy.Engine.Reload.{IsReadable, same_key, load-written}
use flashsentry.Policy.Gateway.{Call, call}
use flashsentry.Policy.Gateway.History.{IsReady, call-writes, step-IsReady}

-- What a mutation of a ready store that returned true left is what the next start loads, if its
-- snapshot is readable: the same snapshot, its records as `stored` has them. Readable: its records and
-- blocks decode (a record's text parses back, has an id, whole seconds, numbers in range and at most
-- 8 MiB, and a block's likewise), and the whole file is below 2 ^ 31 bytes. The key file can be read
-- and written, a fresh key has 32 bytes, and the store opens.
pub load-call :
    (p : Platform) (laws : PlatformLaws p) (env env' env'' : Env) (actor : Text) (c : Call)
    → (w w' : World) → IsReady w
    → call p env actor c w ≡ done true w'
    → env.key_opens ≡ true
    → env.key_writable ≡ true
    → length env.fresh_key ≡ 32
    → env'.key_opens ≡ true
    → env'.store_opens ≡ true
    → IsReadable p w'.snapshot
    → load p env' env'' w' ≡ done none (record w' { snapshot = stored_snapshot p w'.snapshot })
load-call p laws env env' env'' actor c w w' ready e o k n o' s r =
    let (file, key_file) = call-writes p env actor c ready e in
    let same : load_or_create_key env' w'.key_file ≡ load_or_create_key env w.key_file =
      rw key_file (same_key env env' w.key_file o k n o') in
    load-written p laws env' env'' w' w'.snapshot (step-IsReady p env actor c true ready e).unlocked
      (rw same file) s r
    ∙ ap (λ key. done none (record w' { snapshot = stored_snapshot p w'.snapshot; key_file = key }))
        (rw same (sym key_file))
