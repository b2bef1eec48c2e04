-- ===== src/Policy/Tests/Engine.antt =====
-- The theorems on the engine (src/policy/PolicyStoreEngine.cpp) at concrete worlds.
use flashsentry.Base.{is_empty, ◌≡◌, refl, true, none, some, [], ◌∷◌, codes, any, text_eq}
use flashsentry.Policy.Blob.RoundTrip.{stored_snapshot}
use flashsentry.Policy.Engine.Files.{
  World, Env, StoreError, free, load_or_create_key, empty_snapshot,
}
use flashsentry.Policy.Engine.{done, stuck, load, put_device, matches}
use flashsentry.Policy.Engine.Commits.{committed, audit_line, upsert_device-committed}
use flashsentry.Policy.Engine.Reload.{load-forged}
use flashsentry.Policy.Gateway.Interface.{in_process}
use flashsentry.Policy.Drives.{Answers, block_entry, block_entry-Answers}
use flashsentry.Policy.Gateway.{upsert, block, call}
use flashsentry.Policy.Gateway.History.{
  IsReady, Ends, here, next, call-Ends, repeated_block-stuck, Reach-IsReady,
}
use flashsentry.Policy.Gateway.Durable.{load-call}
use flashsentry.Policy.Tests.{
  zeros, stick, drive, qt, qt_laws, stick-IsDecodable, only_stick, only_stick_small, forged,
  forged_differs,
}

abbrev pub answers : Env
answers = record {
  now = some 5;
  fresh_key = zeros;
  key_opens = true;
  key_writable = true;
  store_opens = true;
  store_writable = true;
  store_commits = true;
  legacy_opens = true;
  legacy_renames = true;
  audit_opens = true;
}

abbrev pub start : World
start = record {
  snapshot = empty_snapshot;
  lock = free;
  store_file = none;
  key_file = none;
  legacy_devices = none;
  legacy_blocks = none;
  audit_log = [];
}

pub start-IsReady : IsReady start
start-IsReady = record { unlocked = refl; keyed = tt }

-- The start, behind an upsert of the stick.
abbrev pub upserted : World
upserted =
    committed qt answers (audit_line answers [] (codes "upsert_device") stick.unique_id [])
      only_stick start

pub upsert_returns : call qt answers [] (upsert stick []) start ≡ done true upserted
unfolding call put_device is_empty
upsert_returns = upsert_device-committed qt answers stick [] [] start refl

load-call_example :
    load qt answers answers upserted
    ≡ done none (record upserted { snapshot = stored_snapshot qt only_stick })
load-call_example =
    load-call qt qt_laws answers answers answers [] (upsert stick []) start upserted start-IsReady
      upsert_returns refl refl refl refl refl
      (record { devices = (stick-IsDecodable, tt); blocks = tt; size = only_stick_small })

call-Ends_example : Ends qt answers start (call qt answers [] (upsert stick []) start)
call-Ends_example = call-Ends qt answers [] (upsert stick []) start start-IsReady refl

Reach-IsReady_example : IsReady upserted
Reach-IsReady_example =
    Reach-IsReady qt start-IsReady (next answers [] (upsert stick []) true here upsert_returns)

abbrev blocked : World
blocked = record start { snapshot = record { devices = []; blocks = drive ∷ [] } }

repeated_block-stuck_example :
    (w : World) × (call qt answers [] (block (codes "K") [] []) blocked ≡ stuck w)
unfolding any matches text_eq is_empty
repeated_block-stuck_example =
    repeated_block-stuck qt answers [] (block (codes "K") [] []) blocked refl refl

load-forged_example :
    (e : StoreError) × (w : World) × (load qt answers answers
        (record start { store_file = some forged; key_file = some zeros })
      ≡ done (some e) w)
    × (w.snapshot ≡ empty_snapshot)
    × (w.store_file ≡ some forged)
unfolding load_or_create_key
load-forged_example =
    load-forged qt answers answers
      (record start { store_file = some forged; key_file = some zeros }) forged refl refl
      forged_differs

block_entry-Answers_example :
    Answers
      (codes "K")
      []
      true
      (block_entry answers (in_process qt) (codes "K") [] [] blocked.snapshot.blocks)
      blocked
block_entry-Answers_example =
    block_entry-Answers qt answers (codes "K") [] [] blocked refl (unfold is_empty in refl)
