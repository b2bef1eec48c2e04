-- ===== src/Policy/Gateway/History.antt =====
-- What holds of the policy store through any history of mutations (src/policy/PolicyStoreEngine.cpp).
use mathlib.Core.Bool.{false≢true}
use flashsentry.Base.{
  ◌≡◌, refl, subst, Bool, true, false, some, Text, arith, if◌then◌else◌, any, is_empty, inl, inr,
  ◌⊎◌, Bool-cases,
}
use flashsentry.Platform.{Platform}
use flashsentry.Policy.{PolicySnapshot}
use flashsentry.Policy.Blob.{store_bytes}
use flashsentry.Policy.Engine.Files.{World, Env, AuditLine, free, load_or_create_key}
use flashsentry.Policy.Engine.{Outcome, done, stuck, matches}
use flashsentry.Policy.Engine.Commits.{
  writes, committed, upsert_device-committed, remove_device-committed, clear_devices-committed,
  block_drive-committed, block_drive-stuck, unblock_drive-committed,
}
use flashsentry.Policy.Engine.Devices.{IsKeyed, put_device-IsKeyed, drop_device-IsKeyed}
use flashsentry.Policy.Gateway.{Call, upsert, remove, clear, block, unblock, call}

-- Between two calls: nobody holds the lock, and the devices have distinct ids that are not empty.
pub record IsReady (w : World) : Type 0 where
  pub unlocked : w.lock ≡ free
  pub keyed : IsKeyed w.snapshot.devices

-- The drive of a `block` is blocked already.
abbrev pub is_repeated : Call → World → Bool
is_repeated (block drive_key id label) w = any (matches drive_key id) w.snapshot.blocks
is_repeated _ w = false

-- How a call ends that returns: it left the store alone, or wrote what is now the snapshot.
pub record Ends (p : Platform) (env : Env) (w : World) (o : Outcome Bool) : Type 0 where
  pub returned : Bool
  pub after : World
  pub outcome : o ≡ done returned after
  pub ready : IsReady after
  pub durable : after.store_file ≡ (
      if returned
      then some (store_bytes p (load_or_create_key env w.key_file).0 after.snapshot)
      else w.store_file)
  pub key : (returned ≡ false) ⊎ (after.key_file ≡ (load_or_create_key env w.key_file).1)

module _ (p : Platform) (env : Env) where
  Ends-committed :
      (line : AuditLine) (s : PolicySnapshot) (w : World) (o : Outcome Bool)
      → o ≡ done (writes env) (committed p env line s w)
      → IsKeyed s.devices
      → Ends p env w o
  Ends-committed line s w o e k = record {
    returned = writes env;
    after = committed p env line s w;
    outcome = e;
    ready = record { unlocked = refl; keyed = k };
    durable = refl;
    key = inr refl;
  }

  Ends-unchanged : (w : World) (o : Outcome Bool) → o ≡ done false w → IsReady w → Ends p env w o
  Ends-unchanged w o e r = record {
    returned = false;
    after = w;
    outcome = e;
    ready = r;
    durable = refl;
    key = inl refl;
  }

  -- A mutation of a ready store returns, unless it blocks a drive that is blocked already. It leaves
  -- the store ready: unlocked, with distinct ids that are not empty. If it returns true, the file
  -- holds the snapshot, encoded and signed, and if it returns false, the file is as it was.
  pub call-Ends :
      (actor : Text) (c : Call) (w : World)
      → IsReady w
      → is_repeated c w ≡ false
      → Ends p env w (call p env actor c w)
  unfolding call
  call-Ends actor (upsert r reason) w ready h =
      let e = upsert_device-committed p env r actor reason w ready.unlocked in
      elim (Bool-cases (is_empty r.unique_id)) [
        | inl empty ↦ Ends-unchanged w _ (rw empty at e) ready
        | inr named ↦
            Ends-committed _ _ w _ (rw named at e)
              (put_device-IsKeyed r w.snapshot.devices named ready.keyed)
      ]
  call-Ends actor (remove id reason) w ready h =
      Ends-committed _ _ w _ (remove_device-committed p env id actor reason w ready.unlocked)
        (drop_device-IsKeyed id w.snapshot.devices ready.keyed)
  call-Ends actor (clear reason) w ready h =
      Ends-committed _ _ w _ (clear_devices-committed p env actor reason w ready.unlocked) tt
  call-Ends actor (block drive_key id label) w ready h =
      Ends-committed _ _ w _
        (block_drive-committed p env drive_key id label actor w ready.unlocked h) ready.keyed
  call-Ends actor (unblock drive_key id) w ready h =
      Ends-committed _ _ w _ (unblock_drive-committed p env drive_key id actor w ready.unlocked)
        ready.keyed

  -- A call that blocks a drive which is blocked already never returns.
  pub repeated_block-stuck :
      (actor : Text) (c : Call) (w : World)
      → w.lock ≡ free
      → is_repeated c w ≡ true
      → (w' : World) × (call p env actor c w ≡ stuck w')
  unfolding call
  repeated_block-stuck actor (block drive_key id label) w h again =
      block_drive-stuck p env drive_key id label actor w h again
  repeated_block-stuck actor (upsert r reason) w h again = absurd (false≢true again)
  repeated_block-stuck actor (remove id reason) w h again = absurd (false≢true again)
  repeated_block-stuck actor (clear reason) w h again = absurd (false≢true again)
  repeated_block-stuck actor (unblock drive_key id) w h again = absurd (false≢true again)

-- The worlds that a history of returning calls leads to.
pub data Reach (p : Platform) (w : World) : World → Type 0 where
  here : Reach p w w
  next :
      {u v : World} (env : Env) (actor : Text) (c : Call) (b : Bool)
      → Reach p w u
      → call p env actor c u ≡ done b v
      → Reach p w v

-- A call that returned, from a ready world, ended so.
pub returned-Ends :
    (p : Platform) (env : Env) (actor : Text) (c : Call) (b : Bool) {u v : World}
    → IsReady u
    → call p env actor c u ≡ done b v
    → Ends p env u (done b v)
returned-Ends p env actor c b {u} {v} r e = elim (Bool-cases (is_repeated c u)) [
  | inl again ↦ cc (e, (repeated_block-stuck p env actor c u r.unlocked again).1)
  | inr first ↦ subst (Ends p env u) e (call-Ends p env actor c u r first)
]

after-eq : {b c : Bool} {v w : World} → done b v ≡ done c w → w ≡ v
after-eq e = cc

returned-eq : {b c : Bool} {v w : World} → done b v ≡ done c w → c ≡ b
returned-eq e = cc

-- What a call that returned true wrote.
pub call-writes :
    (p : Platform) (env : Env) (actor : Text) (c : Call) {u v : World}
    → IsReady u
    → call p env actor c u ≡ done true v
    → (v.store_file ≡ some (store_bytes p (load_or_create_key env u.key_file).0 v.snapshot))
      × (v.key_file ≡ (load_or_create_key env u.key_file).1)
call-writes p env actor c {u} {v} r e =
    let end = returned-Ends p env actor c true r e in
    let same = after-eq end.outcome in
    let worked = returned-eq end.outcome in
    (
      subst
          (λ (x : World).
            x.store_file ≡ some (store_bytes p (load_or_create_key env u.key_file).0 x.snapshot))
          same (ground (arith, end.durable)),
      subst (λ (x : World). x.key_file ≡ (load_or_create_key env u.key_file).1) same
          (elim end.key [ inl failed ↦ cc | inr kept ↦ kept ]),
    )

pub step-IsReady :
    (p : Platform) (env : Env) (actor : Text) (c : Call) (b : Bool) {u v : World}
    → IsReady u
    → call p env actor c u ≡ done b v
    → IsReady v
step-IsReady p env actor c b r e =
    let end = returned-Ends p env actor c b r e in subst IsReady (after-eq end.outcome) end.ready

-- Every world that a history of calls reaches from a ready one is ready: no call leaves the lock
-- held, an id twice in the list, or a device without an id.
pub Reach-IsReady : (p : Platform) {w v : World} → IsReady w → Reach p w v → IsReady v
Reach-IsReady p r here = r
Reach-IsReady p r (next env actor c b before e) =
    step-IsReady p env actor c b (Reach-IsReady p r before) e
