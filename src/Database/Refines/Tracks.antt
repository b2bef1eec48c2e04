-- ===== src/Database/Refines/Tracks.antt =====
-- One write of src/DatabaseManager.cpp through the gateway, and the table filled behind it.
use flashsentry.Base.{
  ◌≡◌, refl, ap, ◌∙◌, true, false, none, some, [], Text, if◌then◌else◌, is_empty, text_eq, codes,
  lookup, find,
}
use flashsentry.Platform.{Platform}
use flashsentry.Device.{DeviceRecord}
use flashsentry.Policy.Gateway.Interface.{in_process}
use flashsentry.Policy.Engine.Files.{World, Env, free}
use flashsentry.Policy.Engine.{Outcome, done, stuck, put_device, drop_device}
use flashsentry.Policy.Engine.Commits.{
  writes, committed, audit_line, upsert_device-committed, remove_device-committed,
  clear_devices-committed,
}
use flashsentry.Policy.Engine.Devices.{
  find_device, find-put_device, find-drop_device, put_device-IsKeyed, drop_device-IsKeyed,
}
use flashsentry.Policy.Gateway.{remove, clear, call}
use flashsentry.Policy.Gateway.History.{IsReady}
use flashsentry.Database.{Database, D, pure, ◌>>=◌, ◌>>◌, synced}
use flashsentry.Database.Changes.{persist_device, persisted, told}
use flashsentry.Database.Mirror.{Mirrors, filled, synced-done, filled-Mirrors}
use flashsentry.Database.Refines.{View, put}

-- A method returned, the engine is ready, the table mirrors it, and both are this map.
pub record Tracks {A : Type 0} (o : Outcome (A × Database)) (v : View) : Type 0 where
  pub returned : A
  pub database : Database
  pub world : World
  pub returns : o ≡ done (returned, database) world
  pub ready : IsReady world
  pub mirrors : Mirrors database world
  pub view : (id : Text) → find_device id world.snapshot.devices ≡ v id

module _ {A : Type 0} where
  pub Tracks-eq :
      {o o' : Outcome (A × Database)} {v v' : View}
      → o ≡ o'
      → ((id : Text) → v' id ≡ v id)
      → Tracks o' v'
      → Tracks o v
  Tracks-eq e h t = record {
    returned = t.returned;
    database = t.database;
    world = t.world;
    returns = e ∙ t.returns;
    ready = t.ready;
    mirrors = t.mirrors;
    view = λ id. t.view id ∙ h id;
  }

-- A gateway's outcome beside the database.
abbrev pub gated {ℓ} : {A : Type ℓ} → Database → Outcome A → Outcome (A × Database)
gated db (done a w) = done (a, db) w
gated db (stuck w) = stuck w

-- What follows an outcome.
abbrev pub then_do :
    {A : Type 0} {B : Type 0} → (A → D B) → Outcome (A × Database) → Outcome (B × Database)
then_do f (done (a, db) w) = f a db w
then_do f (stuck w) = stuck w

module _ (p : Platform) (env : Env) (r : DeviceRecord) (reason : Text) where
  -- The world behind a write of a record that worked.
  abbrev pub put_world : World → World
  put_world w =
      committed p env (audit_line env (codes "database") (codes "upsert_device") r.unique_id reason)
        (record w.snapshot { devices = put_device r w.snapshot.devices }) w

  pub put_world-IsReady :
      (w : World) → IsReady w → is_empty r.unique_id ≡ false → IsReady (put_world w)
  put_world-IsReady w ready named = record {
    unlocked = refl;
    keyed = put_device-IsKeyed r w.snapshot.devices named ready.keyed;
  }

  pub find-put :
      (w : World) (v : View)
      → ((id : Text) → find_device id w.snapshot.devices ≡ v id)
      → (id : Text) → find_device id (put_world w).snapshot.devices ≡ put r.unique_id (some r) v id
  find-put w v h id =
      find-put_device r id w.snapshot.devices
      ∙ ap (λ o. if text_eq r.unique_id id then some r else o) (h id)

  pub persist_device-writes :
      (db : Database) (w : World)
      → w.lock ≡ free
      → is_empty r.unique_id ≡ false
      → persist_device p env (in_process p) r reason db w ≡ done (writes env, db) (put_world w)
  unfolding persist_device call
  persist_device-writes db w h named =
      ap (gated db) {y = done (writes env) (put_world w)}
        (upsert_device-committed p env r (codes "database") reason w h ∙ rw named)

  pub persist_device-done :
      (db : Database) (w : World)
      → w.lock ≡ free
      → writes env ≡ true
      → is_empty r.unique_id ≡ false
      → persist_device p env (in_process p) r reason db w ≡ done (true, db) (put_world w)
  persist_device-done db w h ok named =
      persist_device-writes db w h named ∙ ap (λ b. done (b, db) (put_world w)) ok

-- A part of a method that returns, and changes neither the table nor the engine's world.
abbrev pub Quiet : {A : Type 0} → D A → Type 0
Quiet {A} m =
    (db : Database) (w : World)
    → (a : A) × (db' : Database) × (m db w ≡ done (a, db') w) × (db'.devices ≡ db.devices)

pub Quiet-pure : {A : Type 0} (m : D (Unit {0})) (a : A) → Quiet m → Quiet (m >> pure a)
Quiet-pure m a q db w = let (_, db', e, k) = q db w in (a, db', ap (then_do (λ _. pure a)) e, k)

-- The end of a method: the table is filled again, and the rest only emits signals.
pub finished-Tracks :
    (p : Platform) {A : Type 0} (m : D A) (db : Database) (w : World) (v : View)
    → Quiet m
    → IsReady w
    → ((id : Text) → find_device id w.snapshot.devices ≡ v id)
    → Tracks ((synced (in_process p) >> m) db w) v
finished-Tracks p m db w v q r h =
    let (a, db', e, k) = q (filled db w) (record w { lock = free }) in
    record {
      returned = a;
      database = db';
      world = record w { lock = free };
      returns = ap (then_do (λ _. m)) (synced-done p db w r.unlocked) ∙ e;
      ready = record { unlocked = refl; keyed = r.keyed };
      mirrors = record { same = λ id. ap (lookup id) k ∙ (filled-Mirrors db w r).same id };
      view = h;
    }

module _ (p : Platform) (env : Env) where
  pub put-Tracks :
      (announce : D (Unit {0})) (r : DeviceRecord) (reason : Text) (db : Database) (w : World)
      (v : View)
      → Quiet announce
      → IsReady w
      → writes env ≡ true
      → is_empty r.unique_id ≡ false
      → ((id : Text) → find_device id w.snapshot.devices ≡ v id)
      → Tracks
          ((persist_device p env (in_process p) r reason
              >>= persisted p env (in_process p) announce)
            db w)
          (put r.unique_id (some r) v)
  unfolding persisted
  put-Tracks announce r reason db w v q ready ok named h =
      Tracks-eq
        (ap (then_do (persisted p env (in_process p) announce))
          (persist_device-done p env r reason db w ready.unlocked ok named))
        (λ id. refl)
        (finished-Tracks p (announce >> pure true) db (put_world p env r reason w)
          (put r.unique_id (some r) v) (Quiet-pure announce true q)
          (put_world-IsReady p env r reason w ready named) (find-put p env r reason w v h))

  -- A removal and a clearing, behind which the table is filled whatever they returned.
  pub remove-Tracks :
      {A : Type 0} (m : D A) (gone reason : Text) (db : Database) (w : World) (v : View)
      → Quiet m
      → IsReady w
      → ((id : Text) → find_device id w.snapshot.devices ≡ v id)
      → Tracks
          ((told p env (in_process p) (remove gone reason) >> (synced (in_process p) >> m)) db w)
          (put gone none v)
  unfolding told call
  remove-Tracks m gone reason db w v q ready h =
      let w' =
        committed p env (audit_line env (codes "database") (codes "remove_device") gone reason)
          (record w.snapshot { devices = drop_device gone w.snapshot.devices }) w in
      Tracks-eq
        (ap (λ o. then_do (λ _. synced (in_process p) >> m) (then_do (λ _. pure tt) (gated db o)))
          (remove_device-committed p env gone (codes "database") reason w ready.unlocked))
        (λ id. refl)
        (finished-Tracks p m db w' (put gone none v) q
          (record {
            unlocked = refl;
            keyed = drop_device-IsKeyed gone w.snapshot.devices ready.keyed;
          })
          (λ id.
            find-drop_device gone id w.snapshot.devices
            ∙ ap (λ o. if text_eq gone id then none else o) (h id)))

  pub clear-Tracks :
      {A : Type 0} (m : D A) (reason : Text) (db : Database) (w : World)
      → Quiet m
      → IsReady w
      → Tracks
          ((told p env (in_process p) (clear reason) >> (synced (in_process p) >> m)) db w)
          (λ id. none)
  unfolding told call find
  clear-Tracks m reason db w q ready =
      let w' =
        committed p env
          (audit_line env (codes "database") (codes "clear_devices") (codes "*") reason)
          (record w.snapshot { devices = [] }) w in
      Tracks-eq
        (ap (λ o. then_do (λ _. synced (in_process p) >> m) (then_do (λ _. pure tt) (gated db o)))
          (clear_devices-committed p env (codes "database") reason w ready.unlocked))
        (λ id. refl)
        (finished-Tracks p m db w' (λ id. none) q (record { unlocked = refl; keyed = tt })
          (λ id. refl))
