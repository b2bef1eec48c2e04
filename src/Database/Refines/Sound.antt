-- ===== src/Database/Refines/Sound.antt =====
-- Every change of src/DatabaseManager.cpp does to the table and to the engine what is specified.
use flashsentry.Base.{
  ◌≡◌, refl, sym, ap, ◌∙◌, Bool, true, false, Option, none, some, List, [], ◌∷◌, Text,
  if◌then◌else◌, Bool-cases, Option-cases, inl, inr, is_empty, text_eq, text_eq_iff, text_eq_refl,
  codes, lookup, insert, lookup-insert, find,
}
use flashsentry.Platform.{Platform}
use flashsentry.Device.{DeviceRecord}
use flashsentry.Policy.Gateway.Interface.{in_process}
use flashsentry.Policy.Engine.Files.{World, Env}
use flashsentry.Policy.Engine.{Outcome, done}
use flashsentry.Policy.Engine.Commits.{writes, upsert_device-committed}
use flashsentry.Policy.Engine.Devices.{find_device, IsKeyed}
use flashsentry.Policy.Gateway.{call}
use flashsentry.Policy.Gateway.History.{IsReady}
use flashsentry.Database.{Database, D, pure, emit, ◌>>=◌, ◌>>◌, device_updated, synced, Signal}
use flashsentry.Database.Changes.{
  persist_device, persisted, change, write_changed, set_field, emit_removed, persist_record_by_id,
  persist_found, change_found,
}
use flashsentry.Database.Mirror.{Mirrors}
use flashsentry.Database.Refines.{View, altered_found, put, altered, altered_at}
use flashsentry.Database.Refines.Tracks.{
  Tracks, Tracks-eq, Quiet, Quiet-pure, gated, then_do, finished-Tracks, put-Tracks, put_world,
  put_world-IsReady, persist_device-done, find-put,
}

-- The map that the table is.
abbrev pub view_of : Database → View
view_of db id = lookup id db.devices

-- A method whose result is dropped.
pub Tracks-drop :
    {A : Type 0} {o : Outcome (A × Database)} {v : View}
    → Tracks o v
    → Tracks (then_do (λ _. pure tt) o) v
Tracks-drop t = record {
  returned = tt;
  database = t.database;
  world = t.world;
  returns = ap (then_do (λ _. pure tt)) t.returns;
  ready = t.ready;
  mirrors = t.mirrors;
  view = t.view;
}

pub Tracks-unchanged :
    {A : Type 0} (a : A) (db : Database) (w : World)
    → IsReady w
    → Mirrors db w
    → Tracks (done (a, db) w) (view_of db)
Tracks-unchanged a db w r m = record {
  returned = a;
  database = db;
  world = w;
  returns = refl;
  ready = r;
  mirrors = m;
  view = λ id. sym (m.same id);
}

pub emit-Quiet : (s : Signal) → Quiet (emit s)
emit-Quiet s db w = (tt, _, refl, refl)

pub emit_removed-Quiet :
    (ids : List Text) (p : Platform) (env : Env) → Quiet (emit_removed p env (in_process p) ids)
unfolding emit_removed
emit_removed-Quiet [] p env db w = (tt, db, refl, refl)
emit_removed-Quiet (id ∷ ids) p env db w =
    let (a, db', e, k) = emit_removed-Quiet ids p env _ w in (a, db', e, k)

-- A record that was found has the id, which is not empty.
pub found_id :
    (k : Text) (ds : List DeviceRecord) (r : DeviceRecord)
    → IsKeyed ds
    → find_device k ds ≡ some r
    → (r.unique_id ≡ k) × (is_empty r.unique_id ≡ false)
unfolding find
found_id k [] r h e = cc
found_id k (d ∷ ds) r (named, absent, h) e = elim (Bool-cases (text_eq d.unique_id k)) [
  | inl own ↦
      let same : some d ≡ some r = rw own at e in
      let is_d : d ≡ r = cc in (rw (← is_d) ((text_eq_iff d.unique_id k).0 own), rw (← is_d) named)
  | inr other ↦ found_id k ds r h (rw other at e)
]

module _ (p : Platform) (env : Env) (ok : writes env ≡ true) where
  pub persist_device-empty :
      (r : DeviceRecord) (reason : Text) (db : Database) (w : World)
      → IsReady w
      → is_empty r.unique_id ≡ true
      → persist_device p env (in_process p) r reason db w ≡ done (false, db) w
  unfolding persist_device call
  persist_device-empty r reason db w ready empty =
      ap (gated db) {y = done false w}
        (upsert_device-committed p env r (codes "database") reason w ready.unlocked ∙ rw empty)

  -- A write of a record, which is refused where it has no id.
  pub write-Tracks :
      (announce : D (Unit {0})) (r : DeviceRecord) (reason : Text) (db : Database) (w : World)
      → Quiet announce
      → IsReady w
      → Mirrors db w
      → Tracks
          ((persist_device p env (in_process p) r reason
              >>= persisted p env (in_process p) announce)
            db w)
          (if is_empty r.unique_id then view_of db else put r.unique_id (some r) (view_of db))
  unfolding persisted
  write-Tracks announce r reason db w q ready m = elim (Bool-cases (is_empty r.unique_id)) [
    | inl empty ↦ rw empty (
        Tracks-eq
          (ap (then_do (persisted p env (in_process p) announce))
            (persist_device-empty r reason db w ready empty))
          (λ id. refl) (Tracks-unchanged false db w ready m))
    | inr named ↦ rw named (
        put-Tracks p env announce r reason db w (view_of db) q ready ok named
          (λ id. sym (m.same id)))
  ]

  module _ (g : DeviceRecord → DeviceRecord) (reason : Text) (db : Database) (w : World)
      (keeps : (r : DeviceRecord) → (g r).unique_id ≡ r.unique_id) (ready : IsReady w)
      (m : Mirrors db w) where
    -- The database with the record of `k` replaced, before it is written.
    abbrev edited : Text → DeviceRecord → Database
    edited k r = record db { devices = insert k (g r) db.devices }

    found_here :
        (k : Text) (r : DeviceRecord)
        → lookup k db.devices ≡ some r
        → ((g r).unique_id ≡ k) × (is_empty (g r).unique_id ≡ false)
    found_here k r e =
        let (same, named) = found_id k w.snapshot.devices r ready.keyed (sym (m.same k) ∙ e) in
        (keeps r ∙ same, rw (keeps r) named)

    -- The two outcomes of a look-up, of which a proof is given of the one that came.
    at_found :
        (k : Text) (o : Option DeviceRecord) {B : Type 0} (f : Option (Text × DeviceRecord) → D B)
        → lookup k db.devices ≡ o
        → Tracks
            (then_do f (change_found p env (in_process p) g k o db w))
            (altered_found g k (view_of db) o)
        → Tracks ((change p env (in_process p) g (some k) >>= f) db w) (altered g k (view_of db))
    unfolding change
    at_found k o f e t =
        Tracks-eq (ap (λ x. then_do f (change_found p env (in_process p) g k x db w)) e)
          (λ id. ap (λ x. altered_found g k (view_of db) x id) (sym e)) t

    put_same :
        (k : Text) (r : DeviceRecord)
        → (g r).unique_id ≡ k
        → (id : Text)
        → put (g r).unique_id (some (g r)) (view_of db) id ≡ put k (some (g r)) (view_of db) id
    put_same k r same id = ap (λ j. put j (some (g r)) (view_of db) id) same

    pub change-Tracks :
        (announce : Text → D (Unit {0})) (o : Option Text)
        → ((id : Text) → Quiet (announce id))
        → Tracks
            ((change p env (in_process p) g o
                >>= write_changed p env (in_process p) reason announce)
              db w)
            (altered_at p g o (view_of db))
    unfolding change change_found write_changed
    change-Tracks announce none q = Tracks-unchanged false db w ready m
    change-Tracks announce (some k) q = elim (Option-cases (lookup k db.devices)) [
      | inl e ↦
          at_found k none (write_changed p env (in_process p) reason announce) e
            (Tracks-unchanged false db w ready m)
      | inr (r, e) ↦
          let (same, named) = found_here k r e in
          at_found k (some r) (write_changed p env (in_process p) reason announce) e (
            Tracks-eq refl (put_same k r same) (
              put-Tracks p env (announce k) (g r) reason (edited k r) w (view_of db) (q k) ready ok
                named (λ id. sym (m.same id))))
    ]

    pub set_field-Tracks :
        (k : Text)
        → Tracks
            ((change p env (in_process p) g (some k) >>= set_field p env (in_process p) g reason k)
              db w)
            (altered g k (view_of db))
    unfolding change change_found set_field persist_record_by_id persist_found
    set_field-Tracks k = elim (Option-cases (lookup k db.devices)) [
      | inl e ↦
          at_found k none (set_field p env (in_process p) g reason k) e
            (Tracks-unchanged false db w ready m)
      | inr (r, e) ↦
          let (same, named) = found_here k r e in
          let rest : D Bool = emit (device_updated k) >> pure true in
          let stored : lookup k (edited k r).devices ≡ some (g r) =
            lookup-insert k k (g r) db.devices ∙ rw (text_eq_refl k) in
          at_found k (some r) (set_field p env (in_process p) g reason k) e (
            Tracks-eq
              (ap
                  (λ x.
                    then_do (λ _. synced (in_process p) >> rest)
                      (persist_found p env (in_process p) reason x (edited k r) w))
                  stored
                ∙ ap (then_do (λ _. synced (in_process p) >> rest))
                    (persist_device-done p env (g r) reason (edited k r) w ready.unlocked ok named))
              (put_same k r same)
              (finished-Tracks p rest (edited k r) (put_world p env (g r) reason w)
                (put (g r).unique_id (some (g r)) (view_of db))
                (Quiet-pure (emit (device_updated k)) true (emit-Quiet (device_updated k)))
                (put_world-IsReady p env (g r) reason w ready named)
                (find-put p env (g r) reason w (view_of db) (λ id. sym (m.same id)))))
    ]
