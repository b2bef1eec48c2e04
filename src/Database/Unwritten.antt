-- ===== src/Database/Unwritten.antt =====
-- What src/DatabaseManager.cpp leaves where the store could not be written.
use flashsentry.Base.{
  ◌≡◌, refl, ap, ◌∙◌, false, not, none, some, Text, if◌then◌else◌, is_empty, text_eq_refl, codes,
  lookup,
}
use flashsentry.Platform.{Platform}
use flashsentry.Device.{DeviceRecord}
use flashsentry.Policy.Gateway.Interface.{in_process}
use flashsentry.Policy.Engine.Files.{World, Env, free, is_none}
use flashsentry.Policy.Engine.{done}
use flashsentry.Policy.Engine.Commits.{writes}
use flashsentry.Policy.Engine.Devices.{find_device}
use flashsentry.Policy.Gateway.History.{IsReady}
use flashsentry.Database.{Database, pure, emit, ◌>>=◌, device_added, synced}
use flashsentry.Database.Changes
use flashsentry.Database.Changes.{persist_device, persisted}
use flashsentry.Database.Mirror.{filled, synced-done, filled-Mirrors}
use flashsentry.Database.Refines.Tracks.{
  then_do, put_world, persist_device-writes, put_world-IsReady, find-put,
}

module _ (p : Platform) (env : Env) (fails : writes env ≡ false) (db : Database) (w : World)
    (ready : IsReady w) where
  put_world-unwritten :
      (r : DeviceRecord) (reason : Text) → (put_world p env r reason w).store_file ≡ w.store_file
  put_world-unwritten r reason = rw fails

  -- Where the store cannot be written, adding a device that the table does not have, through the
  -- gateway in process on a ready store, returns false and leaves the table and the store file alone;
  -- the engine has the record nevertheless, and the next time that the table is filled it has it too.
  pub add_device-unwritten :
      (r : DeviceRecord)
      → lookup r.unique_id db.devices ≡ none
      → is_empty r.unique_id ≡ false
      → (w' : World) × (Changes.add_device p env (in_process p) r db w ≡ done (false, db) w')
        × (w'.store_file ≡ w.store_file)
        × (find_device r.unique_id w'.snapshot.devices ≡ some r)
        × (db' : Database) × (w'' : World) × (synced (in_process p) db w' ≡ done (tt, db') w'')
        × (lookup r.unique_id db'.devices ≡ some r)
  unfolding Changes.add_device persisted
  add_device-unwritten r absent named =
      let w' = put_world p env r (codes "add") w in
      let kept = put_world-IsReady p env r (codes "add") w ready named in
      let write =
        persist_device p env (in_process p) r (codes "add")
        >>= persisted p env (in_process p) (emit (device_added r.unique_id)) in
      let found : find_device r.unique_id w'.snapshot.devices ≡ some r =
        find-put p env r (codes "add") w (λ id. find_device id w.snapshot.devices) (λ id. refl)
          r.unique_id
        ∙ rw (text_eq_refl r.unique_id) in
      (
        w',
        ap (λ o. (if not (is_none o) then pure false else write) db w) absent
            ∙ ap (then_do (persisted p env (in_process p) (emit (device_added r.unique_id))))
                (persist_device-writes p env r (codes "add") db w ready.unlocked named)
            ∙ ap (λ b. persisted p env (in_process p) (emit (device_added r.unique_id)) b db w')
                fails,
        put_world-unwritten r (codes "add"),
        found,
        filled db w',
        record w' { lock = free },
        synced-done p db w' kept.unlocked,
        (filled-Mirrors db w' kept).same r.unique_id ∙ found,
      )
