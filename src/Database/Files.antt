-- ===== src/Database/Files.antt =====
-- Loading, saving, export and import of src/DatabaseManager.cpp.
use flashsentry.Base.{
  Bool, true, false, not, ◌&&◌, Option, none, some, Bytes, ℤ, pos, negsuc, length, if◌then◌else◌,
  codes,
}
use flashsentry.Platform.{Platform}
use flashsentry.Policy.Engine.Files.{Env, StoreError}
use flashsentry.Policy.Gateway.Interface.{PolicyGateway}
use flashsentry.Database.{
  D, pure, gets, modify, emit, with_gate, ◌>>=◌, ◌>>◌, DatabaseError, gateway_unavailable,
  not_initialized, not_loaded, database_error, database_loaded, database_saved, synced,
}

module _ (p : Platform) (env env' : Env) (gate : Option PolicyGateway) where
  unfoldable pub announce_loaded : D Bool
  announce_loaded = do n ← gets (λ db. length db.devices); emit (database_loaded n); pure true

  unfoldable pub fail : DatabaseError → D Bool
  fail e = emit (database_error e) >> pure false

  -- What follows the gateway's `load` in `initialize`.
  unfoldable pub after_load : Option StoreError → D Bool
  unfolding synced fail announce_loaded
  after_load (some e) = fail (not_loaded e)
  after_load none = do
    modify (λ db. record db { initialized = true; modified = false })
    synced gate
    announce_loaded

  unfoldable pub initialize : D Bool
  unfolding fail after_load
  initialize = elim gate [
    | none ↦ fail gateway_unavailable
    | some g ↦ with_gate (g.load_store env env') >>= after_load
  ]

  -- Behind the gateway's `reload`.
  refill : D Bool
  unfolding synced announce_loaded
  refill =
      let filled = (synced gate >> announce_loaded) in
      gets (λ db. db.initialized) >>= λ ready. if not ready then pure false else filled

  after_reload : Option StoreError → D Bool
  unfolding fail refill
  after_reload (some e) = fail (not_loaded e)
  after_reload none = refill

  unfoldable pub reload : D Bool
  unfolding after_reload refill
  reload = elim gate [
    | none ↦ refill
    | some g ↦ with_gate (g.reload_store env env') >>= after_reload
  ]

  -- Nothing is written: each change was written when it was made.
  unfoldable pub save : D Bool
  unfolding fail
  save =
      let saved =
        (modify (λ db. record db { modified = false; last_saved = env.now })
          >> (emit database_saved >> pure true)) in
      gets (λ db. db.initialized) >>= λ ready. if not ready then fail not_initialized else saved

  -- The destructor.
  unfoldable pub destroy : D (Unit {0})
  unfolding save
  destroy =
      let saved = (save >>= λ _. pure tt) in
      gets (λ db. db.modified && db.initialized) >>= λ unsaved. if unsaved then saved else pure tt

  -- The text that is written, or nothing where there is no gateway or the file does not open.
  unfoldable pub export_to_file : Bool → Bool → D (Option Bytes)
  export_to_file opens pretty_print = elim gate [
    | none ↦ pure none
    | some g ↦ with_gate (g.export_to opens pretty_print)
  ]

  after_import : ℤ → D ℤ
  unfolding synced
  after_import (negsuc n) = pure (negsuc n)
  after_import (pos n) = synced gate >> pure (pos n)

  unfoldable pub import_from_file : Bool → Option Bytes → D ℤ
  unfolding after_import
  import_from_file merge file = elim gate [
    | none ↦ pure (negsuc 0)
    | some g ↦ with_gate (g.import_from env (codes "database") merge file) >>= after_import
  ]
