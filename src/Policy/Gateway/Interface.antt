-- ===== src/Policy/Gateway/Interface.antt =====
-- The interface `PolicyGateway` of include/policy/PolicyGateway.h, and what PolicyServiceLocator gives
-- where PolicyInProcessGateway was installed.
use flashsentry.Base.{Bool, Option, some, Text, Bytes, ℤ}
use flashsentry.Platform.{Platform}
use flashsentry.Policy.{PolicySnapshot}
use flashsentry.Policy.Engine.Files.{Env, StoreError}
use flashsentry.Policy.Engine.{M, current_snapshot, load}
use flashsentry.Policy.Gateway.{Call, call, import_json, export_json}

-- The methods that DatabaseManager calls. `mutate` is the one of the mutations that a `Call` names, by an actor.
pub record PolicyGateway : Type 0 where
  pub load_store : Env → Env → M (Option StoreError)
  pub reload_store : Env → Env → M (Option StoreError)
  pub snapshot_now : M PolicySnapshot
  pub mutate : Env → Text → Call → M Bool
  pub import_from : Env → Text → Bool → Option Bytes → M ℤ
  pub export_to : Bool → Bool → M (Option Bytes)

abbrev pub in_process : Platform → Option PolicyGateway
in_process p = some (record {
  load_store = load p;
  reload_store = load p;
  snapshot_now = current_snapshot;
  mutate = call p;
  import_from = import_json p;
  export_to = export_json p;
})
