-- ===== src/BadUsb/Baselines/Store.antt =====
-- The store of src/BadUsbBaselineStore.cpp: the table in memory, and its file. `baselineChanged` is
-- emitted exactly where a change returns true.
use flashsentry.Base.{
  Bool, true, false, not, Option, none, some, List, [], ◌∷◌, Text, Bytes, Table, lookup, insert,
  if◌then◌else◌, text_eq, codes, keep_if, is_empty,
}
use flashsentry.Json
use flashsentry.Json.{
  Json, Fields, Items, nil, cons, none_left, str, arr, obj, value, to_items, to_fields, is_object,
  to_array,
}
use flashsentry.Platform.{Platform, DateTime}
use flashsentry.BadUsb.{HidDeviceInfo, BadUsbBaselineEntry}
use flashsentry.BadUsb.Baselines.{stable_id_of, baseline_to_json, baseline_from_json}

pub record BaselineStore : Type 0 where
  pub devices : Table BadUsbBaselineEntry
  pub file : Option Bytes

-- What the system answers during one call.
pub record Access : Type 0 where
  pub now : DateTime
  pub readable : Bool
  pub writable : Bool

abbrev pub no_hid_device : HidDeviceInfo
no_hid_device = record {
  sys_path = [];
  dev_node = [];
  usb_path = [];
  usb_bus = [];
  usb_port = [];
  vendor_id = [];
  product_id = [];
  serial = [];
  manufacturer = [];
  product = [];
  driver = [];
  capabilities = [];
  interfaces = [];
  seen_at_utc = none;
}

-- `m_devices.value(stableId)`
abbrev pub or_no_baseline : Option BadUsbBaselineEntry → BadUsbBaselineEntry
or_no_baseline (some e) = e
or_no_baseline none = record {
  stable_id = [];
  device = no_hid_device;
  trusted = false;
  first_seen_utc = none;
  last_seen_utc = none;
  notes = [];
}

abbrev pub all_baselines : Table BadUsbBaselineEntry → List BadUsbBaselineEntry
all_baselines [] = []
all_baselines ((k, e) ∷ m) = e ∷ all_baselines m

unfoldable pub has_baseline : Text → BaselineStore → Bool
unfolding lookup
has_baseline stable_id s = elim (lookup stable_id s.devices) [ none ↦ false | some e ↦ true ]

unfoldable pub get_baseline : Text → BaselineStore → Option BadUsbBaselineEntry
unfolding lookup
get_baseline stable_id s = lookup stable_id s.devices

module _ (p : Platform) (sha256_hex : Text → Text) where
  unfoldable pub load_devices_loop : Items → Table BadUsbBaselineEntry → Table BadUsbBaselineEntry
  unfolding insert baseline_from_json to_fields is_empty
  load_devices_loop nil loaded = loaded
  load_devices_loop (cons v vs) loaded =
      let e = baseline_from_json p sha256_hex (to_fields v) in
      load_devices_loop vs
        (if not (is_empty e.stable_id) then insert e.stable_id e loaded else loaded)

  -- The table is cleared first, also where the file cannot be read.
  unfoldable pub load_baselines : Access → BaselineStore → BaselineStore × Bool
  unfolding load_devices_loop is_object to_fields to_items value
  load_baselines a s = elim s.file [
    | none ↦ (record s { devices = [] }, true)
    | some bytes ↦
        let doc = p.parse_json bytes in
        if not a.readable
        then (record s { devices = [] }, false)
        else if not (is_object doc)
        then (record s { devices = [] }, false)
        else (
          record s { devices = load_devices_loop (to_items (value "devices" (to_fields doc))) [] },
          true,
        )
  ]

  unfoldable pub baselines_root : List BadUsbBaselineEntry → Fields
  unfolding Json.insert to_array baseline_to_json
  baselines_root entries =
      Json.insert "devices" (arr (to_array (λ e. obj (baseline_to_json p sha256_hex e)) entries))
        (Json.insert "version" (str (codes "1.0")) none_left)

  unfoldable pub save_baselines : Access → BaselineStore → BaselineStore × Bool
  unfolding baselines_root
  save_baselines a s = if not a.writable then (s, false) else (
    record s { file = some (p.to_indented (baselines_root (all_baselines s.devices))) },
    true,
  )

  unfoldable pub updated :
      Access → HidDeviceInfo → Bool → Text → BadUsbBaselineEntry → BadUsbBaselineEntry
  unfolding stable_id_of is_empty
  updated a info trusted notes e = record {
    stable_id = if is_empty e.stable_id then stable_id_of sha256_hex info else e.stable_id;
    device = info;
    trusted = trusted;
    first_seen_utc = if is_empty e.stable_id then a.now else e.first_seen_utc;
    last_seen_utc = a.now;
    notes = if is_empty notes then e.notes else notes;
  }

  unfoldable pub upsert_baseline :
      Access → HidDeviceInfo → Bool → Text → BaselineStore → BaselineStore × Bool
  unfolding lookup insert stable_id_of updated save_baselines
  upsert_baseline a info trusted notes s =
      let stable_id = stable_id_of sha256_hex info in
      let entry = updated a info trusted notes (or_no_baseline (lookup stable_id s.devices)) in
      save_baselines a (record s { devices = insert stable_id entry s.devices })

  unfoldable pub set_baseline_trusted : Access → Text → Bool → BaselineStore → BaselineStore × Bool
  unfolding lookup insert save_baselines
  set_baseline_trusted a stable_id trusted s = elim (lookup stable_id s.devices) [
    | none ↦ (s, false)
    | some e ↦
        let entry = record e { trusted = trusted; last_seen_utc = a.now } in
        save_baselines a (record s { devices = insert stable_id entry s.devices })
  ]

  unfoldable pub remove_baseline : Access → Text → BaselineStore → BaselineStore × Bool
  unfolding lookup keep_if text_eq save_baselines
  remove_baseline a stable_id s = elim (lookup stable_id s.devices) [
    | none ↦ (s, false)
    | some e ↦
        save_baselines a
          (record s { devices = keep_if (λ d. not (text_eq d.0 stable_id)) s.devices })
  ]
