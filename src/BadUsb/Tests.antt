-- ===== src/BadUsb/Tests.antt =====
-- The rules at a concrete keyboard.
use mathlib.Core.List.{Memᴰ}
use flashsentry.Base.{
  ℕ, ◌+◌, ◌≡◌, ◌≢◌, ◌↔◌, ◌⊎◌, Bool, true, false, none, some, List, [], ◌∷◌, pos, codes, Text,
}
use flashsentry.BadUsb.{
  HidInterfaceInfo, HidDeviceInfo, BadUsbBaselineEntry, BadUsbSettings, interface_signatures,
  analyze_connect,
}
use flashsentry.BadUsb.Rules.{analyze_connect-anomalous}

abbrev less : Text → Text → Bool
less a b = false

abbrev keyboard : HidDeviceInfo
keyboard = record {
  sys_path = [];
  dev_node = [];
  usb_path = [];
  usb_bus = [];
  usb_port = [];
  vendor_id = [];
  product_id = [];
  serial = [];
  manufacturer = [];
  product = [];
  driver = [];
  capabilities = codes "keyboard" ∷ [];
  interfaces = [];
  seen_at_utc = none;
}

abbrev interface : Text → HidInterfaceInfo
interface driver = record {
  number = [];
  interface_class = [];
  interface_sub_class = [];
  interface_protocol = [];
  driver = driver;
}

abbrev driven : HidDeviceInfo
driven = record keyboard { interfaces = interface (codes "usbhid") ∷ [] }

abbrev all_on : BadUsbSettings
all_on = record {
  alert_composite_storage = true;
  alert_new_keyboard = true;
  alert_interface_drift = true;
  alert_rapid_reconnect = true;
}

-- The keyboard had no driver before.
abbrev known : BadUsbBaselineEntry
known = record {
  stable_id = [];
  device = record keyboard { interfaces = interface [] ∷ [] };
  trusted = true;
  first_seen_utc = none;
  last_seen_utc = none;
  notes = [];
}

analyze_connect-anomalous_example :
    ((analyze_connect less none driven (some known) [] (pos 1) all_on).anomalous ≡ true) ↔ (
      ((true ≡ true) × Memᴰ (codes "keyboard") driven.capabilities × (◌≢◌ {A = List Text} [] []))
      ⊎ (((true ≡ true)
            × Memᴰ (codes "keyboard") driven.capabilities
            × ((b : BadUsbBaselineEntry) → some known ≡ some b → b.trusted ≡ false))
          ⊎ (((true ≡ true)
                × ((b : BadUsbBaselineEntry) × (some known ≡ some b)
                    × (interface_signatures less b.device ≢ [])
                    × (interface_signatures less driven ≢ interface_signatures less b.device)))
              ⊎ ((true ≡ true) × ((n : ℕ) × (pos 1 ≡ pos (3 + n)))))))
analyze_connect-anomalous_example =
    analyze_connect-anomalous less none driven (some known) [] (pos 1) all_on
