-- ===== src/BadUsb/Baselines.antt =====
-- src/BadUsbBaselineStore.cpp, and the JSON of HID devices in include/Types.h. The mutex, the folder of
-- the file and its permissions are left out.
pub mod Store
pub mod Codec
pub mod Saved
mod Tests
use flashsentry.Base.{
  ℕ, Bool, true, false, not, ◌&&◌, ◌||◌, Option, none, some, List, [], ◌∷◌, ◌++◌, Text, Bytes,
  Table, lookup, insert, if◌then◌else◌, text_eq, codes, keep_if, any, take, is_empty,
}
use flashsentry.Json
use flashsentry.Json.{
  Json, Fields, Items, nil, cons, none_left, bool, str, arr, obj, value, to_string, to_bool,
  to_items, to_fields, is_object, to_array, from_array,
}
use flashsentry.Platform.{Platform, DateTime}
use flashsentry.Manifest.Paths.{unique}
use flashsentry.BadUsb.{HidInterfaceInfo, HidDeviceInfo, BadUsbBaselineEntry}

-- `sha256_hex` is the SHA-256 of a text's UTF-8, in hexadecimal digits.
unfoldable pub stable_id_of : (Text → Text) → HidDeviceInfo → Text
unfolding is_empty
stable_id_of sha256_hex d =
    let identity =
      d.vendor_id
      ++ codes ":"
      ++ d.product_id
      ++ codes ":"
      ++ d.serial
      ++ codes ":"
      ++ d.usb_path in
    if not (is_empty d.vendor_id)
      && (not (is_empty d.product_id) && (not (is_empty d.serial) || not (is_empty d.usb_path)))
    then identity
    else codes "hid:" ++ take 16 (sha256_hex (identity ++ d.sys_path ++ d.dev_node))

unfoldable pub interface_to_json : HidInterfaceInfo → Fields
unfolding Json.insert
interface_to_json i = Json.insert "driver" (str i.driver) (
    Json.insert "protocol" (str i.interface_protocol) (
      Json.insert "subclass" (str i.interface_sub_class) (
        Json.insert "class" (str i.interface_class)
          (Json.insert "number" (str i.number) none_left))))

unfoldable pub interface_from_json : Fields → HidInterfaceInfo
unfolding value to_string
interface_from_json o = record {
  number = to_string (value "number" o) [];
  interface_class = to_string (value "class" o) [];
  interface_sub_class = to_string (value "subclass" o) [];
  interface_protocol = to_string (value "protocol" o) [];
  driver = to_string (value "driver" o) [];
}

-- The loop over `capabilities`, and `removeDuplicates`.
unfoldable pub capabilities_from : Items → List Text
unfolding to_string keep_if unique from_array is_empty
capabilities_from items =
    unique [] (keep_if (λ c. not (is_empty c)) (from_array (λ v. to_string v []) items))

unfoldable pub interfaces_from : Items → List HidInterfaceInfo
unfolding from_array interface_from_json to_fields
interfaces_from items = from_array (λ v. interface_from_json (to_fields v)) items

module _ (p : Platform) (sha256_hex : Text → Text) where
  unfoldable pub hid_to_json : HidDeviceInfo → Fields
  unfolding Json.insert to_array interface_to_json stable_id_of
  hid_to_json d = Json.insert "seen_at" (str (p.to_iso d.seen_at_utc)) (
      Json.insert "interfaces" (arr (to_array (λ i. obj (interface_to_json i)) d.interfaces)) (
        Json.insert "capabilities" (arr (to_array str d.capabilities)) (
          Json.insert "driver" (str d.driver) (
            Json.insert "product" (str d.product) (
              Json.insert "manufacturer" (str d.manufacturer) (
                Json.insert "serial" (str d.serial) (
                  Json.insert "product_id" (str d.product_id) (
                    Json.insert "vendor_id" (str d.vendor_id) (
                      Json.insert "usb_port" (str d.usb_port) (
                        Json.insert "usb_bus" (str d.usb_bus) (
                          Json.insert "usb_path" (str d.usb_path) (
                            Json.insert "dev_node" (str d.dev_node) (
                              Json.insert "sys_path" (str d.sys_path) (
                                Json.insert "stable_id" (str (stable_id_of sha256_hex d))
                                  none_left))))))))))))))

  unfoldable pub hid_from_json : Fields → HidDeviceInfo
  unfolding value to_string to_items capabilities_from interfaces_from
  hid_from_json o = record {
    sys_path = to_string (value "sys_path" o) [];
    dev_node = to_string (value "dev_node" o) [];
    usb_path = to_string (value "usb_path" o) [];
    usb_bus = to_string (value "usb_bus" o) [];
    usb_port = to_string (value "usb_port" o) [];
    vendor_id = to_string (value "vendor_id" o) [];
    product_id = to_string (value "product_id" o) [];
    serial = to_string (value "serial" o) [];
    manufacturer = to_string (value "manufacturer" o) [];
    product = to_string (value "product" o) [];
    driver = to_string (value "driver" o) [];
    capabilities = capabilities_from (to_items (value "capabilities" o));
    interfaces = interfaces_from (to_items (value "interfaces" o));
    seen_at_utc = p.from_iso (to_string (value "seen_at" o) []);
  }

  unfoldable pub baseline_to_json : BadUsbBaselineEntry → Fields
  unfolding Json.insert hid_to_json stable_id_of is_empty
  baseline_to_json e = Json.insert "notes" (str e.notes) (
      Json.insert "last_seen" (str (p.to_iso e.last_seen_utc)) (
        Json.insert "first_seen" (str (p.to_iso e.first_seen_utc)) (
          Json.insert "trusted" (bool e.trusted) (
            Json.insert "stable_id"
              (str (if is_empty e.stable_id then stable_id_of sha256_hex e.device else e.stable_id))
              (hid_to_json e.device)))))

  unfoldable pub baseline_from_json : Fields → BadUsbBaselineEntry
  unfolding value to_string to_bool hid_from_json stable_id_of
  baseline_from_json o =
      let device = hid_from_json o in
      record {
        stable_id = to_string (value "stable_id" o) (stable_id_of sha256_hex device);
        device = device;
        trusted = to_bool (value "trusted" o);
        first_seen_utc = p.from_iso (to_string (value "first_seen" o) []);
        last_seen_utc = p.from_iso (to_string (value "last_seen" o) []);
        notes = to_string (value "notes" o) [];
      }
