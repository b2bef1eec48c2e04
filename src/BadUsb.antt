-- ===== src/BadUsb.antt =====
-- src/BadUsbAnalyzer.cpp and the HID types of include/Types.h: the rules on a HID device that connects.
pub mod Rules
pub mod Baselines
mod Tests
use flashsentry.Base.{
  Bool, true, false, not, ◌&&◌, ◌||◌, Option, none, some, List, [], ◌∷◌, ◌++◌, Text, ℤ, pos,
  if◌then◌else◌, text_eq, codes, ltb_ℤ,
}
use flashsentry.Platform.{DateTime}
use flashsentry.Manifest.Paths.{sort_texts, unique}

pub record HidInterfaceInfo : Type 0 where
  pub number : Text
  pub interface_class : Text
  pub interface_sub_class : Text
  pub interface_protocol : Text
  pub driver : Text

pub record HidDeviceInfo : Type 0 where
  pub sys_path : Text
  pub dev_node : Text
  pub usb_path : Text
  pub usb_bus : Text
  pub usb_port : Text
  pub vendor_id : Text
  pub product_id : Text
  pub serial : Text
  pub manufacturer : Text
  pub product : Text
  pub driver : Text
  pub capabilities : List Text
  pub interfaces : List HidInterfaceInfo
  pub seen_at_utc : DateTime

pub record BadUsbBaselineEntry : Type 0 where
  pub stable_id : Text
  pub device : HidDeviceInfo
  pub trusted : Bool
  pub first_seen_utc : DateTime
  pub last_seen_utc : DateTime
  pub notes : Text

pub data BadUsbSeverity : Type 0 where
  info warning critical : BadUsbSeverity

pub record BadUsbAnomalyResult : Type 0 where
  pub anomalous : Bool
  pub severity : BadUsbSeverity
  pub rule_id : Text
  pub summary : Text
  pub detail : Text
  pub device : HidDeviceInfo
  pub related_storage_nodes : List Text
  pub detected_at_utc : DateTime

-- The members of AppSettings that the rules read.
pub record BadUsbSettings : Type 0 where
  pub alert_composite_storage : Bool
  pub alert_new_keyboard : Bool
  pub alert_interface_drift : Bool
  pub alert_rapid_reconnect : Bool

-- `contains` and `==` of a QStringList.
unfoldable pub has_text : Text → List Text → Bool
unfolding text_eq
has_text x [] = false
has_text x (y ∷ ys) = text_eq y x || has_text x ys

unfoldable pub texts_eq : List Text → List Text → Bool
unfolding text_eq
texts_eq [] [] = true
texts_eq [] (y ∷ ys) = false
texts_eq (x ∷ xs) [] = false
texts_eq (x ∷ xs) (y ∷ ys) = text_eq x y && texts_eq xs ys

abbrev pub no_text : List Text → Bool
no_text [] = true
no_text (x ∷ xs) = false

unfoldable pub is_keyboard : HidDeviceInfo → Bool
unfolding has_text
is_keyboard device = has_text (codes "keyboard") device.capabilities

unfoldable pub signature : HidInterfaceInfo → Text
signature i =
    i.number
    ++ (codes ":"
        ++ (i.interface_class
            ++ (codes ":"
                ++ (i.interface_sub_class
                    ++ (codes ":" ++ (i.interface_protocol ++ (codes ":" ++ i.driver)))))))

signatures : List HidInterfaceInfo → List Text
unfolding signature
signatures [] = []
signatures (i ∷ is) = signature i ∷ signatures is

-- `less` is `QString::operator<`.
unfoldable pub interface_signatures : (Text → Text → Bool) → HidDeviceInfo → List Text
unfolding signatures sort_texts unique
interface_signatures less device = unique [] (sort_texts less (signatures device.interfaces))

unfoldable pub make_result :
    DateTime → HidDeviceInfo → BadUsbSeverity → Text → Text → Text → List Text → BadUsbAnomalyResult
make_result now device severity rule_id summary detail nodes = record {
  anomalous = true;
  severity = severity;
  rule_id = rule_id;
  summary = summary;
  detail = detail;
  device = device;
  related_storage_nodes = nodes;
  detected_at_utc = now;
}

-- `!baseline.has_value() || !baseline->trusted`
unfoldable pub is_untrusted : Option BadUsbBaselineEntry → Bool
is_untrusted none = true
is_untrusted (some b) = not b.trusted

module _ (less : Text → Text → Bool) where
  -- There is a baseline, its device has interfaces, and they are not those of the device.
  unfoldable pub has_drifted : HidDeviceInfo → Option BadUsbBaselineEntry → Bool
  unfolding interface_signatures texts_eq
  has_drifted device none = false
  has_drifted device (some b) =
      let expected = interface_signatures less b.device in
      let actual = interface_signatures less device in
      not (no_text expected) && not (texts_eq expected actual)

  unfoldable pub analyze_connect :
      DateTime
      → HidDeviceInfo
      → Option BadUsbBaselineEntry
      → List Text
      → ℤ
      → BadUsbSettings
      → BadUsbAnomalyResult
  unfolding is_keyboard make_result is_untrusted has_drifted
  analyze_connect now device baseline nodes recent_connect_count settings =
      if settings.alert_composite_storage && is_keyboard device && not (no_text nodes)
      then make_result now device critical (codes "composite-storage-keyboard")
          (codes "USB HID keyboard appeared with mass-storage on the same device")
          (codes
            "A keyboard interface and storage volume share identifiers. This is a common BadUSB pattern and should be trusted only if expected.")
          nodes
      else if settings.alert_new_keyboard && is_keyboard device && is_untrusted baseline
      then make_result now device warning (codes "new-keyboard")
          (codes "New untrusted USB keyboard detected")
          (codes
            "Keyboards can inject keystrokes immediately after connection. Add this device to the baseline only if you physically recognize it.")
          nodes
      else if settings.alert_interface_drift && has_drifted device baseline
      then make_result now device warning (codes "interface-drift")
          (codes "USB HID interface set changed from baseline")
          (codes
            "The same HID identity now exposes a different interface, driver, or protocol set than the trusted baseline.")
          nodes
      else if settings.alert_rapid_reconnect && not (ltb_ℤ recent_connect_count (pos 3))
      then make_result now device warning (codes "rapid-reconnect")
          (codes "USB HID device reconnected repeatedly")
          (codes
            "Repeated disconnect/connect cycles can indicate firmware reset, interface switching, or probing behavior.")
          nodes
      else record {
        anomalous = false;
        severity = info;
        rule_id = [];
        summary = [];
        detail = [];
        device = device;
        related_storage_nodes = nodes;
        detected_at_utc = now;
      }

unfoldable pub severity_label : BadUsbSeverity → Text
severity_label info = codes "Info"
severity_label warning = codes "Warning"
severity_label critical = codes "Critical"
