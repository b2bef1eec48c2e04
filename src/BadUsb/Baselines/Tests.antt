-- ===== src/BadUsb/Baselines/Tests.antt =====
-- The theorems on baselines at a keyboard that is added to a store with a mouse.
use flashsentry.Base.{
  ◌≡◌, refl, true, false, none, some, [], ◌∷◌, Text, codes, if◌then◌else◌, text_eq, is_empty,
  lookup, insert, keep_if,
}
use flashsentry.Json.{obj, null}
use flashsentry.Platform.{Platform, DateTime}
use flashsentry.Manifest.Paths.{unique}
use flashsentry.BadUsb.{HidDeviceInfo, BadUsbBaselineEntry}
use flashsentry.BadUsb.Baselines.{stable_id_of}
use flashsentry.BadUsb.Baselines.Store.{
  BaselineStore, Access, no_hid_device, or_no_baseline, updated, get_baseline, load_baselines,
  baselines_root, save_baselines, upsert_baseline,
}
use flashsentry.BadUsb.Baselines.Codec.{IsStored, IsKeyed}
use flashsentry.BadUsb.Baselines.Saved.{load_baselines-upsert_baseline}

abbrev iso : DateTime → Text
iso none = []
iso (some n) = n ∷ []

abbrev from : Text → DateTime
from [] = none
from (n ∷ s) = some n

abbrev bare : Platform
bare = record {
  to_iso = iso;
  from_iso = from;
  to_compact = λ o. [];
  to_indented = λ o. [];
  parse_json = λ b. null;
  is_letter = λ c. true;
  same_ignoring_case = λ a b. false;
  mid = λ b i n. b;
  hmac = λ key payload. [];
}

abbrev same_text : Text → Text
same_text s = s

abbrev mouse : BadUsbBaselineEntry
mouse = record {
  stable_id = codes "1:2:3:4";
  device = record no_hid_device { capabilities = codes "mouse" ∷ []; seen_at_utc = some 5 };
  trusted = true;
  first_seen_utc = some 5;
  last_seen_utc = some 6;
  notes = [];
}

abbrev keyboard : HidDeviceInfo
keyboard = record no_hid_device {
  vendor_id = codes "1";
  product_id = codes "9";
  serial = codes "7";
  capabilities = codes "keyboard" ∷ [];
  seen_at_utc = some 8;
}

abbrev added : BadUsbBaselineEntry
added = record {
  stable_id = codes "1:9:7:";
  device = keyboard;
  trusted = false;
  first_seen_utc = some 9;
  last_seen_utc = some 9;
  notes = codes "new";
}

-- A platform that parses every text to the two devices.
abbrev qt : Platform
qt = record bare { parse_json = λ b. obj (baselines_root bare same_text (mouse ∷ added ∷ [])) }

abbrev with_mouse : BaselineStore
with_mouse = record { devices = (codes "1:2:3:4", mouse) ∷ []; file = none }

abbrev access : Access
access = record { now = some 9; readable = true; writable = true }

mouse-IsKeyed : IsKeyed qt with_mouse.devices
unfolding lookup is_empty unique keep_if
mouse-IsKeyed = (
  refl,
  refl,
  record { named = refl; seen = refl; first = refl; last = refl; distinct = refl },
  tt,
)

added-IsStored : IsStored qt (
    updated qt same_text access keyboard false
      (codes "new")
      (or_no_baseline (get_baseline (stable_id_of same_text keyboard) with_mouse)))
unfolding updated get_baseline stable_id_of lookup is_empty unique keep_if text_eq
added-IsStored = record { named = refl; seen = refl; first = refl; last = refl; distinct = refl }

load_baselines-upsert_baseline_example :
    ((upsert_baseline qt same_text access keyboard false (codes "new") with_mouse).1 ≡ true)
    × ((load_baselines qt same_text access
          (upsert_baseline qt same_text access keyboard false (codes "new") with_mouse).0).1
        ≡ true)
    × (get_baseline
          (codes "1:9:7:")
          (load_baselines qt same_text access
            (upsert_baseline qt same_text access keyboard false (codes "new") with_mouse).0).0
        ≡ (if text_eq (stable_id_of same_text keyboard) (codes "1:9:7:")
            then some (
                updated qt same_text access keyboard false
                  (codes "new")
                  (or_no_baseline (get_baseline (stable_id_of same_text keyboard) with_mouse)))
            else get_baseline (codes "1:9:7:") with_mouse))
unfolding upsert_baseline save_baselines updated get_baseline stable_id_of lookup insert is_empty
    text_eq
load_baselines-upsert_baseline_example =
    load_baselines-upsert_baseline qt same_text access access keyboard false (codes "new")
      with_mouse (codes "1:9:7:") mouse-IsKeyed added-IsStored refl refl refl
