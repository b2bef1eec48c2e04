-- ===== src/BadUsb/Baselines/Codec.antt =====
-- The JSON of HID devices and of their baselines (include/Types.h), written and read back.
use flashsentry.Base.{
  ◌≡◌, refl, ap, sym, ◌∙◌, false, not, none, List, [], ◌∷◌, Text, Table, lookup, text_eq,
  text_eq_iff, text_eq_refl, is_empty, keep_if, Bool-cases, inl, inr,
}
use flashsentry.Json.{str, obj, to_fields, to_array, from_array, to_string}
use flashsentry.Platform.{Platform}
use flashsentry.Manifest.Paths.{unique}
use flashsentry.BadUsb.{HidInterfaceInfo, BadUsbBaselineEntry}
use flashsentry.BadUsb.Baselines.{
  interface_to_json, interface_from_json, capabilities_from, interfaces_from, hid_to_json,
  hid_from_json, baseline_to_json, baseline_from_json,
}

interface-round_trip : (i : HidInterfaceInfo) → interface_from_json (interface_to_json i) ≡ i
unfolding interface_from_json interface_to_json
interface-round_trip i = refl

interfaces-round_trip :
    (is : List HidInterfaceInfo)
    → interfaces_from (to_array (λ i. obj (interface_to_json i)) is) ≡ is
unfolding interfaces_from from_array to_array to_fields
interfaces-round_trip [] = refl
interfaces-round_trip (i ∷ is) = rw (interface-round_trip i, interfaces-round_trip is)

from_array-to_array_str : (cs : List Text) → from_array (λ v. to_string v []) (to_array str cs) ≡ cs
unfolding from_array to_array to_string
from_array-to_array_str [] = refl
from_array-to_array_str (c ∷ cs) = ap (◌∷◌ c) (from_array-to_array_str cs)

pub text_eq_sym : (s t : Text) → text_eq s t ≡ text_eq t s
text_eq_sym s t = elim (Bool-cases (text_eq s t)) [
  | inl same ↦ same ∙ sym (ap (text_eq t) ((text_eq_iff s t).0 same) ∙ text_eq_refl t)
  | inr other ↦ elim (Bool-cases (text_eq t s)) [
    | inr other' ↦ other ∙ sym other'
    | inl same ↦ ap (text_eq s) ((text_eq_iff t s).0 same) ∙ text_eq_refl s ∙ sym same
  ]
]

-- The times are whole seconds, no capability is empty or there twice, and the id is not empty.
pub record IsStored (p : Platform) (e : BadUsbBaselineEntry) : Type 0 where
  pub named : is_empty e.stable_id ≡ false
  pub seen : p.from_iso (p.to_iso e.device.seen_at_utc) ≡ e.device.seen_at_utc
  pub first : p.from_iso (p.to_iso e.first_seen_utc) ≡ e.first_seen_utc
  pub last : p.from_iso (p.to_iso e.last_seen_utc) ≡ e.last_seen_utc
  pub distinct :
      unique [] (keep_if (λ c. not (is_empty c)) e.device.capabilities) ≡ e.device.capabilities

-- The table has each entry once, under its id.
abbrev pub IsKeyed : (p : Platform) → Table BadUsbBaselineEntry → Type 0
IsKeyed p [] = Unit {0}
IsKeyed p ((k, e) ∷ m) = (k ≡ e.stable_id) × (lookup k m ≡ none) × IsStored p e × IsKeyed p m

module _ (p : Platform) (sha256_hex : Text → Text) where
  pub baseline-round_trip :
      (e : BadUsbBaselineEntry)
      → IsStored p e
      → baseline_from_json p sha256_hex (baseline_to_json p sha256_hex e) ≡ e
  unfolding baseline_from_json baseline_to_json hid_from_json hid_to_json capabilities_from
  baseline-round_trip e h = rw (
    h.named,
    h.seen,
    h.first,
    h.last,
    from_array-to_array_str e.device.capabilities,
    h.distinct,
    interfaces-round_trip e.device.interfaces,
  )
