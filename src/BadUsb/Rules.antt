-- ===== src/BadUsb/Rules.antt =====
-- When a HID device is reported, and how severely (src/BadUsbAnalyzer.cpp).
use mathlib.Core.List.{Memᴰ}
use mathlib.Core.Option.{some-injective}
use flashsentry.Base.{
  ℕ, ◌+◌, ◌-◌, ◌≡◌, ◌≢◌, ◌↔◌, ◌⊎◌, refl, sym, ap, ◌∙◌, Bool, true, false, not, ◌&&◌, ◌||◌, Option,
  none, some, List, [], ◌∷◌, Text, ℤ, pos, negsuc, if◌then◌else◌, ltb_ℤ, codes, text_eq,
  text_eq_iff, subst, arith,
}
use flashsentry.Platform.{DateTime}
use flashsentry.BadUsb.{
  HidDeviceInfo, BadUsbBaselineEntry, BadUsbSettings, BadUsbAnomalyResult, BadUsbSeverity, info,
  warning, critical, has_text, texts_eq, is_keyboard, no_text, interface_signatures, has_drifted,
  is_untrusted, make_result, analyze_connect,
}

-- A test that answers true exactly where a proposition holds.
abbrev Decides : Bool → Type 0 → Type 0
Decides b P = (b ≡ true) ↔ P

Decides-both : {P Q : Type 0} (a b : Bool) → Decides a P → Decides b Q → Decides (a && b) (P × Q)
Decides-both true b h k = ground arith
Decides-both false b h k = ground arith

Decides-three :
    {P Q R : Type 0} (a b c : Bool)
    → Decides a P
    → Decides b Q
    → Decides c R
    → Decides (a && b && c) (P × Q × R)
Decides-three true b c h k l = ground (arith, Decides-both b c k l)
Decides-three false b c h k l = ground arith

Decides-either : {P Q : Type 0} (a b : Bool) → Decides a P → Decides b Q → Decides (a || b) (P ⊎ Q)
Decides-either true b h k = ground arith
Decides-either false b h k = ground arith

Decides-on : (a : Bool) → Decides a (a ≡ true)
Decides-on a = (λ h. h, λ h. h)

or_false : (a b : Bool) → a ≡ false → (a || b) ≡ true → b ≡ true
or_false a b h k = ground arith

or_true : (a b : Bool) → a ≡ true → (a || b) ≡ true
or_true a b h = ground arith

has_text_iff : (x : Text) (ys : List Text) → Decides (has_text x ys) (Memᴰ x ys)
unfolding has_text
has_text_iff x [] = (ground arith, λ m. elim m [ ])
has_text_iff x (y ∷ ys) = (
  λ h.
      elim (text_eq y x) as (λ b. text_eq y x ≡ b → Memᴰ x (y ∷ ys)) [
        | true ↦ λ e. Memᴰ.head (sym ((text_eq_iff y x).0 e))
        | false ↦ λ e. Memᴰ.tail ((has_text_iff x ys).0 (or_false _ _ e h))
      ]
        refl,
  λ (m : Memᴰ x (y ∷ ys)). elim m [
    | Memᴰ.head e ↦ or_true _ _ ((text_eq_iff y x).1 (sym e))
    | Memᴰ.tail t ↦ ground (arith, (has_text_iff x ys).1 t)
  ],
)

texts_eq_iff : (xs ys : List Text) → Decides (texts_eq xs ys) (xs ≡ ys)
unfolding texts_eq
texts_eq_iff [] [] = ground arith
texts_eq_iff [] (y ∷ ys) = ground arith
texts_eq_iff (x ∷ xs) [] = ground arith
texts_eq_iff (x ∷ xs) (y ∷ ys) = ground (arith, text_eq_iff x y, texts_eq_iff xs ys)

no_text_iff : (xs : List Text) → Decides (not (no_text xs)) (xs ≢ [])
no_text_iff [] = ground arith
no_text_iff (x ∷ xs) = ground arith

differ_iff : (xs ys : List Text) → Decides (not (texts_eq xs ys)) (ys ≢ xs)
differ_iff xs ys = ground (arith, texts_eq_iff xs ys)

is_untrusted_iff :
    (baseline : Option BadUsbBaselineEntry)
    → Decides
        (is_untrusted baseline)
        ((b : BadUsbBaselineEntry) → baseline ≡ some b → b.trusted ≡ false)
unfolding is_untrusted
is_untrusted_iff none = ground arith
is_untrusted_iff (some b) = (
  λ h b' e.
      ap (λ (x : BadUsbBaselineEntry). x.trusted) (sym (some-injective b b' e)) ∙ ground arith,
  λ h. rw (h b refl) refl,
)

often_iff : (c : ℤ) → Decides (not (ltb_ℤ c (pos 3))) ((n : ℕ) × (c ≡ pos (3 + n)))
often_iff (pos n) = (λ h. (n - 3, ground arith), ground arith)
often_iff (negsuc n) = ground arith

by_cases :
    (a b c d : Bool) {A : Type 0} (x y z w o : A) (f : A → Bool)
    → f x ≡ true
    → f y ≡ true
    → f z ≡ true
    → f w ≡ true
    → f o ≡ false
    → f (if a then x else if b then y else if c then z else if d then w else o)
      ≡ (a || (b || (c || d)))
by_cases true b c d x y z w o f p q r s t = p
by_cases false true c d x y z w o f p q r s t = q
by_cases false false true d x y z w o f p q r s t = r
by_cases false false false true x y z w o f p q r s t = s
by_cases false false false false x y z w o f p q r s t = t

-- The severity of a result and whether it is a report.
abbrev Is : BadUsbAnomalyResult → Bool → BadUsbSeverity → Type 0
Is r reported severity = (r.anomalous ≡ reported) × (r.severity ≡ severity)

severity_by_cases :
    (a b c d : Bool) (x y z w o : BadUsbAnomalyResult)
    → Is x true critical
    → Is y true warning
    → Is z true warning
    → Is w true warning
    → Is o false info
    → (let r : BadUsbAnomalyResult =
          if a then x else if b then y else if c then z else if d then w else o in
        r.severity ≡ (if a then critical else if r.anomalous then warning else info))
severity_by_cases true b c d x y z w o (m, p) q r s t = p
severity_by_cases false true c d x y z w o p (m, q) r s t = rw m q
severity_by_cases false false true d x y z w o p q (m, r) s t = rw m r
severity_by_cases false false false true x y z w o p q r (m, s) t = rw m s
severity_by_cases false false false false x y z w o p q r s (m, t) = rw m t

module _ (less : Text → Text → Bool) where
  analyze_connect-tests :
      (now : DateTime) (device : HidDeviceInfo) (baseline : Option BadUsbBaselineEntry)
      (nodes : List Text) (count : ℤ) (s : BadUsbSettings)
      → (analyze_connect less now device baseline nodes count s).anomalous ≡ (
          (s.alert_composite_storage && is_keyboard device && not (no_text nodes))
          || ((s.alert_new_keyboard && is_keyboard device && is_untrusted baseline)
              || ((s.alert_interface_drift && has_drifted less device baseline)
                  || (s.alert_rapid_reconnect && not (ltb_ℤ count (pos 3))))))
  unfolding analyze_connect make_result
  analyze_connect-tests now device baseline nodes count s =
      by_cases (s.alert_composite_storage && is_keyboard device && not (no_text nodes))
        (s.alert_new_keyboard && is_keyboard device && is_untrusted baseline)
        (s.alert_interface_drift && has_drifted less device baseline)
        (s.alert_rapid_reconnect && not (ltb_ℤ count (pos 3))) _ _ _ _ _
        (λ (r : BadUsbAnomalyResult). r.anomalous) refl refl refl refl refl

  has_drifted_iff :
      (device : HidDeviceInfo) (baseline : Option BadUsbBaselineEntry)
      → Decides (has_drifted less device baseline) (
          (b : BadUsbBaselineEntry) × (baseline ≡ some b)
          × (interface_signatures less b.device ≢ [])
          × (interface_signatures less device ≢ interface_signatures less b.device))
  unfolding has_drifted
  has_drifted_iff device none = ground arith
  has_drifted_iff device (some b) =
      let expected = interface_signatures less b.device in
      let drift =
        Decides-both _ _ (no_text_iff expected)
          (differ_iff expected (interface_signatures less device)) in
      (
        λ h. (b, refl, (drift.0 h).0, (drift.0 h).1),
        λ (b', e, d, d'). drift.1 (
            subst
              (λ (x : BadUsbBaselineEntry).
                (interface_signatures less x.device ≢ [])
                × (interface_signatures less device ≢ interface_signatures less x.device))
              (sym (some-injective b b' e)) (d, d')),
      )

  -- A device is reported exactly where one of four rules is on and holds: a device with the
  -- capability of a keyboard connects and there are storage nodes; such a device connects and no
  -- baseline of it is trusted; there is a baseline, whose interfaces have signatures, and the sorted
  -- signatures without duplicates of the device's are others; at least three recent connections.
  pub analyze_connect-anomalous :
      (now : DateTime) (device : HidDeviceInfo) (baseline : Option BadUsbBaselineEntry)
      (nodes : List Text) (count : ℤ) (s : BadUsbSettings)
      → ((analyze_connect less now device baseline nodes count s).anomalous ≡ true) ↔ (
          ((s.alert_composite_storage ≡ true)
            × Memᴰ (codes "keyboard") device.capabilities
            × (nodes ≢ []))
          ⊎ (((s.alert_new_keyboard ≡ true)
                × Memᴰ (codes "keyboard") device.capabilities
                × ((b : BadUsbBaselineEntry) → baseline ≡ some b → b.trusted ≡ false))
              ⊎ (((s.alert_interface_drift ≡ true)
                    × ((b : BadUsbBaselineEntry) × (baseline ≡ some b)
                        × (interface_signatures less b.device ≢ [])
                        × (interface_signatures less device ≢ interface_signatures less b.device)))
                  ⊎ ((s.alert_rapid_reconnect ≡ true) × ((n : ℕ) × (count ≡ pos (3 + n)))))))
  unfolding is_keyboard
  analyze_connect-anomalous now device baseline nodes count s =
      let keyboard = has_text_iff (codes "keyboard") device.capabilities in
      let rules =
        Decides-either _ _
          (Decides-three _ _ _ (Decides-on s.alert_composite_storage) keyboard (no_text_iff nodes))
          (Decides-either _ _
            (Decides-three _ _ _ (Decides-on s.alert_new_keyboard) keyboard
              (is_untrusted_iff baseline))
            (Decides-either _ _
              (Decides-both _ _ (Decides-on s.alert_interface_drift)
                (has_drifted_iff device baseline))
              (Decides-both _ _ (Decides-on s.alert_rapid_reconnect) (often_iff count)))) in
      let tests = analyze_connect-tests now device baseline nodes count s in
      (λ h. rules.0 (sym tests ∙ h), λ h. tests ∙ rules.1 h)

  -- The report of a keyboard with storage nodes is critical, if that rule is on; any other report is
  -- a warning.
  pub analyze_connect-severity :
      (now : DateTime) (device : HidDeviceInfo) (baseline : Option BadUsbBaselineEntry)
      (nodes : List Text) (count : ℤ) (s : BadUsbSettings)
      → (let r = analyze_connect less now device baseline nodes count s in
          r.severity ≡ (
            if s.alert_composite_storage && is_keyboard device && not (no_text nodes)
            then critical
            else if r.anomalous
            then warning
            else info))
  unfolding analyze_connect make_result
  analyze_connect-severity now device baseline nodes count s =
      severity_by_cases (s.alert_composite_storage && is_keyboard device && not (no_text nodes))
        (s.alert_new_keyboard && is_keyboard device && is_untrusted baseline)
        (s.alert_interface_drift && has_drifted less device baseline)
        (s.alert_rapid_reconnect && not (ltb_ℤ count (pos 3))) _ _ _ _ _ (refl, refl) (refl, refl)
        (refl, refl) (refl, refl) (refl, refl)
