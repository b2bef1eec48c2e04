-- ===== src/BadUsb/Baselines/Saved.antt =====
-- The baselines behind their file (src/BadUsbBaselineStore.cpp).
use flashsentry.Base.{
  or_else, or_else-none, ◌≡◌, refl, ap, sym, ◌∙◌, subst, Bool, true, false, not, none, some, [],
  ◌∷◌, Text, Table, lookup, insert, lookup-insert, if◌then◌else◌, text_eq, text_eq_iff, is_empty,
  arith, Bool-cases, Option-cases, inl, inr,
}
use flashsentry.Json.{Json, Items, cons, obj, is_object, to_fields, to_items, value, to_array}
use flashsentry.Platform.{Platform}
use flashsentry.BadUsb.{HidDeviceInfo, BadUsbBaselineEntry}
use flashsentry.BadUsb.Baselines.{stable_id_of, baseline_to_json, baseline_from_json}
use flashsentry.BadUsb.Baselines.Store.{
  BaselineStore, Access, or_no_baseline, updated, all_baselines, get_baseline, load_devices_loop,
  load_baselines, baselines_root, save_baselines, upsert_baseline,
}
use flashsentry.BadUsb.Baselines.Codec.{text_eq_sym, IsStored, IsKeyed, baseline-round_trip}

module _ (p : Platform) (sha256_hex : Text → Text) where
  load_devices_loop-cons :
      (v : Json) (vs : Items) (loaded : Table BadUsbBaselineEntry) (e : BadUsbBaselineEntry)
      → baseline_from_json p sha256_hex (to_fields v) ≡ e
      → is_empty e.stable_id ≡ false
      → load_devices_loop p sha256_hex (cons v vs) loaded
        ≡ load_devices_loop p sha256_hex vs (insert e.stable_id e loaded)
  unfolding load_devices_loop
  load_devices_loop-cons v vs loaded e read named =
      ap
        (λ x.
          load_devices_loop p sha256_hex vs
            (if not (is_empty x.stable_id) then insert x.stable_id x loaded else loaded))
        read
      ∙ ap
          (λ b.
            load_devices_loop p sha256_hex vs
              (if not b then insert e.stable_id e loaded else loaded))
          named

  load_devices_loop-lookup :
      (m loaded : Table BadUsbBaselineEntry) (j : Text)
      → IsKeyed p m
      → lookup j (
          load_devices_loop p sha256_hex
            (to_array (λ e. obj (baseline_to_json p sha256_hex e)) (all_baselines m))
            loaded)
        ≡ or_else (lookup j m) (lookup j loaded)
  unfolding load_devices_loop to_array to_fields lookup
  load_devices_loop-lookup [] loaded j keyed = refl
  load_devices_loop-lookup ((k, e) ∷ m) loaded j (same, once, stored, keyed) =
      ap (lookup j) (
        load_devices_loop-cons (obj (baseline_to_json p sha256_hex e))
          (to_array (λ e'. obj (baseline_to_json p sha256_hex e')) (all_baselines m)) loaded e
          (baseline-round_trip p sha256_hex e stored) stored.named)
      ∙ (load_devices_loop-lookup m (insert e.stable_id e loaded) j keyed
          ∙ ap (or_else (lookup j m)) (lookup-insert e.stable_id j e loaded)
          ∙ elim (Bool-cases (text_eq k j)) [
            | inl own ↦
                let at : k ≡ j = (text_eq_iff k j).0 own in
                let gone : lookup j m ≡ none = ap (λ i. lookup i m) (sym at) ∙ once in
                rw (gone, ← same, own)
            | inr other ↦ rw (← same, other)
          ])

  insert-IsKeyed :
      (k : Text) (e : BadUsbBaselineEntry) (m : Table BadUsbBaselineEntry)
      → k ≡ e.stable_id
      → IsStored p e
      → IsKeyed p m
      → IsKeyed p (insert k e m)
  unfolding insert lookup
  insert-IsKeyed k e [] same stored keyed = (same, refl, stored, tt)
  insert-IsKeyed k e ((i, x) ∷ m) same stored (same', once, stored', keyed) =
      elim (Bool-cases (text_eq i k)) [
        | inl own ↦
            let at : i ≡ k = (text_eq_iff i k).0 own in
            rw own (same, ap (λ t. lookup t m) (sym at) ∙ once, stored, keyed)
        | inr other ↦ rw other (
          same',
          lookup-insert k i e m ∙ rw (text_eq_sym k i ∙ other) once,
          stored',
          insert-IsKeyed k e m same stored keyed,
        )
      ]

  lookup-stable_id :
      (k : Text) (e : BadUsbBaselineEntry) (m : Table BadUsbBaselineEntry)
      → IsKeyed p m
      → lookup k m ≡ some e
      → k ≡ e.stable_id
  unfolding lookup
  lookup-stable_id k e [] keyed found = cc
  lookup-stable_id k e ((i, x) ∷ m) (same, once, stored, keyed) found =
      elim (Bool-cases (text_eq i k)) [
        | inl own ↦
            let at : i ≡ k = (text_eq_iff i k).0 own in
            let it : x ≡ e = cc (rw own at found) in sym at ∙ same ∙ ap (λ y. y.stable_id) it
        | inr other ↦ lookup-stable_id k e m keyed (rw other at found)
      ]

  -- The key of the entry that an upsert leaves.
  updated-stable_id :
      (a : Access) (info : HidDeviceInfo) (trusted : Bool) (notes : Text)
      (m : Table BadUsbBaselineEntry)
      → IsKeyed p m
      → IsStored p (
          updated p sha256_hex a info trusted notes
            (or_no_baseline (lookup (stable_id_of sha256_hex info) m)))
      → stable_id_of sha256_hex info
        ≡ (updated p sha256_hex a info trusted notes
            (or_no_baseline (lookup (stable_id_of sha256_hex info) m))).stable_id
  unfolding updated is_empty
  updated-stable_id a info trusted notes m keyed stored =
      elim (Option-cases (lookup (stable_id_of sha256_hex info) m)) [
        | inl none_there ↦ rw none_there
        | inr (e, there) ↦
            let same = lookup-stable_id (stable_id_of sha256_hex info) e m keyed there in
            rw there (elim (Bool-cases (is_empty e.stable_id)) [
              | inl nothing ↦ rw nothing
              | inr something ↦ rw something same
            ])
      ]

  load_baselines-save_baselines :
      (a a' : Access) (s : BaselineStore) (j : Text)
      → IsKeyed p s.devices
      → a.writable ≡ true
      → a'.readable ≡ true
      → p.parse_json (p.to_indented (baselines_root p sha256_hex (all_baselines s.devices)))
        ≡ obj (baselines_root p sha256_hex (all_baselines s.devices))
      → ((save_baselines p sha256_hex a s).1 ≡ true)
        × ((load_baselines p sha256_hex a' (save_baselines p sha256_hex a s).0).1 ≡ true)
        × (get_baseline j (load_baselines p sha256_hex a' (save_baselines p sha256_hex a s).0).0
            ≡ lookup j s.devices)
  unfolding load_baselines save_baselines get_baseline is_object baselines_root value to_items
      to_fields
  load_baselines-save_baselines a a' s j keyed writable readable parses =
      rw (writable, readable, parses)
        (
          refl,
          refl,
          load_devices_loop-lookup s.devices [] j keyed ∙ or_else-none (lookup j s.devices),
        )

  save_baselines-devices :
      (a : Access) (s : BaselineStore) → (save_baselines p sha256_hex a s).0.devices ≡ s.devices
  unfolding save_baselines
  save_baselines-devices a s = ground arith

  -- What an upsert of a HID device that could write the file left is what the next start loads: the
  -- device with its new entry, and every other with the one that it had, where the entries have times
  -- of whole seconds, ids, and no capability that is empty or there twice, and the text of the table
  -- parses to what was printed.
  pub load_baselines-upsert_baseline :
      (a a' : Access) (info : HidDeviceInfo) (trusted : Bool) (notes : Text) (s : BaselineStore)
      (j : Text)
      → IsKeyed p s.devices
      → IsStored p (
          updated p sha256_hex a info trusted notes
            (or_no_baseline (get_baseline (stable_id_of sha256_hex info) s)))
      → a.writable ≡ true
      → a'.readable ≡ true
      → p.parse_json (
          p.to_indented (
            baselines_root p sha256_hex
              (all_baselines (upsert_baseline p sha256_hex a info trusted notes s).0.devices)))
        ≡ obj (
            baselines_root p sha256_hex
              (all_baselines (upsert_baseline p sha256_hex a info trusted notes s).0.devices))
      → ((upsert_baseline p sha256_hex a info trusted notes s).1 ≡ true)
        × ((load_baselines p sha256_hex a'
              (upsert_baseline p sha256_hex a info trusted notes s).0).1
            ≡ true)
        × (get_baseline j
              (load_baselines p sha256_hex a'
                (upsert_baseline p sha256_hex a info trusted notes s).0).0
            ≡ (if text_eq (stable_id_of sha256_hex info) j
                then some (
                    updated p sha256_hex a info trusted notes
                      (or_no_baseline (get_baseline (stable_id_of sha256_hex info) s)))
                else get_baseline j s))
  unfolding upsert_baseline get_baseline
  load_baselines-upsert_baseline a a' info trusted notes s j keyed stored writable readable parses =
      let id = stable_id_of sha256_hex info in
      let entry =
        updated p sha256_hex a info trusted notes (or_no_baseline (lookup id s.devices)) in
      let s' : BaselineStore = record s { devices = insert id entry s.devices } in
      let Parsed = λ (m : Table BadUsbBaselineEntry).
        p.parse_json (p.to_indented (baselines_root p sha256_hex (all_baselines m)))
        ≡ obj (baselines_root p sha256_hex (all_baselines m)) in
      let same = save_baselines-devices a s' in
      let (saved, loaded, found) =
        load_baselines-save_baselines a a' s' j
          (insert-IsKeyed id entry s.devices
            (updated-stable_id a info trusted notes s.devices keyed stored) stored keyed)
          writable readable (subst Parsed same parses) in
      (saved, loaded, found ∙ lookup-insert id j entry s.devices)
