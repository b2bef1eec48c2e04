-- ===== src/Policy/Engine/Devices.antt =====
-- The device list of the snapshot as a map from ids to records (src/policy/PolicyStoreEngine.cpp).
use flashsentry.Base.{
  ◌≡◌, refl, Bool, false, ◌||◌, inl, inr, Option, none, some, List, [], ◌∷◌, Text, arith,
  if◌then◌else◌, Bool-cases, any, keep_if, find, is_empty, text_eq, text_eq_iff,
}
use flashsentry.Device.{DeviceRecord}
use flashsentry.Policy.Engine.{put_device, drop_device}

abbrev pub has_id : Text → DeviceRecord → Bool
has_id id d = text_eq d.unique_id id

abbrev pub find_device : Text → List DeviceRecord → Option DeviceRecord
find_device id = find (has_id id)

-- Behind an upsert the record of its id is the new one, and that of any other id is the one that
-- there was, or none.
pub find-put_device :
    (r : DeviceRecord) (id : Text) (ds : List DeviceRecord)
    → find_device id (put_device r ds)
      ≡ (if text_eq r.unique_id id then some r else find_device id ds)
unfolding put_device find
find-put_device r id [] = refl
find-put_device r id (d ∷ ds) = ground (
  arith,
  find-put_device r id ds,
  text_eq_iff d.unique_id r.unique_id,
  text_eq_iff d.unique_id id,
  text_eq_iff r.unique_id id,
)

-- Behind a removal no record has the removed id, and that of any other id is the one that there was,
-- or none.
pub find-drop_device :
    (gone id : Text) (ds : List DeviceRecord)
    → find_device id (drop_device gone ds) ≡ (if text_eq gone id then none else find_device id ds)
unfolding drop_device find keep_if
find-drop_device gone id [] = ground arith
find-drop_device gone id (d ∷ ds) = ground (
  arith,
  find-drop_device gone id ds,
  text_eq_iff d.unique_id gone,
  text_eq_iff d.unique_id id,
  text_eq_iff gone id,
)

-- No two records have one id, and no id is empty.
abbrev pub IsKeyed : List DeviceRecord → Type 0
IsKeyed [] = Unit {0}
IsKeyed (d ∷ ds) =
    (is_empty d.unique_id ≡ false) × (any (has_id d.unique_id) ds ≡ false) × IsKeyed ds

any-put_device :
    (r : DeviceRecord) (id : Text) (ds : List DeviceRecord)
    → any (has_id id) (put_device r ds) ≡ (text_eq r.unique_id id || any (has_id id) ds)
unfolding put_device any
any-put_device r id [] = ground arith
any-put_device r id (d ∷ ds) = ground (
  arith,
  any-put_device r id ds,
  text_eq_iff d.unique_id r.unique_id,
  text_eq_iff d.unique_id id,
  text_eq_iff r.unique_id id,
)

any-drop_device :
    (gone id : Text) (ds : List DeviceRecord)
    → any (has_id id) ds ≡ false
    → any (has_id id) (drop_device gone ds) ≡ false
unfolding drop_device any keep_if
any-drop_device gone id [] h = refl
any-drop_device gone id (d ∷ ds) h = ground (arith, any-drop_device gone id ds)

-- A record of another id than one that is absent stays absent.
absent_put :
    (r d : DeviceRecord) (ds : List DeviceRecord)
    → text_eq d.unique_id r.unique_id ≡ false
    → any (has_id d.unique_id) ds ≡ false
    → any (has_id d.unique_id) (put_device r ds) ≡ false
absent_put r d ds h k = ground (
  arith,
  any-put_device r d.unique_id ds,
  text_eq_iff d.unique_id r.unique_id,
  text_eq_iff r.unique_id d.unique_id,
)

pub put_device-IsKeyed :
    (r : DeviceRecord) (ds : List DeviceRecord)
    → is_empty r.unique_id ≡ false
    → IsKeyed ds
    → IsKeyed (put_device r ds)
unfolding put_device any
put_device-IsKeyed r [] h k = (h, refl, tt)
put_device-IsKeyed r (d ∷ ds) h (n, a, k) = elim (Bool-cases (text_eq d.unique_id r.unique_id)) [
  | inl same ↦ rw same (h, rw (← (text_eq_iff d.unique_id r.unique_id).0 same) a, k)
  | inr other ↦ rw other (n, absent_put r d ds other a, put_device-IsKeyed r ds h k)
]

pub drop_device-IsKeyed :
    (gone : Text) (ds : List DeviceRecord) → IsKeyed ds → IsKeyed (drop_device gone ds)
unfolding drop_device keep_if
drop_device-IsKeyed gone [] k = tt
drop_device-IsKeyed gone (d ∷ ds) (n, a, k) = elim (Bool-cases (text_eq d.unique_id gone)) [
  | inl same ↦ rw same (drop_device-IsKeyed gone ds k)
  | inr other ↦ rw other (n, any-drop_device gone d.unique_id ds a, drop_device-IsKeyed gone ds k)
]
