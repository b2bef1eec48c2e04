-- ===== src/Json.antt =====
-- The JSON values that the program builds and reads through QJsonObject, QJsonArray and QJsonValue.
-- A QJsonObject keeps its keys sorted. A missing key reads as `null` does under every accessor used.
use Prim.Native.Nat.{Ordering}
use Prim.Native.String.{compare}
use flashsentry.Base.{
  ℕ, of_int64, ◌^◌, String, Bool, true, false, List, [], ◌∷◌, Text, ℤ, pos, negsuc, ltb,
  if◌then◌else◌,
}

mutual
  pub data Json : Type 0 where
    null : Json
    bool : Bool → Json
    num : ℤ → Json
    str : Text → Json
    arr : Items → Json
    obj : Fields → Json

  pub data Items : Type 0 where
    nil : Items
    cons : Json → Items → Items

  pub data Fields : Type 0 where
    none_left : Fields
    field : String → Json → Fields → Fields

-- `o[k] = v`
unfoldable pub insert : String → Json → Fields → Fields
insert k v none_left = field k v none_left
insert k v (field j w fs) = elim (compare k j) [
  | Ordering.lt ↦ field k v (field j w fs)
  | Ordering.eq ↦ field k v fs
  | Ordering.gt ↦ field j w (insert k v fs)
]

-- `o[k]`
unfoldable pub value : String → Fields → Json
value k none_left = null
value k (field j w fs) = elim (compare k j) [ Ordering.eq ↦ w | _ ↦ value k fs ]

unfoldable pub to_string : Json → Text → Text
to_string (str s) d = s
to_string _ d = d

unfoldable pub to_bool : Json → Bool
to_bool (bool b) = b
to_bool _ = false

-- `toInteger()`: a number of 64 bits; `toInt()`: one of 32 bits, and 0 for any other.
unfoldable pub to_integer : Json → ℤ
to_integer (num n) = n
to_integer _ = pos 0

unfoldable pub in_int : ℤ → Bool
in_int (pos n) = ltb n (2 ^ 31)
in_int (negsuc n) = ltb n (2 ^ 31)

unfoldable pub to_int : Json → ℤ
unfolding in_int
to_int (num n) = if in_int n then n else pos 0
to_int _ = pos 0

unfoldable pub to_items : Json → Items
to_items (arr xs) = xs
to_items _ = nil

unfoldable pub to_fields : Json → Fields
to_fields (obj fs) = fs
to_fields _ = none_left

unfoldable pub is_object : Json → Bool
is_object (obj fs) = true
is_object _ = false

-- An array appended to in a loop over a list, and a list appended to in a loop over an array.
module _ {A : Type 0} where
  unfoldable pub to_array : (A → Json) → List A → Items
  to_array f [] = nil
  to_array f (x ∷ xs) = cons (f x) (to_array f xs)

  unfoldable pub from_array : (Json → A) → Items → List A
  from_array f nil = []
  from_array f (cons j js) = f j ∷ from_array f js

-- `static_cast<uint64_t>(v.toDouble())` of a whole number; one out of range, where C++ leaves the
-- value open, wraps.
unfoldable pub to_uint64 : Json → ℕ
unfolding of_int64
to_uint64 (num n) = of_int64 n
to_uint64 _ = 0
