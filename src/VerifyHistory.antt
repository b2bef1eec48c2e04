-- ===== src/VerifyHistory.antt =====
-- src/VerifyHistory.cpp and include/VerifyHistory.h: the list of verification events, newest first, and
-- its file.
pub mod Bounded
pub mod Saved
mod Tests
use flashsentry.Base.{
  ℕ, zero, suc, ◌+◌, ◌%◌, ◌-◌, ◌^◌, Bool, true, false, not, Option, none, some, List, [], ◌∷◌, ◌++◌,
  Text, Bytes, ℤ, pos, negsuc, length, take, leb, ltb, if◌then◌else◌, text_eq, to_double, codes,
  ltb_ℤ,
}
use flashsentry.Json.{
  Json, Fields, Items, nil, cons, none_left, num, str, arr, obj, insert, value, to_string, to_items,
  to_fields, is_object, to_array, to_uint64,
}
use flashsentry.Platform.{Platform, DateTime}

pub data VerifyHistoryKind : Type 0 where
  hash manifest iso_scan : VerifyHistoryKind

pub record VerifyHistoryEntry : Type 0 where
  pub timestamp : DateTime
  pub device_node : Text
  pub device_label : Text
  pub mount_point : Text
  pub kind : VerifyHistoryKind
  pub status : Text
  pub summary : Text
  pub detail : Text
  pub duration_ms : ℕ

-- The entries in memory, and the file, which may not exist.
pub record HistoryState : Type 0 where
  pub entries : List VerifyHistoryEntry
  pub file : Option Bytes

-- What the system answers during one call.
pub record Clock : Type 0 where
  pub now : DateTime
  pub readable : Bool
  pub writable : Bool

abbrev pub max_entries : ℕ
max_entries = 500

unfoldable pub kind_to_string : VerifyHistoryKind → Text
kind_to_string manifest = codes "manifest"
kind_to_string iso_scan = codes "iso"
kind_to_string hash = codes "hash"

unfoldable pub kind_from_string : Text → VerifyHistoryKind
unfolding text_eq
kind_from_string s =
    if text_eq s (codes "manifest")
    then manifest
    else if text_eq s (codes "iso")
    then iso_scan
    else hash

-- A time that is not valid is replaced by the current one.
abbrev pub or_now : DateTime → DateTime → DateTime
or_now now none = now
or_now now (some t) = some t

-- `while (m_entries.size() > kMaxEntries) m_entries.removeLast();`
remove_last {ℓ} : {A : Type ℓ} → List A → List A
remove_last [] = []
remove_last (x ∷ []) = []
remove_last (x ∷ y ∷ xs) = x ∷ remove_last (y ∷ xs)

unfoldable pub trim {ℓ} : {A : Type ℓ} → ℕ → List A → List A
unfolding remove_last
trim zero xs = xs
trim (suc fuel) xs =
    let rest = trim fuel (remove_last xs) in if ltb max_entries (length xs) then rest else xs

unfoldable pub recent_entries : ℤ → List VerifyHistoryEntry → List VerifyHistoryEntry
recent_entries (pos limit) entries = take limit entries
recent_entries (negsuc n) entries = []

-- The loop of `entriesForDevice`; `out` is what it has found.
unfoldable pub device_loop :
    Text → ℤ → List VerifyHistoryEntry → List VerifyHistoryEntry → List VerifyHistoryEntry
unfolding text_eq
device_loop device_node limit [] out = out
device_loop device_node limit (e ∷ es) out =
    let out' = out ++ e ∷ [] in
    let next = device_loop device_node limit es out' in
    let skip = device_loop device_node limit es out in
    if text_eq e.device_node device_node
    then (if not (ltb_ℤ (pos (length out')) limit) then out' else next)
    else skip

unfoldable pub entries_for_device : Text → ℤ → List VerifyHistoryEntry → List VerifyHistoryEntry
unfolding device_loop
entries_for_device device_node limit entries = device_loop device_node limit entries []

module _ (p : Platform) where
  unfoldable pub entry_to_json : VerifyHistoryEntry → Fields
  unfolding insert kind_to_string
  entry_to_json e = insert "duration_ms" (num (pos (to_double e.duration_ms))) (
      insert "detail" (str e.detail) (
        insert "summary" (str e.summary) (
          insert "status" (str e.status) (
            insert "kind" (str (kind_to_string e.kind)) (
              insert "mount_point" (str e.mount_point) (
                insert "device_label" (str e.device_label) (
                  insert "device_node" (str e.device_node)
                    (insert "at" (str (p.to_iso e.timestamp)) none_left))))))))

  unfoldable pub entry_from_json : DateTime → Fields → VerifyHistoryEntry
  unfolding value to_string kind_from_string to_uint64
  entry_from_json now o = record {
    timestamp = or_now now (p.from_iso (to_string (value "at" o) []));
    device_node = to_string (value "device_node" o) [];
    device_label = to_string (value "device_label" o) [];
    mount_point = to_string (value "mount_point" o) [];
    kind = kind_from_string (to_string (value "kind" o) []);
    status = to_string (value "status" o) [];
    summary = to_string (value "summary" o) [];
    detail = to_string (value "detail" o) [];
    duration_ms = to_uint64 (value "duration_ms" o);
  }

  unfoldable pub load_loop : DateTime → Items → List VerifyHistoryEntry
  unfolding is_object to_fields entry_from_json
  load_loop now nil = []
  load_loop now (cons v vs) =
      let rest = load_loop now vs in
      if is_object v then entry_from_json now (to_fields v) ∷ rest else rest

  unfoldable pub entries_of : DateTime → Option Bytes → List VerifyHistoryEntry
  unfolding is_object to_fields to_items value load_loop
  entries_of now none = []
  entries_of now (some file) =
      let doc = p.parse_json file in
      if not (is_object doc) then [] else load_loop now (to_items (value "entries" (to_fields doc)))

  unfoldable pub load_history : Clock → HistoryState → HistoryState
  unfolding entries_of
  load_history c s = record s { entries = entries_of c.now (if c.readable then s.file else none) }

  unfoldable pub root_object : List VerifyHistoryEntry → Fields
  unfolding insert entry_to_json to_array
  root_object entries =
      insert "entries" (arr (to_array (λ e. obj (entry_to_json e)) entries))
        (insert "version" (num (pos 1)) none_left)

  unfoldable pub save_history : Clock → HistoryState → HistoryState
  unfolding root_object
  save_history c s =
      if not c.writable then s else record s { file = some (p.to_indented (root_object s.entries)) }

  unfoldable pub append_entry : Clock → VerifyHistoryEntry → HistoryState → HistoryState
  unfolding save_history trim
  append_entry c entry s =
      let entries = record entry { timestamp = or_now c.now entry.timestamp } ∷ s.entries in
      save_history c (record s { entries = trim (length entries) entries })
