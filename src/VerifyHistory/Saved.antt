-- ===== src/VerifyHistory/Saved.antt =====
-- The history behind its file (src/VerifyHistory.cpp).
use flashsentry.Base.{
  ℕ, length, subst, ◌<◌, ◌^◌, ◌≡◌, refl, ap, true, some, List, [], ◌∷◌, pos, All, arith, of_int64,
  text_eq, to_double_exact,
}
use flashsentry.Json.{obj, is_object, to_fields, to_items, value, to_array, to_uint64}
use flashsentry.Platform.{Platform, DateTime}
use flashsentry.VerifyHistory.{
  VerifyHistoryKind, hash, manifest, iso_scan, VerifyHistoryEntry, HistoryState, Clock,
  kind_to_string, kind_from_string, or_now, trim, entry_to_json, entry_from_json, load_loop,
  entries_of, load_history, root_object, save_history, append_entry,
}
use flashsentry.VerifyHistory.Bounded.{save_history-entries}

-- The time is valid and a whole second, and the duration is one that a double holds.
pub record IsSaved (p : Platform) (e : VerifyHistoryEntry) : Type 0 where
  pub at : ℕ
  pub valid : e.timestamp ≡ some at
  pub whole : p.from_iso (p.to_iso e.timestamp) ≡ e.timestamp
  pub exact : e.duration_ms < 2 ^ 53

kind-round_trip : (k : VerifyHistoryKind) → kind_from_string (kind_to_string k) ≡ k
unfolding kind_from_string kind_to_string text_eq
kind-round_trip hash = refl
kind-round_trip manifest = refl
kind-round_trip iso_scan = refl

module _ (p : Platform) where
  or_now_valid : (now t : DateTime) (n : ℕ) → t ≡ some n → or_now now t ≡ t
  or_now_valid now t n h = rw h

  of_int64_small : (n : ℕ) → n < 2 ^ 53 → of_int64 (pos n) ≡ n
  unfolding of_int64
  of_int64_small n h = ground arith

  entry-round_trip :
      (now : DateTime) (e : VerifyHistoryEntry)
      → IsSaved p e
      → entry_from_json p now (entry_to_json p e) ≡ e
  unfolding entry_from_json entry_to_json to_uint64
  entry-round_trip now e h = rw (
    h.whole,
    or_now_valid now e.timestamp h.at h.valid,
    kind-round_trip e.kind,
    to_double_exact e.duration_ms h.exact,
    of_int64_small e.duration_ms h.exact,
  )

  load_loop-saved :
      (now : DateTime) (es : List VerifyHistoryEntry)
      → All (IsSaved p) es
      → load_loop p now (to_array (λ e. obj (entry_to_json p e)) es) ≡ es
  unfolding load_loop to_array is_object to_fields
  load_loop-saved now [] h = refl
  load_loop-saved now (e ∷ es) (h, hs) = rw (entry-round_trip now e h, load_loop-saved now es hs)

  entries_of-saved :
      (now : DateTime) (es : List VerifyHistoryEntry)
      → All (IsSaved p) es
      → p.parse_json (p.to_indented (root_object p es)) ≡ obj (root_object p es)
      → entries_of p now (some (p.to_indented (root_object p es))) ≡ es
  unfolding entries_of is_object to_fields root_object value to_items
  entries_of-saved now es h parses = rw parses (load_loop-saved now es h)

  load_history-save_history :
      (c c' : Clock) (s : HistoryState)
      → c.writable ≡ true
      → c'.readable ≡ true
      → All (IsSaved p) s.entries
      → p.parse_json (p.to_indented (root_object p s.entries)) ≡ obj (root_object p s.entries)
      → load_history p c' (save_history p c s) ≡ save_history p c s
  unfolding load_history save_history
  load_history-save_history c c' s w r hs parses =
      rw (w, r)
        (ap (λ es. record s { entries = es; file = some (p.to_indented (root_object p s.entries)) })
          (entries_of-saved c'.now s.entries hs parses))

  -- What an append that could write the file left in memory is what the next start loads, where
  -- every entry that it left has a valid time of whole seconds and a duration below 2 ^ 53, and the
  -- text of the whole history parses to what was printed.
  pub load_history-append_entry :
      (c c' : Clock) (entry : VerifyHistoryEntry) (s : HistoryState)
      → c.writable ≡ true
      → c'.readable ≡ true
      → All (IsSaved p) (append_entry p c entry s).entries
      → p.parse_json (p.to_indented (root_object p (append_entry p c entry s).entries))
        ≡ obj (root_object p (append_entry p c entry s).entries)
      → load_history p c' (append_entry p c entry s) ≡ append_entry p c entry s
  unfolding append_entry
  load_history-append_entry c c' entry s w r hs parses =
      let entries = record entry { timestamp = or_now c.now entry.timestamp } ∷ s.entries in
      let s' : HistoryState = record s { entries = trim (length entries) entries } in
      let same = save_history-entries p c s' in
      load_history-save_history c c' s' w r (subst (All (IsSaved p)) same hs) (
        subst (λ es. p.parse_json (p.to_indented (root_object p es)) ≡ obj (root_object p es)) same
          parses)
