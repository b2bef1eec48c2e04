-- ===== src/VerifyHistory/Tests.antt =====
-- The theorems on the history at concrete entries.
use flashsentry.Base.{
  ◌≡◌, refl, true, false, none, some, [], ◌∷◌, Text, Bytes, ℤ, pos, take, drop, arith, codes,
}
use flashsentry.Json.{obj, null}
use flashsentry.Platform.{Platform, DateTime}
use flashsentry.VerifyHistory.{
  VerifyHistoryEntry, iso_scan, HistoryState, Clock, or_now, root_object, load_history,
  append_entry,
}
use flashsentry.VerifyHistory.Bounded.{append_entry-entries}
use flashsentry.VerifyHistory.Saved.{IsSaved, load_history-append_entry}

abbrev iso : DateTime → Text
iso none = []
iso (some n) = n ∷ []

abbrev from : Text → DateTime
from [] = none
from (n ∷ s) = some n

abbrev middle : Bytes → ℤ → ℤ → Bytes
middle b (pos i) (pos n) = take n (drop i b)
middle b _ _ = []

abbrev bare : Platform
bare = record {
  to_iso = iso;
  from_iso = from;
  to_compact = λ o. [];
  to_indented = λ o. [];
  parse_json = λ b. null;
  is_letter = λ c. true;
  same_ignoring_case = λ a b. false;
  mid = middle;
  hmac = λ key payload. [];
}

abbrev scan : VerifyHistoryEntry
scan = record {
  timestamp = some 7;
  device_node = codes "sdb1";
  device_label = [];
  mount_point = [];
  kind = iso_scan;
  status = codes "pass";
  summary = [];
  detail = [];
  duration_ms = 12;
}

-- A platform that parses every text to the history of one scan.
abbrev qt : Platform
qt = record bare { parse_json = λ b. obj (root_object bare (scan ∷ [])) }

abbrev clock : Clock
clock = record { now = some 9; readable = true; writable = true }

abbrev start : HistoryState
start = record { entries = []; file = none }

scan-IsSaved : IsSaved qt scan
scan-IsSaved = record { at = 7; valid = refl; whole = refl; exact = omega arith }

append_entry-entries_example :
    (append_entry qt clock scan start).entries
    ≡ record scan { timestamp = or_now clock.now scan.timestamp } ∷ take 499 start.entries
append_entry-entries_example = append_entry-entries qt clock scan start

load_history-append_entry_example :
    load_history qt clock (append_entry qt clock scan start) ≡ append_entry qt clock scan start
unfolding append_entry root_object
load_history-append_entry_example =
    load_history-append_entry qt clock clock scan start refl refl (scan-IsSaved, tt) refl
