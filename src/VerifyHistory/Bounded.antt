-- ===== src/VerifyHistory/Bounded.antt =====
-- The bound on the history and what it keeps (src/VerifyHistory.cpp).
use mathlib.Core.List.{append_assoc, append-nil}
use native.Mathlib.Nat.{zero-add}
use flashsentry.Base.{
  ℕ, zero, suc, ◌+◌, ◌≤◌, ◌<◌, ◌≡◌, refl, sym, ap, ◌∙◌, Bool, not, List, [], ◌∷◌, ◌++◌, Text, pos,
  length, take, keep_if, arith, if◌then◌else◌, ltb, lt→ltb, le→ltb, ltb→lt, text_eq, Bool-cases,
  inl, inr, length-append, ltb_ℤ,
}
use flashsentry.Platform.{Platform}
use flashsentry.VerifyHistory.{
  VerifyHistoryEntry, HistoryState, Clock, max_entries, or_now, remove_last, trim, device_loop,
  entries_for_device, save_history, append_entry,
}

module _ {ℓ} {A : Type ℓ} where
  take-remove_last : (n : ℕ) (xs : List A) → n < length xs → take n (remove_last xs) ≡ take n xs
  unfolding remove_last
  take-remove_last zero xs h = refl
  take-remove_last (suc n) [] h = refl
  take-remove_last (suc zero) (x ∷ []) h = absurd (omega arith)
  take-remove_last (suc (suc n)) (x ∷ []) h = absurd (omega arith)
  take-remove_last (suc n) (x ∷ y ∷ xs) h = ap (◌∷◌ x) (take-remove_last n (y ∷ xs) (omega arith))

  length-remove_last : (xs : List A) → 0 < length xs → length (remove_last xs) + 1 ≡ length xs
  unfolding remove_last
  length-remove_last [] h = absurd (omega arith)
  length-remove_last (x ∷ []) h = refl
  length-remove_last (x ∷ y ∷ xs) h = omega (arith, length-remove_last (y ∷ xs) (omega arith))

  take_short : (n : ℕ) (xs : List A) → length xs ≤ n → take n xs ≡ xs
  take_short zero [] h = refl
  take_short zero (x ∷ xs) h = absurd (omega arith)
  take_short (suc n) [] h = refl
  take_short (suc n) (x ∷ xs) h = ap (◌∷◌ x) (take_short n xs (omega arith))

  length-take : (n : ℕ) (xs : List A) → length (take n xs) ≤ n
  length-take zero xs = omega arith
  length-take (suc n) [] = omega arith
  length-take (suc n) (x ∷ xs) = omega (arith, length-take n xs)

  -- Given as many rounds as there are entries, the loop that removes the last one leaves the first
  -- 500.
  pub trim-take : (fuel : ℕ) (xs : List A) → length xs ≤ fuel → trim fuel xs ≡ take max_entries xs
  unfolding trim
  trim-take zero xs h = sym (take_short max_entries xs (omega arith))
  trim-take (suc fuel) xs h = elim (Bool-cases (ltb max_entries (length xs))) [
    | inl long ↦
        let more = ltb→lt max_entries (length xs) long in
        rw long (
          trim-take fuel (remove_last xs) (omega (arith, length-remove_last xs (omega arith)))
          ∙ take-remove_last max_entries xs more)
    | inr short ↦ rw short (sym (take_short max_entries xs (ground arith)))
  ]

ltb_pos : (a b : ℕ) → ltb_ℤ (pos a) (pos b) ≡ ltb a b
ltb_pos a b = ground arith

abbrev pub of_device : Text → VerifyHistoryEntry → Bool
of_device device_node e = text_eq e.device_node device_node

device_loop-take :
    (device_node : Text) (k : ℕ) (es out : List VerifyHistoryEntry)
    → device_loop device_node (pos (length out + suc k)) es out
      ≡ out ++ take (suc k) (keep_if (of_device device_node) es)
unfolding device_loop keep_if
device_loop-take device_node k [] out = sym (append-nil out)
device_loop-take device_node k (e ∷ es) out = elim (Bool-cases (of_device device_node e)) [
  | inr other ↦ rw other (device_loop-take device_node k es out)
  | inl own ↦ rw own (found (λ n. device_loop-take device_node n es (out ++ e ∷ [])) k)
]
  where
    found :
        ((n : ℕ)
          → device_loop device_node (pos (length (out ++ e ∷ []) + suc n)) es (out ++ e ∷ [])
            ≡ (out ++ e ∷ []) ++ take (suc n) (keep_if (of_device device_node) es))
        → (k : ℕ)
        → (if not (ltb_ℤ (pos (length (out ++ e ∷ []))) (pos (length out + suc k)))
            then out ++ e ∷ []
            else device_loop device_node (pos (length out + suc k)) es (out ++ e ∷ []))
          ≡ out ++ e ∷ take k (keep_if (of_device device_node) es)
    found rest zero = rw (
      ltb_pos (length (out ++ e ∷ [])) (length out + 1),
      le→ltb (length (out ++ e ∷ [])) (length out + 1) (omega (arith, length-append out (e ∷ []))),
    )
    found rest (suc k) =
        let more : length out + suc (suc k) ≡ length (out ++ e ∷ []) + suc k =
          omega (arith, length-append out (e ∷ [])) in
        rw
          (
            more,
            ltb_pos (length (out ++ e ∷ [])) (length (out ++ e ∷ []) + suc k),
            lt→ltb (length (out ++ e ∷ [])) (length (out ++ e ∷ []) + suc k) (omega arith),
          )
          (rest k ∙ append_assoc out (e ∷ []) _)

-- With a limit above zero, the entries of a device are the newest ones of its, up to the limit.
pub entries_for_device-take :
    (device_node : Text) (k : ℕ) (es : List VerifyHistoryEntry)
    → entries_for_device device_node (pos (suc k)) es
      ≡ take (suc k) (keep_if (of_device device_node) es)
unfolding entries_for_device
entries_for_device-take device_node k es =
    ap (λ n. device_loop device_node (pos n) es []) (sym (zero-add (suc k)))
    ∙ device_loop-take device_node k es []

module _ (p : Platform) where
  pub save_history-entries :
      (c : Clock) (s : HistoryState) → (save_history p c s).entries ≡ s.entries
  unfolding save_history
  save_history-entries c s = elim (Bool-cases c.writable) [ inl h ↦ rw h | inr h ↦ rw h ]

  -- Behind an append the history is the new entry, with the current time if its own is not valid,
  -- and the old entries behind it, up to 500 in all: whether the file could be written or not.
  pub append_entry-entries :
      (c : Clock) (entry : VerifyHistoryEntry) (s : HistoryState)
      → (append_entry p c entry s).entries
        ≡ record entry { timestamp = or_now c.now entry.timestamp } ∷ take 499 s.entries
  unfolding append_entry
  append_entry-entries c entry s =
      let e : VerifyHistoryEntry = record entry { timestamp = or_now c.now entry.timestamp } in
      save_history-entries c _ ∙ trim-take (length (e ∷ s.entries)) (e ∷ s.entries) (omega arith)
