-- ===== src/Database/Legacy.antt =====
-- Which key an id finds (`resolveStoredId` of src/DatabaseManager.cpp): itself, or the older id of
-- the device, which lacked the device node.
use flashsentry.Base.{
  ℕ, ◌+◌, ◌≡◌, refl, Bool, true, ◌||◌, none, some, [], ◌∷◌, ◌++◌, Text, arith, if◌then◌else◌,
  length, drop, codes, last_index_of, take-append, Bool-cases, inl, inr, is_empty,
}
use native.Mathlib.Numerals.{unary_clauses}
use flashsentry.Platform.{Platform}
use flashsentry.Device.{DeviceInfo, unique_id_of}
use flashsentry.Database.{
  resolve_id, legacy_id, is_block_suffix, is_drive_suffix, last_section, partition_unique_id,
}

last_index_of-append :
    (a b : Text) (u : ℕ) → last_index_of b u ≡ none → last_index_of (a ++ u ∷ b) u ≡ some (length a)
unfolding last_index_of
last_index_of-append [] b u e = rw e (ground arith)
last_index_of-append (c ∷ a) b u e = rw (last_index_of-append a b u e)

cons-append : (a b : Text) (u : ℕ) → (c : ℕ) × (s : Text) × (a ++ u ∷ b ≡ c ∷ s)
cons-append [] b u = (u, b, refl)
cons-append (c ∷ a) b u = (c, a ++ u ∷ b, refl)

unique_id_of-cons : (d : DeviceInfo) → (c : ℕ) × (s : Text) × (unique_id_of d ≡ c ∷ s)
unfolding unique_id_of
unique_id_of-cons d = elim (Bool-cases (is_empty d.serial)) [
  | inl e ↦ rw e (cons-append d.vendor d.model b'_')
  | inr e ↦ rw e (cons-append d.serial (d.vendor ++ (codes "_" ++ d.model)) b'_')
]

drop-past : (a b : Text) (u : ℕ) → drop (length a + 1) (a ++ u ∷ b) ≡ b
drop-past [] b u = refl
drop-past (c ∷ a) b u = simp unary_clauses (simp unary_clauses at (drop-past a b u))

-- The device node is that of a block device, or one letter, and has no underscore.
pub record HasNode (p : Platform) (d : DeviceInfo) : Type 0 where
  pub known :
      (is_block_suffix p (last_section d.device_node)
        || is_drive_suffix p (last_section d.device_node))
      ≡ true
  pub whole : last_index_of (last_section d.device_node) b'_' ≡ none

module _ (p : Platform) (contains : Text → Bool) where
  legacy_id-append :
      (c : ℕ) (a tail : Text)
      → (is_block_suffix p tail || is_drive_suffix p tail) ≡ true
      → legacy_id p contains (c ∷ (a ++ b'_' ∷ tail)) (some (length (c ∷ a)))
        ≡ (if contains (c ∷ a) then some (c ∷ a) else none)
  unfolding legacy_id
  legacy_id-append c a tail e =
      rw (drop-past (c ∷ a) tail b'_', take-append (c ∷ a) (b'_' ∷ tail), e)

  legacy_id-whole :
      (a tail : Text)
      → (c : ℕ) × (s : Text) × (a ≡ c ∷ s)
      → (is_block_suffix p tail || is_drive_suffix p tail) ≡ true
      → legacy_id p contains (a ++ b'_' ∷ tail) (some (length a))
        ≡ (if contains a then some a else none)
  legacy_id-whole a tail (c, s, e) known = rw e (legacy_id-append c s tail known)

-- Where the device node's last part is one that the program takes for a block device's (sd*, mmcblk*,
-- nvme* and the like), or one letter, and has no underscore, the id of a partition finds itself where
-- it is a key, else the id without the device node where that is a key, and nothing where neither is.
pub resolve_id-partition_unique_id :
    (p : Platform) (contains : Text → Bool) (d : DeviceInfo)
    → HasNode p d
    → resolve_id p contains (partition_unique_id d) ≡ (
        if contains (partition_unique_id d)
        then some (partition_unique_id d)
        else if contains (unique_id_of d)
        then some (unique_id_of d)
        else none)
unfolding resolve_id partition_unique_id
resolve_id-partition_unique_id p contains d h =
    let tail = last_section d.device_node in
    rw (
      last_index_of-append (unique_id_of d) tail b'_' h.whole,
      legacy_id-whole p contains (unique_id_of d) tail (unique_id_of-cons d) h.known,
    )
