-- ===== src/HashCheckpoint.antt =====
-- src/HashCheckpoint.cpp and include/HashCheckpoint.h: how far the hashing of each device has come.
pub mod Store
use flashsentry.Base.{
  ℕ, Bool, true, false, not, ◌&&◌, Option, none, some, List, [], ◌∷◌, ◌++◌, Text, Bytes, ltb, pos,
  if◌then◌else◌, text_eq, is_empty, to_double, codes, find, keep_if,
}
use flashsentry.Json.{
  Fields, Items, nil, cons, none_left, num, str, arr, obj, insert, value, to_string, to_items,
  to_fields, is_object, to_array, from_array, to_uint64, Json,
}
use flashsentry.Platform.{Platform}

pub record HashCheckpoint : Type 0 where
  pub device_node : Text
  pub algorithm : Text
  pub scan_mode : Text
  pub device_size : ℕ
  pub block_size : ℕ
  pub block_hashes : List Text
  pub bytes_completed : ℕ

unfoldable pub is_valid : HashCheckpoint → Bool
unfolding is_empty
is_valid cp = not (is_empty cp.device_node) && ltb 0 cp.block_size

-- The member and the file.
pub record Checkpoints : Type 0 where
  pub checkpoints : List HashCheckpoint
  pub file : Option Bytes

-- The test of `checkpointFor` and `remove`.
unfoldable pub is_for : Text → Text → Text → HashCheckpoint → Bool
unfolding text_eq
is_for device_node algorithm scan_mode cp =
    text_eq cp.device_node device_node
    && text_eq cp.algorithm algorithm
    && text_eq cp.scan_mode scan_mode

unfoldable pub checkpoint_for : Text → Text → Text → List HashCheckpoint → Option HashCheckpoint
unfolding is_for find
checkpoint_for device_node algorithm scan_mode cps =
    find (is_for device_node algorithm scan_mode) cps

hash_from_json : Json → Text
unfolding to_string
hash_from_json v = to_string v []

unfoldable pub checkpoint_to_json : HashCheckpoint → Fields
unfolding insert to_array
checkpoint_to_json cp = insert "block_hashes" (arr (to_array str cp.block_hashes)) (
    insert "bytes_completed" (num (pos (to_double cp.bytes_completed))) (
      insert "block_size" (num (pos (to_double cp.block_size))) (
        insert "device_size" (num (pos (to_double cp.device_size))) (
          insert "scan_mode" (str cp.scan_mode) (
            insert "algorithm" (str cp.algorithm)
              (insert "device_node" (str cp.device_node) none_left))))))

unfoldable pub checkpoint_from_json : Fields → HashCheckpoint
unfolding value to_string to_uint64 to_items from_array hash_from_json
checkpoint_from_json o = record {
  device_node = to_string (value "device_node" o) [];
  algorithm = to_string (value "algorithm" o) [];
  scan_mode = to_string (value "scan_mode" o) (codes "full");
  device_size = to_uint64 (value "device_size" o);
  block_size = to_uint64 (value "block_size" o);
  block_hashes = from_array hash_from_json (to_items (value "block_hashes" o));
  bytes_completed = to_uint64 (value "bytes_completed" o);
}

-- The loop of `load`.
unfoldable pub load_valid : Items → List HashCheckpoint
unfolding checkpoint_from_json to_fields is_valid
load_valid nil = []
load_valid (cons v vs) =
    let cp = checkpoint_from_json (to_fields v) in
    let rest = load_valid vs in if is_valid cp then cp ∷ rest else rest

unfoldable pub checkpoints_object : List HashCheckpoint → Fields
unfolding insert to_array checkpoint_to_json
checkpoints_object cps =
    insert "checkpoints" (arr (to_array (λ cp. obj (checkpoint_to_json cp)) cps))
      (insert "version" (str (codes "1.0")) none_left)

module _ (p : Platform) where
  unfoldable pub checkpoints_of : Option Bytes → List HashCheckpoint
  unfolding is_object to_fields to_items value load_valid
  checkpoints_of none = []
  checkpoints_of (some file) =
      let doc = p.parse_json file in
      if not (is_object doc)
      then []
      else load_valid (to_items (value "checkpoints" (to_fields doc)))

  unfoldable pub load_checkpoints : Bool → Checkpoints → Checkpoints
  unfolding checkpoints_of
  load_checkpoints readable s = record s {
    checkpoints = checkpoints_of (if readable then s.file else none);
  }

  -- The file opens and its commit works, or it is as it was.
  unfoldable pub save_checkpoints : Bool → Checkpoints → Checkpoints
  unfolding checkpoints_object
  save_checkpoints writable s =
      if not writable
      then s
      else record s { file = some (p.to_indented (checkpoints_object s.checkpoints)) }

  unfoldable pub remove_checkpoint : Bool → Text → Text → Text → Checkpoints → Checkpoints
  unfolding is_for keep_if save_checkpoints
  remove_checkpoint writable device_node algorithm scan_mode s =
      save_checkpoints writable (record s {
        checkpoints = keep_if (λ c. not (is_for device_node algorithm scan_mode c)) s.checkpoints;
      })

  -- Two writes: that of `remove`, and its own.
  unfoldable pub upsert_checkpoint : Bool → Bool → HashCheckpoint → Checkpoints → Checkpoints
  unfolding remove_checkpoint save_checkpoints
  upsert_checkpoint writable writable' cp s =
      let s' = remove_checkpoint writable cp.device_node cp.algorithm cp.scan_mode s in
      save_checkpoints writable' (record s' { checkpoints = s'.checkpoints ++ cp ∷ [] })

  unfoldable pub clear_all : Bool → Checkpoints → Checkpoints
  unfolding save_checkpoints
  clear_all writable s = save_checkpoints writable (record s { checkpoints = [] })
