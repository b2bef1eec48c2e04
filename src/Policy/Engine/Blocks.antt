-- ===== src/Policy/Engine/Blocks.antt =====
-- The block list: `blockDrive` and `unblockDrive` of src/policy/PolicyStoreEngine.cpp against
-- `BlockedDriveStore::isBlocked` of src/BlockedDriveStore.cpp.
use flashsentry.Base.{
  ◌≡◌, refl, ◌∙◌, Bool, true, false, not, ◌&&◌, List, [], ◌∷◌, ◌++◌, Text, arith, if◌then◌else◌,
  any, any-snoc, any-keep_not, keep_if, is_empty, text_eq, text_eq_refl,
}
use flashsentry.Platform.{DateTime}
use flashsentry.Policy.{BlockedDriveEntry}
use flashsentry.Policy.Engine.{matches}

-- `BlockedDriveStore::isBlocked`
unfoldable pub is_blocked : Text → Text → List BlockedDriveEntry → Bool
unfolding is_empty text_eq
is_blocked drive_key unique_id [] = false
is_blocked drive_key unique_id (e ∷ es) =
    let rest = is_blocked drive_key unique_id es in
    if not (is_empty drive_key) && text_eq e.drive_key drive_key
    then true
    else if not (is_empty unique_id) && text_eq e.unique_id unique_id
    then true
    else rest

-- `isBlocked` of the window is the test that `blockDrive` of the engine makes: whether any entry has
-- the key, if it is not empty, or the id, if it is not empty.
pub is_blocked-any :
    (drive_key unique_id : Text) (es : List BlockedDriveEntry)
    → is_blocked drive_key unique_id es ≡ any (matches drive_key unique_id) es
unfolding is_blocked any matches
is_blocked-any drive_key unique_id [] = refl
is_blocked-any drive_key unique_id (e ∷ es) = ground (arith, is_blocked-any drive_key unique_id es)

matches_self :
    (drive_key unique_id label : Text) (at : DateTime)
    → (is_empty drive_key && is_empty unique_id) ≡ false
    → matches drive_key unique_id
        (record { drive_key = drive_key; unique_id = unique_id; label = label; blocked_at = at })
      ≡ true
unfolding matches
matches_self drive_key unique_id label at h =
    ground (arith, text_eq_refl drive_key, text_eq_refl unique_id)

-- The entry that `blockDrive` appends blocks the drive that it was asked to block, where at least
-- one of the two identifiers is not empty.
pub is_blocked-append :
    (drive_key unique_id label : Text) (at : DateTime) (es : List BlockedDriveEntry)
    → (is_empty drive_key && is_empty unique_id) ≡ false
    → is_blocked drive_key unique_id (
        es
        ++ record { drive_key = drive_key; unique_id = unique_id; label = label; blocked_at = at }
          ∷ [])
      ≡ true
is_blocked-append drive_key unique_id label at es h =
    is_blocked-any drive_key unique_id _
    ∙ any-snoc (matches drive_key unique_id) es _ (matches_self drive_key unique_id label at h)

-- An entry with neither a key nor an id blocks no drive.
pub is_blocked_nothing : (es : List BlockedDriveEntry) → is_blocked [] [] es ≡ false
unfolding is_blocked
is_blocked_nothing [] = refl
is_blocked_nothing (e ∷ es) = is_blocked_nothing es

-- What `unblockDrive` keeps does not block the drive.
pub is_blocked-keep_if :
    (drive_key unique_id : Text) (es : List BlockedDriveEntry)
    → is_blocked drive_key unique_id (keep_if (λ e. not (matches drive_key unique_id e)) es) ≡ false
is_blocked-keep_if drive_key unique_id es =
    is_blocked-any drive_key unique_id _ ∙ any-keep_not (matches drive_key unique_id) es
