-- ===== src/Manifest/Diff.antt =====
-- src/ManifestService.cpp: the maps from path to content hash that `verifyGroup` compares. A QHash is
-- a table.
use flashsentry.Base.{
  not, none, some, List, [], ◌∷◌, Text, if◌then◌else◌, text_eq, Table, lookup, insert,
}
use flashsentry.Device.{WatchFileEntry}

abbrev pub PathMap : Type 0
PathMap = Table Text

-- The loop that fills `expected` and the one that fills `actual`.
unfoldable pub path_map : List WatchFileEntry → PathMap → PathMap
unfolding insert
path_map [] m = m
path_map (e ∷ es) m = path_map es (insert e.relative_path e.content_hash m)

-- The loop over `expected`, for each of the two lists that it fills, and the loop over `actual`.
unfoldable pub missing_paths : PathMap → PathMap → List Text
unfolding lookup
missing_paths [] other = []
missing_paths ((k, v) ∷ m) other =
    let rest = missing_paths m other in elim (lookup k other) [ none ↦ k ∷ rest | some w ↦ rest ]

unfoldable pub changed_paths : PathMap → PathMap → List Text
unfolding lookup text_eq
changed_paths [] actual = []
changed_paths ((k, v) ∷ m) actual =
    let rest = changed_paths m actual in
    elim (lookup k actual) [ none ↦ rest | some w ↦ if not (text_eq w v) then k ∷ rest else rest ]
