-- ===== src/Server/Store.antt =====
-- server/store.go: the leaf state of a scene. Each method is one step, so the lock is left out.
pub mod Apply
pub mod Insert
use lumencast_go.Common.{
  Text, codes, Bool, true, false, Option, none, some, List, [], ◌∷◌, ◌++◌, Map, insert, text_ltb,
  if◌then◌else◌,
}
use lumencast_go.Common.Sorting.{sort_by_key}
use lumencast_go.Json.{Raw, null}

-- What a caller passes as `any`. A Go value that is neither nil nor bytes is seen only through
-- json.Marshal, and stands here as what that returns (`none` if it fails).
pub data Value : Type 0 where
  nil : Value
  raw : Raw → Value
  bytes : Raw → Value
  other : Option Raw → Value

pub data StoreError : Type 0 where
  empty_patches : StoreError
  encode : Text → StoreError

pub data Applied : Type 0 where
  ok : Map Raw → Applied
  err : StoreError → Applied

-- The value if it is valid JSON. `none` is an error.
abbrev pub checked_raw : Raw → Option Raw
checked_raw r = elim r.value [ none ↦ none | some v ↦ some r ]

unfoldable pub encode_value : Value → Option Raw
encode_value nil = some (record { bytes = codes "null"; value = some null })
encode_value (raw x) = checked_raw x
encode_value (bytes x) = checked_raw x
encode_value (other marshalled) = marshalled

abbrev pub new_store : Map Raw
new_store = []

abbrev pub snapshot : Map Raw → Map Raw
snapshot s = s

-- sort.Slice by path
abbrev pub sort_patches : Map Raw → Map Raw
sort_patches = sort_by_key

-- The loop over the map of patches: the state, and the patches so far.
unfoldable pub apply_loop : Map Raw → Map Raw → Map Value → Map Raw × Applied
apply_loop state out [] = (state, ok (sort_patches out))
apply_loop state out ((path, value) ∷ patches) = elim (encode_value value) [
  | none ↦ (state, err (encode path))
  | some r ↦ apply_loop (insert path r state) (out ++ ((path, r) ∷ [])) patches
]

-- A rawPatch is a pair of a path and a value.
unfoldable pub apply_patches : Map Raw → Map Value → Map Raw × Applied
apply_patches state [] = (state, err empty_patches)
apply_patches state (p ∷ patches) = apply_loop state [] (p ∷ patches)
