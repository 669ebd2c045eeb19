-- ===== src/Lsml/Hash.antt =====
-- lsml/hash.go: the canonical text of a bundle, and its content hash.
-- How encoding/json prints a string or a number, and SHA-256 in hexadecimal, are parameters.
pub mod Same
pub mod Canonical
pub mod Content
use lumencast_go.Common.{
  ℤ, Text, codes, Bool, true, false, Option, none, some, List, [], ◌∷◌, ◌++◌, Map, lookup, text_eq,
  if◌then◌else◌, map,
}
use lumencast_go.Common.Sorting.{sort_by_key}
use lumencast_go.Json.{
  Float64, Json, null, bool, num, str, arr, obj, Items, nil, cons, Fields, end, field, Raw,
}

abbrev pub zero_hash : Text
zero_hash = codes "sha256:0000000000000000000000000000000000000000000000000000000000000000"

-- m[key] = replacement, if m has the key.
unfoldable pub replace_field : Text → Json → Fields → Fields
replace_field key v end = end
replace_field key v (field k w fs) =
    if text_eq k key then field k v fs else field k w (replace_field key v fs)

unfoldable pub set_scene_version : Json → Text → Json
set_scene_version (obj fs) replacement =
    obj (replace_field (codes "scene_version") (str replacement) fs)
set_scene_version v replacement = v

-- marshalString, json.Marshal of a float64, and hex.EncodeToString of sha256.Sum256. None of them
-- fails on a string or on a finite number, which is all that json.Unmarshal yields.
pub record Printer : Type 0 where
  pub marshal_string : Text → Text
  pub marshal_number : Float64 → Text
  pub sha256_hex : Text → Text

-- The texts with commas between them.
unfoldable pub join_commas : List Text → Text
join_commas [] = []
join_commas (t ∷ []) = t
join_commas (t ∷ u ∷ ts) = t ++ (b',' ∷ join_commas (u ∷ ts))

unfoldable pub write_entry : Printer → Text × Text → Text
write_entry p (k, t) = p.marshal_string k ++ (b':' ∷ t)

-- An object whose values are written, its keys in order.
unfoldable pub write_object : Printer → Map Text → Text
write_object p entries =
    b'{' ∷ (join_commas (map (write_entry p) (sort_by_key entries)) ++ (b'}' ∷ []))

unfoldable pub write_array : List Text → Text
write_array texts = b'[' ∷ (join_commas texts ++ (b']' ∷ []))

unfoldable mutual
  pub write_canonical : Printer → Json → Text
  write_canonical p null = codes "null"
  write_canonical p (bool b) = if b then codes "true" else codes "false"
  write_canonical p (str s) = p.marshal_string s
  write_canonical p (num n) = p.marshal_number n
  write_canonical p (arr vs) = write_array (write_items p vs)
  write_canonical p (obj fs) = write_object p (write_fields p fs)

  pub write_items : Printer → Items → List Text
  write_items p nil = []
  write_items p (cons v vs) = write_canonical p v ∷ write_items p vs

  pub write_fields : Printer → Fields → Map Text
  write_fields p end = []
  write_fields p (field k v fs) = (k, write_canonical p v) ∷ write_fields p fs

unfoldable pub hash_value : Printer → Json → Text × Text
hash_value p v =
    let canon = write_canonical p (set_scene_version v zero_hash) in (p.sha256_hex canon, canon)

-- `none` where json.Unmarshal fails.
unfoldable pub hash_raw : Printer → Raw → Option (Text × Text)
hash_raw p r = elim r.value [ none ↦ none | some v ↦ some (hash_value p v) ]
