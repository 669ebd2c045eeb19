-- ===== src/Conformance/Match.antt =====
-- conformance/match.go: a received frame against the template of a scenario.
-- A number of a scenario or of a frame stands as the float64 that toFloat makes of it.
pub mod Template
pub mod Shapes
pub mod Accept
use lumencast_go.Common.{
  ℕ, ◌+◌, Text, codes, Bool, true, false, not, ◌&&◌, ◌||◌, Option, none, some, List, [], ◌∷◌, ◌++◌,
  leb, ◌==◌, length, drop, all, eqb_int, text_eq, starts_with, if◌then◌else◌,
}
use lumencast_go.Json.{
  value_of, Json, null, bool, num, str, arr, obj, Items, nil, cons, Fields, end, field, get_field,
}
use lumencast_go.Lsml.Validate.{decimal}

abbrev pub sentinel_any : Text
sentinel_any = codes "$ANY"

abbrev pub sentinel_any_hash : Text
sentinel_any_hash = codes "$ANY_HASH"

-- The errors, with the path that they name.
pub data MatchError : Type 0 where
  missing : Text → MatchError
  not_hash : Text → MatchError
  want_map : Text → MatchError
  want_array : Text → MatchError
  wrong_length : Text → MatchError
  wrong_value : Text → MatchError

abbrev pub is_hex : ℕ → Bool
is_hex c = (leb b'0' c && leb c b'9') || (leb b'a' c && leb c b'f')

-- sha256Re.MatchString
unfoldable pub is_sha256 : Text → Bool
is_sha256 s = starts_with s (codes "sha256:") && (length (drop 7 s) == 64 && all is_hex (drop 7 s))

abbrev pub bool_eq : Bool → Bool → Bool
bool_eq true b = b
bool_eq false b = not b

-- On what is neither a map nor a slice.
unfoldable pub equal_scalar : Json → Json → Bool
equal_scalar null null = true
equal_scalar (bool a) (bool b) = bool_eq a b
equal_scalar (num a) (num b) = eqb_int (value_of a) (value_of b)
equal_scalar (str a) (str b) = text_eq a b
equal_scalar _ _ = false

unfoldable pub match_scalar : Text → Json → Json → Option MatchError
match_scalar path want got = if equal_scalar want got then none else some (wrong_value path)

unfoldable pub match_hash : Text → Json → Option MatchError
match_hash path (str s) = if is_sha256 s then none else some (not_hash path)
match_hash path _ = some (not_hash path)

unfoldable pub match_text : Text → Text → Json → Option MatchError
match_text path s got =
    if text_eq s sentinel_any
    then none
    else if text_eq s sentinel_any_hash
    then match_hash path got
    else match_scalar path (str s) got

-- The first error, if any.
abbrev pub or_else : Option MatchError → Option MatchError → Option MatchError
or_else (some e) rest = some e
or_else none rest = rest

unfoldable pub items_length : Items → ℕ
items_length nil = 0
items_length (cons v vs) = 1 + items_length vs

unfoldable mutual
  pub match_value : Text → Json → Json → Option MatchError
  match_value path (str s) got = match_text path s got
  match_value path (obj e) (obj a) = match_fields (λ k. path ++ codes "." ++ k) e a
  match_value path (obj e) got = some (want_map path)
  match_value path (arr e) (arr a) =
      let inner = match_items path 0 e a in
      if items_length a == items_length e then inner else some (wrong_length path)
  match_value path (arr e) got = some (want_array path)
  match_value path want got = match_scalar path want got

  -- The range over the template's map; `at` names the path of a key.
  pub match_fields : (Text → Text) → Fields → Fields → Option MatchError
  match_fields at end a = none
  match_fields at (field k v e) a =
      or_else
        (elim (get_field k a) [ none ↦ some (missing (at k)) | some w ↦ match_value (at k) v w ])
        (match_fields at e a)

  pub match_items : Text → ℕ → Items → Items → Option MatchError
  match_items path i (cons v e) (cons w a) =
      or_else (match_value (path ++ codes "[" ++ decimal i ++ codes "]") v w)
        (match_items path (i + 1) e a)
  match_items path i _ _ = none

unfoldable pub match_frame : Fields → Fields → Option MatchError
match_frame expected actual = match_fields (λ k. k) expected actual
