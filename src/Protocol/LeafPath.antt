-- ===== src/Protocol/LeafPath.antt =====
-- protocol/leaf_path.go: the dotted names of leaves, their grammar, and template substitution.
pub mod Segments
pub mod Grammar
pub mod Template
use lumencast_go.Common.{
  ℕ, zero, suc, ◌+◌, ◌<◌, ◌≡◌, Text, codes, Bool, true, false, not, ◌&&◌, ◌||◌, Option, none, some,
  List, [], ◌∷◌, ◌++◌, Map, lookup, leb, ltb, ◌==◌, if◌then◌else◌, any, text_eq, starts_with,
  ends_with, drop, drop_last, split_dots,
}

-- The tables of package unicode, with their ASCII rows.
pub record Unicode : Type 0 where
  pub is_letter : ℕ → Bool
  pub is_digit : ℕ → Bool
  pub letter_ascii :
      (c : ℕ) → c < 128 → is_letter c ≡ (leb b'A' c && leb c b'Z' || leb b'a' c && leb c b'z')
  pub digit_ascii : (c : ℕ) → c < 128 → is_digit c ≡ (leb b'0' c && leb c b'9')

-- The errors of validatePath, with the position or the text that the message names.
pub data PathError : Type 0 where
  empty : PathError
  empty_segment : ℕ → PathError
  empty_scope : ℕ → PathError
  invalid_scope : Text → PathError
  invalid_segment : Text → ℕ → PathError

abbrev pub reserved_namespaces : List Text
reserved_namespaces = codes "__inputs" ∷ codes "__system" ∷ codes "__test" ∷ codes "__schema" ∷ []

unfoldable pub has_prefix : Text → Text → Bool
has_prefix p prefix = text_eq p prefix || starts_with p (prefix ++ codes ".")

unfoldable pub is_reserved : Text → Bool
is_reserved p = any (λ ns. text_eq p ns || starts_with p (ns ++ codes ".")) reserved_namespaces

-- strings.IndexByte(p, '.') and the slice up to it, or the whole path.
unfoldable pub namespace : Text → Text
namespace [] = []
namespace (c ∷ p) = if c == b'.' then [] else c ∷ namespace p

module _ (u : Unicode) where
  -- The digit case goes on whether or not it is the first character.
  unfoldable pub valid_segment : Text → Bool
  valid_segment [] = true
  valid_segment (r ∷ seg) =
      let rest = valid_segment seg in
      if u.is_letter r || r == b'_' then rest else if u.is_digit r then rest else false

  -- The loop of isIdentifier from position `i` on.
  unfoldable pub identifier_from : ℕ → Text → Bool
  identifier_from i [] = true
  identifier_from i (r ∷ s) =
      let rest = identifier_from (i + 1) s in
      if u.is_letter r || r == b'_' then rest else if u.is_digit r && ltb 0 i then rest else false

  unfoldable pub is_identifier : Text → Bool
  is_identifier s = if text_eq s [] then false else identifier_from 0 s

  -- One round of the loop of validatePath.
  unfoldable pub check_segment : Bool → ℕ → Text → Option PathError
  check_segment allow_template i seg =
      if text_eq seg []
      then some (empty_segment i)
      else if allow_template && (starts_with seg (codes "{") && ends_with seg (codes "}"))
      then (let inner = drop_last (drop 1 seg) in
          if text_eq inner []
          then some (empty_scope i)
          else if not (is_identifier inner)
          then some (invalid_scope inner)
          else none)
      else if not (valid_segment seg)
      then some (invalid_segment seg i)
      else none

  unfoldable pub check_segments : Bool → ℕ → List Text → Option PathError
  check_segments allow_template i [] = none
  check_segments allow_template i (seg ∷ segments) =
      let rest = check_segments allow_template (i + 1) segments in
      elim (check_segment allow_template i seg) [ some e ↦ some e | none ↦ rest ]

  -- `none` is Go's nil error.
  unfoldable pub validate_path : Text → Bool → Option PathError
  validate_path s allow_template =
      let (first, others) = split_dots s in
      if text_eq s [] then some empty else check_segments allow_template 0 (first ∷ others)

  unfoldable pub validate : Text → Option PathError
  validate p = validate_path p false

  unfoldable pub validate_template : Text → Option PathError
  validate_template p = validate_path p true

pub data SubstituteError : Type 0 where
  unterminated : SubstituteError
  unknown_scope : Text → SubstituteError
  not_valid : PathError → SubstituteError

pub data Substituted : Type 0 where
  ok : Text → Substituted
  err : SubstituteError → Substituted

abbrev pub prepend : Text → Substituted → Substituted
prepend s (ok t) = ok (s ++ t)
prepend s (err e) = err e

-- The loop of Substitute. `some name` is the part of a placeholder's name that stands before the
-- rest of the text: the name ends at the first `}`, as strings.IndexByte finds it.
unfoldable pub expand : Map Text → Option Text → Text → Substituted
expand scope none [] = ok []
expand scope none (c ∷ src) =
    let name = expand scope (some []) src in
    let text = expand scope none src in if c == b'{' then name else prepend (c ∷ []) text
expand scope (some name) [] = err unterminated
expand scope (some name) (c ∷ src) =
    let after = expand scope none src in
    let longer = expand scope (some (name ++ (c ∷ []))) src in
    if c == b'}'
    then elim (lookup name scope) [ none ↦ err (unknown_scope name) | some v ↦ prepend v after ]
    else longer

abbrev pub checked : Text → Option PathError → Substituted
checked out none = ok out
checked out (some e) = err (not_valid e)

unfoldable pub substitute : Unicode → Text → Map Text → Substituted
substitute u src scope =
    if not (any (λ c. c == b'{') src)
    then checked src (validate u src)
    else elim (expand scope none src) [ err e ↦ err e | ok out ↦ checked out (validate u out) ]
