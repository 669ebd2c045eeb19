-- ===== src/Examples/Conformance.antt =====
-- A template with both placeholders, and a frame that it accepts.
use lumencast_go.Common.{◌≡◌, ◌↔◌, refl, pos, codes, none, starts_with, text_eq}
use lumencast_go.Json.{units, num, str, arr, obj, cons, nil, Fields, end, field, get_field}
use lumencast_go.Conformance.Match.{
  match_frame, match_value, match_text, match_hash, match_scalar, equal_scalar, is_sha256,
  items_length,
}
use lumencast_go.Conformance.Match.Template.{Matches}
use lumencast_go.Conformance.Match.Accept.{match_frame_iff}

abbrev expected : Fields
expected = field (codes "type") (str (codes "delta")) (
    field (codes "ts") (str (codes "$ANY")) (
      field (codes "hash") (str (codes "$ANY_HASH"))
        (field (codes "patches") (arr (cons (num (units (pos 1))) nil)) end)))

abbrev actual : Fields
actual = field (codes "patches") (arr (cons (num (units (pos 1))) nil)) (
    field (codes "extra") (num (units (pos 0))) (
      field (codes "ts") (num (units (pos 7))) (
        field (codes "hash")
          (str (codes "sha256:0123456789abcdef0123456789abcdef0123456789abcdef0123456789abcdef"))
          (field (codes "type") (str (codes "delta")) end))))

-- The frame passes.
actual_passes : match_frame expected actual ≡ none
unfolding match_frame match_value match_text match_hash match_scalar equal_scalar is_sha256
    items_length get_field starts_with text_eq
actual_passes = refl

match_frame_iff_example : (match_frame expected actual ≡ none) ↔ Matches (obj expected) (obj actual)
match_frame_iff_example = match_frame_iff expected actual
