-- ===== src/Conformance/Match/Accept.antt =====
-- matchFrame accepts exactly the frames that its template does.
use lumencast_go.Common.{
  ℕ, ◌+◌, ◌≡◌, refl, ap, ◌↔◌, inl, inr, Text, codes, Option, none, some, ◌++◌, arith, Bool-cases,
  ◌==◌,
}
use lumencast_go.Json.{
  Json, null, bool, num, str, arr, obj, Items, nil, cons, Fields, end, field, get_field,
}
use lumencast_go.Lsml.Validate.{decimal}
use lumencast_go.Lsml.Validate.Nodes.{this, that}
use lumencast_go.Conformance.Match.{
  MatchError, missing, want_map, want_array, match_scalar, match_text, or_else, items_length,
  match_value, match_fields, match_items, match_frame,
}
use lumencast_go.Conformance.Match.Template.{
  Matches, MatchesEach, no_items, next_item, Finds, found, FineFields, match_text_iff, or_else_iff,
}
use lumencast_go.Conformance.Match.Shapes.{Accepts, by-Shape, IsPlain, plain_iff}

match_value-plain : (path : Text) (v w : Json) → IsPlain v → Accepts v w (match_value path v w)
unfolding match_value
match_value-plain path null w p =
    by-Shape null w (match_scalar path null w) (plain_iff path null w p)
match_value-plain path (bool b) w p =
    by-Shape (bool b) w (match_scalar path (bool b) w) (plain_iff path (bool b) w p)
match_value-plain path (num n) w p =
    by-Shape (num n) w (match_scalar path (num n) w) (plain_iff path (num n) w p)
match_value-plain path (str s) w p = absurd p
match_value-plain path (obj e) w p = absurd p
match_value-plain path (arr e) w p = absurd p

match_value-str : (path s : Text) (w : Json) → Accepts (str s) w (match_value path (str s) w)
unfolding match_value
match_value-str path s w = by-Shape (str s) w (match_text path s w) (match_text_iff path s w)

-- An object against what is none.
abbrev NotObject : Json → Type 0
NotObject (obj a) = ⊥
NotObject _ = Unit

abbrev NotArray : Json → Type 0
NotArray (arr a) = ⊥
NotArray _ = Unit

match_value-no_object :
    (path : Text) (e : Fields) (w : Json)
    → NotObject w
    → Accepts (obj e) w (match_value path (obj e) w)
unfolding match_value
match_value-no_object path e (obj a) p = absurd p
match_value-no_object path e null p = by-Shape (obj e) null (some (want_map path)) (ground arith)
match_value-no_object path e (bool b) p =
    by-Shape (obj e) (bool b) (some (want_map path)) (ground arith)
match_value-no_object path e (num n) p =
    by-Shape (obj e) (num n) (some (want_map path)) (ground arith)
match_value-no_object path e (str s) p =
    by-Shape (obj e) (str s) (some (want_map path)) (ground arith)
match_value-no_object path e (arr a) p =
    by-Shape (obj e) (arr a) (some (want_map path)) (ground arith)

match_value-no_array :
    (path : Text) (e : Items) (w : Json)
    → NotArray w
    → Accepts (arr e) w (match_value path (arr e) w)
unfolding match_value
match_value-no_array path e (arr a) p = absurd p
match_value-no_array path e null p = by-Shape (arr e) null (some (want_array path)) (ground arith)
match_value-no_array path e (bool b) p =
    by-Shape (arr e) (bool b) (some (want_array path)) (ground arith)
match_value-no_array path e (num n) p =
    by-Shape (arr e) (num n) (some (want_array path)) (ground arith)
match_value-no_array path e (str s) p =
    by-Shape (arr e) (str s) (some (want_array path)) (ground arith)
match_value-no_array path e (obj a) p =
    by-Shape (arr e) (obj a) (some (want_array path)) (ground arith)

match_value-obj :
    (path : Text) (e a : Fields)
    → (match_fields (λ k. path ++ codes "." ++ k) e a ≡ none) ↔ FineFields e a
    → Accepts (obj e) (obj a) (match_value path (obj e) (obj a))
unfolding match_value
match_value-obj path e a h =
    by-Shape (obj e) (obj a) (match_fields (λ k. path ++ codes "." ++ k) e a) h

-- Arrays of one length each.
MatchesEach-length : (e a : Items) → MatchesEach e a → items_length a ≡ items_length e
unfolding items_length
MatchesEach-length _ _ no_items = refl
MatchesEach-length _ _ (next_item {v} {w} {e} {a} m each) =
    ap (λ n. 1 + n) (MatchesEach-length e a each)

match_value-arr :
    (path : Text) (e a : Items)
    → (items_length a ≡ items_length e → (match_items path 0 e a ≡ none) ↔ MatchesEach e a)
    → Accepts (arr e) (arr a) (match_value path (arr e) (arr a))
unfolding match_value
match_value-arr path e a h = by-Shape (arr e) (arr a) (match_value path (arr e) (arr a)) shape
  where
    shape : (match_value path (arr e) (arr a) ≡ none) ↔ MatchesEach e a
    shape = elim (Bool-cases (items_length a == items_length e)) [
      | inl y ↦ rw (y, match_value) (h (ground (arith, y)))
      | inr y ↦
          rw (y, match_value)
            (
              λ z. absurd (ground (arith, z)),
              λ m. absurd (ground (arith, y, MatchesEach-length e a m)),
            )
    ]

-- One look-up of a field, and the fields after it.
abbrev matched : (Text → Text) → Text → Json → Option Json → Option MatchError
matched at k v none = some (missing (at k))
matched at k v (some w) = match_value (at k) v w

matched_iff :
    (at : Text → Text) (k : Text) (v : Json) (o : Option Json)
    → ((w : Json) → Accepts v w (match_value (at k) v w))
    → (matched at k v o ≡ none) ↔ Finds v o
matched_iff at k v none h = (λ e. absurd (ground (arith, e)), λ f. absurd (nothing f))
  where
    nothing : Finds v none → ⊥
    nothing f = elim f [ ]
matched_iff at k v (some w) h = (λ e. found ((h w).0 e), λ f. (h w).1 (what f))
  where
    what : Finds v (some w) → Matches v w
    what (found m) = m

match_fields-field :
    (at : Text → Text) (k : Text) (v : Json) (e a : Fields)
    → ((w : Json) → Accepts v w (match_value (at k) v w))
    → (match_fields at e a ≡ none) ↔ FineFields e a
    → (match_fields at (field k v e) a ≡ none) ↔ FineFields (field k v e) a
unfolding match_fields
match_fields-field at k v e a here rest = (
  λ h. split ((matched_iff at k v (get_field k a) here).0 (both.0 h).0) (rest.0 (both.0 h).1),
  λ h.
      both.1 (
        (matched_iff at k v (get_field k a) here).1 (h k v this),
        rest.1 (λ j w i. h j w (that i)),
      ),
)
  where
    both :
        (or_else (matched at k v (get_field k a)) (match_fields at e a) ≡ none)
        ↔ ((matched at k v (get_field k a) ≡ none) × (match_fields at e a ≡ none))
    both = or_else_iff (matched at k v (get_field k a)) (match_fields at e a)

    split : Finds v (get_field k a) → FineFields e a → FineFields (field k v e) a
    split f h j w this = f
    split f h j w (that i) = h j w i

match_fields-end :
    (at : Text → Text) (a : Fields) → (match_fields at end a ≡ none) ↔ FineFields end a
unfolding match_fields
match_fields-end at a = (λ h k v i. elim i [ ], λ h. refl)

match_items-nil :
    (path : Text) (i : ℕ) (a : Items)
    → items_length a ≡ items_length nil
    → (match_items path i nil a ≡ none) ↔ MatchesEach nil a
unfolding match_items items_length
match_items-nil path i nil same = (λ h. no_items, λ m. refl)
match_items-nil path i (cons w a) same = absurd (omega (arith, same))

match_items-short :
    (path : Text) (i : ℕ) (v : Json) (e : Items)
    → items_length nil ≡ items_length (cons v e)
    → (match_items path i (cons v e) nil ≡ none) ↔ MatchesEach (cons v e) nil
unfolding items_length
match_items-short path i v e same = absurd (omega (arith, same))

match_items-cons :
    (path : Text) (i : ℕ) (v w : Json) (e a : Items)
    → Accepts v w (match_value (path ++ codes "[" ++ decimal i ++ codes "]") v w)
    → (items_length a ≡ items_length e → (match_items path (i + 1) e a ≡ none) ↔ MatchesEach e a)
    → items_length (cons w a) ≡ items_length (cons v e)
    → (match_items path i (cons v e) (cons w a) ≡ none) ↔ MatchesEach (cons v e) (cons w a)
unfolding match_items items_length
match_items-cons path i v w e a here rest same = (
  λ h. next_item (here.0 (both.0 h).0) ((rest tail).0 (both.0 h).1),
  λ m. let (x, y) = parts m in both.1 (here.1 x, (rest tail).1 y),
)
  where
    one : Option MatchError
    one = match_value (path ++ codes "[" ++ decimal i ++ codes "]") v w

    tail : items_length a ≡ items_length e
    tail = omega (arith, same)

    both :
        (or_else one (match_items path (i + 1) e a) ≡ none)
        ↔ ((one ≡ none) × (match_items path (i + 1) e a ≡ none))
    both = or_else_iff one (match_items path (i + 1) e a)

    parts : MatchesEach (cons v e) (cons w a) → Matches v w × MatchesEach e a
    parts (next_item m each) = (m, each)

mutual
  value_iff : (path : Text) (v w : Json) → Accepts v w (match_value path v w)
  value_iff path null w = match_value-plain path null w tt
  value_iff path (bool b) w = match_value-plain path (bool b) w tt
  value_iff path (num n) w = match_value-plain path (num n) w tt
  value_iff path (str s) w = match_value-str path s w
  value_iff path (obj e) (obj a) =
      match_value-obj path e a (fields_iff (λ k. path ++ codes "." ++ k) e a)
  value_iff path (obj e) null = match_value-no_object path e null tt
  value_iff path (obj e) (bool b) = match_value-no_object path e (bool b) tt
  value_iff path (obj e) (num n) = match_value-no_object path e (num n) tt
  value_iff path (obj e) (str s) = match_value-no_object path e (str s) tt
  value_iff path (obj e) (arr a) = match_value-no_object path e (arr a) tt
  value_iff path (arr e) (arr a) = match_value-arr path e a (items_iff path 0 e a)
  value_iff path (arr e) null = match_value-no_array path e null tt
  value_iff path (arr e) (bool b) = match_value-no_array path e (bool b) tt
  value_iff path (arr e) (num n) = match_value-no_array path e (num n) tt
  value_iff path (arr e) (str s) = match_value-no_array path e (str s) tt
  value_iff path (arr e) (obj a) = match_value-no_array path e (obj a) tt

  fields_iff : (at : Text → Text) (e a : Fields) → (match_fields at e a ≡ none) ↔ FineFields e a
  fields_iff at end a = match_fields-end at a
  fields_iff at (field k v e) a =
      match_fields-field at k v e a (λ w. value_iff (at k) v w) (fields_iff at e a)

  items_iff :
      (path : Text) (i : ℕ) (e a : Items)
      → items_length a ≡ items_length e
      → (match_items path i e a ≡ none) ↔ MatchesEach e a
  items_iff path i nil a = match_items-nil path i a
  items_iff path i (cons v e) nil = match_items-short path i v e
  items_iff path i (cons v e) (cons w a) =
      match_items-cons path i v w e a (value_iff (path ++ codes "[" ++ decimal i ++ codes "]") v w)
        (items_iff path (i + 1) e a)

-- A frame passes exactly if the template accepts it: every field of the template is in the frame,
-- at any depth, with a value that its placeholder or its value accepts, and other fields of the frame
-- do not matter.
pub match_frame_iff :
    (expected actual : Fields)
    → (match_frame expected actual ≡ none) ↔ Matches (obj expected) (obj actual)
unfolding match_frame
match_frame_iff expected actual =
    by-Shape (obj expected) (obj actual) (match_fields (λ k. k) expected actual)
      (fields_iff (λ k. k) expected actual)
