-- ===== src/Conformance/Match/Shapes.antt =====
-- The comparisons of one value with its template, where nothing is nested.
use lumencast_go.Common.{
  ◌≡◌, sym, subst, ◌↔◌, ℤ, pos, negsuc, eqb_int, Text, Bool, true, false, Option, none, arith,
}
use lumencast_go.Json.{value_of, Json, null, bool, num, str, arr, obj}
use lumencast_go.Conformance.Match.{MatchError, bool_eq, equal_scalar, match_scalar}
use lumencast_go.Conformance.Match.Template.{
  Matches, object, array, same_null, same_bool, same_number, Shape, Matches-Shape, text_Matches,
}

pub Shape-Matches : (v w : Json) → Shape v w → Matches v w
Shape-Matches (str s) w h = text_Matches s w h
Shape-Matches null w h = subst (Matches null) (sym h) same_null
Shape-Matches (bool b) w h = subst (Matches (bool b)) (sym h) same_bool
Shape-Matches (num m) (num n) h = same_number h
Shape-Matches (num m) null h = absurd h
Shape-Matches (num m) (bool b) h = absurd h
Shape-Matches (num m) (str s) h = absurd h
Shape-Matches (num m) (arr a) h = absurd h
Shape-Matches (num m) (obj a) h = absurd h
Shape-Matches (obj e) (obj a) h = object h
Shape-Matches (obj e) null h = absurd h
Shape-Matches (obj e) (bool b) h = absurd h
Shape-Matches (obj e) (num n) h = absurd h
Shape-Matches (obj e) (str s) h = absurd h
Shape-Matches (obj e) (arr a) h = absurd h
Shape-Matches (arr e) (arr a) h = array h
Shape-Matches (arr e) null h = absurd h
Shape-Matches (arr e) (bool b) h = absurd h
Shape-Matches (arr e) (num n) h = absurd h
Shape-Matches (arr e) (str s) h = absurd h
Shape-Matches (arr e) (obj a) h = absurd h

-- A test that passes exactly on what the template accepts.
abbrev pub Accepts : Json → Json → Option MatchError → Type 0
Accepts v w o = (o ≡ none) ↔ Matches v w

pub by-Shape : (v w : Json) (o : Option MatchError) → (o ≡ none) ↔ Shape v w → Accepts v w o
by-Shape v w o h = (λ e. Shape-Matches v w (h.0 e), λ m. h.1 (Matches-Shape v w m))

eqb_int_iff : (a b : ℤ) → (eqb_int a b ≡ true) ↔ (b ≡ a)
eqb_int_iff (pos a) (pos b) = ground arith
eqb_int_iff (pos a) (negsuc b) = ground arith
eqb_int_iff (negsuc a) (pos b) = ground arith
eqb_int_iff (negsuc a) (negsuc b) = ground arith

bool_eq_iff : (a b : Bool) → (bool_eq a b ≡ true) ↔ (b ≡ a)
bool_eq_iff true true = ground arith
bool_eq_iff true false = ground arith
bool_eq_iff false true = ground arith
bool_eq_iff false false = ground arith

-- The templates that are neither text, nor object, nor array.
abbrev pub IsPlain : Json → Type 0
IsPlain (str s) = ⊥
IsPlain (obj e) = ⊥
IsPlain (arr e) = ⊥
IsPlain _ = Unit

pub plain_iff : (path : Text) (v w : Json) → IsPlain v → (match_scalar path v w ≡ none) ↔ Shape v w
unfolding match_scalar equal_scalar
plain_iff path null null p = ground arith
plain_iff path null (bool b) p = ground arith
plain_iff path null (num n) p = ground arith
plain_iff path null (str s) p = ground arith
plain_iff path null (arr a) p = ground arith
plain_iff path null (obj a) p = ground arith
plain_iff path (bool c) null p = ground arith
plain_iff path (bool c) (bool b) p = ground (arith, bool_eq_iff c b)
plain_iff path (bool c) (num n) p = ground arith
plain_iff path (bool c) (str s) p = ground arith
plain_iff path (bool c) (arr a) p = ground arith
plain_iff path (bool c) (obj a) p = ground arith
plain_iff path (num m) null p = ground arith
plain_iff path (num m) (bool b) p = ground arith
plain_iff path (num m) (num n) p = ground (arith, eqb_int_iff (value_of m) (value_of n))
plain_iff path (num m) (str s) p = ground arith
plain_iff path (num m) (arr a) p = ground arith
plain_iff path (num m) (obj a) p = ground arith
plain_iff path (str s) w p = absurd p
plain_iff path (obj e) w p = absurd p
plain_iff path (arr e) w p = absurd p
