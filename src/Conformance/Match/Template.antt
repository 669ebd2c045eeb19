-- ===== src/Conformance/Match/Template.antt =====
-- Which frames a template accepts.
use lumencast_go.Common.{
  ◌≡◌, ◌≢◌, refl, sym, subst, ◌↔◌, ◌⊎◌, inl, inr, Text, codes, Bool, true, false, Option, none,
  some, text_eq, text_eq_iff, arith, Bool-cases,
}
use lumencast_go.Json.{
  Float64, value_of, Json, null, bool, num, str, arr, obj, Items, nil, cons, Fields, get_field,
}
use lumencast_go.Lsml.Validate.Nodes.{Entry}
use lumencast_go.Conformance.Match.{
  sentinel_any, sentinel_any_hash, MatchError, is_sha256, equal_scalar, match_scalar, match_hash,
  match_text, or_else,
}

-- What a template accepts: anything for `$ANY`, a hash for `$ANY_HASH`, at least the fields of an
-- object, the items of an array one by one, and otherwise the value itself.
mutual
  pub data Matches : Json → Json → Type 0 where
    any_value : {got : Json} → Matches (str (codes "$ANY")) got
    any_hash : {s : Text} → is_sha256 s ≡ true → Matches (str (codes "$ANY_HASH")) (str s)
    same_text : {s : Text} → s ≢ codes "$ANY_HASH" → Matches (str s) (str s)
    same_null : Matches null null
    same_bool : {b : Bool} → Matches (bool b) (bool b)
    same_number : {m n : Float64} → value_of n ≡ value_of m → Matches (num m) (num n)
    object :
        {e a : Fields}
        → ((k : Text) (v : Json) → Entry k v e → Finds v (get_field k a))
        → Matches (obj e) (obj a)
    array : {e a : Items} → MatchesEach e a → Matches (arr e) (arr a)

  pub data MatchesEach : Items → Items → Type 0 where
    no_items : MatchesEach nil nil
    next_item :
        {v w : Json} {e a : Items}
        → Matches v w
        → MatchesEach e a
        → MatchesEach (cons v e) (cons w a)

  pub data Finds : Json → Option Json → Type 0 where
    found : {v w : Json} → Matches v w → Finds v (some w)

abbrev pub FineFields : Fields → Fields → Type 0
FineFields e a = (k : Text) (v : Json) → Entry k v e → Finds v (get_field k a)

abbrev IsHash : Json → Type 0
IsHash (str s) = is_sha256 s ≡ true
IsHash _ = ⊥

abbrev pub FineText : Text → Json → Type 0
FineText s got =
    (s ≡ sentinel_any)
    ⊎ (((s ≡ sentinel_any_hash) × IsHash got) ⊎ ((s ≢ sentinel_any_hash) × (got ≡ str s)))

-- What `Matches` says, read off from the two values.
abbrev pub Shape : Json → Json → Type 0
Shape (str s) got = FineText s got
Shape (obj e) (obj a) = FineFields e a
Shape (obj e) got = ⊥
Shape (arr e) (arr a) = MatchesEach e a
Shape (arr e) got = ⊥
Shape (num m) (num n) = value_of n ≡ value_of m
Shape (num m) got = ⊥
Shape want got = got ≡ want

pub Matches-Shape : (v w : Json) → Matches v w → Shape v w
Matches-Shape _ _ any_value = inl refl
Matches-Shape _ _ (any_hash h) = inr (inl (refl, h))
Matches-Shape _ _ (same_text h) = inr (inr (h, refl))
Matches-Shape _ _ same_null = refl
Matches-Shape _ _ same_bool = refl
Matches-Shape _ _ (same_number h) = h
Matches-Shape _ _ (object h) = h
Matches-Shape _ _ (array h) = h

hash_Matches : (got : Json) → IsHash got → Matches (str sentinel_any_hash) got
hash_Matches (str s) h = any_hash h
hash_Matches null h = absurd h
hash_Matches (bool b) h = absurd h
hash_Matches (num n) h = absurd h
hash_Matches (arr vs) h = absurd h
hash_Matches (obj fs) h = absurd h

pub text_Matches : (s : Text) (got : Json) → FineText s got → Matches (str s) got
text_Matches s got (inl e) = subst (λ t. Matches (str t) got) (sym e) any_value
text_Matches s got (inr (inl (e, h))) =
    subst (λ t. Matches (str t) got) (sym e) (hash_Matches got h)
text_Matches s got (inr (inr (ne, e))) = subst (Matches (str s)) (sym e) (same_text ne)

match_hash_iff : (path : Text) (got : Json) → (match_hash path got ≡ none) ↔ IsHash got
unfolding match_hash
match_hash_iff path (str s) = ground arith
match_hash_iff path null = ground arith
match_hash_iff path (bool b) = ground arith
match_hash_iff path (num n) = ground arith
match_hash_iff path (arr vs) = ground arith
match_hash_iff path (obj fs) = ground arith

match_scalar_iff :
    (path s : Text) (got : Json) → (match_scalar path (str s) got ≡ none) ↔ (got ≡ str s)
unfolding match_scalar equal_scalar
match_scalar_iff path s (str t) = ground (arith, text_eq_iff s t)
match_scalar_iff path s null = ground arith
match_scalar_iff path s (bool b) = ground arith
match_scalar_iff path s (num n) = ground arith
match_scalar_iff path s (arr vs) = ground arith
match_scalar_iff path s (obj fs) = ground arith

pub match_text_iff : (path s : Text) (got : Json) → (match_text path s got ≡ none) ↔ FineText s got
unfolding match_text
match_text_iff path s got = elim (Bool-cases (text_eq s sentinel_any)) [
  | inl e ↦ rw e (λ h. inl ((text_eq_iff s sentinel_any).0 e), λ h. refl)
  | inr e ↦ elim (Bool-cases (text_eq s sentinel_any_hash)) [
    | inl f ↦
        rw (e, f)
          (
            λ h. inr (inl ((text_eq_iff s sentinel_any_hash).0 f, (match_hash_iff path got).0 h)),
            λ h. as_hash e f h,
          )
    | inr f ↦
        rw (e, f)
          (
            λ h. inr (
                inr (
                  λ same. absurd (ground (arith, f, (text_eq_iff s sentinel_any_hash).1 same)),
                  (match_scalar_iff path s got).0 h,
                )),
            λ h. as_scalar e f h,
          )
  ]
]
  where
    as_hash :
        text_eq s sentinel_any ≡ false
        → text_eq s sentinel_any_hash ≡ true
        → FineText s got
        → match_hash path got ≡ none
    as_hash e f (inl z) = absurd (ground (arith, e, (text_eq_iff s sentinel_any).1 z))
    as_hash e f (inr (inl (z, h))) = (match_hash_iff path got).1 h
    as_hash e f (inr (inr (ne, z))) = absurd (ne ((text_eq_iff s sentinel_any_hash).0 f))

    as_scalar :
        text_eq s sentinel_any ≡ false
        → text_eq s sentinel_any_hash ≡ false
        → FineText s got
        → match_scalar path (str s) got ≡ none
    as_scalar e f (inl z) = absurd (ground (arith, e, (text_eq_iff s sentinel_any).1 z))
    as_scalar e f (inr (inl (z, h))) =
        absurd (ground (arith, f, (text_eq_iff s sentinel_any_hash).1 z))
    as_scalar e f (inr (inr (ne, z))) = (match_scalar_iff path s got).1 z

pub or_else_iff : (x y : Option MatchError) → (or_else x y ≡ none) ↔ ((x ≡ none) × (y ≡ none))
or_else_iff (some e) y = ground arith
or_else_iff none y = ground arith
