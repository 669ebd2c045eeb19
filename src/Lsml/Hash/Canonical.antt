-- ===== src/Lsml/Hash/Canonical.antt =====
-- The canonical text of a value is that of its content.
use lumencast_go.Common.{
  ◌≡◌, refl, sym, ◌∙◌, ap, ap₂, inl, inr, Text, false, Option, none, some, ◌∷◌, lookup, text_eq,
  All, HasDistinctKeys, arith, Bool-cases,
}
use lumencast_go.Common.Sorting.{
  sort_by_key, lookup-sort_by_key, sort_by_key-IsSorted, sorted_unique,
}
use lumencast_go.Json.{Json, arr, obj, Items, cons, Fields, end, field, get_field}
use lumencast_go.Lsml.Hash.{
  Printer, write_object, write_array, write_canonical, write_items, write_fields,
}
use lumencast_go.Lsml.Hash.Same.{
  Same, same_null, same_bool, same_num, same_str, same_arr, same_obj, SameItems, same_nil,
  same_cons, SameField, both_absent, both_present, IsDecoded, AreDecoded, HaveDecoded,
}

-- What a look-up finds, written.
abbrev pub written : Printer → Option Json → Option Text
written p none = none
written p (some v) = some (write_canonical p v)

abbrev pub IsFoundDecoded : Option Json → Type 0
IsFoundDecoded none = Unit
IsFoundDecoded (some v) = IsDecoded v

lookup-write_fields :
    (p : Printer) (k : Text) (fs : Fields)
    → lookup k (write_fields p fs) ≡ written p (get_field k fs)
unfolding lookup write_fields get_field
lookup-write_fields p k end = refl
lookup-write_fields p k (field j v fs) = ground (arith, lookup-write_fields p k fs)

pub get_field-IsDecoded :
    (k : Text) (fs : Fields) → HaveDecoded fs → IsFoundDecoded (get_field k fs)
unfolding get_field
get_field-IsDecoded k end d = tt
get_field-IsDecoded k (field j v fs) d = elim (Bool-cases (text_eq j k)) [
  | inl e ↦ rw e d.1.0
  | inr e ↦ rw e (get_field-IsDecoded k fs d.1.1)
]

-- Another key than one that is absent.
absent-Avoids :
    (p : Printer) (k : Text) (fs : Fields)
    → get_field k fs ≡ none
    → All (λ e. text_eq e.0 k ≡ false) (write_fields p fs)
unfolding get_field write_fields
absent-Avoids p k end h = tt
absent-Avoids p k (field j v fs) h = elim (Bool-cases (text_eq j k)) [
  | inl e ↦ absurd (ground (arith, h, e))
  | inr e ↦ (e, absent-Avoids p k fs (ground (arith, h, e)))
]

write_fields-HasDistinctKeys :
    (p : Printer) (fs : Fields) → HaveDecoded fs → HasDistinctKeys (write_fields p fs)
unfolding write_fields
write_fields-HasDistinctKeys p end d = tt
write_fields-HasDistinctKeys p (field k v fs) d =
    (absent-Avoids p k fs d.0, write_fields-HasDistinctKeys p fs d.1.1)

-- Two objects of distinct keys whose look-ups are written alike are written alike.
pub write_object-same :
    (p : Printer) (fs gs : Fields)
    → HaveDecoded fs
    → HaveDecoded gs
    → ((k : Text) → written p (get_field k fs) ≡ written p (get_field k gs))
    → write_canonical p (obj fs) ≡ write_canonical p (obj gs)
unfolding write_object write_canonical
write_object-same p fs gs d e h =
    let ms = write_fields p fs in
    let ns = write_fields p gs in
    let sorted : sort_by_key ms ≡ sort_by_key ns =
      sorted_unique (sort_by_key ms) (sort_by_key ns)
        (sort_by_key-IsSorted ms (write_fields-HasDistinctKeys p fs d))
        (sort_by_key-IsSorted ns (write_fields-HasDistinctKeys p gs e))
        (λ k.
          lookup-sort_by_key k ms
          ∙ lookup-write_fields p k fs
          ∙ h k
          ∙ sym (lookup-write_fields p k gs)
          ∙ sym (lookup-sort_by_key k ns)) in
    rw sorted refl

write_array-same :
    (p : Printer) (vs ws : Items)
    → write_items p vs ≡ write_items p ws
    → write_canonical p (arr vs) ≡ write_canonical p (arr ws)
unfolding write_canonical
write_array-same p vs ws h = ap write_array h

write_item-same :
    (p : Printer) (v w : Json) (vs ws : Items)
    → write_canonical p v ≡ write_canonical p w
    → write_items p vs ≡ write_items p ws
    → write_items p (cons v vs) ≡ write_items p (cons w ws)
unfolding write_items
write_item-same p v w vs ws h k = ap₂ ◌∷◌ h k

mutual
  write_canonical-Same :
      (p : Printer) (v w : Json)
      → Same v w
      → IsDecoded v
      → IsDecoded w
      → write_canonical p v ≡ write_canonical p w
  write_canonical-Same p _ _ same_null d e = refl
  write_canonical-Same p _ _ same_bool d e = refl
  write_canonical-Same p _ _ same_num d e = refl
  write_canonical-Same p _ _ same_str d e = refl
  write_canonical-Same p _ _ (same_arr {vs} {ws} s) d e =
      write_array-same p vs ws (write_items-same p vs ws s d e)
  write_canonical-Same p _ _ (same_obj {fs} {gs} s) d e = write_object-same p fs gs d e (λ k.
      written-same p (get_field k fs) (get_field k gs) (s k) (get_field-IsDecoded k fs d)
        (get_field-IsDecoded k gs e))

  write_items-same :
      (p : Printer) (vs ws : Items)
      → SameItems vs ws
      → AreDecoded vs
      → AreDecoded ws
      → write_items p vs ≡ write_items p ws
  write_items-same p _ _ same_nil d e = refl
  write_items-same p _ _ (same_cons {v} {w} {vs} {ws} s r) d e =
      write_item-same p v w vs ws (write_canonical-Same p v w s d.0 e.0)
        (write_items-same p vs ws r d.1 e.1)

  pub written-same :
      (p : Printer) (o n : Option Json)
      → SameField o n
      → IsFoundDecoded o
      → IsFoundDecoded n
      → written p o ≡ written p n
  written-same p _ _ both_absent d e = refl
  written-same p _ _ (both_present {v} {w} s) d e = ap some (write_canonical-Same p v w s d e)
