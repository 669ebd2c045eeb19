-- ===== src/Lsml/Hash/Content.antt =====
-- The content hash is that of the content: neither the order of the fields nor the version that a
-- bundle bears has a part in it.
use lumencast_go.Common.{
  ◌≡◌, ◌≢◌, refl, ap, subst, inl, inr, Text, codes, false, Option, none, some, text_eq, text_eq_iff,
  if◌then◌else◌, arith, Bool-cases,
}
use lumencast_go.Json.{Json, str, obj, Fields, end, field, get_field, Raw}
use lumencast_go.Lsml.Hash.{
  zero_hash, replace_field, set_scene_version, Printer, hash_value, hash_raw,
}
use lumencast_go.Lsml.Hash.Same.{same_str, SameField, both_present, HaveDecoded}
use lumencast_go.Lsml.Hash.Canonical.{get_field-IsDecoded, write_object-same, written-same}

-- The objects that a bundle and its canonical form stand for, but for the version.
abbrev pub SameContent : Fields → Fields → Type 0
SameContent fs gs =
    (k : Text)
    → text_eq (codes "scene_version") k ≡ false
    → SameField (get_field k fs) (get_field k gs)

abbrev replaced : Json → Option Json → Option Json
replaced v none = none
replaced v (some w) = some v

get_field-replace_field :
    (key k : Text) (v : Json) (fs : Fields)
    → get_field k (replace_field key v fs)
      ≡ (if text_eq key k then replaced v (get_field k fs) else get_field k fs)
unfolding get_field replace_field
get_field-replace_field key k v end = ground arith
get_field-replace_field key k v (field j w fs) = ground (
  arith,
  text_eq_iff j key,
  text_eq_iff j k,
  text_eq_iff key k,
  get_field-replace_field key k v fs,
)

replace_field-HaveDecoded :
    (key s : Text) (fs : Fields) → HaveDecoded fs → HaveDecoded (replace_field key (str s) fs)
unfolding replace_field
replace_field-HaveDecoded key s end d = tt
replace_field-HaveDecoded key s (field j w fs) d = elim (Bool-cases (text_eq j key)) [
  | inl e ↦ rw e (d.0, (tt, d.1.1))
  | inr e ↦ rw e (
    ground (
      arith,
      get_field-replace_field key j (str s) fs,
      text_eq_iff j key,
      text_eq_iff key j,
      d.0,
    ),
    (d.1.0, replace_field-HaveDecoded key s fs d.1.1),
  )
]

abbrev version_key : Text
version_key = codes "scene_version"

present_same :
    (s : Text) (o n : Option Json)
    → o ≢ none
    → n ≢ none
    → SameField (replaced (str s) o) (replaced (str s) n)
present_same s none n h k = absurd (h refl)
present_same s (some v) none h k = absurd (k refl)
present_same s (some v) (some w) h k = both_present same_str

-- Once both versions are replaced, all fields hold the same content.
replaced-same :
    (fs gs : Fields) (s : Text)
    → get_field version_key fs ≢ none
    → get_field version_key gs ≢ none
    → SameContent fs gs
    → (k : Text)
    → SameField
        (get_field k (replace_field version_key (str s) fs))
        (get_field k (replace_field version_key (str s) gs))
replaced-same fs gs s has have h k = elim (Bool-cases (text_eq version_key k)) [
  | inl e ↦
      let same = (text_eq_iff version_key k).0 e in
      rw
        (
          get_field-replace_field version_key k (str s) fs,
          get_field-replace_field version_key k (str s) gs,
          e,
        )
        (present_same s (get_field k fs) (get_field k gs)
          (subst (λ j. get_field j fs ≢ none) same has)
          (subst (λ j. get_field j gs ≢ none) same have))
  | inr e ↦
      rw
        (
          get_field-replace_field version_key k (str s) fs,
          get_field-replace_field version_key k (str s) gs,
          e,
        )
        (h k e)
]

hash_value-same :
    (p : Printer) (fs gs : Fields)
    → HaveDecoded fs
    → HaveDecoded gs
    → get_field version_key fs ≢ none
    → get_field version_key gs ≢ none
    → SameContent fs gs
    → hash_value p (obj fs) ≡ hash_value p (obj gs)
unfolding hash_value set_scene_version
hash_value-same p fs gs d e has have h =
    let canon =
      write_object-same p (replace_field version_key (str zero_hash) fs)
        (replace_field version_key (str zero_hash) gs)
        (replace_field-HaveDecoded version_key zero_hash fs d)
        (replace_field-HaveDecoded version_key zero_hash gs e)
        (λ k.
          written-same p (get_field k (replace_field version_key (str zero_hash) fs))
            (get_field k (replace_field version_key (str zero_hash) gs))
            (replaced-same fs gs zero_hash has have h k)
            (get_field-IsDecoded k (replace_field version_key (str zero_hash) fs)
              (replace_field-HaveDecoded version_key zero_hash fs d))
            (get_field-IsDecoded k (replace_field version_key (str zero_hash) gs)
              (replace_field-HaveDecoded version_key zero_hash gs e))) in
    ap (λ t. (p.sha256_hex t, t)) canon

-- Two bundles that bear a version each, and hold the same content in their other fields, in any
-- order at every level, have the same canonical text and the same hash. A zero and a negative zero
-- are not the same content.
pub hash_raw-ignores_order_and_version :
    (p : Printer) (r s : Raw) (fs gs : Fields)
    → r.value ≡ some (obj fs)
    → s.value ≡ some (obj gs)
    → HaveDecoded fs
    → HaveDecoded gs
    → get_field (codes "scene_version") fs ≢ none
    → get_field (codes "scene_version") gs ≢ none
    → SameContent fs gs
    → hash_raw p r ≡ hash_raw p s
unfolding hash_raw
hash_raw-ignores_order_and_version p r s fs gs e f d c has have h =
    rw (e, f) (ap some (hash_value-same p fs gs d c has have h))
