-- ===== src/Lsml/Capture/Rules.antt =====
-- What checkZabCapture accepts.
use lumencast_go.Common.{
  ◌≡◌, refl, subst, ◌≢◌, ◌↔◌, ◌⊎◌, inl, inr, Text, codes, Bool, true, false, Option, none, some,
  List, [], ◌∷◌, is_empty, text_eq, text_eq→eq, arith, Bool-cases, All, Option-cases,
}
use lumencast_go.Json.{Fields, get_field, as_string}
use lumencast_go.Lsml.Capture.{
  capture_visual_kinds, capture_audio_kinds, contains, is_present, check_device, check_source,
  check_zab_capture,
}
use lumencast_go.Lsml.Capture.Alias.{IsAlias, is_logical_device_ref_iff}

-- The kind of source is one that is drawn, and has a size, or one that is heard.
abbrev pub IsSource : Text → Fields → Type 0
IsSource kind fs =
    ((contains capture_visual_kinds kind ≡ true)
      × (is_present (get_field (codes "size") fs) ≡ true))
    ⊎ (contains capture_audio_kinds kind ≡ true)

-- The rules of the RFC on a capture node: a kind of source, and a device by its alias.
abbrev pub IsCapture : Fields → Type 0
IsCapture fs =
    ((kind : Text) × (as_string (get_field (codes "x-zab.sourceKind") fs) ≡ some kind)
      × IsSource kind fs)
    × ((ref : Text) × (as_string (get_field (codes "x-zab.deviceRef") fs) ≡ some ref) × IsAlias ref)

-- A kind that a list contains has what every kind of the list has.
contains-every :
    (P : Text → Type 0) (kinds : List Text) (kind : Text)
    → All P kinds
    → contains kinds kind ≡ true
    → P kind
unfolding contains
contains-every P [] kind a h = absurd (ground (arith, h))
contains-every P (v ∷ kinds) kind a h = elim (Bool-cases (text_eq v kind)) [
  | inl e ↦ subst P (text_eq→eq v kind e) a.0
  | inr e ↦ contains-every P kinds kind a.1 (ground (arith, h, e))
]

-- No kind of source is of both sorts, and none is empty.
audio_not_visual :
    (kind : Text)
    → contains capture_audio_kinds kind ≡ true
    → contains capture_visual_kinds kind ≡ false
unfolding contains text_eq
audio_not_visual kind h =
    contains-every (λ v. contains capture_visual_kinds v ≡ false) capture_audio_kinds kind
      (refl, (refl, (refl, tt))) h

visual_not_empty : (kind : Text) → contains capture_visual_kinds kind ≡ true → is_empty kind ≡ false
unfolding contains text_eq
visual_not_empty [] h = absurd (ground (arith, h))
visual_not_empty (c ∷ s) h = refl

audio_not_empty : (kind : Text) → contains capture_audio_kinds kind ≡ true → is_empty kind ≡ false
unfolding contains text_eq
audio_not_empty [] h = absurd (ground (arith, h))
audio_not_empty (c ∷ s) h = refl

check_device_iff :
    (visual : Bool) (kind ref : Text) (fs : Fields)
    → (check_device visual kind (some ref) fs ≡ none)
      ↔ (IsAlias ref × ((visual ≡ true) → is_present (get_field (codes "size") fs) ≡ true))
unfolding check_device
check_device_iff visual kind ref fs = elim (Bool-cases (is_present (get_field (codes "size") fs))) [
  | inl e ↦ rw e (ground (arith, is_logical_device_ref_iff ref))
  | inr e ↦ rw e (ground (arith, is_logical_device_ref_iff ref))
]

check_source_iff :
    (kind : Text) (fs : Fields)
    → (check_source (some kind) fs ≡ none) ↔ (
        ((contains capture_visual_kinds kind ≡ true) ⊎ (contains capture_audio_kinds kind ≡ true))
        × (check_device
              (contains capture_visual_kinds kind)
              kind
              (as_string (get_field (codes "x-zab.deviceRef") fs))
              fs
            ≡ none))
unfolding check_source
check_source_iff kind fs = ground (arith, visual_not_empty kind, audio_not_empty kind)

-- A kind of source that is drawn has a size; one that is heard need not.
has_size :
    (kind : Text) (fs : Fields)
    → IsSource kind fs
    → contains capture_visual_kinds kind ≡ true
    → is_present (get_field (codes "size") fs) ≡ true
has_size kind fs (inl (v, s)) visual = s
has_size kind fs (inr a) visual = absurd (ground (arith, audio_not_visual kind a, visual))

source_known :
    (kind : Text) (fs : Fields)
    → IsSource kind fs
    → (contains capture_visual_kinds kind ≡ true) ⊎ (contains capture_audio_kinds kind ≡ true)
source_known kind fs (inl (v, s)) = inl v
source_known kind fs (inr a) = inr a

IsSource-of :
    (kind : Text) (fs : Fields)
    → (contains capture_visual_kinds kind ≡ true) ⊎ (contains capture_audio_kinds kind ≡ true)
    → ((contains capture_visual_kinds kind ≡ true)
        → is_present (get_field (codes "size") fs) ≡ true)
    → IsSource kind fs
IsSource-of kind fs (inl v) size = inl (v, size v)
IsSource-of kind fs (inr a) size = inr a

abbrev source_kind : Fields → Option Text
source_kind fs = as_string (get_field (codes "x-zab.sourceKind") fs)

abbrev device_ref : Fields → Option Text
device_ref fs = as_string (get_field (codes "x-zab.deviceRef") fs)

complete : (fs : Fields) → IsCapture fs → check_source (source_kind fs) fs ≡ none
complete fs ((kind, e, source), (ref, d, alias)) =
    let device =
      (check_device_iff (contains capture_visual_kinds kind) kind ref fs).1
        (alias, has_size kind fs source) in
    rw e ((check_source_iff kind fs).1 (source_known kind fs source, rw d device))

no_device : (visual : Bool) (kind : Text) (fs : Fields) → check_device visual kind none fs ≢ none
unfolding check_device
no_device visual kind fs h = absurd (ground (arith, h))

no_source : (fs : Fields) → check_source none fs ≢ none
unfolding check_source
no_source fs h = absurd (ground (arith, h))

sound : (fs : Fields) → check_source (source_kind fs) fs ≡ none → IsCapture fs
sound fs h = elim (Option-cases (source_kind fs)) [
  | inl e ↦ absurd (no_source fs (subst (λ o. check_source o fs ≡ none) e h))
  | inr (kind, e) ↦
      let visual = contains capture_visual_kinds kind in
      let (known, device) =
        (check_source_iff kind fs).0 (subst (λ o. check_source o fs ≡ none) e h) in
      elim (Option-cases (device_ref fs)) [
        | inl d ↦
            absurd (
              no_device visual kind fs (subst (λ o. check_device visual kind o fs ≡ none) d device))
        | inr (ref, d) ↦
            let (alias, size) =
              (check_device_iff visual kind ref fs).0
                (subst (λ o. check_device visual kind o fs ≡ none) d device) in
            ((kind, e, IsSource-of kind fs known size), (ref, d, alias))
      ]
]

-- A capture node is accepted exactly if its kind of source is one that is drawn, with a size, or one
-- that is heard, and its device is a logical alias: a lower-case letter and at most 63 more
-- lower-case letters, digits and dashes.
pub check_zab_capture_iff : (fs : Fields) → (check_zab_capture fs ≡ none) ↔ IsCapture fs
unfolding check_zab_capture
check_zab_capture_iff fs = (sound fs, complete fs)
