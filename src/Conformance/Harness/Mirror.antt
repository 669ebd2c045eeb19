-- ===== src/Conformance/Harness/Mirror.antt =====
-- The state that a run mirrors from a snapshot, and what is then expected of it.
use lumencast_go.Common.{
  ◌≡◌, ◌↔◌, refl, subst, ◌∙◌, inl, inr, Text, codes, false, Option, none, some, All, Map, lookup,
  insert, lookup-insert, HasDistinctKeys, [], ◌∷◌, arith, text_eq, text_eq_iff, Option-cases,
  Bool-cases,
}
use lumencast_go.Json.{Json, str, obj, Fields, end, field, Raw, get_field, Marshals, MarshalsAll}
use lumencast_go.Conformance.Match.{
  MatchError, missing, match_value, match_fields, match_frame, or_else,
}
use lumencast_go.Conformance.Harness.{
  marshalled, mirror_state, absorb_server_frame, RuntimeError, check_leaf, first_error,
  expect_runtime,
}

-- The fields of a map.
abbrev pub pairs : Fields → Map Json
pairs end = []
pairs (field k v fs) = (k, v) ∷ pairs fs

get_field-absent :
    (k : Text) (fs : Fields) → All (λ e. text_eq e.0 k ≡ false) (pairs fs) → get_field k fs ≡ none
unfolding get_field
get_field-absent k end a = refl
get_field-absent k (field j v fs) a = ground (arith, a.0, get_field-absent k fs a.1)

-- The equations of the two checks.
match_frame_end : (fs : Fields) → match_frame end fs ≡ none
unfolding match_frame match_fields
match_frame_end fs = refl

match_frame_field :
    (k : Text) (v : Json) (want fs : Fields)
    → match_frame (field k v want) fs
      ≡ or_else
          (elim (get_field k fs) [ none ↦ some (missing k) | some w ↦ match_value k v w ])
          (match_frame want fs)
unfolding match_frame match_fields match_value
match_frame_field k v want fs = refl

expect_runtime_end : (m : Map Raw) → expect_runtime m end ≡ none
unfolding expect_runtime
expect_runtime_end m = refl

expect_runtime_field :
    (m : Map Raw) (k : Text) (v : Json) (want : Fields)
    → expect_runtime m (field k v want)
      ≡ first_error (check_leaf k v (lookup k m)) (expect_runtime m want)
unfolding expect_runtime
expect_runtime_field m k v want = refl

first_error_iff :
    (a b : Option RuntimeError) (c d : Option MatchError)
    → (a ≡ none) ↔ (c ≡ none)
    → (b ≡ none) ↔ (d ≡ none)
    → (first_error a b ≡ none) ↔ (or_else c d ≡ none)
first_error_iff none b none d e f = f
first_error_iff none b (some x) d e f = absurd (ground (arith, e.0 refl))
first_error_iff (some x) b none d e f = absurd (ground (arith, e.1 refl))
first_error_iff (some x) b (some y) d e f =
    (λ h. absurd (ground (arith, h)), λ h. absurd (ground (arith, h)))

module _ (marshal : Json → Option Raw) where
  marshalled-value : (v : Json) → Marshals marshal v → (marshalled marshal v).value ≡ some v
  marshalled-value v (r, is, back) = ground (arith, is, back)

  -- A field reads as it was, all others as before.
  lookup-mirror_state :
      (j : Text) (fs : Fields) (m : Map Raw)
      → HasDistinctKeys (pairs fs)
      → lookup j (mirror_state marshal m fs)
        ≡ (elim (get_field j fs) [ none ↦ lookup j m | some v ↦ some (marshalled marshal v) ])
  unfolding get_field
  lookup-mirror_state j end m d = refl
  lookup-mirror_state j (field k v fs) m d =
      lookup-mirror_state j fs (insert k (marshalled marshal v) m) d.1
      ∙ elim (Bool-cases (text_eq k j)) [
        | inl e ↦ ground (
          arith,
          e,
          lookup-insert k j (marshalled marshal v) m,
          get_field-absent k fs d.0,
          text_eq_iff k j,
        )
        | inr e ↦ ground (arith, e, lookup-insert k j (marshalled marshal v) m)
      ]

  absorb_snapshot :
      (m : Map Raw) (frame fs : Fields)
      → get_field (codes "type") frame ≡ some (str (codes "snapshot"))
      → get_field (codes "state") frame ≡ some (obj fs)
      → absorb_server_frame marshal m frame ≡ mirror_state marshal [] fs
  unfolding absorb_server_frame text_eq
  absorb_snapshot m frame fs type state = ground (arith, type, state)

  -- What is compared with one wanted value.
  check_leaf_iff :
      (k : Text) (v : Json) (fs : Fields) (m : Map Raw)
      → lookup k m ≡ (elim (get_field k fs) [ none ↦ none | some w ↦ some (marshalled marshal w) ])
      → ((w : Json) → get_field k fs ≡ some w → (marshalled marshal w).value ≡ some w)
      → (check_leaf k v (lookup k m) ≡ none)
        ↔ ((elim (get_field k fs) [ none ↦ some (missing k) | some w ↦ match_value k v w ]) ≡ none)
  unfolding check_leaf
  check_leaf_iff k v fs m reads kept = elim (Option-cases (get_field k fs)) [
    | inl e ↦ (λ h. absurd (ground (arith, h, reads, e)), λ h. absurd (ground (arith, h, e)))
    | inr (w, e) ↦
        (let value = kept w e in
          elim (Option-cases (match_value k v w)) [
            | inl fits ↦ (λ h. ground (arith, e, fits), λ h. ground (arith, reads, e, value, fits))
            | inr (why, differs) ↦ (
              λ h. absurd (ground (arith, h, reads, e, value, differs)),
              λ h. absurd (ground (arith, h, e, differs)),
            )
          ])
  ]

  expect_runtime_iff :
      (want fs : Fields) (m : Map Raw)
      → ((k : Text)
          → lookup k m
            ≡ (elim (get_field k fs) [ none ↦ none | some w ↦ some (marshalled marshal w) ]))
      → ((k : Text) (w : Json) → get_field k fs ≡ some w → (marshalled marshal w).value ≡ some w)
      → (expect_runtime m want ≡ none) ↔ (match_frame want fs ≡ none)
  expect_runtime_iff end fs m reads kept = (λ h. match_frame_end fs, λ h. expect_runtime_end m)
  expect_runtime_iff (field k v want) fs m reads kept =
      rw (expect_runtime_field m k v want, match_frame_field k v want fs)
        (first_error_iff (check_leaf k v (lookup k m)) (expect_runtime m want)
          (elim (get_field k fs) [ none ↦ some (missing k) | some w ↦ match_value k v w ])
          (match_frame want fs) (check_leaf_iff k v fs m (reads k) (kept k))
          (expect_runtime_iff want fs m reads kept))

  get_field-kept :
      (fs : Fields)
      → MarshalsAll marshal fs
      → (k : Text) (w : Json) → get_field k fs ≡ some w
      → (marshalled marshal w).value ≡ some w
  unfolding get_field
  get_field-kept end a k w e = absurd (ground (arith, e))
  get_field-kept (field j v fs) a k w e = elim (Bool-cases (text_eq j k)) [
    | inl same ↦
        (let is : v ≡ w = ground (arith, e, same) in
          subst (λ x. (marshalled marshal x).value ≡ some x) is (marshalled-value v a.0))
    | inr other ↦ get_field-kept fs a.1 k w (ground (arith, e, other))
  ]

  -- What is expected of the mirrored state holds if it matches the state of the snapshot.
  pub snapshot_mirror_iff :
      (m : Map Raw) (frame fs want : Fields)
      → get_field (codes "type") frame ≡ some (str (codes "snapshot"))
      → get_field (codes "state") frame ≡ some (obj fs)
      → HasDistinctKeys (pairs fs)
      → MarshalsAll marshal fs
      → (expect_runtime (absorb_server_frame marshal m frame) want ≡ none)
        ↔ (match_frame want fs ≡ none)
  unfolding lookup
  snapshot_mirror_iff m frame fs want type state distinct kept =
      rw (absorb_snapshot m frame fs type state) (
        expect_runtime_iff want fs (mirror_state marshal [] fs)
          (λ k. lookup-mirror_state k fs [] distinct) (get_field-kept fs kept))
