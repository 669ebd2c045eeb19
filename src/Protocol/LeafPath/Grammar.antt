-- ===== src/Protocol/LeafPath/Grammar.antt =====
-- Wire paths are exactly the non-empty lists of words, joined by dots.
use lumencast_go.Common.{
  ℕ, ◌+◌, ◌≡◌, ◌≢◌, refl, ◌↔◌, Text, true, false, ◌||◌, none, List, [], ◌∷◌, ◌++◌, arith, ◌==◌, All,
  text_eq_iff, split_dots, dec_lt,
}
use lumencast_go.Protocol.LeafPath.{
  Unicode, valid_segment, check_segment, check_segments, validate_path, validate,
}
use lumencast_go.Protocol.LeafPath.Segments.{segments}

-- The segments with dots between them.
pub join_dots : Text → List Text → Text
join_dots first [] = first
join_dots first (x ∷ others) = first ++ (b'.' ∷ join_dots x others)

join_dots-cons :
    (c : ℕ) (first : Text) (others : List Text)
    → join_dots (c ∷ first) others ≡ c ∷ join_dots first others
unfolding join_dots
join_dots-cons c first [] = refl
join_dots-cons c first (x ∷ others) = refl

-- Splitting and joining again gives the path back.
pub join_dots-split : (p : Text) → join_dots (split_dots p).0 (split_dots p).1 ≡ p
unfolding join_dots split_dots
join_dots-split [] = refl
join_dots-split (c ∷ p) =
    ground (arith, join_dots-cons c (split_dots p).0 (split_dots p).1, join_dots-split p)

module _ (u : Unicode) where
  abbrev pub IsWordChar : ℕ → Type 0
  IsWordChar c = (u.is_letter c || c == b'_' || u.is_digit c) ≡ true

  abbrev pub IsWord : Text → Type 0
  IsWord seg = (seg ≢ []) × All IsWordChar seg

  no_dot : (c : ℕ) → IsWordChar c → (c == b'.') ≡ false
  no_dot c h = elim (dec_lt c 128) [
    | yes a ↦ ground (arith, u.letter_ascii c a, u.digit_ascii c a)
    | no a ↦ ground arith
  ]

  valid_segment_sound : (seg : Text) → valid_segment u seg ≡ true → All IsWordChar seg
  unfolding valid_segment
  valid_segment_sound [] h = tt
  valid_segment_sound (c ∷ seg) h = ground (arith, valid_segment_sound seg)

  valid_segment_complete : (seg : Text) → All IsWordChar seg → valid_segment u seg ≡ true
  unfolding valid_segment
  valid_segment_complete [] h = refl
  valid_segment_complete (c ∷ seg) h = ground (arith, valid_segment_complete seg)

  check_segments_sound :
      (i : ℕ) (segs : List Text) → check_segments u false i segs ≡ none → All IsWord segs
  unfolding check_segments check_segment
  check_segments_sound i [] h = tt
  check_segments_sound i (seg ∷ segs) h =
      ground (arith, text_eq_iff seg [], valid_segment_sound seg, check_segments_sound (i + 1) segs)

  check_segments_complete :
      (i : ℕ) (segs : List Text) → All IsWord segs → check_segments u false i segs ≡ none
  unfolding check_segments check_segment
  check_segments_complete i [] h = refl
  check_segments_complete i (seg ∷ segs) h =
      ground (
        arith,
        text_eq_iff seg [],
        valid_segment_complete seg,
        check_segments_complete (i + 1) segs,
      )

  split_dots-word :
      (first rest : Text)
      → All IsWordChar first
      → (split_dots (first ++ (b'.' ∷ rest)) ≡ (first, segments rest))
        × (split_dots first ≡ (first, []))
  unfolding split_dots
  split_dots-word [] rest h = (refl, refl)
  split_dots-word (c ∷ first) rest h = ground (arith, no_dot c, split_dots-word first rest)

  split_dots-join :
      (first : Text) (others : List Text)
      → All IsWord (first ∷ others)
      → split_dots (join_dots first others) ≡ (first, others)
  unfolding join_dots
  split_dots-join first [] h = (split_dots-word first [] h.0.1).1
  split_dots-join first (x ∷ others) h =
      ground
        (arith, (split_dots-word first (join_dots x others) h.0.1).0, split_dots-join x others h.1)

  sound : (p : Text) → validate u p ≡ none → All IsWord (segments p)
  unfolding validate validate_path
  sound p h = ground (arith, text_eq_iff p [], check_segments_sound 0 (segments p))

  complete :
      (first : Text) (others : List Text)
      → All IsWord (first ∷ others)
      → validate u (join_dots first others) ≡ none
  unfolding validate validate_path
  complete first others h = ground (
    arith,
    text_eq_iff (join_dots first others) [],
    split_dots-join first others h,
    split_dots-word [] [] tt,
    check_segments_complete 0 (first ∷ others) h,
  )

  -- A path is valid on the wire exactly if it is a list of words joined by dots, a word being one
  -- or more letters, digits and underscores.
  pub validate_iff :
      (p : Text)
      → (validate u p ≡ none) ↔ (
          (first : Text) × (others : List Text) × All IsWord (first ∷ others)
          × (join_dots first others ≡ p))
  validate_iff p = (
    λ h. ((split_dots p).0, (split_dots p).1, sound p h, join_dots-split p),
    λ w. rw (← w.3) (complete w.0 w.1 w.2),
  )
