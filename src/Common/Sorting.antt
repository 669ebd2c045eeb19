-- ===== src/Common/Sorting.antt =====
-- Go maps in the order of their keys: the same entries, in the one strictly increasing order.
use lumencast_go.Common.{
  ◌≡◌, refl, ap, ap₂, sym, ◌∙◌, subst, ◌≢◌, inl, inr, Bool-cases, Text, true, false, none, some, [],
  ◌∷◌, arith, All, Map, HasDistinctKeys, lookup, text_eq, text_eq_iff, text_ltb, text_ltb_irrefl,
  text_ltb_total, text_ltb_trans, if◌then◌else◌,
}

less_of_not : (j k : Text) → text_ltb j k ≡ false → text_eq j k ≡ false → text_ltb k j ≡ true
less_of_not j k e ne = ground (arith, text_ltb_total j k e, text_eq_iff j k)

module _ {V : Type 0} where
  -- sort.Slice or sort.Strings by key. The keys of a map are distinct, so every sort gives the same.
  unfoldable pub insert_sorted : Text → V → Map V → Map V
  insert_sorted k v [] = (k, v) ∷ []
  insert_sorted k v ((j, w) ∷ m) =
      let later = insert_sorted k v m in
      if text_ltb j k then (j, w) ∷ later else (k, v) ∷ (j, w) ∷ m

  unfoldable pub sort_by_key : Map V → Map V
  sort_by_key [] = []
  sort_by_key ((k, v) ∷ m) = insert_sorted k v (sort_by_key m)

  abbrev pub IsSorted : Map V → Type 0
  IsSorted [] = Unit
  IsSorted ((k, v) ∷ m) = All (λ e. text_ltb k e.0 ≡ true) m × IsSorted m

  pub lookup-insert_sorted :
      (k j : Text) (v : V) (m : Map V)
      → lookup j (insert_sorted k v m) ≡ (if text_eq k j then some v else lookup j m)
  unfolding insert_sorted lookup
  lookup-insert_sorted k j v [] = refl
  lookup-insert_sorted k j v ((i, w) ∷ m) = ground (
    arith,
    text_eq_iff k j,
    text_eq_iff i j,
    text_eq_iff i k,
    text_ltb_irrefl k,
    lookup-insert_sorted k j v m,
  )

  pub lookup-sort_by_key : (j : Text) (m : Map V) → lookup j (sort_by_key m) ≡ lookup j m
  unfolding sort_by_key lookup
  lookup-sort_by_key j [] = refl
  lookup-sort_by_key j ((k, v) ∷ m) =
      ground (arith, lookup-insert_sorted k j v (sort_by_key m), lookup-sort_by_key j m)

  -- Keys other than k, above k.
  abbrev pub Avoids : Text → Map V → Type 0
  Avoids k m = All (λ e. text_eq e.0 k ≡ false) m

  abbrev pub Above : Text → Map V → Type 0
  Above k m = All (λ e. text_ltb k e.0 ≡ true) m

  Above-trans : (k j : Text) (m : Map V) → text_ltb k j ≡ true → Above j m → Above k m
  Above-trans k j [] h a = tt
  Above-trans k j ((i, w) ∷ m) h a = (text_ltb_trans k j i h a.0, Above-trans k j m h a.1)

  Above-insert_sorted :
      (k j : Text) (v : V) (m : Map V)
      → text_ltb j k ≡ true
      → Above j m
      → Above j (insert_sorted k v m)
  unfolding insert_sorted
  Above-insert_sorted k j v [] h a = ground arith
  Above-insert_sorted k j v ((i, w) ∷ m) h a = ground (arith, Above-insert_sorted k j v m)

  Avoids-insert_sorted :
      (k j : Text) (v : V) (m : Map V)
      → text_eq k j ≡ false
      → Avoids j m
      → Avoids j (insert_sorted k v m)
  unfolding insert_sorted
  Avoids-insert_sorted k j v [] h a = ground arith
  Avoids-insert_sorted k j v ((i, w) ∷ m) h a = ground (arith, Avoids-insert_sorted k j v m)

  Avoids-sort_by_key : (j : Text) (m : Map V) → Avoids j m → Avoids j (sort_by_key m)
  unfolding sort_by_key
  Avoids-sort_by_key j [] a = tt
  Avoids-sort_by_key j ((k, v) ∷ m) a =
      Avoids-insert_sorted k j v (sort_by_key m) a.0 (Avoids-sort_by_key j m a.1)

  insert_sorted-IsSorted :
      (k : Text) (v : V) (m : Map V) → Avoids k m → IsSorted m → IsSorted (insert_sorted k v m)
  unfolding insert_sorted
  insert_sorted-IsSorted k v [] a s = ground arith
  insert_sorted-IsSorted k v ((j, w) ∷ m) a s = elim (Bool-cases (text_ltb j k)) [
    | inl e ↦ rw e (Above-insert_sorted k j v m e s.0, insert_sorted-IsSorted k v m a.1 s.1)
    | inr e ↦ rw e (let less = less_of_not j k e a.0 in ((less, Above-trans k j m less s.0), s))
  ]

  pub sort_by_key-IsSorted : (m : Map V) → HasDistinctKeys m → IsSorted (sort_by_key m)
  unfolding sort_by_key
  sort_by_key-IsSorted [] d = tt
  sort_by_key-IsSorted ((k, v) ∷ m) d =
      insert_sorted-IsSorted k v (sort_by_key m) (Avoids-sort_by_key k m d.0)
        (sort_by_key-IsSorted m d.1)

  lookup-Above : (k : Text) (m : Map V) → Above k m → lookup k m ≡ none
  unfolding lookup
  lookup-Above k [] a = refl
  lookup-Above k ((j, w) ∷ m) a =
      ground (arith, text_eq_iff j k, text_ltb_irrefl k, lookup-Above k m)

  same_tail :
      (k : Text) (v : V) (xs ys : Map V)
      → Above k xs
      → Above k ys
      → ((i : Text) → lookup i ((k, v) ∷ xs) ≡ lookup i ((k, v) ∷ ys))
      → (i : Text) → lookup i xs ≡ lookup i ys
  unfolding lookup
  same_tail k v xs ys a b h i =
      ground (arith, h i, text_eq_iff k i, lookup-Above k xs a, lookup-Above k ys b)

  no_lookup :
      (k j : Text) (v w : V) (xs ys : Map V)
      → text_ltb k j ≡ true
      → Above j ys
      → lookup k ((k, v) ∷ xs) ≢ lookup k ((j, w) ∷ ys)
  unfolding lookup
  no_lookup k j v w xs ys less b h = ground (
    arith,
    text_eq_iff k k,
    text_eq_iff j k,
    text_ltb_irrefl k,
    lookup-Above k ys (Above-trans k j ys less b),
  )

  -- Where two sorted lists map every key alike, they begin alike.
  same_head :
      (k j : Text) (v w : V) (xs ys : Map V)
      → Above k xs
      → Above j ys
      → ((i : Text) → lookup i ((k, v) ∷ xs) ≡ lookup i ((j, w) ∷ ys))
      → (k ≡ j) × (v ≡ w)
  unfolding lookup
  same_head k j v w xs ys a b h = elim (Bool-cases (text_ltb k j)) [
    | inl less ↦ absurd (no_lookup k j v w xs ys less b (h k))
    | inr e ↦ elim (Bool-cases (text_ltb j k)) [
      | inl more ↦ absurd (no_lookup j k w v ys xs more a (sym (h j)))
      | inr f ↦ ground (arith, text_ltb_total k j e f, h k, text_eq_iff k k)
    ]
  ]

  -- A sorted list is determined by what it maps each key to.
  pub sorted_unique :
      (xs ys : Map V)
      → IsSorted xs
      → IsSorted ys
      → ((k : Text) → lookup k xs ≡ lookup k ys)
      → xs ≡ ys
  sorted_unique [] [] s t h = refl
  sorted_unique [] ((j, w) ∷ ys) s t h = unfold lookup in ground (arith, h j, text_eq_iff j j)
  sorted_unique ((k, v) ∷ xs) [] s t h = unfold lookup in ground (arith, h k, text_eq_iff k k)
  sorted_unique ((k, v) ∷ xs) ((j, w) ∷ ys) s t h =
      let (e, f) = same_head k j v w xs ys s.0 t.0 h in
      let entries : ◌≡◌ {A = Text × V} (k, v) (j, w) = λ i. (e i, f i) in
      let above : Above k ys = subst (λ i. Above i ys) (sym e) t.0 in
      let tail : (i : Text) → lookup i xs ≡ lookup i ys =
        same_tail k v xs ys s.0 above
          (λ i. h i ∙ ap (λ entry. lookup i (entry ∷ ys)) (sym entries)) in
      ap₂ ◌∷◌ entries (sorted_unique xs ys s.1 t.1 tail)

  Above-Avoids : (k : Text) (m : Map V) → Above k m → Avoids k m
  Above-Avoids k [] a = tt
  Above-Avoids k ((j, w) ∷ m) a =
      (ground (arith, a.0, text_eq_iff j k, text_ltb_irrefl k), Above-Avoids k m a.1)

  -- A sorted list has distinct keys.
  pub IsSorted-HasDistinctKeys : (m : Map V) → IsSorted m → HasDistinctKeys m
  IsSorted-HasDistinctKeys [] s = tt
  IsSorted-HasDistinctKeys ((k, v) ∷ m) s = (Above-Avoids k m s.0, IsSorted-HasDistinctKeys m s.1)
