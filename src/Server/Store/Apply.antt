-- ===== src/Server/Store/Apply.antt =====
-- What applyPatches does to the state and what it returns, on success and on failure.
use lumencast_go.Common.{
  ◌≡◌, refl, ap, sym, ◌∙◌, Text, false, none, some, [], ◌∷◌, ◌++◌, arith, All, Map, HasDistinctKeys,
  lookup, insert, lookup-insert, text_eq, text_eq_iff, append_assoc, append-nil,
}
use lumencast_go.Json.{Raw}
use lumencast_go.Server.Store.{
  Value, encode, ok, err, encode_value, sort_patches, apply_loop, apply_patches,
}
use lumencast_go.Common.Sorting.{
  IsSorted, IsSorted-HasDistinctKeys, lookup-sort_by_key, sort_by_key-IsSorted, sorted_unique,
}

-- `xs` is the encoding of every patch of `ps`.
abbrev pub Encodes : Map Value → Map Raw → Type 0
Encodes [] [] = Unit
Encodes [] (x ∷ xs) = ⊥
Encodes (p ∷ ps) [] = ⊥
Encodes ((k, v) ∷ ps) ((j, r) ∷ xs) = (k ≡ j) × (encode_value v ≡ some r) × Encodes ps xs

-- The assignments s[k] = v, one after the other.
unfoldable pub insert_all : Map Raw → Map Raw → Map Raw
insert_all s [] = s
insert_all s ((k, v) ∷ xs) = insert_all (insert k v s) xs

pub apply_loop-Encodes :
    (s out xs : Map Raw) (ps : Map Value)
    → Encodes ps xs
    → apply_loop s out ps ≡ (insert_all s xs, ok (sort_patches (out ++ xs)))
unfolding apply_loop insert_all
apply_loop-Encodes s out [] [] h = ground (arith, append-nil out)
apply_loop-Encodes s out (x ∷ xs) [] h = absurd h
apply_loop-Encodes s out [] (p ∷ ps) h = absurd h
apply_loop-Encodes s out ((j, r) ∷ xs) ((k, v) ∷ ps) h = ground (
  arith,
  apply_loop-Encodes (insert k r s) (out ++ ((k, r) ∷ [])) xs ps,
  append_assoc out ((k, r) ∷ []) xs,
)

pub apply_patches-Encodes :
    (s xs : Map Raw) (p : Text × Value) (ps : Map Value)
    → Encodes (p ∷ ps) xs
    → apply_patches s (p ∷ ps) ≡ (insert_all s xs, ok (sort_patches xs))
unfolding apply_patches
apply_patches-Encodes s xs p ps h = apply_loop-Encodes s [] xs (p ∷ ps) h

-- A patch that cannot be encoded stops the loop there, with the patches before it written.
apply_loop-stops :
    (s out xs : Map Raw) (ps rest : Map Value) (k : Text) (v : Value)
    → Encodes ps xs
    → encode_value v ≡ none
    → apply_loop s out (ps ++ ((k, v) ∷ rest)) ≡ (insert_all s xs, err (encode k))
unfolding apply_loop insert_all
apply_loop-stops s out [] [] rest k v h e = ground arith
apply_loop-stops s out (x ∷ xs) [] rest k v h e = absurd h
apply_loop-stops s out [] (p ∷ ps) rest k v h e = absurd h
apply_loop-stops s out ((j, r) ∷ xs) ((i, w) ∷ ps) rest k v h e =
    ground (arith, apply_loop-stops (insert i r s) (out ++ ((i, r) ∷ [])) xs ps rest k v, e)

lookup-insert_all_skip :
    (s xs : Map Raw) (j : Text) → lookup j xs ≡ none → lookup j (insert_all s xs) ≡ lookup j s
unfolding insert_all lookup
lookup-insert_all_skip s [] j h = refl
lookup-insert_all_skip s ((k, v) ∷ xs) j h =
    ground (arith, lookup-insert_all_skip (insert k v s) xs j, lookup-insert k j v s)

lookup-avoids : (k : Text) (xs : Map Raw) → All (λ e. text_eq e.0 k ≡ false) xs → lookup k xs ≡ none
unfolding lookup
lookup-avoids k [] a = refl
lookup-avoids k ((j, v) ∷ xs) a = ground (arith, lookup-avoids k xs)

pub lookup-insert_all :
    (s xs : Map Raw) (j : Text)
    → HasDistinctKeys xs
    → lookup j (insert_all s xs) ≡ (elim (lookup j xs) [ none ↦ lookup j s | some r ↦ some r ])
unfolding insert_all lookup
lookup-insert_all s [] j d = refl
lookup-insert_all s ((k, v) ∷ xs) j d = ground (
  arith,
  lookup-insert_all (insert k v s) xs j d.1,
  lookup-insert k j v s,
  text_eq_iff k j,
  lookup-avoids k xs d.0,
)

-- Writing the patches in sorted order gives the same leaves.
pub lookup-insert_all_sorted :
    (s t xs : Map Raw) (j : Text)
    → HasDistinctKeys xs
    → lookup j s ≡ lookup j t
    → lookup j (insert_all s (sort_patches xs)) ≡ lookup j (insert_all t xs)
lookup-insert_all_sorted s t xs j d e = ground (
  arith,
  lookup-insert_all s (sort_patches xs) j
      (IsSorted-HasDistinctKeys (sort_patches xs) (sort_by_key-IsSorted xs d)),
  lookup-insert_all t xs j d,
  lookup-sort_by_key j xs,
)

-- Patches that can all be encoded are all written, and come back sorted by path: the state holds
-- each of them and is as before elsewhere.
apply_patches_succeeds :
    (s xs : Map Raw) (p : Text × Value) (ps : Map Value)
    → Encodes (p ∷ ps) xs
    → HasDistinctKeys xs
    → let (s', result) = apply_patches s (p ∷ ps) in
      (result ≡ ok (sort_patches xs))
      × IsSorted (sort_patches xs)
      × ((j : Text)
          → (lookup j (sort_patches xs) ≡ lookup j xs)
            × (lookup j s' ≡ (elim (lookup j xs) [ none ↦ lookup j s | some r ↦ some r ])))
unfolding apply_patches
apply_patches_succeeds s xs p ps h d =
    rw (apply_loop-Encodes s [] xs (p ∷ ps) h)
      (refl, sort_by_key-IsSorted xs d, λ j. (lookup-sort_by_key j xs, lookup-insert_all s xs j d))

-- The order in which Go ranges over the map of patches does not show: two orders of the same
-- patches give the same sorted patches, and states that hold the same leaves.
apply_patches_order :
    (s xs ys : Map Raw) (p q : Text × Value) (ps qs : Map Value)
    → Encodes (p ∷ ps) xs
    → Encodes (q ∷ qs) ys
    → HasDistinctKeys xs
    → HasDistinctKeys ys
    → ((k : Text) → lookup k xs ≡ lookup k ys)
    → let (s', result) = apply_patches s (p ∷ ps) in
      let (t', result') = apply_patches s (q ∷ qs) in
      (result ≡ result') × ((j : Text) → lookup j s' ≡ lookup j t')
unfolding apply_patches
apply_patches_order s xs ys p q ps qs h k d e same =
    rw (apply_loop-Encodes s [] xs (p ∷ ps) h, apply_loop-Encodes s [] ys (q ∷ qs) k)
      (ap ok sorted, λ j. rw (lookup-insert_all s xs j d, lookup-insert_all s ys j e, same j))
  where
    sorted : sort_patches xs ≡ sort_patches ys
    sorted =
        sorted_unique (sort_patches xs) (sort_patches ys) (sort_by_key-IsSorted xs d)
          (sort_by_key-IsSorted ys e)
          (λ k. lookup-sort_by_key k xs ∙ same k ∙ sym (lookup-sort_by_key k ys))

apply_patches-nonempty :
    (s : Map Raw) (ps rest : Map Value) (k : Text) (v : Value)
    → apply_patches s (ps ++ ((k, v) ∷ rest)) ≡ apply_loop s [] (ps ++ ((k, v) ∷ rest))
unfolding apply_patches
apply_patches-nonempty s [] rest k v = refl
apply_patches-nonempty s (p ∷ ps) rest k v = refl

-- A patch that cannot be encoded fails the call, but the patches that the range met before it stay
-- written, and no others.
pub apply_patches_partial :
    (s xs : Map Raw) (ps rest : Map Value) (k : Text) (v : Value)
    → Encodes ps xs
    → HasDistinctKeys xs
    → encode_value v ≡ none
    → let (s', result) = apply_patches s (ps ++ ((k, v) ∷ rest)) in
      (result ≡ err (encode k))
      × ((j : Text) → lookup j s' ≡ (elim (lookup j xs) [ none ↦ lookup j s | some r ↦ some r ]))
apply_patches_partial s xs ps rest k v h d e =
    rw (apply_patches-nonempty s ps rest k v, apply_loop-stops s [] xs ps rest k v h e)
      (refl, λ j. lookup-insert_all s xs j d)
