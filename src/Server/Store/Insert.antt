-- ===== src/Server/Store/Insert.antt =====
-- A map of patches that is filled one patch at a time, as the callers of a scene do.
use lumencast_go.Common.{◌≡◌, refl, inl, inr, Text, some, [], ◌∷◌, Map, insert, text_eq, Bool-cases}
use lumencast_go.Json.{Raw}
use lumencast_go.Server.Store.{Value, encode_value}
use lumencast_go.Server.Store.Apply.{Encodes}

pub insert-Encodes :
    (k : Text) (v : Value) (r : Raw) (m : Map Value) (xs : Map Raw)
    → encode_value v ≡ some r
    → Encodes m xs
    → Encodes (insert k v m) (insert k r xs)
unfolding insert
insert-Encodes k v r [] [] e h = (refl, e, tt)
insert-Encodes k v r [] (x ∷ xs) e h = absurd h
insert-Encodes k v r (p ∷ m) [] e h = absurd h
insert-Encodes k v r ((i, w) ∷ m) ((j, x) ∷ xs) e h = rw (← h.0) (elim (Bool-cases (text_eq i k)) [
  | inl same ↦ rw same (refl, e, h.2)
  | inr other ↦ rw other (refl, h.1, insert-Encodes k v r m xs e h.2)
])

pub insert-nonempty :
    (k : Text) (v : Value) (m : Map Value)
    → (q : Text × Value) × (qs : Map Value) × (insert k v m ≡ q ∷ qs)
unfolding insert
insert-nonempty k v [] = ((k, v), [], refl)
insert-nonempty k v ((j, w) ∷ m) = elim (Bool-cases (text_eq j k)) [
  | inl e ↦ ((k, v), m, rw e refl)
  | inr e ↦ ((j, w), insert k v m, rw e refl)
]
