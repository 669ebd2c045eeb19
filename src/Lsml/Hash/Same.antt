-- ===== src/Lsml/Hash/Same.antt =====
-- When two JSON values hold the same content: what the canonical text does not tell apart.
use lumencast_go.Common.{◌≡◌, Text, Bool, Option, none, some}
use lumencast_go.Json.{
  Float64, Json, null, bool, num, str, arr, obj, Items, nil, cons, Fields, end, field, get_field,
}

-- The same content, in which the two zeros differ: objects whose keys lead to the same content, in any order.
mutual
  pub data Same : Json → Json → Type 0 where
    same_null : Same null null
    same_bool : {b : Bool} → Same (bool b) (bool b)
    same_num : {n : Float64} → Same (num n) (num n)
    same_str : {s : Text} → Same (str s) (str s)
    same_arr : {vs ws : Items} → SameItems vs ws → Same (arr vs) (arr ws)
    same_obj :
        {fs gs : Fields}
        → ((k : Text) → SameField (get_field k fs) (get_field k gs))
        → Same (obj fs) (obj gs)

  pub data SameItems : Items → Items → Type 0 where
    same_nil : SameItems nil nil
    same_cons :
        {v w : Json} {vs ws : Items}
        → Same v w
        → SameItems vs ws
        → SameItems (cons v vs) (cons w ws)

  pub data SameField : Option Json → Option Json → Type 0 where
    both_absent : SameField none none
    both_present : {v w : Json} → Same v w → SameField (some v) (some w)

-- The keys of each object are distinct, as those of a Go map are.
abbrev mutual
  pub IsDecoded : Json → Type 0
  IsDecoded (arr vs) = AreDecoded vs
  IsDecoded (obj fs) = HaveDecoded fs
  IsDecoded _ = Unit

  pub AreDecoded : Items → Type 0
  AreDecoded nil = Unit
  AreDecoded (cons v vs) = IsDecoded v × AreDecoded vs

  pub HaveDecoded : Fields → Type 0
  HaveDecoded end = Unit
  HaveDecoded (field k v fs) = (get_field k fs ≡ none) × (IsDecoded v × HaveDecoded fs)
