-- ===== src/Json.antt =====
-- The values of encoding/json, as Go's `any` holds them after an Unmarshal, and raw messages.
use lumencast_go.Common.{
  ◌≡◌, ℤ, pos, Text, Bool, true, false, Option, none, some, List, [], ◌∷◌, text_eq, if◌then◌else◌,
}

-- A finite float64: how many times 2^-1074 it is, or the zero that has a sign.
pub data Float64 : Type 0 where
  units : ℤ → Float64
  negative_zero : Float64

-- The value in comparisons and conversions, which do not tell the zeros apart.
abbrev pub value_of : Float64 → ℤ
value_of (units n) = n
value_of negative_zero = pos 0

-- The fields of an object stand in the order in which a `range` over the map would meet them.
mutual
  pub data Json : Type 0 where
    null : Json
    bool : Bool → Json
    num : Float64 → Json
    str : Text → Json
    arr : Items → Json
    obj : Fields → Json

  pub data Items : Type 0 where
    nil : Items
    cons : Json → Items → Items

  pub data Fields : Type 0 where
    end : Fields
    field : Text → Json → Fields → Fields

-- A json.RawMessage: its text, and what encoding/json reads it as (`none` if it is not valid JSON).
pub record Raw : Type 0 where
  pub bytes : Text
  pub value : Option Json

-- json.Valid
abbrev pub is_valid_json : Raw → Bool
is_valid_json r = elim r.value [ none ↦ false | some v ↦ true ]

-- v, ok := m[k]
unfoldable pub get_field : Text → Fields → Option Json
get_field k end = none
get_field k (field j v m) = if text_eq j k then some v else get_field k m

-- s, ok := v.(string)
abbrev pub as_string : Option Json → Option Text
as_string (some (str s)) = some s
as_string _ = none

abbrev pub to_list : Items → List Json
to_list nil = []
to_list (cons v vs) = v ∷ to_list vs

-- json.Marshal has a text for the value that reads back as the value.
abbrev pub Marshals : (Json → Option Raw) → Json → Type 0
Marshals marshal v = (r : Raw) × (marshal v ≡ some r) × (r.value ≡ some v)

abbrev pub MarshalsAll : (Json → Option Raw) → Fields → Type 0
MarshalsAll marshal end = Unit
MarshalsAll marshal (field k v fs) = Marshals marshal v × MarshalsAll marshal fs
