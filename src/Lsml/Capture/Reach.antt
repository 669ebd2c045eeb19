-- ===== src/Lsml/Capture/Reach.antt =====
-- The objects that a layout's children and templates lead to, as CheckZabCaptureNodes defines them.
use lumencast_go.Common.{◌≡◌, ◌⊎◌, none, some, List, [], ◌∷◌, All, codes}
use lumencast_go.Json.{Json, arr, obj, Items, cons, Fields, get_field}
use lumencast_go.Lsml.Capture.{CaptureError, check_object, Outcome, passed, failed, out_of_fuel}

pub data Item : Json → Items → Type 0 where
  first : {v : Json} {vs : Items} → Item v (cons v vs)
  later : {v w : Json} {vs : Items} → Item v vs → Item v (cons w vs)

-- The objects that an object leads to: itself, and those that its children and its template lead to.
pub data Reaches : Fields → Fields → Type 0 where
  itself : {fs : Fields} → Reaches fs fs
  by_child :
      {fs c f : Fields} {items : Items}
      → get_field (codes "children") fs ≡ some (arr items)
      → Item (obj c) items
      → Reaches c f
      → Reaches fs f
  by_template :
      {fs c f : Fields}
      → get_field (codes "template") fs ≡ some (obj c)
      → Reaches c f
      → Reaches fs f

-- Every object that a value leads to passes.
abbrev pub Fine : Json → Type 0
Fine (obj fs) = (f : Fields) → Reaches fs f → check_object f ≡ none
Fine _ = Unit

-- Some object that a value leads to fails with this error.
abbrev pub Bad : CaptureError → Json → Type 0
Bad e (obj fs) = (f : Fields) × Reaches fs f × (check_object f ≡ some e)
Bad e _ = ⊥

abbrev pub Some : (Json → Type 0) → List Json → Type 0
Some P [] = ⊥
Some P (v ∷ vs) = P v ⊎ Some P vs

-- What a result says of the stack that the loop started from.
abbrev pub Explains : Outcome → List Json → Type 0
Explains passed stack = All Fine stack
Explains (failed e) stack = Some (Bad e) stack
Explains out_of_fuel stack = ⊥
