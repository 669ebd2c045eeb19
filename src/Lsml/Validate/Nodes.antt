-- ===== src/Lsml/Validate/Nodes.antt =====
-- The nodes of a layout as the rules of LSML want them: what validateNode accepts.
use lumencast_go.Common.{◌≡◌, ◌⊎◌, Text, codes, true, none, some, List, [], ◌∷◌}
use lumencast_go.Json.{Json, str, arr, obj, Items, Fields, field, get_field, as_string}
use lumencast_go.Lsml.Capture.{is_present}
use lumencast_go.Lsml.Capture.Reach.{Item}
use lumencast_go.Protocol.LeafPath.{Unicode, validate_template}

-- A text that is one of the list.
abbrev pub IsOneOf : List Text → Text → Type 0
IsOneOf [] s = ⊥
IsOneOf (t ∷ ts) s = (s ≡ t) ⊎ IsOneOf ts s

-- The eight kinds of node of LSML 1.0.
abbrev pub IsPrimitive : Text → Type 0
IsPrimitive = IsOneOf (
    codes "stack"
    ∷ codes "grid"
    ∷ codes "frame"
    ∷ codes "text"
    ∷ codes "image"
    ∷ codes "shape"
    ∷ codes "media"
    ∷ codes "repeat"
    ∷ [])

-- What a node may animate, and the two names that say how.
abbrev pub IsAnimatable : Text → Type 0
IsAnimatable = IsOneOf (
    codes "transform"
    ∷ codes "opacity"
    ∷ codes "filter"
    ∷ codes "transition"
    ∷ codes "respectsReducedMotion"
    ∷ [])

-- An entry of an object.
pub data Entry (k : Text) (v : Json) : Fields → Type 0 where
  this : {fs : Fields} → Entry k v (field k v fs)
  that : {j : Text} {w : Json} {fs : Fields} → Entry k v fs → Entry k v (field j w fs)

module _ (u : Unicode) where
  -- The names that a node binds are path templates, it animates what may be, and an image has a text.
  pub record IsWellFormed (node : Fields) : Type 0 where
    pub kind : Text
    pub has_kind : as_string (get_field (codes "kind") node) ≡ some kind
    pub known : IsPrimitive kind
    pub binds :
        (bind : Fields) (k s : Text)
        → get_field (codes "bind") node ≡ some (obj bind)
        → Entry k (str s) bind
        → validate_template u s ≡ none
    pub animates :
        (anim : Fields) (k : Text) (v : Json)
        → get_field (codes "animate") node ≡ some (obj anim)
        → Entry k v anim
        → IsAnimatable k
    pub has_alt : kind ≡ codes "image" → is_present (get_field (codes "alt") node) ≡ true

  -- A node is an object that is well formed, and whose children are nodes, and for a `repeat` its
  -- template.
  pub data IsNode : Json → Type 0 where
    node_of :
        {node : Fields}
        → IsWellFormed node
        → ((vs : Items) (v : Json)
            → get_field (codes "children") node ≡ some (arr vs)
            → Item v vs
            → IsNode v)
        → ((v : Json)
            → as_string (get_field (codes "kind") node) ≡ some (codes "repeat")
            → get_field (codes "template") node ≡ some v
            → IsNode v)
        → IsNode (obj node)
