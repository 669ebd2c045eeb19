-- ===== src/Lsml/Validate/Parts.antt =====
-- One node and its parts: the checks of validateNode together.
use lumencast_go.Common.{
  ◌≡◌, ◌∙◌, ap, ◌↔◌, true, List, [], ◌∷◌, text_eq_iff, subst, inl, inr, Text, codes, Option, some,
  arith, Option-cases,
}
use lumencast_go.Json.{Json, arr, obj, Items, Fields, get_field, as_string}
use lumencast_go.Lsml.Capture.Reach.{Item}
use lumencast_go.Protocol.LeafPath.{Unicode}
use lumencast_go.Lsml.Validate.{Assets, Report, finish_node, primitives, animatable, is_one_of}
use lumencast_go.Lsml.Validate.Nodes.{IsNode, node_of, IsOneOf, IsPrimitive, IsAnimatable}
use lumencast_go.Lsml.Validate.Entries.{IsClean}
use lumencast_go.Lsml.Validate.Checks.{check_node_iff, finish_node-none, finish_node-some}

is_one_of_iff : (ts : List Text) (s : Text) → (is_one_of ts s ≡ true) ↔ IsOneOf ts s
unfolding is_one_of
is_one_of_iff [] s = ground arith
is_one_of_iff (t ∷ ts) s = ground (arith, is_one_of_iff ts s, text_eq_iff s t)

known_iff : (kind : Text) → (is_one_of primitives kind ≡ true) ↔ IsPrimitive kind
known_iff kind = is_one_of_iff primitives kind

-- The code compares with the names in another order.
animates_iff : (k : Text) → (is_one_of animatable k ≡ true) ↔ IsAnimatable k
animates_iff k = let known = is_one_of_iff animatable k in ground (arith, known)

module _ (u : Unicode) where
  -- What the look-ups of the parts of a node need.
  abbrev pub FineItems : Items → Type 0
  FineItems vs = (v : Json) → Item v vs → IsNode u v

  abbrev pub FineChildren : Option Json → Type 0
  FineChildren o = (vs : Items) (v : Json) → o ≡ some (arr vs) → Item v vs → IsNode u v

  abbrev pub FinePart : Option Json → Type 0
  FinePart o = (v : Json) → o ≡ some v → IsNode u v

  pub IsNode-sound :
      (base : Text) (assets : Option Assets) (node : Fields) (children template : Report)
      → (IsClean children → FineChildren (get_field (codes "children") node))
      → (IsClean template → FinePart (get_field (codes "template") node))
      → IsClean (
          finish_node u base assets
            (as_string (get_field (codes "kind") node))
            node
            children
            template)
      → IsNode u (obj node)
  IsNode-sound base assets node children template kids tmpl h =
      elim (Option-cases (as_string (get_field (codes "kind") node))) [
        | inl e ↦ absurd (
            finish_node-none u base assets node children template
              (subst (λ o. IsClean (finish_node u base assets o node children template)) e h))
        | inr (kind, e) ↦
            (let (known, (local, (below, repeats))) =
                (finish_node-some u base assets kind node children template).0
                  (subst (λ o. IsClean (finish_node u base assets o node children template)) e h) in
              let (binds, (animates, has_alt)) = (check_node_iff u base assets kind node).0 local in
              node_of
                (record {
                  kind = kind;
                  has_kind = e;
                  known = (known_iff kind).0 known;
                  binds = binds;
                  animates = λ anim k v e i. (animates_iff k).0 (animates anim k v e i);
                  has_alt = has_alt;
                })
                (kids below) (λ v is found. tmpl (repeats (ground (arith, e, is))) v found))
      ]

  pub node_complete :
      (base : Text) (assets : Option Assets) (node : Fields) (children template : Report)
      → (FineChildren (get_field (codes "children") node) → IsClean children)
      → (FinePart (get_field (codes "template") node) → IsClean template)
      → IsNode u (obj node)
      → IsClean (
          finish_node u base assets
            (as_string (get_field (codes "kind") node))
            node
            children
            template)
  node_complete base assets node children template kids tmpl (node_of w below repeats) =
      rw w.has_kind (
        (finish_node-some u base assets w.kind node children template).1 (
          (known_iff w.kind).1 w.known,
          (
            (check_node_iff u base assets w.kind node).1 (
              w.binds,
              (λ anim k v e i. (animates_iff k).1 (w.animates anim k v e i), w.has_alt),
            ),
            (kids below, λ same. tmpl (λ v found. repeats v (w.has_kind ∙ ap some same) found)),
          ),
        ))
