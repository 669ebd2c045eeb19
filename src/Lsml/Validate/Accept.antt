-- ===== src/Lsml/Validate/Accept.antt =====
-- The layouts that validateNode accepts.
use lumencast_go.Common.{
  ℕ, ◌+◌, ◌≡◌, refl, subst, ◌↔◌, inl, inr, Text, codes, Option, some, ◌++◌, text_eq, arith,
  Bool-cases,
}
use lumencast_go.Json.{
  Json, null, bool, num, str, arr, obj, Items, nil, cons, Fields, end, field, get_field,
}
use lumencast_go.Lsml.Capture.Reach.{first, later}
use lumencast_go.Protocol.LeafPath.{Unicode}
use lumencast_go.Lsml.Validate.{
  Assets, validate_node, validate_children, validate_child_list, validate_items,
  validate_template_of, decimal,
}
use lumencast_go.Lsml.Validate.Nodes.{IsNode, node_of}
use lumencast_go.Lsml.Validate.Entries.{IsClean, also_iff}
use lumencast_go.Lsml.Validate.Parts.{
  FineItems, FineChildren, FinePart, IsNode-sound, node_complete,
}

module _ (u : Unicode) where
  -- Only an object is a node.
  IsNode-obj : (v : Json) → IsNode u v → (fs : Fields) × (v ≡ obj fs)
  IsNode-obj _ (node_of {node} w below repeats) = (node, refl)

  -- A value that is no object, and one that is no array.
  abbrev NotObject : Json → Type 0
  NotObject (obj fs) = ⊥
  NotObject _ = Unit

  abbrev NotArray : Json → Type 0
  NotArray (arr vs) = ⊥
  NotArray _ = Unit

  no-IsNode :
      (base : Text) (assets : Option Assets) (v : Json)
      → NotObject v
      → IsClean (validate_node u base assets v) ↔ IsNode u v
  unfolding validate_node
  no-IsNode base assets v o = (λ h. absurd (reported v o h), λ n. absurd (nowhere v o n))
    where
      reported : (w : Json) → NotObject w → IsClean (validate_node u base assets w) → ⊥
      reported null o h = absurd (ground (arith, h))
      reported (bool b) o h = absurd (ground (arith, h))
      reported (num n) o h = absurd (ground (arith, h))
      reported (str s) o h = absurd (ground (arith, h))
      reported (arr vs) o h = absurd (ground (arith, h))
      reported (obj fs) o h = o

      nowhere : (w : Json) → NotObject w → IsNode u w → ⊥
      nowhere w o n = let (fs, e) = IsNode-obj w n in subst NotObject e o

  no_list :
      (base : Text) (assets : Option Assets) (v : Json)
      → NotArray v
      → IsClean (validate_child_list u base assets v) ↔ FineChildren u (some v)
  unfolding validate_child_list
  no_list base assets v o = (λ h vs w same. absurd (elsewhere v o vs same), λ h. silent v o)
    where
      elsewhere : (x : Json) → NotArray x → (vs : Items) → some x ≡ some (arr vs) → ⊥
      elsewhere x o vs same = let e : x ≡ arr vs = ground (arith, same) in subst NotArray e o

      silent : (x : Json) → NotArray x → IsClean (validate_child_list u base assets x)
      silent null o = refl
      silent (bool b) o = refl
      silent (num n) o = refl
      silent (str s) o = refl
      silent (obj fs) o = refl
      silent (arr vs) o = absurd o

  in_list :
      (base : Text) (assets : Option Assets) (vs : Items)
      → IsClean (validate_items u base assets 0 vs) ↔ FineItems u vs
      → IsClean (validate_child_list u base assets (arr vs)) ↔ FineChildren u (some (arr vs))
  unfolding validate_child_list
  in_list base assets vs inside = (
    λ h ws w same. subst (λ us. FineItems u us) (ground (arith, same)) (inside.0 h) w,
    λ h. inside.1 (λ w j. h vs w refl j),
  )

  no_children :
      (base : Text) (assets : Option Assets)
      → IsClean (validate_children u base assets end)
        ↔ FineChildren u (get_field (codes "children") end)
  unfolding validate_children get_field
  no_children base assets = (λ h vs v same. absurd (ground (arith, same)), λ h. refl)

  no_template :
      (base : Text) (assets : Option Assets)
      → IsClean (validate_template_of u base assets end)
        ↔ FinePart u (get_field (codes "template") end)
  unfolding validate_template_of get_field
  no_template base assets = (λ h v same. absurd (ground (arith, same)), λ h. refl)

  no_items :
      (base : Text) (assets : Option Assets) (i : ℕ)
      → IsClean (validate_items u base assets i nil) ↔ FineItems u nil
  unfolding validate_items
  no_items base assets i = (λ h v j. elim j [ ], λ h. refl)

  validate_node-obj :
      (base : Text) (assets : Option Assets) (node : Fields)
      → IsClean (validate_children u base assets node)
        ↔ FineChildren u (get_field (codes "children") node)
      → IsClean (validate_template_of u base assets node)
        ↔ FinePart u (get_field (codes "template") node)
      → IsClean (validate_node u base assets (obj node)) ↔ IsNode u (obj node)
  unfolding validate_node
  validate_node-obj base assets node kids tmpl =
      let children = validate_children u base assets node in
      let template = validate_template_of u base assets node in
      (
        IsNode-sound u base assets node children template kids.0 tmpl.0,
        node_complete u base assets node children template kids.1 tmpl.1,
      )

  validate_children-field :
      (base : Text) (assets : Option Assets) (k : Text) (v : Json) (fs : Fields)
      → IsClean (validate_child_list u base assets v) ↔ FineChildren u (some v)
      → IsClean (validate_children u base assets fs)
        ↔ FineChildren u (get_field (codes "children") fs)
      → IsClean (validate_children u base assets (field k v fs))
        ↔ FineChildren u (get_field (codes "children") (field k v fs))
  unfolding validate_children get_field
  validate_children-field base assets k v fs here rest =
      elim (Bool-cases (text_eq k (codes "children"))) [ inl e ↦ rw e here | inr e ↦ rw e rest ]

  validate_template_of-field :
      (base : Text) (assets : Option Assets) (k : Text) (v : Json) (fs : Fields)
      → IsClean (validate_node u (base ++ codes ".template") assets v) ↔ IsNode u v
      → IsClean (validate_template_of u base assets fs)
        ↔ FinePart u (get_field (codes "template") fs)
      → IsClean (validate_template_of u base assets (field k v fs))
        ↔ FinePart u (get_field (codes "template") (field k v fs))
  unfolding validate_template_of get_field
  validate_template_of-field base assets k v fs here rest =
      elim (Bool-cases (text_eq k (codes "template"))) [
        | inl e ↦
            rw e (
              λ h w same. subst (IsNode u) (ground (arith, same)) (here.0 h),
              λ h. here.1 (h v refl),
            )
        | inr e ↦ rw e rest
      ]

  validate_items-cons :
      (base : Text) (assets : Option Assets) (i : ℕ) (v : Json) (vs : Items)
      → IsClean (validate_node u (base ++ codes ".children[" ++ decimal i ++ codes "]") assets v)
        ↔ IsNode u v
      → IsClean (validate_items u base assets (i + 1) vs) ↔ FineItems u vs
      → IsClean (validate_items u base assets i (cons v vs)) ↔ FineItems u (cons v vs)
  unfolding validate_items
  validate_items-cons base assets i v vs here rest =
      let both =
        also_iff (validate_node u (base ++ codes ".children[" ++ decimal i ++ codes "]") assets v)
          (validate_items u base assets (i + 1) vs) in
      (
        λ h. split (here.0 (both.0 h).0) (rest.0 (both.0 h).1),
        λ h. both.1 (here.1 (h v first), rest.1 (λ w j. h w (later j))),
      )
    where
      split : IsNode u v → FineItems u vs → FineItems u (cons v vs)
      split n h w first = n
      split n h w (later j) = h w j

  mutual
    IsNode-iff :
        (base : Text) (assets : Option Assets) (v : Json)
        → IsClean (validate_node u base assets v) ↔ IsNode u v
    IsNode-iff base assets (obj node) =
        validate_node-obj base assets node (children_iff base assets node)
          (template_iff base assets node)
    IsNode-iff base assets null = no-IsNode base assets null tt
    IsNode-iff base assets (bool b) = no-IsNode base assets (bool b) tt
    IsNode-iff base assets (num n) = no-IsNode base assets (num n) tt
    IsNode-iff base assets (str s) = no-IsNode base assets (str s) tt
    IsNode-iff base assets (arr vs) = no-IsNode base assets (arr vs) tt

    children_iff :
        (base : Text) (assets : Option Assets) (fs : Fields)
        → IsClean (validate_children u base assets fs)
          ↔ FineChildren u (get_field (codes "children") fs)
    children_iff base assets end = no_children base assets
    children_iff base assets (field k v fs) =
        validate_children-field base assets k v fs (child_list_iff base assets v)
          (children_iff base assets fs)

    child_list_iff :
        (base : Text) (assets : Option Assets) (v : Json)
        → IsClean (validate_child_list u base assets v) ↔ FineChildren u (some v)
    child_list_iff base assets (arr vs) = in_list base assets vs (items_iff base assets 0 vs)
    child_list_iff base assets null = no_list base assets null tt
    child_list_iff base assets (bool b) = no_list base assets (bool b) tt
    child_list_iff base assets (num n) = no_list base assets (num n) tt
    child_list_iff base assets (str s) = no_list base assets (str s) tt
    child_list_iff base assets (obj fs) = no_list base assets (obj fs) tt

    items_iff :
        (base : Text) (assets : Option Assets) (i : ℕ) (vs : Items)
        → IsClean (validate_items u base assets i vs) ↔ FineItems u vs
    items_iff base assets i nil = no_items base assets i
    items_iff base assets i (cons v vs) =
        validate_items-cons base assets i v vs
          (IsNode-iff (base ++ codes ".children[" ++ decimal i ++ codes "]") assets v)
          (items_iff base assets (i + 1) vs)

    template_iff :
        (base : Text) (assets : Option Assets) (fs : Fields)
        → IsClean (validate_template_of u base assets fs)
          ↔ FinePart u (get_field (codes "template") fs)
    template_iff base assets end = no_template base assets
    template_iff base assets (field k v fs) =
        validate_template_of-field base assets k v fs
          (IsNode-iff (base ++ codes ".template") assets v) (template_iff base assets fs)

  -- A layout node is accepted exactly if it and all that it leads to are well formed.
  pub validate_node_iff :
      (base : Text) (assets : Option Assets) (v : Json)
      → IsClean (validate_node u base assets v) ↔ IsNode u v
  validate_node_iff base assets v = IsNode-iff base assets v
