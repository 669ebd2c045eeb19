-- ===== src/Lsml/Validate/Checks.antt =====
-- When the checks of one node in validateNode report no error.
use lumencast_go.Common.{
  ◌≡◌, refl, ◌↔◌, inl, inr, Text, codes, Bool, true, false, not, Option, none, some, [], ◌∷◌, ◌++◌,
  is_empty, text_eq, text_eq_iff, arith, Bool-cases, if◌then◌else◌,
}
use lumencast_go.Json.{Fields, get_field}
use lumencast_go.Lsml.Capture.{is_present}
use lumencast_go.Protocol.LeafPath.{Unicode}
use lumencast_go.Lsml.Validate.{
  Assets, Report, alt_required, clean, also, report_if, is_one_of, known_primitive, check_animates,
  check_image, has_hosts, warn_hosts, check_binds, check_node, finish_node,
}
use lumencast_go.Lsml.Validate.Entries.{
  IsClean, also_iff, report_if_iff, FineAnimate, FineBind, check_animates_iff, check_binds_iff,
}

module _ (u : Unicode) where
  warn_clean : (b : Bool) (base : Text) → IsClean (if b then warn_hosts base else clean)
  warn_clean true base = refl
  warn_clean false base = refl

  check_image_iff :
      (base : Text) (assets : Option Assets) (node : Fields)
      → IsClean (check_image base assets node) ↔ (is_present (get_field (codes "alt") node) ≡ true)
  unfolding check_image
  check_image_iff base assets node =
      let absent = not (is_present (get_field (codes "alt") node)) in
      let first = report_if_iff absent (base ++ codes ".alt") alt_required in
      let both =
        also_iff (report_if absent (base ++ codes ".alt") alt_required)
          (if has_hosts assets then warn_hosts base else clean) in
      (
        λ h. ground (arith, first.0 (both.0 h).0),
        λ h. both.1 (first.1 (ground (arith, h)), warn_clean (has_hosts assets) base),
      )

  -- A check that is made only in one case.
  only_if :
      (s t : Text) (r : Report) → IsClean (if text_eq s t then r else clean) ↔ (s ≡ t → IsClean r)
  only_if s t r = elim (Bool-cases (text_eq s t)) [
    | inl e ↦ rw e (λ h same. h, λ h. h ((text_eq_iff s t).0 e))
    | inr e ↦ rw e (λ h same. absurd (ground (arith, e, (text_eq_iff s t).1 same)), λ h. refl)
  ]

  abbrev pub FineAlt : Text → Fields → Type 0
  FineAlt kind node = kind ≡ codes "image" → is_present (get_field (codes "alt") node) ≡ true

  pub check_node_iff :
      (base : Text) (assets : Option Assets) (kind : Text) (node : Fields)
      → IsClean (check_node u base assets kind node) ↔ (
          FineBind u (get_field (codes "bind") node)
          × (FineAnimate (get_field (codes "animate") node) × FineAlt kind node))
  unfolding check_node
  check_node_iff base assets kind node =
      let binds = check_binds u base (get_field (codes "bind") node) in
      let anims = check_animates base (get_field (codes "animate") node) in
      let image = if text_eq kind (codes "image") then check_image base assets node else clean in
      let outer = also_iff binds (also anims image) in
      let inner = also_iff anims image in
      let b = check_binds_iff u base (get_field (codes "bind") node) in
      let a = check_animates_iff base (get_field (codes "animate") node) in
      let c = only_if kind (codes "image") (check_image base assets node) in
      let d = check_image_iff base assets node in
      (
        λ h. (
          b.0 (outer.0 h).0,
          (a.0 (inner.0 (outer.0 h).1).0, λ same. d.0 (c.0 (inner.0 (outer.0 h).1).1 same)),
        ),
        λ (f, (g, k)). outer.1 (b.1 f, inner.1 (a.1 g, c.1 (λ same. d.1 (k same)))),
      )

  not_empty : (kind : Text) → known_primitive kind ≡ true → is_empty kind ≡ false
  unfolding is_one_of text_eq
  not_empty [] h = absurd (ground (arith, h))
  not_empty (c ∷ s) h = refl

  -- What a clean node of this kind is.
  abbrev pub Good : Text → Option Assets → Text → Fields → Report → Report → Type 0
  Good base assets kind node children template =
      (known_primitive kind ≡ true)
      × (IsClean (check_node u base assets kind node)
          × (IsClean children × (kind ≡ codes "repeat" → IsClean template)))

  pub finish_node-none :
      (base : Text) (assets : Option Assets) (node : Fields) (children template : Report)
      → IsClean (finish_node u base assets none node children template)
      → ⊥
  unfolding finish_node
  finish_node-none base assets node children template h = absurd (ground (arith, h))

  pub finish_node-some :
      (base : Text) (assets : Option Assets) (kind : Text) (node : Fields)
      (children template : Report)
      → IsClean (finish_node u base assets (some kind) node children template)
        ↔ Good base assets kind node children template
  unfolding finish_node
  finish_node-some base assets kind node children template =
      elim (Bool-cases (known_primitive kind)) [
        | inl e ↦
            (let inside =
                also children (if text_eq kind (codes "repeat") then template else clean) in
              let outer = also_iff (check_node u base assets kind node) inside in
              let inner =
                also_iff children (if text_eq kind (codes "repeat") then template else clean) in
              let c = only_if kind (codes "repeat") template in
              rw (not_empty kind e, e)
                (
                  λ h. (
                    refl,
                    ((outer.0 h).0, ((inner.0 (outer.0 h).1).0, c.0 (inner.0 (outer.0 h).1).1)),
                  ),
                  λ h. outer.1 (h.1.0, inner.1 (h.1.1.0, c.1 h.1.1.1)),
                ))
        | inr e ↦ elim (Bool-cases (is_empty kind)) [
          | inl f ↦ rw (f, e) (ground arith)
          | inr f ↦ rw (f, e) (ground arith)
        ]
      ]
