-- ===== src/Lsml/Validate/Bundles.antt =====
-- The bundles that Validate accepts.
use lumencast_go.Common.{
  ℕ, ◌+◌, ◌≡◌, refl, ◌↔◌, Text, codes, false, not, Option, none, some, List, [], ◌∷◌, ◌++◌, Map,
  All, is_empty, text_eq, text_eq_iff, arith, Option-cases, Bool-cases, inl, inr, subst,
}
use lumencast_go.Json.{Json, Raw}
use lumencast_go.Protocol.LeafPath.{Unicode, validate}
use lumencast_go.Lsml.Validate.{
  OperatorInput, Assets, Bundle, required, required_non_empty, unsupported_version, lsml_version,
  also, report_if, report_path, check_input, check_inputs, check_defaults, validate_fields,
  validate_layout, validate_bundle, decimal,
}
use lumencast_go.Lsml.Validate.Nodes.{IsNode}
use lumencast_go.Lsml.Validate.Entries.{IsClean, also_iff, report_if_iff, report_path_iff}
use lumencast_go.Lsml.Validate.Accept.{validate_node_iff}

module _ (u : Unicode) where
  pub record IsInput (oi : OperatorInput) : Type 0 where
    pub path : validate u oi.path ≡ none
    pub labelled : is_empty oi.label ≡ false
    pub typed : is_empty oi.type ≡ false
    pub writable : is_empty oi.writable_by ≡ false

  abbrev pub IsLayout : Raw → Type 0
  IsLayout r = (is_empty r.bytes ≡ false) × ((v : Json) × (r.value ≡ some v) × IsNode u v)

  -- The rules of LSML 1.0 on a bundle, as far as Validate checks them.
  pub record IsBundle (b : Bundle) : Type 0 where
    pub of_version : b.lsml ≡ codes "1.0"
    pub has_scene : is_empty b.scene_id ≡ false
    pub has_version : is_empty b.scene_version ≡ false
    pub layout : IsLayout b.layout
    pub inputs : All IsInput b.operator_inputs
    pub defaults : All (λ e. validate u e.0 ≡ none) b.defaults

  check_input_iff :
      (path : Text) (oi : OperatorInput) → IsClean (check_input u path oi) ↔ IsInput oi
  unfolding check_input
  check_input_iff path oi =
      let r1 = report_path (path ++ codes ".path") (validate u oi.path) in
      let r2 = report_if (is_empty oi.label) (path ++ codes ".label") required in
      let r3 = report_if (is_empty oi.type) (path ++ codes ".type") required in
      let r4 =
        report_if (is_empty oi.writable_by) (path ++ codes ".writable_by") required_non_empty in
      let a = also_iff r1 (also r2 (also r3 r4)) in
      let b = also_iff r2 (also r3 r4) in
      let c = also_iff r3 r4 in
      let p = report_path_iff (path ++ codes ".path") (validate u oi.path) in
      let l = report_if_iff (is_empty oi.label) (path ++ codes ".label") required in
      let t = report_if_iff (is_empty oi.type) (path ++ codes ".type") required in
      let w =
        report_if_iff (is_empty oi.writable_by) (path ++ codes ".writable_by") required_non_empty in
      (
        λ h. record {
          path = p.0 (a.0 h).0;
          labelled = l.0 (b.0 (a.0 h).1).0;
          typed = t.0 (c.0 (b.0 (a.0 h).1).1).0;
          writable = w.0 (c.0 (b.0 (a.0 h).1).1).1;
        },
        λ i. a.1 (p.1 i.path, b.1 (l.1 i.labelled, c.1 (t.1 i.typed, w.1 i.writable))),
      )

  check_inputs_iff :
      (i : ℕ) (ois : List OperatorInput) → IsClean (check_inputs u i ois) ↔ All IsInput ois
  unfolding check_inputs
  check_inputs_iff i [] = (λ h. tt, λ h. refl)
  check_inputs_iff i (oi ∷ ois) =
      let base = codes "operator_inputs[" ++ decimal i ++ codes "]" in
      let both = also_iff (check_input u base oi) (check_inputs u (i + 1) ois) in
      let one = check_input_iff base oi in
      let rest = check_inputs_iff (i + 1) ois in
      (λ h. (one.0 (both.0 h).0, rest.0 (both.0 h).1), λ h. both.1 (one.1 h.0, rest.1 h.1))

  check_defaults_iff :
      (m : Map Json) → IsClean (check_defaults u m) ↔ All (λ e. validate u e.0 ≡ none) m
  unfolding check_defaults
  check_defaults_iff [] = (λ h. tt, λ h. refl)
  check_defaults_iff ((path, v) ∷ m) =
      let name = codes "defaults." ++ path in
      let both = also_iff (report_path name (validate u path)) (check_defaults u m) in
      let one = report_path_iff name (validate u path) in
      let rest = check_defaults_iff m in
      (λ h. (one.0 (both.0 h).0, rest.0 (both.0 h).1), λ h. both.1 (one.1 h.0, rest.1 h.1))

  validate_layout_iff :
      (assets : Option Assets) (r : Raw) → IsClean (validate_layout u assets r) ↔ IsLayout r
  unfolding validate_layout
  validate_layout_iff assets r = elim (Bool-cases (is_empty r.bytes)) [
    | inl e ↦ rw e (λ h. absurd (ground (arith, h)), λ h. absurd (ground (arith, h.0)))
    | inr e ↦ elim (Option-cases r.value) [
      | inl f ↦ rw (e, f) (λ h. absurd (ground (arith, h)), λ h. absurd (ground (arith, h.1.1)))
      | inr (v, f) ↦
          (let node = validate_node_iff u (codes "layout") assets v in
            rw (e, f)
              (
                λ h. (refl, (v, refl, node.0 h)),
                λ h. node.1 (subst (IsNode u) (ground (arith, h.1.1)) h.1.2),
              ))
    ]
  ]

  validate_fields_iff :
      (b : Bundle)
      → IsClean (validate_fields u b) ↔ (
          (b.lsml ≡ lsml_version)
          × ((is_empty b.scene_id ≡ false) × (is_empty b.scene_version ≡ false)))
  unfolding validate_fields
  validate_fields_iff b =
      let wrong = not (text_eq b.lsml lsml_version) in
      let r1 = report_if wrong (codes "lsml") (unsupported_version b.lsml) in
      let r2 = report_if (is_empty b.scene_id) (codes "scene_id") required in
      let r3 = report_if (is_empty b.scene_version) (codes "scene_version") required in
      let x = also_iff r1 (also r2 r3) in
      let y = also_iff r2 r3 in
      let l = report_if_iff wrong (codes "lsml") (unsupported_version b.lsml) in
      let s = report_if_iff (is_empty b.scene_id) (codes "scene_id") required in
      let v = report_if_iff (is_empty b.scene_version) (codes "scene_version") required in
      let t = text_eq_iff b.lsml lsml_version in
      (
        λ h. (t.0 (ground (arith, l.0 (x.0 h).0)), (s.0 (y.0 (x.0 h).1).0, v.0 (y.0 (x.0 h).1).1)),
        λ h. x.1 (l.1 (ground (arith, t.1 h.0)), y.1 (s.1 h.1.0, v.1 h.1.1)),
      )

  -- Validate reports no error on a bundle exactly if the bundle keeps the rules that it is to check:
  -- version 1.0 of LSML, an id and a version, a layout whose nodes are all well formed, operator
  -- inputs that are complete, and wire paths for the names of the inputs and of the defaults. A node
  -- is well formed if it is of one of the eight kinds, binds only path templates, animates only
  -- transform, opacity and filter, beside their transition and respectsReducedMotion, and has an alt
  -- if it is an image.
  pub validate_bundle_iff : (b : Bundle) → IsClean (validate_bundle u (some b)) ↔ IsBundle b
  unfolding validate_bundle
  validate_bundle_iff b =
      let r1 = validate_fields u b in
      let r2 = validate_layout u b.assets b.layout in
      let r3 = check_inputs u 0 b.operator_inputs in
      let r4 = check_defaults u b.defaults in
      let x = also_iff r1 (also r2 (also r3 r4)) in
      let y = also_iff r2 (also r3 r4) in
      let z = also_iff r3 r4 in
      let f = validate_fields_iff b in
      let l = validate_layout_iff b.assets b.layout in
      let i = check_inputs_iff 0 b.operator_inputs in
      let d = check_defaults_iff b.defaults in
      (
        λ h. record {
          of_version = (f.0 (x.0 h).0).0;
          has_scene = (f.0 (x.0 h).0).1.0;
          has_version = (f.0 (x.0 h).0).1.1;
          layout = l.0 (y.0 (x.0 h).1).0;
          inputs = i.0 (z.0 (y.0 (x.0 h).1).1).0;
          defaults = d.0 (z.0 (y.0 (x.0 h).1).1).1;
        },
        λ k. x.1 (
          f.1 (k.of_version, (k.has_scene, k.has_version)),
          y.1 (l.1 k.layout, z.1 (i.1 k.inputs, d.1 k.defaults)),
        ),
      )
