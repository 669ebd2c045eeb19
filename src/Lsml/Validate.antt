-- ===== src/Lsml/Validate.antt =====
-- lsml/bundle.go and lsml/validate.go: bundles, and the findings of Validate on one.
pub mod Nodes
pub mod Entries
pub mod Checks
pub mod Parts
pub mod Accept
pub mod Bundles
use lumencast_go.Common.{
  ℕ, zero, suc, ◌+◌, ◌/◌, ◌%◌, Text, codes, Bool, true, false, not, ◌&&◌, ◌||◌, Option, none, some,
  List, [], ◌∷◌, ◌++◌, Map, ltb, is_empty, text_eq, if◌then◌else◌,
}
use lumencast_go.Json.{
  Json, null, bool, num, str, arr, obj, Items, nil, cons, Fields, end, field, Raw, get_field,
  as_string,
}
use lumencast_go.Lsml.Capture.{is_present}
use lumencast_go.Protocol.LeafPath.{Unicode, PathError, validate, validate_template}

abbrev pub lsml_version : Text
lsml_version = codes "1.0"

-- The field `type`.
pub record OperatorInput : Type 0 where
  pub path : Text
  pub label : Text
  pub type : Text
  pub constraints : Map Json
  pub values : List Json
  pub writable_by : List Text
  pub group : Text

pub record FontAsset : Type 0 where
  pub family : Text
  pub url : Text
  pub sha256 : Text

pub record Assets : Type 0 where
  pub allowed_hosts : List Text
  pub fonts : List FontAsset
  pub preload : List Text
  pub extra : Map Json

pub record Bundle : Type 0 where
  pub lsml : Text
  pub scene_id : Text
  pub scene_version : Text
  pub layout : Raw
  pub operator_inputs : List OperatorInput
  pub external_adapters : List Raw
  pub defaults : Map Json
  pub assets : Option Assets
  pub i18n : Raw
  pub metadata : Raw

-- The messages, with what they quote.
pub data Message : Type 0 where
  nil_bundle : Message
  unsupported_version : Text → Message
  required : Message
  required_non_empty : Message
  bad_path : PathError → Message
  invalid_json : Message
  unknown_primitive : Text → Message
  not_animatable : Message
  alt_required : Message
  hosts_at_runtime : Message

pub record Issue : Type 0 where
  pub path : Text
  pub message : Message

pub record Report : Type 0 where
  pub errors : List Issue
  pub warnings : List Issue

-- %d, with one digit for each unit of the fuel; a number has fewer digits than its value and one.
unfoldable pub digits : ℕ → ℕ → Text
digits zero n = []
digits (suc fuel) n =
    let high = digits fuel (n / 10) in
    if ltb n 10 then (b'0' + n) ∷ [] else high ++ ((b'0' + n % 10) ∷ [])

abbrev pub decimal : ℕ → Text
decimal n = digits (suc n) n

abbrev pub clean : Report
clean = record { errors = []; warnings = [] }

-- r.Errors = append(r.Errors, Issue{path, message})
abbrev pub report_error : Text → Message → Report
report_error path message = record {
  errors = record { path = path; message = message } ∷ [];
  warnings = [];
}

unfoldable pub also : Report → Report → Report
also r q = record { errors = r.errors ++ q.errors; warnings = r.warnings ++ q.warnings }

unfoldable pub report_if : Bool → Text → Message → Report
report_if true path message = report_error path message
report_if false path message = clean

unfoldable pub report_path : Text → Option PathError → Report
report_path path none = clean
report_path path (some e) = report_error path (bad_path e)

abbrev pub primitives : List Text
primitives =
    codes "stack"
    ∷ codes "grid"
    ∷ codes "frame"
    ∷ codes "text"
    ∷ codes "image"
    ∷ codes "shape"
    ∷ codes "media"
    ∷ codes "repeat"
    ∷ []

unfoldable pub is_one_of : List Text → Text → Bool
is_one_of [] s = false
is_one_of (t ∷ ts) s = text_eq s t || is_one_of ts s

abbrev pub known_primitive : Text → Bool
known_primitive kind = is_one_of primitives kind

abbrev pub animatable : List Text
animatable =
    codes "transition"
    ∷ codes "transform"
    ∷ codes "opacity"
    ∷ codes "filter"
    ∷ codes "respectsReducedMotion"
    ∷ []

-- The range over node["animate"].
unfoldable pub check_animate : Text → Fields → Report
check_animate base end = clean
check_animate base (field k v fs) =
    also (report_if (not (is_one_of animatable k)) (base ++ codes ".animate." ++ k) not_animatable)
      (check_animate base fs)

unfoldable pub check_animates : Text → Option Json → Report
check_animates base (some (obj anim)) = check_animate base anim
check_animates base _ = clean

abbrev pub has_hosts : Option Assets → Bool
has_hosts none = false
has_hosts (some a) = not (is_empty a.allowed_hosts)

abbrev pub warn_hosts : Text → Report
warn_hosts base = record {
  errors = [];
  warnings = record { path = base ++ codes ".bind.src"; message = hosts_at_runtime } ∷ [];
}

-- The checks of an image.
unfoldable pub check_image : Text → Option Assets → Fields → Report
check_image base assets node =
    also
      (report_if (not (is_present (get_field (codes "alt") node))) (base ++ codes ".alt")
        alt_required)
      (if has_hosts assets then warn_hosts base else clean)

module _ (u : Unicode) where
  -- The range over node["bind"]. What is no string is passed over.
  unfoldable pub check_bind : Text → Fields → Report
  check_bind base end = clean
  check_bind base (field k (str s) fs) =
      also (report_path (base ++ codes ".bind." ++ k) (validate_template u s)) (check_bind base fs)
  check_bind base (field k v fs) = check_bind base fs

  unfoldable pub check_binds : Text → Option Json → Report
  check_binds base (some (obj bind)) = check_bind base bind
  check_binds base _ = clean

  -- The checks of one node of a known kind, before its parts.
  unfoldable pub check_node : Text → Option Assets → Text → Fields → Report
  check_node base assets kind node = also (check_binds base (get_field (codes "bind") node)) (
      also (check_animates base (get_field (codes "animate") node))
        (if text_eq kind (codes "image") then check_image base assets node else clean))

  -- The parts of the node count only if its kind is a known one.
  unfoldable pub finish_node :
      Text → Option Assets → Option Text → Fields → Report → Report → Report
  finish_node base assets none node children template =
      report_error (base ++ codes ".kind") required
  finish_node base assets (some kind) node children template =
      if is_empty kind
      then report_error (base ++ codes ".kind") required
      else if not (known_primitive kind)
      then report_error (base ++ codes ".kind") (unknown_primitive kind)
      else also (check_node base assets kind node)
          (also children (if text_eq kind (codes "repeat") then template else clean))

  -- Each part is encoded again and decoded: the same value. `null` is read into a nil map, and what
  -- is neither null nor an object is an error.
  unfoldable mutual
    pub validate_node : Text → Option Assets → Json → Report
    validate_node base assets null = report_error (base ++ codes ".kind") required
    validate_node base assets (obj node) =
        finish_node base assets (as_string (get_field (codes "kind") node)) node
          (validate_children base assets node) (validate_template_of base assets node)
    validate_node base assets v = report_error base invalid_json

    -- node["children"], if it is an array.
    pub validate_children : Text → Option Assets → Fields → Report
    validate_children base assets end = clean
    validate_children base assets (field k v fs) =
        let here = validate_child_list base assets v in
        let rest = validate_children base assets fs in
        if text_eq k (codes "children") then here else rest

    pub validate_child_list : Text → Option Assets → Json → Report
    validate_child_list base assets (arr children) = validate_items base assets 0 children
    validate_child_list base assets v = clean

    pub validate_items : Text → Option Assets → ℕ → Items → Report
    validate_items base assets i nil = clean
    validate_items base assets i (cons child children) =
        also (validate_node (base ++ codes ".children[" ++ decimal i ++ codes "]") assets child)
          (validate_items base assets (i + 1) children)

    -- node["template"]
    pub validate_template_of : Text → Option Assets → Fields → Report
    validate_template_of base assets end = clean
    validate_template_of base assets (field k v fs) =
        let here = validate_node (base ++ codes ".template") assets v in
        let rest = validate_template_of base assets fs in
        if text_eq k (codes "template") then here else rest

  unfoldable pub validate_layout : Option Assets → Raw → Report
  validate_layout assets layout =
      if is_empty layout.bytes then report_error (codes "layout") required else elim layout.value [
        | none ↦ report_error (codes "layout") invalid_json
        | some v ↦ validate_node (codes "layout") assets v
      ]

  unfoldable pub check_input : Text → OperatorInput → Report
  check_input path oi = also (report_path (path ++ codes ".path") (validate u oi.path)) (
      also (report_if (is_empty oi.label) (path ++ codes ".label") required) (
        also (report_if (is_empty oi.type) (path ++ codes ".type") required)
          (report_if (is_empty oi.writable_by) (path ++ codes ".writable_by") required_non_empty)))

  unfoldable pub check_inputs : ℕ → List OperatorInput → Report
  check_inputs i [] = clean
  check_inputs i (oi ∷ ois) =
      also (check_input (codes "operator_inputs[" ++ decimal i ++ codes "]") oi)
        (check_inputs (i + 1) ois)

  unfoldable pub check_defaults : Map Json → Report
  check_defaults [] = clean
  check_defaults ((path, v) ∷ m) =
      also (report_path (codes "defaults." ++ path) (validate u path)) (check_defaults m)

  unfoldable pub validate_fields : Bundle → Report
  validate_fields b =
      also
        (report_if (not (text_eq b.lsml lsml_version)) (codes "lsml") (unsupported_version b.lsml))
        (also (report_if (is_empty b.scene_id) (codes "scene_id") required)
          (report_if (is_empty b.scene_version) (codes "scene_version") required))

  -- `none` is a nil bundle.
  unfoldable pub validate_bundle : Option Bundle → Report
  validate_bundle none = report_error [] nil_bundle
  validate_bundle (some b) = also (validate_fields b) (
      also (validate_layout b.assets b.layout)
        (also (check_inputs 0 b.operator_inputs) (check_defaults b.defaults)))
