-- ===== src/Examples/Lsml.antt =====
-- A layout with a capture node in a template, and a bundle in two orders.
use lumencast_go.Common.{
  starts_with, ends_with, split_dots, ◌≡◌, ◌≢◌, ◌↔◌, refl, pos, Text, codes, none, some, [], ◌∷◌,
  ◌++◌, text_eq, arith, Bool-cases, inl, inr,
}
use lumencast_go.Json.{
  units, Json, num, str, arr, obj, nil, cons, Fields, end, field, get_field, Raw,
}
use lumencast_go.Lsml.Capture.{check_zab_capture_nodes, check_zab_capture}
use lumencast_go.Lsml.Capture.Reach.{Explains}
use lumencast_go.Lsml.Capture.Walk.{check_zab_capture_nodes-Explains}
use lumencast_go.Lsml.Capture.Rules.{IsCapture, check_zab_capture_iff}
use lumencast_go.Lsml.Hash.{Printer, hash_raw}
use lumencast_go.Lsml.Hash.Same.{HaveDecoded, both_present, both_absent, same_num}
use lumencast_go.Lsml.Hash.Content.{SameContent, hash_raw-ignores_order_and_version}
use lumencast_go.Lsml.Validate.{
  Bundle, validate_bundle, validate_layout, validate_node, also, report_if, finish_node, is_one_of,
  check_node, check_binds, check_animates, check_bind, report_path, check_animate, check_image,
  check_input, digits, validate_fields, check_inputs, check_defaults,
}
use lumencast_go.Lsml.Validate.Entries.{IsClean}
use lumencast_go.Lsml.Validate.Bundles.{IsBundle, validate_bundle_iff}
use lumencast_go.Protocol.LeafPath.{
  validate_template, validate_path, check_segments, check_segment, identifier_from, is_identifier,
  valid_segment, validate,
}
use lumencast_go.Examples.Data.{ascii}

abbrev webcam : Fields
webcam = field (codes "kind") (str (codes "x-zab.capture")) (
    field (codes "x-zab.sourceKind") (str (codes "media.webcam"))
      (field (codes "x-zab.deviceRef") (str (codes "primary-cam")) end))

abbrev layout : Json
layout = obj (
    field (codes "children") (arr (cons (obj (field (codes "template") (obj webcam) end)) nil)) end)

check_zab_capture_nodes-Explains_example : Explains (check_zab_capture_nodes layout) (layout ∷ [])
check_zab_capture_nodes-Explains_example = check_zab_capture_nodes-Explains layout

check_zab_capture_iff_example : (check_zab_capture webcam ≡ none) ↔ IsCapture webcam
check_zab_capture_iff_example = check_zab_capture_iff webcam

-- A printer that tells apart what the bundles below hold.
abbrev printer : Printer
printer = record {
  marshal_string = λ s. b'"' ∷ (s ++ (b'"' ∷ []));
  marshal_number = λ n. codes "1";
  sha256_hex = λ s. s;
}

abbrev built : Fields
built =
    field (codes "scene_version") (str (codes "sha256:0a"))
      (field (codes "lsml") (num (units (pos 1))) end)

abbrev received : Fields
received =
    field (codes "lsml") (num (units (pos 1)))
      (field (codes "scene_version") (str (codes "sha256:0b")) end)

abbrev raw_of : Text → Fields → Raw
raw_of t fs = record { bytes = t; value = some (obj fs) }

built-HaveDecoded : HaveDecoded built
unfolding get_field text_eq
built-HaveDecoded = (refl, (tt, (refl, (tt, tt))))

received-HaveDecoded : HaveDecoded received
unfolding get_field text_eq
received-HaveDecoded = (refl, (tt, (refl, (tt, tt))))

built_versioned : get_field (codes "scene_version") built ≢ none
unfolding get_field text_eq
built_versioned h = absurd (ground (arith, h))

received_versioned : get_field (codes "scene_version") received ≢ none
unfolding get_field text_eq
received_versioned h = absurd (ground (arith, h))

same_content : SameContent built received
unfolding get_field
same_content k h = elim (Bool-cases (text_eq (codes "lsml") k)) [
  | inl e ↦ rw (h, e) (both_present same_num)
  | inr e ↦ rw (h, e) both_absent
]

hash_raw-ignores_order_and_version_example :
    hash_raw printer (raw_of (codes "a") built) ≡ hash_raw printer (raw_of (codes "b") received)
hash_raw-ignores_order_and_version_example =
    hash_raw-ignores_order_and_version printer (raw_of (codes "a") built)
      (raw_of (codes "b") received) built received refl refl built-HaveDecoded received-HaveDecoded
      built_versioned received_versioned same_content

-- A list whose template is an image, with one operator input.
abbrev poster : Fields
poster = field (codes "kind") (str (codes "image")) (
    field (codes "alt") (str [])
      (field (codes "bind") (obj (field (codes "src") (str (codes "guests.{i}.photo")) end)) end))

abbrev guests : Bundle
guests = record {
  lsml = codes "1.0";
  scene_id = codes "intro";
  scene_version = codes "sha256:0a";
  layout = record {
    bytes = codes "{}";
    value = some (
        obj (
          field (codes "kind") (str (codes "repeat")) (field (codes "template") (obj poster) end)));
  };
  operator_inputs =
      record {
        path = codes "__inputs.title";
        label = codes "Title";
        type = codes "string";
        constraints = [];
        values = [];
        writable_by = codes "operator" ∷ [];
        group = [];
      }
      ∷ [];
  external_adapters = [];
  defaults = [];
  assets = none;
  i18n = record { bytes = []; value = none };
  metadata = record { bytes = []; value = none };
}

-- The bundle is accepted.
guests-IsClean : IsClean (validate_bundle ascii (some guests))
unfolding validate_bundle validate_layout validate_node validate_fields check_inputs check_defaults
    also report_if text_eq finish_node get_field is_one_of check_node check_binds check_animates
    check_bind report_path validate_template validate_path check_segments check_segment split_dots
    starts_with ends_with check_animate check_image check_input digits identifier_from is_identifier
    valid_segment validate
guests-IsClean = refl

validate_bundle_iff_example : IsClean (validate_bundle ascii (some guests)) ↔ IsBundle ascii guests
validate_bundle_iff_example = validate_bundle_iff ascii guests
