-- ===== src/Lsml/Capture.antt =====
-- lsml/capture.go: the checks of the capture nodes of a layout.
pub mod Alias
pub mod Reach
pub mod Size
pub mod Parts
pub mod Walk
pub mod Rules
use lumencast_go.Common.{
  ℕ, zero, suc, ◌+◌, Text, codes, Bool, true, false, not, ◌&&◌, ◌||◌, Option, none, some, List, [],
  ◌∷◌, ltb, leb, ◌==◌, all, is_empty, text_eq, byte_len, if◌then◌else◌,
}
use lumencast_go.Json.{
  Json, null, bool, num, str, arr, obj, Items, nil, cons, Fields, end, field, get_field, as_string,
}

abbrev pub zab_capture_kind : Text
zab_capture_kind = codes "x-zab.capture"

abbrev pub capture_visual_kinds : List Text
capture_visual_kinds =
    codes "media.webcam"
    ∷ codes "media.screen"
    ∷ codes "media.window"
    ∷ codes "media.file"
    ∷ codes "media.game"
    ∷ []

abbrev pub capture_audio_kinds : List Text
capture_audio_kinds = codes "media.app_audio" ∷ codes "media.system_audio" ∷ codes "media.mic" ∷ []

-- The errors of checkZabCapture.
pub data CaptureError : Type 0 where
  source_kind_missing : CaptureError
  source_kind_unknown : Text → CaptureError
  device_ref_missing : CaptureError
  device_ref_physical : Text → CaptureError
  size_missing : Text → CaptureError

unfoldable pub contains : List Text → Text → Bool
contains [] needle = false
contains (v ∷ haystack) needle = text_eq v needle || contains haystack needle

abbrev pub is_lower : ℕ → Bool
is_lower c = leb b'a' c && leb c b'z'

abbrev pub is_alias_char : ℕ → Bool
is_alias_char c = is_lower c || (leb b'0' c && leb c b'9') || c == b'-'

-- The bytes of a code point above 127 are all above 127, and fail as the code point does.
unfoldable pub is_logical_device_ref : Text → Bool
is_logical_device_ref [] = false
is_logical_device_ref (c ∷ s) =
    if ltb 64 (byte_len (c ∷ s)) then false else is_lower c && all is_alias_char s

abbrev pub is_present : Option Json → Bool
is_present none = false
is_present (some v) = true

-- The rule on the device, then the one on the geometry, for a known kind of source.
abbrev pub check_size : Bool → Text → Fields → Option CaptureError
check_size visual kind fs =
    if visual && not (is_present (get_field (codes "size") fs))
    then some (size_missing kind)
    else none

unfoldable pub check_device : Bool → Text → Option Text → Fields → Option CaptureError
check_device visual kind none fs = some device_ref_missing
check_device visual kind (some ref) fs =
    if is_logical_device_ref ref then check_size visual kind fs else some (device_ref_physical ref)

unfoldable pub check_source : Option Text → Fields → Option CaptureError
check_source none fs = some source_kind_missing
check_source (some kind) fs =
    let visual = contains capture_visual_kinds kind in
    if is_empty kind
    then some source_kind_missing
    else if not visual && not (contains capture_audio_kinds kind)
    then some (source_kind_unknown kind)
    else check_device visual kind (as_string (get_field (codes "x-zab.deviceRef") fs)) fs

unfoldable pub check_zab_capture : Fields → Option CaptureError
check_zab_capture fs = check_source (as_string (get_field (codes "x-zab.sourceKind") fs)) fs

-- kind, _ := obj["kind"].(string)
unfoldable pub is_capture : Option Text → Bool
is_capture none = false
is_capture (some kind) = text_eq kind zab_capture_kind

-- What the loop makes of one object, before it goes on to what the object holds.
unfoldable pub check_object : Fields → Option CaptureError
check_object fs =
    if is_capture (as_string (get_field (codes "kind") fs)) then check_zab_capture fs else none

-- stack = append(stack, children...). The first of the list is the top of the stack.
unfoldable pub push_items : Items → List Json → List Json
push_items nil stack = stack
push_items (cons v vs) stack = push_items vs (v ∷ stack)

unfoldable pub push_children : Option Json → List Json → List Json
push_children (some (arr children)) stack = push_items children stack
push_children _ stack = stack

unfoldable pub push_template : Option Json → List Json → List Json
push_template none stack = stack
push_template (some v) stack = v ∷ stack

unfoldable pub push_parts : Fields → List Json → List Json
push_parts fs stack =
    push_template (get_field (codes "template") fs)
      (push_children (get_field (codes "children") fs) stack)

pub data Outcome : Type 0 where
  passed : Outcome
  failed : CaptureError → Outcome
  out_of_fuel : Outcome

-- return err, or the rest of the loop
unfoldable pub or_fail : Option CaptureError → Outcome → Outcome
or_fail none rest = rest
or_fail (some e) rest = failed e

-- The loop, for as many turns as the fuel allows.
unfoldable pub check_stack : ℕ → List Json → Outcome
check_stack fuel [] = passed
check_stack zero (node ∷ stack) = out_of_fuel
check_stack (suc fuel) (obj fs ∷ stack) =
    or_fail (check_object fs) (check_stack fuel (push_parts fs stack))
check_stack (suc fuel) (node ∷ stack) = check_stack fuel stack

-- The number of values in a value, itself included.
abbrev mutual
  pub json_size : Json → ℕ
  json_size (arr vs) = suc (items_size vs)
  json_size (obj fs) = suc (fields_size fs)
  json_size _ = 1

  pub items_size : Items → ℕ
  items_size nil = 0
  items_size (cons v vs) = json_size v + items_size vs

  pub fields_size : Fields → ℕ
  fields_size end = 0
  fields_size (field k v fs) = json_size v + fields_size fs

-- Each turn takes one value of the root off the stack, and no value twice.
unfoldable pub check_zab_capture_nodes : Json → Outcome
check_zab_capture_nodes root = check_stack (json_size root) (root ∷ [])
