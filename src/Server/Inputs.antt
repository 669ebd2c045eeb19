-- ===== src/Server/Inputs.antt =====
-- The input frames of server/scene.go: who may write which path, which values a declared path takes,
-- and the commit of a frame that passes.
pub mod Atomic
pub mod Commit
use lumencast_go.Common.{
  ℕ, ℤ, pos, negsuc, Text, codes, Bool, true, false, not, ◌&&◌, Option, none, some, List, [], ◌∷◌,
  ◌++◌, Map, insert, lookup, ltb, ltb_int, any, is_empty, text_eq, byte_len, if◌then◌else◌,
}
use lumencast_go.Json.{value_of, Json, bool, num, str, Raw, is_valid_json}
use lumencast_go.Protocol.ErrorCodes.{
  ErrorCode, write_forbidden, unknown_path, invalid_value, internal,
}
use lumencast_go.Protocol.Frames.{Patch, Cause, Input}
use lumencast_go.Protocol.LeafPath.{has_prefix}
use lumencast_go.Protocol.Roles.{Role, role_test}
use lumencast_go.Server.Auth.{Identity, can_write}
use lumencast_go.Server.Store.{Value, raw, StoreError}
use lumencast_go.Server.Subscription.{Heap}
use lumencast_go.Server.Scene.{Scene, InputSpec, emit_with_cause}

-- The errors of checkConstraint.
pub data ConstraintError : Type 0 where
  bad_json : ConstraintError
  expected : Text → ConstraintError
  too_long : ConstraintError
  below_min : ConstraintError
  above_max : ConstraintError
  not_in_domain : ConstraintError

unfoldable pub accepts_input_path : Scene → Role → Text → Bool
accepts_input_path s role path =
    if has_prefix path (codes "__inputs")
    then (if is_empty s.declared_inputs
        then true
        else elim (lookup path s.declared_inputs) [ none ↦ false | some spec ↦ true ])
    else if has_prefix path (codes "__test")
    then text_eq role role_test
    else false

-- The four cases of the switch. `none` is Go's nil error.
abbrev pub check_string : InputSpec → Json → Option ConstraintError
check_string spec (str s) =
    if ltb_int (pos 0) spec.max_length && ltb_int spec.max_length (pos (byte_len s))
    then some too_long
    else none
check_string spec _ = some (expected (codes "string"))

abbrev pub above : Option ℤ → ℤ → Option ConstraintError
above none n = none
above (some max) n = if ltb_int max n then some above_max else none

abbrev pub in_range : Option ℤ → Option ℤ → ℤ → Option ConstraintError
in_range none max n = above max n
in_range (some min) max n = if ltb_int n min then some below_min else above max n

abbrev pub check_number : InputSpec → Json → Option ConstraintError
check_number spec (num n) = in_range spec.min spec.max (value_of n)
check_number spec _ = some (expected (codes "number"))

abbrev pub check_boolean : Json → Option ConstraintError
check_boolean (bool b) = none
check_boolean _ = some (expected (codes "boolean"))

abbrev pub check_enum : InputSpec → Json → Option ConstraintError
check_enum spec (str s) =
    if any (λ allowed. text_eq s allowed) spec.values then none else some not_in_domain
check_enum spec _ = some (expected (codes "enum string"))

unfoldable pub check_value : InputSpec → Json → Option ConstraintError
check_value spec v =
    if text_eq spec.type (codes "string")
    then check_string spec v
    else if text_eq spec.type (codes "number")
    then check_number spec v
    else if text_eq spec.type (codes "boolean")
    then check_boolean v
    else if text_eq spec.type (codes "enum")
    then check_enum spec v
    else none

unfoldable pub check_constraint : Scene → Text → Raw → Option ConstraintError
check_constraint s path value = elim (lookup path s.declared_inputs) [
  | none ↦ none
  | some spec ↦
      if text_eq spec.type []
      then none
      else elim value.value [ none ↦ some bad_json | some v ↦ check_value spec v ]
]

-- One round of the pre-validation: the error code, if the patch fails.
unfoldable pub check_patch : Scene → Identity → Patch → Option ErrorCode
check_patch s id p =
    if not (can_write id p.path)
    then some write_forbidden
    else if not (accepts_input_path s id.role p.path)
    then some unknown_path
    else if not (is_valid_json p.value)
    then some invalid_value
    else elim (check_constraint s p.path p.value) [ none ↦ none | some e ↦ some invalid_value ]

-- The code and the path of the first patch that fails.
unfoldable pub check_patches : Scene → Identity → List Patch → Option (ErrorCode × Text)
check_patches s id [] = none
check_patches s id (p ∷ ps) =
    let rest = check_patches s id ps in
    elim (check_patch s id p) [ none ↦ rest | some code ↦ some (code, p.path) ]

-- patches[p.Path] = p.Value, in order.
unfoldable pub collect : Map Value → List Patch → Map Value
collect m [] = m
collect m (p ∷ ps) = collect (insert p.path (raw p.value) m) ps

abbrev pub input_cause : Identity → Text → Option Cause
input_cause id client_msg_id =
    if text_eq client_msg_id []
    then none
    else some (record {
      source = id.role ++ codes ":" ++ (if text_eq id.subject [] then id.role else id.subject);
      input_id = client_msg_id;
    })

-- The error code and the path of the error frame; none for a frame that was applied.
abbrev pub Verdict : Type 0
Verdict = Option (ErrorCode × Text)

abbrev pub commit_verdict : Option StoreError → Verdict
commit_verdict none = none
commit_verdict (some e) = some (internal, [])

unfoldable pub apply_input : (ℕ → ℕ) → Scene → Heap → Identity → Input → Scene × Heap × Verdict
apply_input taken s h id frame =
    if is_empty frame.patches
    then (s, h, some (invalid_value, []))
    else elim (check_patches s id frame.patches) [
      | some failure ↦ (s, h, some failure)
      | none ↦
          (let (t, h', e) =
              emit_with_cause taken s h (collect [] frame.patches)
                (input_cause id frame.client_msg_id) none in
            (t, h', commit_verdict e))
    ]
