-- ===== src/Interop/Control.antt =====
-- interop/control/control.go: the requests of the control plane, what they say of a scene, and the
-- table of tokens. The handlers are in Handlers, each one step.
pub mod Handlers
pub mod Values
pub mod Setup
pub mod Tokens
pub mod Emit
use lumencast_go.Common.{
  ℕ, zero, suc, ℤ, pos, negsuc, ◌+◌, ◌/◌, ◌^◌, Text, codes, Bool, true, false, not, ◌&&◌, ◌||◌,
  Option, none, some, List, [], ◌∷◌, ◌++◌, map, Map, lookup, insert, is_empty, text_eq, ltb,
  if◌then◌else◌,
}
use lumencast_go.Json.{
  value_of, Json, null, bool, num, str, arr, obj, Items, nil, cons, Fields, end, field, Raw,
  get_field, as_string,
}
use lumencast_go.Protocol.ErrorCodes.{invalid_value}
use lumencast_go.Protocol.Roles.{Role, role_operator, role_viewer, role_service, role_test}
use lumencast_go.Lsml.Capture.{
  CaptureError, Outcome, passed, failed, out_of_fuel, check_zab_capture_nodes,
}
use lumencast_go.Server.Auth.{Identity, StaticTokens, set_token, reset_tokens}
use lumencast_go.Server.Store
use lumencast_go.Server.Store.{Value, other, StoreError, empty_patches, encode}
use lumencast_go.Server.Subscription.{Heap}
use lumencast_go.Server.Scene.{
  Scene, SceneOption, InputSpec, with_scene_version, with_operator_inputs, set_version, reject, set,
  emit_with_cause,
}
use lumencast_go.Server.Hub.{Server, register_scene, set_active, drop_scenes, active_scene}

pub record Plane : Type 0 where
  pub srv : Server
  pub auth : StaticTokens
  pub ws_base : Text
  pub active : Text

pub record SetupBundle : Type 0 where
  pub id : Text
  pub hash : Text
  pub inline : Fields

pub record SetupRequest : Type 0 where
  pub scenario : Text
  pub tokens : Map Text
  pub bundles : List SetupBundle
  pub initial_state : Fields

pub record SetupResponse : Type 0 where
  pub ws_url : Text
  pub scene_id : Text
  pub scene_version : Text

pub record StateResponse : Type 0 where
  pub scene_id : Text
  pub scene_version : Text
  pub state : Map Json

pub record EmitPatch : Type 0 where
  pub path : Text
  pub value : Json

-- The body of a request, as encoding/json reads it, or the wording of its error.
pub data Body (A : Type 0) : Type 0 where
  read : A → Body A
  unreadable : Text → Body A

-- The answers: a body of status 200, the status 204, and a problem with its status and code.
pub data Response : Type 0 where
  set_up : SetupResponse → Response
  state : StateResponse → Response
  healthy : Response
  no_content : Response
  problem : ℕ → Text → Text → Response

-- json.Marshal of a decoded value, the wording of errors, and the conversion to int of a float64
-- that is out of its range, which Go leaves to the implementation.
pub record Environment : Type 0 where
  pub marshal : Json → Option Raw
  pub explain_capture : CaptureError → Text
  pub explain_store : StoreError → Text
  pub convert : ℤ → ℤ

-- placeholderRole
unfoldable pub placeholder_role : Text → Option Role
placeholder_role placeholder =
    if text_eq placeholder (codes "$TOKEN_OPERATOR")
    then some role_operator
    else if text_eq placeholder (codes "$TOKEN_VIEWER")
    then some role_viewer
    else if text_eq placeholder (codes "$TOKEN_SERVICE")
    then some role_service
    else if text_eq placeholder (codes "$TOKEN_TEST")
    then some role_test
    else none

-- One turn of the loop of installTokens.
unfoldable pub install_token : StaticTokens → Text → Text → StaticTokens
install_token auth placeholder value =
    if text_eq placeholder (codes "$TOKEN_INVALID") || text_eq value []
    then auth
    else elim (placeholder_role placeholder) [
      | none ↦ auth
      | some role ↦ set_token auth value (record { subject = placeholder; role = role; paths = [] })
    ]

unfoldable pub install_all : StaticTokens → Map Text → StaticTokens
install_all auth [] = auth
install_all auth ((placeholder, value) ∷ tokens) =
    install_all (install_token auth placeholder value) tokens

unfoldable pub install_tokens : StaticTokens → Map Text → StaticTokens
install_tokens auth tokens = install_all (reset_tokens auth) tokens

-- int(v) of a float64, a count of 2^-1074: the fraction is dropped.
unfoldable pub truncate : (ℤ → ℤ) → ℤ → ℤ
truncate convert (pos n) =
    if ltb (n / 2 ^ 1074) (2 ^ 63) then pos (n / 2 ^ 1074) else convert (pos n)
truncate convert (negsuc n) =
    let m = (n + 1) / 2 ^ 1074 in
    if ltb (2 ^ 63) m then convert (negsuc n) else elim m [ zero ↦ pos 0 | suc k ↦ negsuc k ]

abbrev pub string_or_empty : Option Text → Text
string_or_empty none = []
string_or_empty (some s) = s

-- errorCode
unfoldable pub error_code : Option StoreError → Text
error_code none = []
error_code (some empty_patches) = codes "EMPTY_PATCHES"
error_code (some (encode path)) = codes "INVALID"

-- The id under which a bundle's scene is registered.
unfoldable pub effective_id : SetupBundle → Text
effective_id b = elim (as_string (get_field (codes "scene_id") b.inline)) [
  | none ↦ b.id
  | some v ↦ if text_eq v [] then b.id else v
]

-- The state that the request gives, or else the defaults of the bundle.
abbrev pub defaults_of : Option Json → Fields
defaults_of (some (obj d)) = d
defaults_of _ = end

abbrev pub or_defaults : Fields → Fields → Fields
or_defaults end d = d
or_defaults (field k v fs) d = field k v fs

abbrev pub seed_fields : SetupRequest → SetupBundle → Fields
seed_fields req b =
    or_defaults req.initial_state (defaults_of (get_field (codes "defaults") b.inline))

module _ (env : Environment) where
  -- The constraints of one declaration. A JSON number is a float64.
  unfoldable pub max_length_of : Option Json → ℤ
  max_length_of (some (obj c)) = elim (get_field (codes "maxLength") c) [
    | some (num v) ↦ truncate env.convert (value_of v)
    | _ ↦ pos 0
  ]
  max_length_of _ = pos 0

  abbrev pub input_spec : Fields → InputSpec
  input_spec m = record {
    path = string_or_empty (as_string (get_field (codes "path") m));
    type = string_or_empty (as_string (get_field (codes "type") m));
    max_length = max_length_of (get_field (codes "constraints") m);
    min = none;
    max = none;
    values = [];
  }

  unfoldable pub input_specs : Items → List InputSpec
  input_specs nil = []
  input_specs (cons (obj m) items) = input_spec m ∷ input_specs items
  input_specs (cons item items) = input_specs items

  unfoldable pub extract_input_specs : Fields → List InputSpec
  extract_input_specs inline = elim (get_field (codes "operator_inputs") inline) [
    | some (arr raw) ↦ input_specs raw
    | _ ↦ []
  ]

  -- A decoded value, as a caller passes it to a scene.
  abbrev pub to_value : Json → Value
  to_value null = Store.nil
  to_value v = other (env.marshal v)

  abbrev pub to_values : Fields → Map Value
  to_values end = []
  to_values (field k v fs) = (k, to_value v) ∷ to_values fs
