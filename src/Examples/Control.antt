-- ===== src/Examples/Control.antt =====
-- A setup through the control plane, with and without a capture node that does not pass.
use lumencast_go.Common.{
  pos, ◌≡◌, ◌⊎◌, refl, Text, codes, true, false, none, some, List, [], ◌∷◌, All, Map, lookup, arith,
  text_eq,
}
use mathlib.Core.List.{Memᴰ}
use lumencast_go.Json.{Json, null, str, obj, Fields, end, field, get_field}
use lumencast_go.Lsml.Capture.{
  source_kind_missing, check_zab_capture_nodes, check_stack, check_object, check_zab_capture,
  check_source, is_capture, or_fail,
}
use lumencast_go.Protocol.Roles.{Role}
use lumencast_go.Server.Auth.{anonymous, authenticate}
use lumencast_go.Server.Store.{encode_value}
use lumencast_go.Server.Scene.{Scene}
use lumencast_go.Server.Hub.{active_scene}
use lumencast_go.Server.Session.{Session, opened, registered, in_holding, open_session, read_ok}
use lumencast_go.Interop.Control.{
  Environment, Plane, SetupBundle, SetupRequest, EmitPatch, read, set_up, state, no_content,
  effective_id, install_tokens,
}
use lumencast_go.Interop.Control.Handlers.{handle_setup, handle_state, handle_emit, show_all}
use lumencast_go.Interop.Control.Setup.Answers.{setup_refuses_capture}
use lumencast_go.Interop.Control.Setup.Duplicate.{IsBlank, duplicate_replaces}
use lumencast_go.Interop.Control.Tokens.{IsFor, identity_of, install_tokens_lem}
use lumencast_go.Interop.Control.Emit.{last_value, emit_then_state}
use lumencast_go.Examples.Data.{title, score, scene, heap}
use lumencast_go.Examples.Hub.{show}
use lumencast_go.Examples.Session.{env, socket}

-- A json.Marshal that keeps every value.
abbrev exact : Environment
exact = record {
  marshal = λ v. some (record { bytes = []; value = some v });
  explain_capture = λ e. codes "capture";
  explain_store = λ e. codes "store";
  convert = λ v. pos 0;
}

abbrev plane : Plane
plane = record {
  srv = show;
  auth = record { tokens = [] };
  ws_base = codes "ws://localhost/lsdp.v1";
  active = [];
}

-- A bundle whose layout is a capture node without a kind of source.
abbrev capture_layout : Json
capture_layout = obj (field (codes "kind") (str (codes "x-zab.capture")) end)

abbrev main : SetupBundle
main = record {
  id = codes "main";
  hash = codes "sha256:1";
  inline = field (codes "layout") capture_layout end;
}

abbrev spare : SetupBundle
spare = record { id = codes "spare"; hash = []; inline = end }

abbrev given_state : Fields
given_state = field title (str (codes "hi")) (field score null end)

abbrev tokens : Map Text
tokens = (codes "$TOKEN_OPERATOR", codes "t") ∷ (codes "$TOKEN_INVALID", codes "u") ∷ []

abbrev request : SetupRequest
request = record {
  scenario = codes "s";
  tokens = tokens;
  bundles = main ∷ spare ∷ [];
  initial_state = given_state;
}

setup_refuses_capture_example :
    let (u, h', r) = handle_setup exact plane heap (codes "POST") (read request) in
    ¬ (
      (ses : Session) × ((open_session env u.srv heap
          (codes "lsdp.v1.1")
          (read_ok (codes "q"))
          socket).2
        ≡ opened ses)
      × ((ses.place ≡ registered (effective_id main)) ⊎ (ses.place ≡ in_holding)))
unfolding effective_id get_field text_eq encode_value check_zab_capture_nodes check_stack
    check_object check_zab_capture check_source is_capture or_fail
setup_refuses_capture_example =
    setup_refuses_capture exact plane heap request main (spare ∷ [])
      ((title, record { bytes = []; value = some (str (codes "hi")) })
        ∷ (score, record { bytes = codes "null"; value = some null })
        ∷ [])
      capture_layout source_kind_missing refl (λ z. absurd (ground (arith, z)), (refl, tt))
      (refl, refl, (refl, refl, tt)) ((refl, tt), (tt, tt)) refl refl env heap (codes "lsdp.v1.1")
      (read_ok (codes "q")) socket

duplicate_replaces_example :
    let (u, h', r) =
      handle_setup exact plane heap
        (codes "POST")
        (read (record request { bundles = main ∷ main ∷ [] })) in
    (r
      ≡ set_up (record {
        ws_url = codes "ws://localhost/lsdp.v1";
        scene_id = effective_id main;
        scene_version = codes "sha256:1";
      }))
    × ((blank : Scene) × (active_scene u.srv ≡ some blank) × IsBlank blank)
unfolding effective_id get_field text_eq encode_value
duplicate_replaces_example =
    duplicate_replaces exact plane heap (record request { bundles = main ∷ main ∷ [] }) main main
      ((title, record { bytes = []; value = some (str (codes "hi")) })
        ∷ (score, record { bytes = codes "null"; value = some null })
        ∷ [])
      refl (λ z. absurd (ground (arith, z))) refl (refl, refl, (refl, refl, tt))
      ((refl, tt), (tt, tt))

install_tokens_lem_example :
    (All (λ e. (role : Role) → ¬ IsFor (codes "t") e role) tokens
      × (authenticate (install_tokens plane.auth tokens) (codes "t") ≡ (anonymous, true)))
    ⊎ ((e : Text × Text) × (role : Role) × Memᴰ e tokens
        × IsFor (codes "t") e role
        × (authenticate (install_tokens plane.auth tokens) (codes "t")
            ≡ (identity_of e.0 role, false)))
install_tokens_lem_example = install_tokens_lem plane.auth tokens (codes "t")

abbrev posted : List EmitPatch
posted =
    record { path = title; value = str (codes "a") }
    ∷ record { path = title; value = str (codes "b") }
    ∷ []

emit_then_state_example :
    let (u, h', r) = handle_emit exact (λ i. 0) plane heap (codes "POST") (read posted) in
    (r ≡ no_content)
    × ((m : Map Json) × (handle_state u (codes "GET")
          ≡ state (record { scene_id = codes "intro"; scene_version = codes "v1"; state = m }))
        × ((j : Text)
            → lookup j m ≡ (elim (last_value j posted) [
              | none ↦ lookup j (show_all scene.store)
              | some v ↦ some v
            ])))
unfolding active_scene text_eq lookup
emit_then_state_example =
    emit_then_state exact (λ i. 0) plane heap (record { path = title; value = str (codes "a") })
      (record { path = title; value = str (codes "b") } ∷ []) scene refl
      ((_, refl, refl), ((_, refl, refl), tt))
