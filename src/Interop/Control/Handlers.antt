-- ===== src/Interop/Control/Handlers.antt =====
-- interop/control/control.go: the handlers, each one step.
use lumencast_go.Common.{
  ℕ, Text, codes, not, Option, none, some, List, [], ◌∷◌, ◌++◌, Map, lookup, insert, is_empty,
  text_eq, if◌then◌else◌,
}
use lumencast_go.Json.{Json, str, Raw, get_field}
use lumencast_go.Protocol.ErrorCodes.{invalid_value}
use lumencast_go.Lsml.Capture.{Outcome, failed, check_zab_capture_nodes}
use lumencast_go.Server.Auth.{reset_tokens}
use lumencast_go.Server.Store
use lumencast_go.Server.Store.{Value, other, StoreError, empty_patches, encode}
use lumencast_go.Server.Subscription.{Heap}
use lumencast_go.Server.Scene.{
  Scene, SceneOption, with_scene_version, with_operator_inputs, set_version, reject, set,
  emit_with_cause,
}
use lumencast_go.Server.Hub.{Server, register_scene, set_active, drop_scenes, active_scene}
use lumencast_go.Interop.Control.{
  Plane, SetupBundle, SetupRequest, EmitPatch, Body, Response, Environment, install_tokens,
  error_code, effective_id, seed_fields, extract_input_specs, to_value, to_values, read, unreadable,
  set_up, healthy, no_content, problem, state,
}

-- One turn of the loop over the other bundles.
unfoldable pub register_other : Server → Heap → SetupBundle → Server × Heap
register_other s h b =
    let (t, h') = register_scene s h (effective_id b) [] in
    if text_eq b.hash [] then (t, h') else elim (lookup (effective_id b) t.scenes) [
      | none ↦ (t, h')
      | some scene ↦
          (record t { scenes = insert (effective_id b) (set_version scene b.hash) t.scenes }, h')
    ]

unfoldable pub register_others : Server → Heap → List SetupBundle → Server × Heap
register_others s h [] = (s, h)
register_others s h (b ∷ bs) = let (t, h') = register_other s h b in register_others t h' bs

module _ (env : Environment) where
  unfoldable pub setup_options : SetupBundle → List SceneOption
  setup_options b =
      let specs = extract_input_specs env b.inline in
      (if text_eq b.hash [] then [] else (λ s. with_scene_version b.hash s) ∷ [])
      ++ (if is_empty specs then [] else (λ s. with_operator_inputs specs s) ∷ [])

  -- The check of the capture nodes.
  abbrev pub reject_failed : Scene → Outcome → Scene
  reject_failed s (failed e) = reject s invalid_value (env.explain_capture e)
  reject_failed s _ = s

  unfoldable pub check_layout : SetupBundle → Scene → Scene
  check_layout b s = elim (get_field (codes "layout") b.inline) [
    | none ↦ s
    | some layout ↦ reject_failed s (check_zab_capture_nodes layout)
  ]

  abbrev pub seeds : SetupRequest → SetupBundle → Map Value
  seeds req b = to_values env (seed_fields req b)

  -- What the handler does to the scene that NewScene returned, which is the registered one.
  unfoldable pub prepare :
      SetupRequest → SetupBundle → Scene → Heap → Scene × Heap × Option StoreError
  prepare req b scene h =
      if is_empty (seeds req b)
      then (check_layout b scene, h, none)
      else set (check_layout b scene) h (seeds req b)

  unfoldable pub prepare_registered :
      SetupRequest → SetupBundle → Text → Server → Heap → Server × Heap × Option StoreError
  prepare_registered req b id s h = elim (lookup id s.scenes) [
    | none ↦ (s, h, none)
    | some scene ↦
        (let (scene', h', e) = prepare req b scene h in
          (record s { scenes = insert id scene' s.scenes }, h', e))
  ]

  -- The end of handleSetup, from SetActive on.
  unfoldable pub finish_setup :
      Plane
      → SetupBundle
      → List SetupBundle
      → Server × Heap × Option StoreError
      → Plane × Heap × Response
  finish_setup p b bs (s, h, some e) =
      (record p { srv = s }, h, problem 400 (codes "bad-initial-state") (env.explain_store e))
  finish_setup p b bs (s, h, none) =
      let (t, h', missing) = set_active s h (effective_id b) in
      if missing
      then (
        record p { srv = t },
        h',
        problem 500 (codes "set-active") (codes "server: scene not found"),
      )
      else (let (u, h'') = register_others t h' bs in
          (
            record p { srv = u; active = effective_id b },
            h'',
            set_up
                (record { ws_url = p.ws_base; scene_id = effective_id b; scene_version = b.hash }),
          ))

  -- handleSetup, once there is a bundle.
  unfoldable pub set_up_bundles :
      Plane → Heap → SetupRequest → SetupBundle → List SetupBundle → Plane × Heap × Response
  set_up_bundles p h req b bs =
      let (dropped, h1) = drop_scenes p.srv h in
      let auth = install_tokens p.auth req.tokens in
      let (s, h2) = register_scene dropped h1 (effective_id b) (setup_options b) in
      finish_setup (record p { auth = auth }) b bs (prepare_registered req b (effective_id b) s h2)

  unfoldable pub handle_setup : Plane → Heap → Text → Body SetupRequest → Plane × Heap × Response
  handle_setup p h method body =
      if not (text_eq method (codes "POST"))
      then (p, h, problem 405 (codes "method-not-allowed") (codes "POST required"))
      else elim body [
        | unreadable why ↦ (p, h, problem 400 (codes "bad-body") (codes "invalid JSON: " ++ why))
        | read req ↦ elim req.bundles [
          | [] ↦ (p, h, problem 400 (codes "missing-bundle") (codes "at least one bundle required"))
          | b ∷ bs ↦ set_up_bundles p h req b bs
        ]
      ]

unfoldable pub handle_reset : Plane → Heap → Text → Plane × Heap × Response
handle_reset p h method =
    if not (text_eq method (codes "POST"))
    then (p, h, problem 405 (codes "method-not-allowed") (codes "POST required"))
    else (let (s, h') = drop_scenes p.srv h in
        (record p { srv = s; auth = reset_tokens p.auth; active = [] }, h', no_content))

-- A stored leaf, as it is shown. One that is not JSON is shown as a string.
abbrev pub shown : Raw → Json
shown r = elim r.value [ none ↦ str r.bytes | some v ↦ v ]

abbrev pub show_all : Map Raw → Map Json
show_all [] = []
show_all ((k, r) ∷ m) = (k, shown r) ∷ show_all m

unfoldable pub handle_state : Plane → Text → Response
handle_state p method =
    if not (text_eq method (codes "GET"))
    then problem 405 (codes "method-not-allowed") (codes "GET required")
    else elim (active_scene p.srv) [
      | none ↦
          problem 409 (codes "no-active-scene")
            (codes "/test/setup not called since last /test/reset")
      | some scene ↦ state (record {
        scene_id = scene.id;
        scene_version = scene.version;
        state = show_all (Store.snapshot scene.store);
      })
    ]

unfoldable pub handle_health : Text → Response
handle_health method =
    if not (text_eq method (codes "GET"))
    then problem 405 (codes "method-not-allowed") (codes "GET required")
    else healthy

module _ (env : Environment) where
  -- The map of patches: of two for one path, the later.
  unfoldable pub patches_of : Map Value → List EmitPatch → Map Value
  patches_of patches [] = patches
  patches_of patches (pt ∷ pts) = patches_of (insert pt.path (to_value env pt.value) patches) pts

  unfoldable pub emit_patches :
      (ℕ → ℕ) → Plane → Heap → List EmitPatch → Scene → Plane × Heap × Response
  emit_patches taken p h pts scene =
      let (t, h', e) = emit_with_cause taken scene h (patches_of [] pts) none none in
      (
        record p { srv = record (p.srv) { scenes = insert p.srv.active t p.srv.scenes } },
        h',
        elim e [
          | none ↦ no_content
          | some why ↦ problem 400 (error_code (some why)) (env.explain_store why)
        ],
      )

  unfoldable pub handle_emit :
      (ℕ → ℕ) → Plane → Heap → Text → Body (List EmitPatch) → Plane × Heap × Response
  handle_emit taken p h method body =
      if not (text_eq method (codes "POST"))
      then (p, h, problem 405 (codes "method-not-allowed") (codes "POST required"))
      else elim body [
        | unreadable why ↦ (p, h, problem 400 (codes "bad-body") (codes "invalid JSON: " ++ why))
        | read [] ↦
            (p, h, problem 400 (codes "empty-patches") (codes "at least one patch required"))
        | read (pt ∷ pts) ↦ elim (active_scene p.srv) [
          | none ↦ (p, h, problem 409 (codes "no-active-scene") (codes "/test/setup not called"))
          | some scene ↦ emit_patches taken p h (pt ∷ pts) scene
        ]
      ]
