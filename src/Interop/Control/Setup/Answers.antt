-- ===== src/Interop/Control/Setup/Answers.antt =====
-- A setup, and the requests and connections that come after it.
use lumencast_go.Common.{
  ◌≡◌, ◌≢◌, ◌⊎◌, refl, sym, ap, ◌∙◌, inl, inr, Text, codes, false, Option, none, some, List, [],
  ◌∷◌, All, Map, lookup, HasDistinctKeys, arith, text_eq, text_eq_iff, some≢none,
}
use lumencast_go.Json.{Json, get_field, Raw}
use lumencast_go.Protocol.Frames.{Subscribe}
use lumencast_go.Server.Store.Apply.{Encodes, insert_all}
use lumencast_go.Server.Subscription.{Heap}
use lumencast_go.Server.Scene.{Scene, SceneRejection}
use lumencast_go.Server.Hub.{Server, register_scene, set_active, drop_scenes, active_scene}
use lumencast_go.Server.Auth.{Identity}
use lumencast_go.Server.Session.{
  Surroundings, Conn, Read, Session, Place, in_holding, registered, scene_at, opened, open_session,
}
use lumencast_go.Server.Session.Connect.{
  MayEnter, live_active, live_holding, test_mode, Admitted, open_session_admits,
}
use lumencast_go.Lsml.Capture.{CaptureError, failed, check_zab_capture_nodes}
use lumencast_go.Interop.Control.{
  Environment, Plane, SetupBundle, SetupRequest, read, set_up, effective_id, install_tokens,
}
use lumencast_go.Interop.Control.Handlers.{
  setup_options, seeds, prepare_registered, finish_setup, set_up_bundles, handle_setup,
}
use lumencast_go.Interop.Control.Values.{handle_state_lem}
use lumencast_go.Interop.Control.Setup.Others.{register_others-Keeps}
use lumencast_go.Interop.Control.Setup.Steps.{
  rejection_from, rejection_of, check_layout_lem, Prepared, register_first,
  prepare_registered-Prepared,
}

abbrev rejection_in : Option Scene → Option SceneRejection
rejection_in none = none
rejection_in (some s) = s.rejection

-- The holding scene is entered only while no scene is active.
MayEnter-in_holding :
    (s : Server) (frame : Subscribe) (id : Identity) (place : Place)
    → MayEnter s frame id place
    → place ≡ in_holding
    → active_scene s ≡ none
MayEnter-in_holding s frame id _ (live_active scene e k) z = absurd (ground (arith, z))
MayEnter-in_holding s frame id _ (live_holding e idle) z = idle
MayEnter-in_holding s frame id _ (test_mode e who given) z = absurd (ground (arith, z))

-- The active scene is made active once more.
pub set_active-same :
    (s : Server) (h : Heap) (id : Text) (scene : Scene)
    → s.active ≡ id
    → lookup id s.scenes ≡ some scene
    → set_active s h id ≡ (s, h, false)
unfolding set_active
set_active-same s h id scene active found = ground (arith, found, active, text_eq_iff s.active id)

-- The first bundle has an id, and no other bundle has the same.
abbrev pub IsAlone : SetupBundle → List SetupBundle → Type 0
IsAlone b bs =
    (effective_id b ≢ []) × All (λ c. text_eq (effective_id c) (effective_id b) ≡ false) bs

module _ (env : Environment) (p : Plane) (h : Heap) (req : SetupRequest) (b : SetupBundle)
    (bs : List SetupBundle) where
  finish_setup-Prepared :
      (q : Plane) (s : Server) (h' : Heap) (scene : Scene)
      → IsAlone b bs
      → s.active ≡ effective_id b
      → lookup (effective_id b) s.scenes ≡ some scene
      → let (u, h'', r) = finish_setup env q b bs (s, h', none) in
        (r
          ≡ set_up
              (record { ws_url = q.ws_base; scene_id = effective_id b; scene_version = b.hash }))
        × (u.srv.active ≡ effective_id b)
        × (lookup (effective_id b) u.srv.scenes ≡ some scene)
  unfolding finish_setup
  finish_setup-Prepared q s h' scene alone active found =
      let busy : text_eq s.active [] ≡ false =
        ground (arith, active, text_eq_iff (effective_id b) [], alone.0) in
      let (kept, there) = register_others-Keeps bs s h' (effective_id b) scene busy alone.1 found in
      rw (set_active-same s h' (effective_id b) scene active found) (refl, kept ∙ active, there)

  set_up_bundles-Prepared :
      (xs : Map Raw)
      → IsAlone b bs
      → Encodes (seeds env req b) xs
      → HasDistinctKeys xs
      → let (u, h'', r) = set_up_bundles env p h req b bs in
        (r
          ≡ set_up
              (record { ws_url = p.ws_base; scene_id = effective_id b; scene_version = b.hash }))
        × (u.srv.active ≡ effective_id b)
        × ((scene : Scene) × (lookup (effective_id b) u.srv.scenes ≡ some scene)
            × Prepared b (effective_id b) (insert_all [] xs) (rejection_of env b) scene)
  unfolding set_up_bundles drop_scenes
  set_up_bundles-Prepared xs alone e d =
      let (dropped, h1) = drop_scenes p.srv h in
      let id = effective_id b in
      let (active, (first, found, fresh)) = register_first env dropped h1 b id refl refl in
      let (s, h2) = register_scene dropped h1 id (setup_options env b) in
      let (fine, same, (scene, there, good)) =
        prepare_registered-Prepared env req b id s h2 first xs found e d fresh in
      let (t, h3, failure) = prepare_registered env req b id s h2 in
      let q : Plane = record p { auth = install_tokens p.auth req.tokens } in
      let (answer, kept, still) = finish_setup-Prepared q t h3 scene alone (same ∙ active) there in
      let done : finish_setup env q b bs (t, h3, failure) ≡ finish_setup env q b bs (t, h3, none) =
        ap (λ x. finish_setup env q b bs (t, h3, x)) fine in
      rw done (answer, kept, (scene, still, good))

  pub handle_setup_lem :
      req.bundles ≡ b ∷ bs
      → handle_setup env p h (codes "POST") (read req) ≡ set_up_bundles env p h req b bs
  unfolding handle_setup text_eq
  handle_setup_lem first = ground (arith, first)

  -- After a setup, posted with a body that is read and whose first bundle has an id that no other
  -- has and a layout whose capture nodes do not pass, and whose state can be encoded, no
  -- connection is opened on the scene of that bundle or on the holding scene, whatever its first
  -- message, its protocol and the sources of its identity.
  pub setup_refuses_capture :
      (xs : Map Raw) (layout : Json) (e : CaptureError)
      → req.bundles ≡ b ∷ bs
      → IsAlone b bs
      → Encodes (seeds env req b) xs
      → HasDistinctKeys xs
      → get_field (codes "layout") b.inline ≡ some layout
      → check_zab_capture_nodes layout ≡ failed e
      → (around : Surroundings) (h' : Heap) (negotiated : Text) (first : Read) (c : Conn)
      → let (u, h'', r) = handle_setup env p h (codes "POST") (read req) in
        ¬ (
          (ses : Session) × ((open_session around u.srv h' negotiated first c).2 ≡ opened ses)
          × ((ses.place ≡ registered (effective_id b)) ⊎ (ses.place ≡ in_holding)))
  setup_refuses_capture xs layout e is alone encodes distinct has fails around h' negotiated first c
        (ses, opens, where_it_is) =
      let (answer, active, (scene, there, good)) =
        set_up_bundles-Prepared xs alone encodes distinct in
      let u = (set_up_bundles env p h req b bs).0 in
      let a : Admitted around u.srv h' negotiated first c ses =
        open_session_admits around u.srv h' negotiated first c ses (
          ap (λ x. (open_session around x.0.srv h' negotiated first c).2)
            (sym (handle_setup_lem is))
          ∙ opens) in
      let shows =
        handle_state_lem u scene (λ z. alone.0 (sym active ∙ z))
          (ap (λ i. lookup i u.srv.scenes) active ∙ there) in
      let rejected : scene.rejection ≡ rejection_from env (failed e) =
        good.rejection_is
        ∙ ((check_layout_lem env b scene).1 layout has).1
        ∙ ap (rejection_from env) fails in
      elim where_it_is [
        | inl z ↦
            (let same : some scene ≡ some a.scene =
                sym there ∙ (sym (ap (scene_at u.srv) z) ∙ a.found) in
              some≢none (sym rejected ∙ (ap rejection_in same ∙ a.servable)))
        | inr z ↦
            some≢none (sym shows.0 ∙ MayEnter-in_holding u.srv a.frame ses.id ses.place a.may z)
      ]
