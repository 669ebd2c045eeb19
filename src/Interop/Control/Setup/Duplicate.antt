-- ===== src/Interop/Control/Setup/Duplicate.antt =====
-- A setup with two bundles of one id.
use lumencast_go.Common.{
  ◌≡◌, ◌≢◌, refl, sym, ap, ◌∙◌, inl, inr, Text, codes, false, none, some, [], ◌∷◌, Map, lookup,
  lookup-insert, HasDistinctKeys, arith, text_eq, text_eq_iff, Bool-cases,
}
use lumencast_go.Json.{Raw}
use lumencast_go.Server.Store.Apply.{Encodes}
use lumencast_go.Server.Subscription.{Heap}
use lumencast_go.Server.Scene.{Scene, new_scene, set_version}
use lumencast_go.Server.Hub.{Server, register_scene, drop_scenes, active_scene}
use lumencast_go.Interop.Control.{
  Environment, Plane, SetupBundle, SetupRequest, read, set_up, effective_id, install_tokens,
}
use lumencast_go.Interop.Control.Handlers.{
  setup_options, seeds, prepare_registered, register_other, register_others, finish_setup,
  set_up_bundles, handle_setup,
}
use lumencast_go.Interop.Control.Values.{handle_state_lem}
use lumencast_go.Interop.Control.Setup.Steps.{register_first, prepare_registered-Prepared}
use lumencast_go.Interop.Control.Setup.Answers.{set_active-same, handle_setup_lem}

-- A scene that holds nothing and is not rejected.
abbrev pub IsBlank : Scene → Type 0
IsBlank s = (s.store ≡ []) × (s.rejection ≡ none)

register_scene-replaces :
    (s : Server) (h : Heap) (id : Text)
    → text_eq s.active [] ≡ false
    → let (t, h') = register_scene s h id [] in
      (t.active ≡ s.active) × (lookup id t.scenes ≡ some (new_scene id []))
unfolding register_scene
register_scene-replaces s h id busy =
    rw busy
      (refl, ground (arith, lookup-insert id id (new_scene id []) s.scenes, text_eq_iff id id))

register_other-replaces :
    (s : Server) (h : Heap) (c : SetupBundle)
    → text_eq s.active [] ≡ false
    → let (t, h') = register_other s h c in
      (t.active ≡ s.active)
      × ((scene : Scene) × (lookup (effective_id c) t.scenes ≡ some scene) × IsBlank scene)
unfolding register_other new_scene set_version
register_other-replaces s h c busy =
    let id = effective_id c in
    let t = (register_scene s h id []).0 in
    let (same, there) = register_scene-replaces s h id busy in
    elim (Bool-cases (text_eq c.hash [])) [
      | inl e ↦ rw e (same, (new_scene id [], there, (refl, refl)))
      | inr e ↦
          rw (e, there)
            (
              same,
              (
                set_version (new_scene id []) c.hash,
                ground (
                  arith,
                  lookup-insert id id (set_version (new_scene id []) c.hash) t.scenes,
                  text_eq_iff id id,
                ),
                (refl, refl),
              ),
            )
    ]

module _ (env : Environment) (p : Plane) (h : Heap) (req : SetupRequest) (b c : SetupBundle) where
  finish_setup-replaces :
      (q : Plane) (s : Server) (h' : Heap) (scene : Scene)
      → effective_id b ≢ []
      → effective_id c ≡ effective_id b
      → s.active ≡ effective_id b
      → lookup (effective_id b) s.scenes ≡ some scene
      → let (u, h'', r) = finish_setup env q b (c ∷ []) (s, h', none) in
        (r
          ≡ set_up
              (record { ws_url = q.ws_base; scene_id = effective_id b; scene_version = b.hash }))
        × ((blank : Scene) × (active_scene u.srv ≡ some blank) × IsBlank blank)
  unfolding finish_setup register_others
  finish_setup-replaces q s h' scene named same active found =
      let busy : text_eq s.active [] ≡ false =
        ground (arith, active, text_eq_iff (effective_id b) [], named) in
      let (kept, (blank, there, is)) = register_other-replaces s h' c busy in
      rw (set_active-same s h' (effective_id b) scene active found) (
        refl,
        (
          blank,
          (handle_state_lem (record q { srv = (register_other s h' c).0; active = effective_id b })
              blank (λ z. named (sym active ∙ (sym kept ∙ z)))
              (ap (λ i. lookup i (register_other s h' c).0.scenes) (kept ∙ (active ∙ sym same))
                ∙ there)).0,
          is,
        ),
      )

  -- A setup, posted with two bundles that have one id, and whose state can be encoded, answers
  -- with success and the id and hash of the first bundle, but leaves as the active scene that of
  -- the second: it holds nothing of the state, and is not rejected, even if the layout of the
  -- first bundle does not pass.
  pub duplicate_replaces :
      (xs : Map Raw)
      → req.bundles ≡ b ∷ (c ∷ [])
      → effective_id b ≢ []
      → effective_id c ≡ effective_id b
      → Encodes (seeds env req b) xs
      → HasDistinctKeys xs
      → let (u, h'', r) = handle_setup env p h (codes "POST") (read req) in
        (r
          ≡ set_up
              (record { ws_url = p.ws_base; scene_id = effective_id b; scene_version = b.hash }))
        × ((blank : Scene) × (active_scene u.srv ≡ some blank) × IsBlank blank)
  unfolding set_up_bundles drop_scenes
  duplicate_replaces xs is named same e d =
      let (dropped, h1) = drop_scenes p.srv h in
      let id = effective_id b in
      let (active, (first, found, fresh)) = register_first env dropped h1 b id refl refl in
      let (s, h2) = register_scene dropped h1 id (setup_options env b) in
      let (fine, kept, (scene, there, good)) =
        prepare_registered-Prepared env req b id s h2 first xs found e d fresh in
      let (t, h3, failure) = prepare_registered env req b id s h2 in
      let q : Plane = record p { auth = install_tokens p.auth req.tokens } in
      let done : finish_setup env q b (c ∷ []) (t, h3, failure)
          ≡ finish_setup env q b (c ∷ []) (t, h3, none) =
        ap (λ x. finish_setup env q b (c ∷ []) (t, h3, x)) fine in
      rw (handle_setup_lem env p h req b (c ∷ []) is, done)
        (finish_setup-replaces q t h3 scene named same (kept ∙ active) there)
