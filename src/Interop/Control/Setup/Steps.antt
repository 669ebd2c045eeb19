-- ===== src/Interop/Control/Setup/Steps.antt =====
-- The steps of handleSetup on the server.
use lumencast_go.Common.{
  ◌≡◌, refl, ap, inl, inr, Text, codes, Option, none, some, [], ◌∷◌, Map, lookup, insert,
  lookup-insert, HasDistinctKeys, arith, text_eq, text_eq_iff, if◌then◌else◌, is_empty, Bool-cases,
  Option-cases,
}
use lumencast_go.Json.{Json, get_field, Raw}
use lumencast_go.Protocol.ErrorCodes.{invalid_value}
use lumencast_go.Server.Store.{Value}
use lumencast_go.Server.Store.Apply.{Encodes, insert_all}
use lumencast_go.Server.Subscription.{Heap}
use lumencast_go.Server.Scene.{Scene, SceneRejection, new_scene, default_scene_version, reject}
use lumencast_go.Server.Scene.Emission.{set_lem}
use lumencast_go.Server.Hub.{Server, register_scene, migrate_live}
use lumencast_go.Lsml.Capture.{Outcome, passed, failed, out_of_fuel, check_zab_capture_nodes}
use lumencast_go.Interop.Control.{Environment, SetupBundle, SetupRequest, extract_input_specs}
use lumencast_go.Interop.Control.Handlers.{
  setup_options, reject_failed, check_layout, seeds, prepare, prepare_registered,
}

abbrev pub version_of : SetupBundle → Text
version_of b = if text_eq b.hash [] then default_scene_version else b.hash

-- The options of a setup leave the rest of the scene as it is.
pub record Fresh (b : SetupBundle) (id : Text) (s : Scene) : Type 0 where
  pub id_is : s.id ≡ id
  pub version_is : s.version ≡ version_of b
  pub store_is : s.store ≡ []
  pub servable : s.rejection ≡ none

Fresh-new_scene :
    (env : Environment) (b : SetupBundle) (id : Text)
    → Fresh b id (new_scene id (setup_options env b))
unfolding new_scene setup_options
Fresh-new_scene env b id = elim (Bool-cases (text_eq b.hash [])) [
  | inl e ↦ elim (Bool-cases (is_empty (extract_input_specs env b.inline))) [
    | inl k ↦
        rw (e, k)
          (record {
            id_is = refl;
            version_is = ground (arith, e);
            store_is = refl;
            servable = refl;
          })
    | inr k ↦
        rw (e, k)
          (record {
            id_is = refl;
            version_is = ground (arith, e);
            store_is = refl;
            servable = refl;
          })
  ]
  | inr e ↦ elim (Bool-cases (is_empty (extract_input_specs env b.inline))) [
    | inl k ↦
        rw (e, k)
          (record {
            id_is = refl;
            version_is = ground (arith, e);
            store_is = refl;
            servable = refl;
          })
    | inr k ↦
        rw (e, k)
          (record {
            id_is = refl;
            version_is = ground (arith, e);
            store_is = refl;
            servable = refl;
          })
  ]
]

-- NewScene on a server without scenes.
pub register_first :
    (env : Environment) (s : Server) (h : Heap) (b : SetupBundle) (id : Text)
    → s.scenes ≡ []
    → s.active ≡ []
    → let (t, h') = register_scene s h id (setup_options env b) in
      (t.active ≡ id) × ((scene : Scene) × (lookup id t.scenes ≡ some scene) × Fresh b id scene)
unfolding register_scene migrate_live insert lookup text_eq
register_first env s h b id empty idle =
    let f = Fresh-new_scene env b id in
    rw (empty, idle)
      (
        refl,
        (
          (migrate_live s.holding (new_scene id (setup_options env b)) h).1,
          ground (arith, text_eq_iff id id),
          record {
            id_is = f.id_is;
            version_is = f.version_is;
            store_is = f.store_is;
            servable = f.servable;
          },
        ),
      )

-- What Reject leaves, if the check fails.
abbrev pub rejection_from : Environment → Outcome → Option SceneRejection
rejection_from env (failed e) =
    some (record { code = invalid_value; message = env.explain_capture e })
rejection_from env _ = none

abbrev pub rejection_of : Environment → SetupBundle → Option SceneRejection
rejection_of env b = elim (get_field (codes "layout") b.inline) [
  | none ↦ none
  | some layout ↦ rejection_from env (check_zab_capture_nodes layout)
]

-- The scene of the first bundle, before SetActive.
pub record Prepared (b : SetupBundle) (id : Text) (store : Map Raw)
    (rejection : Option SceneRejection) (s : Scene) : Type 0 where
  pub id_is : s.id ≡ id
  pub version_is : s.version ≡ version_of b
  pub store_is : s.store ≡ store
  pub rejection_is : s.rejection ≡ rejection

reject_failed-Prepared :
    (env : Environment) (b : SetupBundle) (id : Text) (s : Scene) (o : Outcome)
    → Fresh b id s
    → Prepared b id [] (rejection_from env o) (reject_failed env s o)
unfolding reject
reject_failed-Prepared env b id s passed f = record {
  id_is = f.id_is;
  version_is = f.version_is;
  store_is = f.store_is;
  rejection_is = f.servable;
}
reject_failed-Prepared env b id s out_of_fuel f = record {
  id_is = f.id_is;
  version_is = f.version_is;
  store_is = f.store_is;
  rejection_is = f.servable;
}
reject_failed-Prepared env b id s (failed e) f = record {
  id_is = f.id_is;
  version_is = f.version_is;
  store_is = f.store_is;
  rejection_is = refl;
}

pub check_layout_lem :
    (env : Environment) (b : SetupBundle) (s : Scene)
    → (get_field (codes "layout") b.inline ≡ none
        → (check_layout env b s ≡ s) × (rejection_of env b ≡ none))
      × ((layout : Json)
          → get_field (codes "layout") b.inline ≡ some layout
          → (check_layout env b s ≡ reject_failed env s (check_zab_capture_nodes layout))
            × (rejection_of env b ≡ rejection_from env (check_zab_capture_nodes layout)))
unfolding check_layout
check_layout_lem env b s = (
  λ e. (ground (arith, e), ground (arith, e)),
  λ layout e. (ground (arith, e), ground (arith, e)),
)

check_layout-Prepared :
    (env : Environment) (b : SetupBundle) (id : Text) (s : Scene)
    → Fresh b id s
    → Prepared b id [] (rejection_of env b) (check_layout env b s)
check_layout-Prepared env b id s f = elim (Option-cases (get_field (codes "layout") b.inline)) [
  | inl e ↦
      rw (((check_layout_lem env b s).0 e).0, ((check_layout_lem env b s).0 e).1)
        (record {
          id_is = f.id_is;
          version_is = f.version_is;
          store_is = f.store_is;
          rejection_is = f.servable;
        })
  | inr (layout, e) ↦
      rw (((check_layout_lem env b s).1 layout e).0, ((check_layout_lem env b s).1 layout e).1)
        (reject_failed-Prepared env b id s (check_zab_capture_nodes layout) f)
]

-- Seeds that can be encoded, none included, are what the scene holds.
prepare-Prepared :
    (env : Environment) (req : SetupRequest) (b : SetupBundle) (id : Text) (s : Scene) (h : Heap)
    (vs : Map Value) (xs : Map Raw)
    → seeds env req b ≡ vs
    → Encodes vs xs
    → HasDistinctKeys xs
    → Fresh b id s
    → let (t, h', e) = prepare env req b s h in
      (e ≡ none) × Prepared b id (insert_all [] xs) (rejection_of env b) t
unfolding prepare insert_all
prepare-Prepared env req b id s h [] [] is e d f = rw is (refl, check_layout-Prepared env b id s f)
prepare-Prepared env req b id s h [] (x ∷ xs) is e d f = absurd e
prepare-Prepared env req b id s h (v ∷ vs) xs is e d f =
    let q = check_layout-Prepared env b id s f in
    rw (is, set_lem (check_layout env b s) h xs v vs e d)
      (
        refl,
        record {
          id_is = q.id_is;
          version_is = q.version_is;
          store_is = ap (λ m. insert_all m xs) q.store_is;
          rejection_is = q.rejection_is;
        },
      )

prepare_registered_lem :
    (env : Environment) (req : SetupRequest) (b : SetupBundle) (id : Text) (s : Server) (h : Heap)
    (scene : Scene)
    → lookup id s.scenes ≡ some scene
    → prepare_registered env req b id s h ≡ (
        let (t, h', e) = prepare env req b scene h in
        (record s { scenes = insert id t s.scenes }, h', e))
unfolding prepare_registered
prepare_registered_lem env req b id s h scene found = ground (arith, found)

pub prepare_registered-Prepared :
    (env : Environment) (req : SetupRequest) (b : SetupBundle) (id : Text) (s : Server) (h : Heap)
    (scene : Scene) (xs : Map Raw)
    → lookup id s.scenes ≡ some scene
    → Encodes (seeds env req b) xs
    → HasDistinctKeys xs
    → Fresh b id scene
    → let (t, h', e) = prepare_registered env req b id s h in
      (e ≡ none)
      × (t.active ≡ s.active)
      × ((u : Scene) × (lookup id t.scenes ≡ some u)
          × Prepared b id (insert_all [] xs) (rejection_of env b) u)
prepare_registered-Prepared env req b id s h scene xs found e d f =
    let (fine, q) = prepare-Prepared env req b id scene h (seeds env req b) xs refl e d f in
    rw (prepare_registered_lem env req b id s h scene found) (
      fine,
      refl,
      (
        (prepare env req b scene h).0,
        ground
            (arith, lookup-insert id id (prepare env req b scene h).0 s.scenes, text_eq_iff id id),
        q,
      ),
    )
