-- ===== src/Interop/Control/Emit.antt =====
-- An emission through the control plane, and the state that is shown after it.
use lumencast_go.Common.{
  ℕ, ◌≡◌, ◌≢◌, refl, ap, subst, ◌∙◌, inl, inr, Text, codes, Option, none, some, List, [], ◌∷◌, All,
  Map, lookup, insert, lookup-insert, insert-HasDistinctKeys, HasDistinctKeys, arith, text_eq,
  text_eq_iff, if◌then◌else◌, Option-cases,
}
use lumencast_go.Json.{Marshals, Json, Raw}
use lumencast_go.Server.Store.{Value}
use lumencast_go.Server.Store.Insert.{insert-Encodes, insert-nonempty}
use lumencast_go.Server.Store.Apply.{Encodes, insert_all}
use lumencast_go.Server.Subscription.{Heap}
use lumencast_go.Server.Scene.{Scene, advance, emit_with_cause}
use lumencast_go.Server.Scene.Emission.{after, emit_with_cause_lem}
use lumencast_go.Server.Hub.{active_scene}
use lumencast_go.Interop.Control.{Environment, Plane, EmitPatch, read, state, no_content, to_value}
use lumencast_go.Interop.Control.Handlers.{
  show_all, patches_of, emit_patches, handle_emit, handle_state,
}
use lumencast_go.Interop.Control.Values.{
  handle_state_lem, encode_value-Marshals, lookup-show_all, lookup-shown_insert_all,
}

-- The value that the last patch for a path gives it.
abbrev pub last_value : Text → List EmitPatch → Option Json
last_value j [] = none
last_value j (p ∷ ps) = elim (last_value j ps) [
  | some v ↦ some v
  | none ↦ if text_eq p.path j then some p.value else none
]

patches_of-nonempty :
    (env : Environment) (m : Map Value) (p : EmitPatch) (ps : List EmitPatch)
    → (q : Text × Value) × (qs : Map Value) × (patches_of env m (p ∷ ps) ≡ q ∷ qs)
unfolding patches_of
patches_of-nonempty env m p [] = insert-nonempty p.path (to_value env p.value) m
patches_of-nonempty env m p (q ∷ qs) =
    patches_of-nonempty env (insert p.path (to_value env p.value) m) q qs

-- The encodings of the patches that are collected.
record Collected (m : Map Value) (ps : List EmitPatch) (ys xs : Map Raw) : Type 0 where
  encodes : Encodes m xs
  distinct : HasDistinctKeys xs
  reads :
      (j : Text)
      → lookup j (show_all xs)
        ≡ (elim (last_value j ps) [ none ↦ lookup j (show_all ys) | some v ↦ some v ])

collected :
    (env : Environment) (ps : List EmitPatch) (m : Map Value) (ys : Map Raw)
    → All (λ p. Marshals env.marshal p.value) ps
    → Encodes m ys
    → HasDistinctKeys ys
    → (xs : Map Raw) × Collected (patches_of env m ps) ps ys xs
unfolding patches_of
collected env [] m ys a e d = (ys, record { encodes = e; distinct = d; reads = λ j. refl })
collected env (p ∷ ps) m ys a e d =
    let (r, is, back) = encode_value-Marshals env p.value a.0 in
    let (xs, c) =
      collected env ps (insert p.path (to_value env p.value) m) (insert p.path r ys) a.1
        (insert-Encodes p.path (to_value env p.value) r m ys is e)
        (insert-HasDistinctKeys p.path r ys d) in
    (
      xs,
      record {
        encodes = c.encodes;
        distinct = c.distinct;
        reads = λ j.
            c.reads j
            ∙ ground (
              arith,
              lookup-show_all j (insert p.path r ys),
              lookup-show_all j ys,
              lookup-insert p.path j r ys,
              back,
            );
      },
    )

module _ (env : Environment) (taken : ℕ → ℕ) (p : Plane) (h : Heap) (pt : EmitPatch)
    (pts : List EmitPatch) (scene : Scene) (active : active_scene p.srv ≡ some scene) where
  named : p.srv.active ≢ []
  unfolding active_scene
  named z = ground (arith, active, z, text_eq_iff p.srv.active [])

  handle_emit_lem :
      handle_emit env taken p h (codes "POST") (read (pt ∷ pts))
      ≡ emit_patches env taken p h (pt ∷ pts) scene
  unfolding handle_emit text_eq
  handle_emit_lem = rw active refl

  emit_patches_lem :
      (ps : List EmitPatch) (t : Scene) (h' : Heap)
      → emit_with_cause taken scene h (patches_of env [] ps) none none ≡ (t, h', none)
      → emit_patches env taken p h ps scene ≡ (
        record p { srv = record (p.srv) { scenes = insert p.srv.active t p.srv.scenes } },
        h',
        no_content,
      )
  unfolding emit_patches
  emit_patches_lem ps t h' e = ground (arith, e)

  shown_after :
      (xs : Map Raw)
      → Collected (patches_of env [] (pt ∷ pts)) (pt ∷ pts) [] xs
      → (j : Text)
      → lookup j (show_all (insert_all scene.store xs)) ≡ (elim (last_value j (pt ∷ pts)) [
        | none ↦ lookup j (show_all scene.store)
        | some v ↦ some v
      ])
  unfolding lookup
  shown_after xs c j = elim (Option-cases (last_value j (pt ∷ pts))) [
    | inl e ↦ ground (arith, lookup-shown_insert_all scene.store xs j c.distinct, c.reads j, e)
    | inr (v, e) ↦ ground (arith, lookup-shown_insert_all scene.store xs j c.distinct, c.reads j, e)
  ]

  -- Patches that are posted while a scene is active, one or more of them, with values that
  -- json.Marshal keeps, are accepted. A request for the state that follows is answered with the
  -- scene's id and version, the value of the last patch for each path that has one, and for all
  -- other paths what was shown before.
  pub emit_then_state :
      All (λ p. Marshals env.marshal p.value) (pt ∷ pts)
      → let (u, h', r) = handle_emit env taken p h (codes "POST") (read (pt ∷ pts)) in
        (r ≡ no_content)
        × ((m : Map Json) × (handle_state u (codes "GET")
              ≡ state (record { scene_id = scene.id; scene_version = scene.version; state = m }))
            × ((j : Text)
                → lookup j m ≡ (elim (last_value j (pt ∷ pts)) [
                  | none ↦ lookup j (show_all scene.store)
                  | some v ↦ some v
                ])))
  unfolding advance
  emit_then_state kept =
      let (xs, c) = collected env (pt ∷ pts) [] [] kept tt tt in
      let (q, qs, same) = patches_of-nonempty env [] pt pts in
      let encodes : Encodes (q ∷ qs) xs = subst (λ m. Encodes m xs) same c.encodes in
      let emits =
        ap (λ m. emit_with_cause taken scene h m none none) same
        ∙ emit_with_cause_lem scene h xs q qs encodes c.distinct taken none none in
      let t = after scene h xs q qs encodes c.distinct none none in
      rw (handle_emit_lem, emit_patches_lem (pt ∷ pts) t _ emits)
        (
          refl,
          (
            show_all t.store,
            (handle_state_lem
                (record p { srv = record (p.srv) { scenes = insert p.srv.active t p.srv.scenes } })
                t named
                (ground (
                  arith,
                  lookup-insert p.srv.active p.srv.active t p.srv.scenes,
                  text_eq_iff p.srv.active p.srv.active,
                ))).1,
            shown_after xs c,
          ),
        )
