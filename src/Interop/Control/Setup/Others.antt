-- ===== src/Interop/Control/Setup/Others.antt =====
-- interop/control/control.go: the bundles after the first.
use lumencast_go.Common.{
  ◌≡◌, refl, ◌∙◌, inl, inr, Text, false, some, List, [], ◌∷◌, All, lookup, lookup-insert, arith,
  text_eq, Bool-cases, Option-cases,
}
use lumencast_go.Server.Subscription.{Heap}
use lumencast_go.Server.Scene.{Scene, new_scene, set_version}
use lumencast_go.Server.Hub.{Server, register_scene}
use lumencast_go.Interop.Control.{SetupBundle, effective_id}
use lumencast_go.Interop.Control.Handlers.{register_other, register_others}

-- A scene that is registered under another id changes nothing for one that is active.
register_scene-Keeps :
    (s : Server) (h : Heap) (new id : Text) (scene : Scene)
    → text_eq s.active [] ≡ false
    → text_eq new id ≡ false
    → lookup id s.scenes ≡ some scene
    → let (t, h') = register_scene s h new [] in
      (t.active ≡ s.active) × (lookup id t.scenes ≡ some scene)
unfolding register_scene
register_scene-Keeps s h new id scene busy other found =
    rw busy (refl, ground (arith, lookup-insert new id (new_scene new []) s.scenes, other, found))

abbrev Keeps : Server → Server → Text → Scene → Type 0
Keeps s t id scene = (t.active ≡ s.active) × (lookup id t.scenes ≡ some scene)

register_other-Keeps :
    (s : Server) (h : Heap) (b : SetupBundle) (id : Text) (scene : Scene)
    → text_eq s.active [] ≡ false
    → text_eq (effective_id b) id ≡ false
    → lookup id s.scenes ≡ some scene
    → Keeps s (register_other s h b).0 id scene
unfolding register_other
register_other-Keeps s h b id scene busy other found =
    let (t, h') = register_scene s h (effective_id b) [] in
    let (same, kept) = register_scene-Keeps s h (effective_id b) id scene busy other found in
    elim (Bool-cases (text_eq b.hash [])) [
      | inl e ↦ rw e (same, kept)
      | inr e ↦ rw e (elim (Option-cases (lookup (effective_id b) t.scenes)) [
        | inl k ↦ rw k (same, kept)
        | inr (x, k) ↦ rw k (
          same,
          ground (
            arith,
            lookup-insert (effective_id b) id (set_version x b.hash) t.scenes,
            other,
            kept,
          ),
        )
      ])
    ]

pub register_others-Keeps :
    (bs : List SetupBundle) (s : Server) (h : Heap) (id : Text) (scene : Scene)
    → text_eq s.active [] ≡ false
    → All (λ b. text_eq (effective_id b) id ≡ false) bs
    → lookup id s.scenes ≡ some scene
    → Keeps s (register_others s h bs).0 id scene
unfolding register_others
register_others-Keeps [] s h id scene busy others found = (refl, found)
register_others-Keeps (b ∷ bs) s h id scene busy others found =
    let (same, kept) = register_other-Keeps s h b id scene busy others.0 found in
    let (again, there) =
      register_others-Keeps bs (register_other s h b).0 (register_other s h b).1 id scene
        (rw same busy) others.1 kept in
    (again ∙ same, there)
