-- ===== src/Server/Hub/Ownership/Calls.antt =====
-- Each call on a server keeps a subscription in at most one scene.
use lumencast_go.Common.{
  ℕ, ◌∙◌, ◌+◌, ◌≤◌, ◌≡◌, refl, Text, false, some, List, [], ◌∷◌, arith, Map, lookup, insert,
  lookup-insert, text_eq, text_eq_iff, ap, inl, inr, Bool-cases, Option-cases,
}
use lumencast_go.Server.Subscription.{Heap}
use lumencast_go.Server.Scene.{Scene, SceneOption, members, new_scene, unsubscribe}
use lumencast_go.Server.Hub.{
  Server, migrate_live, register_scene, leave_active, set_active, detach_all, detach, drop_scenes,
  scenes_of,
}
use lumencast_go.Server.Hub.Ownership.{
  count, owned, owners, owned_at, count-migrate_live, owned-append, owned-insert, count-unsubscribe,
}

owners-sum :
    (i : ℕ) (s : Server) → owners i s ≡ owned i (scenes_of s.scenes) + count i (members s.holding)
unfolding owners owned
owners-sum i s = omega (arith, owned-append i (scenes_of s.scenes) (s.holding ∷ []))

owners-leave_active :
    (i : ℕ) (s : Server) (h : Heap) (id : Text) (scene old : Scene)
    → lookup id s.scenes ≡ some old
    → text_eq s.active id ≡ false
    → owners i (leave_active s id scene h).0 + count i (members old)
      ≤ owners i s + count i (members scene)
unfolding owned_at
owners-leave_active i s h id scene old known other =
    elim (Option-cases (lookup s.active s.scenes)) [
      | inl e ↦ ground (
        arith,
        e,
        owners-sum i s,
        owned-insert i id scene s.scenes,
        known,
        owners-sum i (record s { scenes = insert id scene s.scenes; active = id }),
      )
      | inr (prev, e) ↦
          (let (prev', scene', h') = migrate_live prev scene h in
            let kept : lookup s.active (insert id scene' s.scenes) ≡ some prev =
              lookup-insert id s.active scene' s.scenes
              ∙ ground (arith, other, text_eq_iff id s.active, text_eq_iff s.active id, e) in
            ground (
              arith,
              e,
              owners-sum i s,
              owned-insert i id scene' s.scenes,
              known,
              owned-insert i s.active prev' (insert id scene' s.scenes),
              kept,
              count-migrate_live i prev scene h,
              owners-sum i (record s {
                scenes = insert s.active prev' (insert id scene' s.scenes);
                active = id;
              }),
            ))
    ]

module _ (i : ℕ) (s : Server) (h : Heap) where
  owners-register_scene :
      (id : Text) (opts : List SceneOption)
      → members (new_scene id opts) ≡ []
      → owners i (register_scene s h id opts).0 ≤ owners i s
  unfolding register_scene count
  owners-register_scene id opts fresh =
      let scene = new_scene id opts in
      let (holding, scene', h') = migrate_live s.holding scene h in
      elim (Bool-cases (text_eq s.active [])) [
        | inl e ↦
            rw (e, owners-sum i s)
              (omega (
                arith,
                count-migrate_live i s.holding scene h,
                ap (count i) fresh,
                owned-insert i id scene' s.scenes,
                owners-sum i (record s {
                  scenes = insert id scene' s.scenes;
                  active = id;
                  holding = holding;
                }),
              ))
        | inr e ↦
            rw (e, owners-sum i s)
              (omega (
                arith,
                ap (count i) fresh,
                owned-insert i id scene s.scenes,
                owners-sum i (record s { scenes = insert id scene s.scenes }),
              ))
      ]

  owners-set_active : (id : Text) → owners i (set_active s h id).0 ≤ owners i s
  unfolding set_active
  owners-set_active id = elim (Option-cases (lookup id s.scenes)) [
    | inl e ↦ ground (arith, e)
    | inr (next, e) ↦ elim (Bool-cases (text_eq s.active id)) [
      | inl same ↦ ground (arith, e, same)
      | inr other ↦
          (let (holding, next', h') = migrate_live s.holding next h in
            ground (
              arith,
              e,
              other,
              owners-leave_active i s h id next next e other,
              owners-leave_active i (record s { holding = holding }) h' id next' next e other,
              owners-sum i s,
              owners-sum i (record s { holding = holding }),
              count-migrate_live i s.holding next h,
            ))
    ]
  ]

owned-detach_all :
    (i k : ℕ) (m : Map Scene) (h : Heap)
    → (owned i (scenes_of (detach_all m h i).0) ≡ 0)
      × (owned i (scenes_of (detach_all m h k).0) ≤ owned i (scenes_of m))
unfolding owned
owned-detach_all i k [] h = (refl, omega arith)
owned-detach_all i k ((id, s) ∷ m) h = (
  omega (arith, (count-unsubscribe i i s h).0, (owned-detach_all i i m (unsubscribe s h i).1).0),
  omega (arith, (count-unsubscribe i k s h).1, (owned-detach_all i k m (unsubscribe s h k).1).1),
)

-- Once its connection has ended, a subscription is in no scene of the server, the holding scene
-- included: what a migration did with it before makes no difference.
detach_releases : (i : ℕ) (s : Server) (h : Heap) → owners i (detach s h i).0 ≡ 0
unfolding detach
detach_releases i s h = omega (
  arith,
  owners-sum i (detach s h i).0,
  (owned-detach_all i i s.scenes h).0,
  (count-unsubscribe i i s.holding (detach_all s.scenes h i).1).0,
)

owners-detach : (i k : ℕ) (s : Server) (h : Heap) → owners i (detach s h k).0 ≤ owners i s
unfolding detach
owners-detach i k s h = omega (
  arith,
  owners-sum i (detach s h k).0,
  owners-sum i s,
  (owned-detach_all i k s.scenes h).1,
  (count-unsubscribe i k s.holding (detach_all s.scenes h k).1).1,
)

owners-drop_scenes : (i : ℕ) (s : Server) (h : Heap) → owners i (drop_scenes s h).0 ≤ owners i s
unfolding drop_scenes owned
owners-drop_scenes i s h = omega (arith, owners-sum i s, owners-sum i (drop_scenes s h).0)

-- A subscription that is in at most one scene, and once there, is so after each call on the server:
-- NewScene with a scene that has no subscribers yet, SetActive, the end of any connection, Reset.
pub at_most_one_scene :
    (i k : ℕ) (s : Server) (h : Heap) (id : Text) (opts : List SceneOption)
    → owners i s ≤ 1
    → members (new_scene id opts) ≡ []
    → (owners i (register_scene s h id opts).0 ≤ 1)
      × (owners i (set_active s h id).0 ≤ 1)
      × (owners i (detach s h k).0 ≤ 1)
      × (owners i (drop_scenes s h).0 ≤ 1)
at_most_one_scene i k s h id opts one fresh = (
  omega (arith, owners-register_scene i s h id opts fresh, one),
  omega (arith, owners-set_active i s h id, one),
  omega (arith, owners-detach i k s h, one),
  omega (arith, owners-drop_scenes i s h, one),
)
