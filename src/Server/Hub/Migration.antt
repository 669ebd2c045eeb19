-- ===== src/Server/Hub/Migration.antt =====
-- migrateLive: what happens to the subscribers of a scene when another one takes its place.
use lumencast_go.Common.{
  ℕ, ◌+◌, ◌^◌, ◌<◌, ◌≡◌, refl, ap, ◌∙◌, Bool, true, false, not, ◌&&◌, ◌||◌, some, List, [], ◌∷◌,
  ◌++◌, arith, ◌==◌, keep, length, ltb, if◌then◌else◌, inl, inr, Bool-cases,
}
use lumencast_go.Protocol.Sequence.{add_u64, next_server, observe_server}
use lumencast_go.Protocol.Frames.{Frame, snapshot, scene_changed}
use lumencast_go.Server.Subscription.{
  Subscription, Heap, offer, mark_stale, write, member, insert_member,
}
use lumencast_go.Server.Subscription.Fanout.{IsSetOfIds, member-insert_member}
use lumencast_go.Server.Scene.{Scene, members, current_snapshot}
use lumencast_go.Server.Scene.Client.{Client, Follows, receive}
use lumencast_go.Server.Scene.Sync.{InSync, receive_all-one, snapshot-Follows}
use lumencast_go.Server.Hub.{make_scene_changed, move_one, move_all, with_members, migrate_live}

member-keep : (p : ℕ → Bool) (j : ℕ) (is : List ℕ) → member j (keep p is) ≡ (member j is && p j)
unfolding member
member-keep p j [] = refl
member-keep p j (i ∷ is) = elim (Bool-cases (j == i)) [
  | inl e ↦
      (let same : j ≡ i = ground (arith, e) in ground (arith, e, ap p same, member-keep p j is))
  | inr e ↦ ground (arith, e, member-keep p j is)
]

keep-IsSetOfIds : (p : ℕ → Bool) (is : List ℕ) → IsSetOfIds is → IsSetOfIds (keep p is)
keep-IsSetOfIds p [] d = tt
keep-IsSetOfIds p (i ∷ is) d = ground (arith, member-keep p i is, keep-IsSetOfIds p is d.1)

module _ (q : ℕ) (next : Scene) where
  move_all_skip :
      (live is : List ℕ) (h : Heap) (j : ℕ)
      → member j live ≡ false
      → ((move_all q next live is h).1.at j ≡ h.at j)
        × (member j (move_all q next live is h).0 ≡ member j is)
  unfolding move_all member write
  move_all_skip [] is h j e = (refl, refl)
  move_all_skip (i ∷ live) is h j e =
      let (sub, added) = move_one q next (h.at i) in
      ground (
        arith,
        move_all_skip live (if added then insert_member i is else is) (write h i sub) j,
        member-insert_member i j is,
      )

  at-move_all :
      (live is : List ℕ) (h : Heap) (j : ℕ)
      → IsSetOfIds live
      → ((move_all q next live is h).1.at j
          ≡ (if member j live then (move_one q next (h.at j)).0 else h.at j))
        × (member j (move_all q next live is h).0
            ≡ (member j is || member j live && (move_one q next (h.at j)).1))
  unfolding move_all member write
  at-move_all [] is h j d = ground arith
  at-move_all (i ∷ live) is h j d =
      let (sub, added) = move_one q next (h.at i) in
      ground (
        arith,
        at-move_all live (if added then insert_member i is else is) (write h i sub) j d.1,
        move_all_skip live (if added then insert_member i is else is) (write h i sub) j,
        member-insert_member i j is,
      )

  move_one_full :
      (sub : Subscription)
      → ltb (length sub.out) sub.cap ≡ false
      → move_one q next sub ≡ (record sub { stale = true }, false)
  unfolding move_one offer mark_stale
  move_one_full sub e = ground (arith, e)

  move_one_told :
      (sub : Subscription)
      → ltb (length sub.out) sub.cap ≡ true
      → ltb (length (sub.out ++ (scene_changed (make_scene_changed q next) ∷ []))) sub.cap ≡ false
      → move_one q next sub ≡ (
        record sub {
          out = sub.out ++ (scene_changed (make_scene_changed q next) ∷ []);
          stale = true;
        },
        false,
      )
  unfolding move_one offer mark_stale
  move_one_told sub e f = ground (arith, e, f)

  move_one_moved :
      (sub : Subscription)
      → ltb (length sub.out) sub.cap ≡ true
      → ltb (length (sub.out ++ (scene_changed (make_scene_changed q next) ∷ []))) sub.cap ≡ true
      → move_one q next sub ≡ (
        record sub {
          out =
              (sub.out ++ (scene_changed (make_scene_changed q next) ∷ []))
              ++ (snapshot (current_snapshot next) ∷ []);
        },
        true,
      )
  unfolding move_one offer
  move_one_moved sub e f = ground (arith, e, f)

-- The SceneChanged that the client is told is the frame that is due on the scene it leaves.
receive-scene_changed :
    (prev next : Scene) (d : Client)
    → 0 < prev.seq.cur
    → prev.seq.cur + 1 < 2 ^ 64
    → Follows prev d
    → receive d (scene_changed (make_scene_changed (add_u64 prev.seq.cur 1) next))
      ≡ some (record d { tracker = record { cur = add_u64 prev.seq.cur 1 } })
unfolding receive observe_server
receive-scene_changed prev next d pos room f = ground (arith, f.numbered)

move_one-InSync :
    (prev next : Scene) (c : Client) (sub : Subscription)
    → 0 < prev.seq.cur
    → prev.seq.cur + 1 < 2 ^ 64
    → 0 < next.seq.cur
    → InSync prev c sub
    → sub.stale ≡ false
    → InSync next c (move_one (add_u64 prev.seq.cur 1) next sub).0
      × ((move_one (add_u64 prev.seq.cur 1) next sub).0.stale ≡ false
          → (move_one (add_u64 prev.seq.cur 1) next sub).1 ≡ true)
move_one-InSync prev next c sub pos room live sync alive =
    elim (Bool-cases (ltb (length sub.out) sub.cap)) [
      | inr e ↦ rw (move_one_full q next sub e) ((λ s. cc), (λ s. cc))
      | inl e ↦ elim (Bool-cases (ltb (length (sub.out ++ (told ∷ []))) sub.cap)) [
        | inr e' ↦ rw (move_one_told q next sub e e') ((λ s. cc), (λ s. cc))
        | inl e' ↦
            (let (d, got, f) = sync alive in
              let left = receive-scene_changed prev next d pos room f in
              let heard = receive_all-one c d _ sub.out told got left in
              let (x, r, g) =
                snapshot-Follows next (record d { tracker = record { cur = q } }) live in
              rw (move_one_moved q next sub e e') (
                (λ s. (x, receive_all-one c _ x (sub.out ++ (told ∷ [])) _ heard r, g)),
                (λ s. refl),
              ))
      ]
    ]
  where
    q : ℕ
    q = add_u64 prev.seq.cur 1

    told : Frame
    told = scene_changed (make_scene_changed q next)

members-with_members :
    (s : Scene) (is js : List ℕ) → s.subscribers ≡ some is → members (with_members s js) ≡ js
members-with_members s is js e = ground (arith, e)

-- Between two numbered scenes, the first below the last number, a live subscriber that was in step
-- with the scene it leaves, and was not given up, ends in step with the next one: what is queued
-- for it, the SceneChanged and a snapshot included, brings its client there, and it is a subscriber
-- of the next scene, unless it is given up. It is a subscriber of the old scene no more. The
-- subscribers that are not live stay where they are, and no other subscription changes.
pub migrate_keeps_sync :
    (prev next : Scene) (h : Heap) (i : ℕ) (c : Client) (js is : List ℕ)
    → prev.subscribers ≡ some js
    → next.subscribers ≡ some is
    → IsSetOfIds (members prev)
    → 0 < prev.seq.cur
    → prev.seq.cur + 1 < 2 ^ 64
    → 0 < next.seq.cur
    → member i (members prev) ≡ true
    → (h.at i).live ≡ true
    → InSync prev c (h.at i)
    → (h.at i).stale ≡ false
    → let (prev', next', h') = migrate_live prev next h in
      InSync next' c (h'.at i)
      × ((h'.at i).stale ≡ false → member i (members next') ≡ true)
      × (member i (members prev') ≡ false)
      × ((k : ℕ)
          → member k (members prev) ≡ true
          → (h.at k).live ≡ false
          → (member k (members prev') ≡ true) × (h'.at k ≡ h.at k))
      × ((k : ℕ) → member k (members prev) ≡ false → h'.at k ≡ h.at k)
unfolding migrate_live next_server
migrate_keeps_sync prev next h i c js is from subs ids pos room live sub on sync alive = (
  rw stepped (λ s.
      let (x, got, f) = kept.0 s in (x, got, record { numbered = f.numbered; leaves = f.leaves })),
  rw (stepped, members-with_members next is (move_all q next moving (members next) h).0 subs)
      (λ s. ground (arith, (moved i).1, member-keep on_live i (members prev), sub, on, kept.1 s)),
  rw (members-with_members prev js staying from)
      (ground (arith, member-keep off_live i (members prev), on)),
  (λ k stays off. (
    rw (members-with_members prev js staying from)
        (ground (arith, member-keep off_live k (members prev), stays, off)),
    ground (arith, (moved k).0, member-keep on_live k (members prev), off),
  )),
  (λ k out. ground (arith, (moved k).0, member-keep on_live k (members prev), out)),
)
  where
    q : ℕ
    q = add_u64 prev.seq.cur 1

    on_live : ℕ → Bool
    on_live k = (h.at k).live

    off_live : ℕ → Bool
    off_live k = not (h.at k).live

    moving : List ℕ
    moving = keep on_live (members prev)

    staying : List ℕ
    staying = keep off_live (members prev)

    kept :
        InSync next c (move_one q next (h.at i)).0
        × ((move_one q next (h.at i)).0.stale ≡ false → (move_one q next (h.at i)).1 ≡ true)
    kept = move_one-InSync prev next c (h.at i) pos room live sync alive

    moved :
        (k : ℕ)
        → ((move_all q next moving (members next) h).1.at k
            ≡ (if member k moving then (move_one q next (h.at k)).0 else h.at k))
          × (member k (move_all q next moving (members next) h).0
              ≡ (member k (members next) || member k moving && (move_one q next (h.at k)).1))
    moved k =
        at-move_all q next moving (members next) h k (keep-IsSetOfIds on_live (members prev) ids)

    stepped : (move_all q next moving (members next) h).1.at i ≡ (move_one q next (h.at i)).0
    stepped = (moved i).0 ∙ rw (member-keep on_live i (members prev), sub, on) refl
