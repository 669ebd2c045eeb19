-- ===== src/Server/Concurrent/Others.antt =====
-- The invariant when the lock of the scene is released, when a frame is delivered, and when other
-- subscribers come and go (server/scene.go).
use lumencast_go.Common.{
  ℕ, ℤ, ◌<◌, ◌≡◌, refl, sym, ap, ◌∙◌, inl, inr, Text, Bool, true, false, Option, some, List, [],
  ◌∷◌, lookup, arith, ◌==◌, Bool-cases, drop,
}
use lumencast_go.Protocol.Frames.{Frame}
use lumencast_go.Server.Subscription.{
  Heap, member, write, drain, alloc, close, insert_member, remove_member,
}
use lumencast_go.Server.Subscription.Fanout.{
  IsSetOfIds, member-insert_member, member-remove_member, insert_member-IsSetOfIds,
  remove_member-IsSetOfIds,
}
use lumencast_go.Server.Scene.{
  Scene, Initial, members, subscribe_with_resume, unsubscribe, new_subscription,
}
use lumencast_go.Server.Scene.Client.{Client, receive_all, receive_all-split}
use lumencast_go.Server.Scene.Resume.{receive_initial}
use lumencast_go.Server.Concurrent.{nobody, World, put, hear_all}
use lumencast_go.Server.Concurrent.Held.{to_come, lag}
use lumencast_go.Server.Concurrent.Invariant.{Hears, Inv}

module _ (i : ℕ) (j : Text) (Safe : Type 0) (w : World) (inv : Inv i j Safe w) where
  abbrev pub released : World
  released = record w { holder = nobody }

  -- There is nobody left to send to.
  pub released-Inv : to_come w.holder ≡ [] → lag w.holder i ≡ 0 → Inv i j Safe released
  unfolding member lookup
  released-Inv done late = record {
    allocated = inv.allocated;
    numbered = inv.numbered;
    room = inv.room;
    member_set = inv.member_set;
    to_come_set = tt;
    waiting_distinct = inv.waiting_distinct;
    held_distinct = tt;
    waiting_kept = inv.waiting_kept;
    held_kept = λ safe v e. absurd (ground (arith, e));
    carries = tt;
    hears = λ sub alive.
        let (c, is, (d, got, a)) = inv.hears sub alive in
        (
          c,
          is,
          (
            d,
            got,
            record {
              number = omega (arith, a.number, late);
              leaf = λ safe settled due.
                  a.leaf safe settled (λ due'. absurd (ground (arith, due', ap (member i) done)));
            },
          ),
        );
  }

  module _ (n : ℕ) (f : Frame) (fs : List Frame) (queued : (w.heap.at n).out ≡ f ∷ fs) where
    abbrev pub delivered : World
    delivered = record w {
      heap = write w.heap n (drain 1 (w.heap.at n));
      clients = put w.clients n (hear_all (w.clients n) (f ∷ []));
    }

    delivered-Hears :
        member i (members w.scene) ≡ true
        → Hears i j Safe delivered (delivered.clients i) (delivered.heap.at i)
    unfolding write drain
    delivered-Hears sub = elim (Bool-cases (i == n)) [
      | inr other ↦ rw other (λ alive.
          let (c, is, (d, got, a)) = inv.hears sub alive in
          (c, is, (d, got, record { number = a.number; leaf = a.leaf })))
      | inl same ↦
          (let self : n ≡ i = ground (arith, same) in
            let out : (w.heap.at i).out ≡ f ∷ fs =
              ap (λ x. (w.heap.at x).out) (sym self) ∙ queued in
            rw (same, self)
              (λ alive.
                let (c, is, (d, got, a)) = inv.hears sub alive in
                let (b, now, later) =
                  receive_all-split c (f ∷ []) fs (ap (receive_all c) (sym out) ∙ got) in
                (
                  b,
                  ap (λ o. hear_all o (f ∷ [])) is ∙ now,
                  (
                    d,
                    ap (λ q. receive_all b (drop 1 q)) out ∙ later,
                    record { number = a.number; leaf = a.leaf },
                  ),
                )))
    ]

    pub delivered-Inv : Inv i j Safe delivered
    unfolding write
    delivered-Inv = record {
      allocated = inv.allocated;
      numbered = inv.numbered;
      room = inv.room;
      member_set = inv.member_set;
      to_come_set = inv.to_come_set;
      waiting_distinct = inv.waiting_distinct;
      held_distinct = inv.held_distinct;
      waiting_kept = inv.waiting_kept;
      held_kept = inv.held_kept;
      carries = inv.carries;
      hears = delivered-Hears;
    }

  module _ (is : List ℕ) (h : Heap) (clients : ℕ → Option Client) where
    abbrev regrouped : World
    regrouped = record w {
      scene = record (w.scene) { subscribers = some is };
      heap = h;
      clients = clients;
    }

    -- Other subscribers come and go, or this one goes.
    regrouped-Inv :
        i < h.next
        → IsSetOfIds is
        → (member i is ≡ true
            → (member i (members w.scene) ≡ true)
              × ((clients i ≡ w.clients i) × (h.at i ≡ w.heap.at i)))
        → Inv i j Safe regrouped
    regrouped-Inv below set same = record {
      allocated = below;
      numbered = inv.numbered;
      room = inv.room;
      member_set = set;
      to_come_set = inv.to_come_set;
      waiting_distinct = inv.waiting_distinct;
      held_distinct = inv.held_distinct;
      waiting_kept = inv.waiting_kept;
      held_kept = inv.held_kept;
      carries = inv.carries;
      hears = λ sub.
          let (was, (client, at)) = same sub in
          rw (client, at)
            (λ alive.
              let (c, is', (d, got, a)) = inv.hears was alive in
              (c, is', (d, got, record { number = a.number; leaf = a.leaf })));
    }

  module _ (s : Scene) (h : Heap) (n : ℕ) (buffer : ℤ) (live proto11 : Bool) (since : ℕ)
      (first : Initial) (c : Client)
      (subscribes : subscribe_with_resume w.scene w.heap buffer live proto11 since
        ≡ some (s, h, n, first)) where
    abbrev pub joined : World
    joined = record w { scene = s; heap = h; clients = put w.clients n (receive_initial c first) }

    -- A new address, that is added to those of the scene.
    joined_lem :
        (n ≡ w.heap.next)
        × ((h ≡ alloc w.heap (new_subscription buffer live proto11))
            × (s ≡ record (w.scene) { subscribers = some (insert_member n (members w.scene)) }))
    unfolding subscribe_with_resume
    joined_lem = ground (arith, subscribes)

    pub joined-Inv : Inv i j Safe joined
    unfolding alloc
    joined-Inv =
        let (new, (heap, scene)) = joined_lem in
        let apart : (i == n) ≡ false = ground (arith, new, inv.allocated) in
        rw scene (
          regrouped-Inv (insert_member n (members w.scene)) h
            (put w.clients n (receive_initial c first))
            (omega (arith, ap (λ (x : Heap). x.next) heap, inv.allocated))
            (insert_member-IsSetOfIds n (members w.scene) inv.member_set)
            (λ sub. (
              ground (arith, sub, member-insert_member n i (members w.scene), apart),
              (rw apart refl, ground (arith, ap (λ (x : Heap). x.at i) heap, apart, new)),
            )))

  module _ (n : ℕ) where
    abbrev pub left : World
    left = record w {
      scene = (unsubscribe w.scene w.heap n).0;
      heap = (unsubscribe w.scene w.heap n).1;
    }

    pub left-Inv : Inv i j Safe left
    unfolding unsubscribe write
    left-Inv = elim (Bool-cases (member n (members w.scene))) [
      | inr none_here ↦ rw none_here (record {
        allocated = inv.allocated;
        numbered = inv.numbered;
        room = inv.room;
        member_set = inv.member_set;
        to_come_set = inv.to_come_set;
        waiting_distinct = inv.waiting_distinct;
        held_distinct = inv.held_distinct;
        waiting_kept = inv.waiting_kept;
        held_kept = inv.held_kept;
        carries = inv.carries;
        hears = inv.hears;
      })
      | inl here ↦ rw here (
          regrouped-Inv (remove_member n (members w.scene)) (write w.heap n (close (w.heap.at n)))
            w.clients inv.allocated (remove_member-IsSetOfIds n (members w.scene) inv.member_set)
            (λ sub. (
              ground (arith, sub, member-remove_member n i (members w.scene)),
              (refl, ground (arith, sub, member-remove_member n i (members w.scene))),
            )))
    ]
