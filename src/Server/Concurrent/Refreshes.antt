-- ===== src/Server/Concurrent/Refreshes.antt =====
-- The invariant in the loop of refreshAll (server/scene.go).
use lumencast_go.Common.{
  ℕ, ◌≡◌, sym, ap, ◌∙◌, subst, inl, inr, Text, true, false, some, List, [], ◌∷◌, ◌++◌, Map, lookup,
  HasDistinctKeys, arith, ◌==◌, Bool-cases, ltb, length,
}
use lumencast_go.Json.{Raw}
use lumencast_go.Protocol.Frames.{snapshot, Snapshot}
use lumencast_go.Server.Subscription.{Subscription, member, write, offer, mark_stale}
use lumencast_go.Server.Subscription.Fanout.{IsSetOfIds}
use lumencast_go.Server.Scene.{members}
use lumencast_go.Server.Scene.Client.{Client, receive, receive_all, receive-snapshot}
use lumencast_go.Server.Scene.Sync.{receive_all-one}
use lumencast_go.Server.Concurrent.{refreshing, World, send_captured}
use lumencast_go.Server.Concurrent.Held.{held, to_come, lag, IsSettled, Keeps}
use lumencast_go.Server.Concurrent.Invariant.{At, Hears, Carries, Inv}

module _ (snap : Snapshot) (sub : Subscription) where
  send_captured_room :
      ltb (length sub.out) sub.cap ≡ true
      → send_captured snap sub ≡ record sub { out = sub.out ++ (snapshot snap ∷ []) }
  unfolding send_captured offer
  send_captured_room e = ground arith

  send_captured_full :
      ltb (length sub.out) sub.cap ≡ false → send_captured snap sub ≡ record sub { stale = true }
  unfolding send_captured offer mark_stale
  send_captured_full e = ground arith

module _ (i : ℕ) (j : Text) (Safe : Type 0) (w : World) (snap : Snapshot) (raw : Map Raw) (n : ℕ)
    (rest : List ℕ) (holds : w.holder ≡ refreshing snap raw (n ∷ rest)) (inv : Inv i j Safe w) where
  abbrev pub rebased : World
  rebased = record w {
    heap = write w.heap n (send_captured snap (w.heap.at n));
    holder = refreshing snap raw rest;
  }

  rebased_set : (member n rest ≡ false) × IsSetOfIds rest
  rebased_set = subst (λ h. IsSetOfIds (to_come h)) holds inv.to_come_set

  rebased_carries :
      (snap.seq ≡ w.scene.seq.cur)
      × (Safe → IsSettled j w.waiting → lookup j snap.state ≡ lookup j w.scene.store)
  rebased_carries = subst (Carries i j Safe w) holds inv.carries

  -- A client that takes the snapshot.
  taken_At :
      (d : Client) → (e : Client) × (receive d (snapshot snap) ≡ some e) × At i j Safe rebased e
  taken_At d = (
    record { tracker = record { cur = snap.seq }; state = snap.state },
    receive-snapshot d snap (omega (arith, rebased_carries.0, inv.numbered)),
    record {
      number = omega (arith, rebased_carries.0);
      leaf = λ safe settled due. rebased_carries.1 safe settled;
    },
  )

  unturned_At : (i == n) ≡ false → (d : Client) → At i j Safe w d → At i j Safe rebased d
  unfolding member
  unturned_At other d a = record {
    number = ground (arith, a.number, ap (λ h. lag h i) holds);
    leaf = λ safe settled due. a.leaf safe settled (λ due'.
        ap (λ h. lookup j (held h)) holds
        ∙ due (ground (arith, due', ap (λ h. member i (to_come h)) holds, other)));
  }

  rebased-Hears :
      member i (members w.scene) ≡ true
      → Hears i j Safe rebased (rebased.clients i) (rebased.heap.at i)
  unfolding write
  rebased-Hears sub = elim (Bool-cases (i == n)) [
    | inr other ↦ rw other (λ alive.
        let (c, is, (d, got, a)) = inv.hears sub alive in (c, is, (d, got, unturned_At other d a)))
    | inl same ↦
        (let self : i ≡ n = ground (arith, same) in
          rw same (elim (Bool-cases (ltb (length (w.heap.at n).out) (w.heap.at n).cap)) [
            | inr full ↦
                rw (send_captured_full snap (w.heap.at n) full)
                  (λ alive. absurd (ground (arith, alive)))
            | inl fits ↦ rw (send_captured_room snap (w.heap.at n) fits) (λ alive.
                let (c, is, (d, got, a)) =
                  inv.hears sub (subst (λ x. (w.heap.at x).stale ≡ false) (sym self) alive) in
                let (e, takes, b) = taken_At d in
                (
                  c,
                  is,
                  (
                    e,
                    receive_all-one c d e (w.heap.at n).out (snapshot snap)
                        (subst (λ x. receive_all c (w.heap.at x).out ≡ some d) self got) takes,
                    record { number = b.number; leaf = b.leaf },
                  ),
                ))
          ]))
  ]

  pub rebased-Inv : Inv i j Safe rebased
  unfolding write
  rebased-Inv = record {
    allocated = inv.allocated;
    numbered = inv.numbered;
    room = inv.room;
    member_set = inv.member_set;
    to_come_set = rebased_set.1;
    waiting_distinct = inv.waiting_distinct;
    held_distinct = subst (λ h. HasDistinctKeys (held h)) holds inv.held_distinct;
    waiting_kept = inv.waiting_kept;
    held_kept = λ safe. subst (λ h. Keeps j w.scene.store (held h)) holds (inv.held_kept safe);
    carries = rebased_carries;
    hears = rebased-Hears;
  }
