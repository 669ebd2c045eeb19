-- ===== src/Server/Concurrent/Sends.antt =====
-- The invariant in the loop of emitWithCause (server/scene.go).
use lumencast_go.Common.{
  ℕ, ◌+◌, ◌<◌, ◌≡◌, sym, ap, ◌∙◌, subst, inl, inr, Text, true, false, some, List, ◌∷◌, Map, lookup,
  HasDistinctKeys, arith, ◌==◌, Bool-cases, Option-cases,
}
use lumencast_go.Json.{Raw}
use lumencast_go.Protocol.Frames.{snapshot, delta, Delta}
use lumencast_go.Server.Store.Apply.{lookup-insert_all}
use lumencast_go.Server.Subscription.{member, write}
use lumencast_go.Server.Subscription.Fanout.{IsSetOfIds}
use lumencast_go.Server.Scene.{members, to_patches, current_snapshot, send_delta}
use lumencast_go.Server.Scene.Client.{
  Client, receive, receive_all, receive_patches, receive_patches-insert_all, receive-delta,
  receive-snapshot,
}
use lumencast_go.Server.Scene.Sync.{
  current_snapshot_lem, taken_frames, send_delta-Brings, send_delta-alive,
}
use lumencast_go.Server.Concurrent.{sending, World, put, hear_all}
use lumencast_go.Server.Concurrent.Held.{held, to_come, lag, IsSettled, Keeps}
use lumencast_go.Server.Concurrent.Invariant.{At, Hears, Carries, Inv}

module _ (i : ℕ) (j : Text) (Safe : Type 0) (w : World) (m : Delta) (raw : Map Raw) (n k : ℕ)
    (rest : List ℕ) (holds : w.holder ≡ sending m raw (n ∷ rest)) (inv : Inv i j Safe w) where
  abbrev pub sent : World
  sent = record w {
    heap = write w.heap n (send_delta w.scene m k (w.heap.at n));
    holder = sending m raw rest;
    clients = put w.clients n (hear_all (w.clients n) (taken_frames k (w.heap.at n)));
  }

  sent_set : (member n rest ≡ false) × IsSetOfIds rest
  sent_set = subst (λ h. IsSetOfIds (to_come h)) holds inv.to_come_set

  sent_carries : (m.seq ≡ w.scene.seq.cur) × ((m.patches ≡ to_patches raw) × (1 < w.scene.seq.cur))
  sent_carries = subst (Carries i j Safe w) holds inv.carries

  sent_kept : Safe → Keeps j w.scene.store raw
  sent_kept safe = subst (λ h. Keeps j w.scene.store (held h)) holds (inv.held_kept safe)

  sent_distinct : HasDistinctKeys raw
  sent_distinct = subst (λ h. HasDistinctKeys (held h)) holds inv.held_distinct

  patched :
      (d : Client)
      → At i j Safe w d
      → Safe
      → IsSettled j w.waiting
      → lookup j (receive_patches d.state m.patches) ≡ lookup j w.scene.store
  patched d a safe settled =
      ap (λ ps. lookup j (receive_patches d.state ps)) sent_carries.1.0
      ∙ ap (lookup j) (receive_patches-insert_all d.state raw)
      ∙ elim (Option-cases (lookup j raw)) [
        | inl e ↦ ground (
          arith,
          lookup-insert_all d.state raw j sent_distinct,
          e,
          a.leaf safe settled (λ due. ap (λ h. lookup j (held h)) holds ∙ e),
        )
        | inr (v, e) ↦
            ground (arith, lookup-insert_all d.state raw j sent_distinct, e, sent_kept safe v e)
      ]

  -- A client that takes the delta, for the subscriber whose turn it is.
  delta_At :
      i ≡ n
      → (d : Client) → At i j Safe w d
      → (e : Client) × (receive d (delta m) ≡ some e) × At i j Safe sent e
  unfolding member
  delta_At self d a =
      let (numbered, (patches, large)) = sent_carries in
      let late : d.tracker.cur + 1 ≡ w.scene.seq.cur =
        ground (arith, a.number, ap (λ h. lag h i) holds, self) in
      let gone = sent_set.0 in
      (
        record { tracker = record { cur = m.seq }; state = receive_patches d.state m.patches },
        receive-delta d m (omega (arith, late, large)) (omega (arith, late, inv.room))
            (omega (arith, late, numbered)),
        record {
          number = ground (arith, numbered, self, gone);
          leaf = λ safe settled due. patched d a safe settled;
        },
      )

  -- One that takes a snapshot in its place.
  rebase_At :
      i ≡ n
      → (d : Client)
      → (e : Client) × (receive d (snapshot (current_snapshot w.scene)) ≡ some e)
        × At i j Safe sent e
  unfolding member
  rebase_At self d =
      let (numbered, state) = current_snapshot_lem w.scene in
      let gone = sent_set.0 in
      (
        record {
          tracker = record { cur = (current_snapshot w.scene).seq };
          state = (current_snapshot w.scene).state;
        },
        receive-snapshot d (current_snapshot w.scene) (omega (arith, numbered, inv.numbered)),
        record {
          number = ground (arith, numbered, self, gone);
          leaf = λ safe settled due. ap (lookup j) state;
        },
      )

  -- The subscribers whose turn it is not.
  passed_At : (i == n) ≡ false → (d : Client) → At i j Safe w d → At i j Safe sent d
  unfolding member
  passed_At other d a = record {
    number = ground (arith, a.number, ap (λ h. lag h i) holds, other);
    leaf = λ safe settled due. a.leaf safe settled (λ due'.
        ap (λ h. lookup j (held h)) holds
        ∙ due (ground (arith, due', ap (λ h. member i (to_come h)) holds, other)));
  }

  sent-Hears :
      member i (members w.scene) ≡ true → Hears i j Safe sent (sent.clients i) (sent.heap.at i)
  unfolding write
  sent-Hears sub = elim (Bool-cases (i == n)) [
    | inr other ↦ rw other (λ alive.
        let (c, is, (d, got, a)) = inv.hears sub alive in (c, is, (d, got, passed_At other d a)))
    | inl same ↦
        (let self : i ≡ n = ground (arith, same) in
          rw same (λ alive.
            let before : (w.heap.at i).stale ≡ false =
              subst (λ x. (w.heap.at x).stale ≡ false) (sym self)
                (send_delta-alive w.scene m k (w.heap.at n) alive) in
            let (c, is, (d, got, a)) = inv.hears sub before in
            let (b, taken, brings) =
              send_delta-Brings (At i j Safe w) (At i j Safe sent) w.scene c m k (w.heap.at n)
                (delta_At self) (rebase_At self)
                (λ _. (d, subst (λ x. receive_all c (w.heap.at x).out ≡ some d) self got, a))
                (send_delta-alive w.scene m k (w.heap.at n) alive) in
            (
              b,
              ap (λ o. hear_all o (taken_frames k (w.heap.at n))) (ap w.clients (sym self) ∙ is)
                  ∙ taken,
              brings alive,
            )))
  ]

  pub sent-Inv : Inv i j Safe sent
  unfolding write
  sent-Inv = record {
    allocated = inv.allocated;
    numbered = inv.numbered;
    room = inv.room;
    member_set = inv.member_set;
    to_come_set = sent_set.1;
    waiting_distinct = inv.waiting_distinct;
    held_distinct = sent_distinct;
    waiting_kept = inv.waiting_kept;
    held_kept = sent_kept;
    carries = sent_carries;
    hears = sent-Hears;
  }
