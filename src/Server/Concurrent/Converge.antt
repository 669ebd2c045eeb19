-- ===== src/Server/Concurrent/Converge.antt =====
-- A subscriber after a run of the calls of its scene (server/scene.go).
use lumencast_go.Common.{
  ℕ, ◌+◌, ◌^◌, ◌<◌, ◌≡◌, refl, ap, Text, true, false, some, [], lookup, arith,
}
use lumencast_go.Server.Subscription.{member}
use lumencast_go.Server.Subscription.Fanout.{IsSetOfIds}
use lumencast_go.Server.Store.{sort_patches}
use lumencast_go.Server.Scene.{members}
use lumencast_go.Server.Scene.Client.{Client, Follows, receive_all}
use lumencast_go.Server.Concurrent.{
  emission, refresh, nobody, all_of, only, World, Written, Step, Run, emit_writes, set_writes,
  write_fails, emit_locks, refresh_locks, sends, refreshes, emit_unlocks, refresh_unlocks, delivers,
  joins, leaves, begins, and_then,
}
use lumencast_go.Server.Concurrent.Held.{to_come, lag}
use lumencast_go.Server.Concurrent.Invariant.{Inv, Careful}
use lumencast_go.Server.Concurrent.Writes.{applied-Inv, write_fails-Inv}
use lumencast_go.Server.Concurrent.Locks.{emitting-Inv, rebasing-Inv}
use lumencast_go.Server.Concurrent.Sends.{sent-Inv}
use lumencast_go.Server.Concurrent.Refreshes.{rebased-Inv}
use lumencast_go.Server.Concurrent.Others.{released-Inv, delivered-Inv, joined-Inv, left-Inv}

-- The writes of the run may be restricted further.
module _ (i : ℕ) (j : Text) (Safe : Type 0) (May : World → Written → Type 0)
    (careful : (w : World) (x : Written) → May w x → Careful j Safe w x) where
  Step-Inv : (w u : World) → Step May w u → Inv i j Safe w → Inv i j Safe u
  unfolding member
  Step-Inv w u (emit_writes p ps xs cause metadata e d may) inv =
      applied-Inv i j Safe w p ps xs e d (emission (sort_patches xs) cause metadata) refl
        (careful w (all_of xs) may) inv
  Step-Inv w u (set_writes p ps xs e d may) inv =
      applied-Inv i j Safe w p ps xs e d (refresh (sort_patches xs)) refl
        (careful w (all_of xs) may) inv
  Step-Inv w u (write_fails ps rest k v xs e d fails may) inv =
      write_fails-Inv i j Safe w ps rest k v xs e d fails (careful w (only xs) may) inv
  Step-Inv w u (emit_locks before after raw cause metadata free waits room) inv =
      emitting-Inv i j Safe w before after free inv raw cause metadata waits room
  Step-Inv w u (refresh_locks before after raw free waits) inv =
      rebasing-Inv i j Safe w before after free inv raw waits
  Step-Inv w u (sends m raw n k rest holds) inv = sent-Inv i j Safe w m raw n k rest holds inv
  Step-Inv w u (refreshes snap raw n rest holds) inv =
      rebased-Inv i j Safe w snap raw n rest holds inv
  Step-Inv w u (emit_unlocks m raw holds) inv =
      released-Inv i j Safe w inv (ap to_come holds) (ap (λ h. lag h i) holds)
  Step-Inv w u (refresh_unlocks snap raw holds) inv =
      released-Inv i j Safe w inv (ap to_come holds) (ap (λ h. lag h i) holds)
  Step-Inv w u (delivers n f fs queued) inv = delivered-Inv i j Safe w inv n f fs queued
  Step-Inv w u (joins s h n buffer live proto11 since first c free subscribes) inv =
      joined-Inv i j Safe w inv s h n buffer live proto11 since first c subscribes
  Step-Inv w u (leaves n free) inv = left-Inv i j Safe w inv n

  pub Run-Inv : {w u : World} → Run May w u → Inv i j Safe w → Inv i j Safe u
  Run-Inv begins inv = inv
  Run-Inv (and_then {u} {v} run step) inv = Step-Inv u v step (Run-Inv run inv)

-- A subscriber that has just received what its connection writes first: nothing is in progress,
-- its queue is empty, and its client is in step.
pub record Begins (i : ℕ) (w : World) (c : Client) : Type 0 where
  pub idle : (w.holder ≡ nobody) × (w.waiting ≡ [])
  pub allocated : i < w.heap.next
  pub member_set : IsSetOfIds (members w.scene)
  pub room : (0 < w.scene.seq.cur) × (w.scene.seq.cur < 2 ^ 64)
  pub client : w.clients i ≡ some c
  pub queue : (w.heap.at i).out ≡ []
  pub in_step : Follows w.scene c

Begins-Inv :
    (i : ℕ) (j : Text) (Safe : Type 0) (w : World) (c : Client) → Begins i w c → Inv i j Safe w
unfolding lookup receive_all
Begins-Inv i j Safe w c b = record {
  allocated = b.allocated;
  numbered = b.room.0;
  room = b.room.1;
  member_set = b.member_set;
  to_come_set = rw b.idle.0 tt;
  waiting_distinct = rw b.idle.1 tt;
  held_distinct = rw b.idle.0 tt;
  waiting_kept = λ safe. rw b.idle.1 tt;
  held_kept = λ safe. rw b.idle.0 (λ v e. absurd (ground (arith, e)));
  carries = rw b.idle.0 tt;
  hears = λ sub alive. (
    c,
    b.client,
    (
      c,
      rw b.queue refl,
      record {
        number = ground (arith, b.in_step.numbered, ap (λ h. lag h i) b.idle.0);
        leaf = λ safe settled due. b.in_step.leaves j;
      },
    ),
  );
}

-- Every write to the store, those of calls that fail included.
abbrev pub Any : World → Written → Type 0
Any w x = Unit

Any-Careful : (w : World) (x : Written) → Any w x → Careful [] ⊥ w x
Any-Careful w (all_of xs) may = λ safe. absurd safe
Any-Careful w (only xs) may = λ safe. absurd safe

-- A subscriber begins with an empty queue and a client in step with its scene, numbered from 1 on,
-- while no call is in progress. However the calls of the scene, the writers of its connections and
-- the other clients then interleave at the locks, if it is still of the scene and is not given up,
-- its client is still there, accepts every frame of its queue, and then has the number of the
-- scene, or the one before it while the delta of the emission in progress is yet to be offered to
-- it.
pub interleaved_numbers :
    (i : ℕ) (w u : World) (c : Client)
    → Begins i w c
    → Run Any w u
    → member i (members u.scene) ≡ true
    → (u.heap.at i).stale ≡ false
    → (a : Client) × (d : Client) × (u.clients i ≡ some a)
      × ((receive_all a (u.heap.at i).out ≡ some d)
          × (d.tracker.cur + lag u.holder i ≡ u.scene.seq.cur))
interleaved_numbers i w u c b run sub alive =
    let inv = Run-Inv i [] ⊥ Any Any-Careful run (Begins-Inv i [] ⊥ w c b) in
    let (a, is, (d, got, at)) = inv.hears sub alive in (a, d, is, (got, at.number))

-- A subscriber begins with an empty queue and a client in step with its scene, numbered from 1 on,
-- while no call is in progress. If no call writes a leaf while another call that has written it is
-- in progress, and no call that fails has written it before it failed, then however the calls interleave at the locks, whenever no call is in progress and
-- the subscriber is still of the scene and not given up, its client has, after its queue, the
-- scene's number and its value of that leaf.
pub interleaved_leaf :
    (i : ℕ) (j : Text) (w u : World) (c : Client)
    → Begins i w c
    → Run (Careful j Unit) w u
    → u.holder ≡ nobody
    → u.waiting ≡ []
    → member i (members u.scene) ≡ true
    → (u.heap.at i).stale ≡ false
    → (a : Client) × (d : Client) × (u.clients i ≡ some a)
      × ((receive_all a (u.heap.at i).out ≡ some d)
          × ((d.tracker.cur ≡ u.scene.seq.cur) × (lookup j d.state ≡ lookup j u.scene.store)))
unfolding member
interleaved_leaf i j w u c b run free quiet sub alive =
    let inv = Run-Inv i j Unit (Careful j Unit) (λ _ _ may. may) run (Begins-Inv i j Unit w c b) in
    let (a, is, (d, got, at)) = inv.hears sub alive in
    (
      a,
      d,
      is,
      (
        got,
        (
          ground (arith, at.number, ap (λ h. lag h i) free),
          at.leaf tt (rw quiet tt)
              (λ due. absurd (ground (arith, due, ap (λ h. member i (to_come h)) free))),
        ),
      ),
    )
