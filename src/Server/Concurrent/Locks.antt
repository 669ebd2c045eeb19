-- ===== src/Server/Concurrent/Locks.antt =====
-- The invariant when emitWithCause or refreshAll takes the lock of the scene (server/scene.go).
use lumencast_go.Common.{
  ℕ, ◌+◌, ◌^◌, ◌<◌, ◌≡◌, refl, sym, ap, ◌∙◌, subst, Text, true, Option, none, List, ◌∷◌, ◌++◌, All,
  Map, lookup, HasDistinctKeys, arith,
}
use lumencast_go.Json.{Raw}
use lumencast_go.Protocol.Sequence.{next_server}
use lumencast_go.Protocol.Frames.{Cause, ProjectionMetadata}
use lumencast_go.Server.Subscription.{member}
use lumencast_go.Server.Scene.{Scene, members, to_patches, advance, make_delta, current_snapshot}
use lumencast_go.Server.Scene.Client.{Client}
use lumencast_go.Server.Scene.Sync.{current_snapshot_lem}
use lumencast_go.Server.Concurrent.{Waiting, emission, refresh, nobody, sending, refreshing, World}
use lumencast_go.Server.Concurrent.Held.{writes, held, lag, IsSettled, Keeps}
use lumencast_go.Server.Concurrent.Invariant.{At, Inv, All-remove, All-restore}

advance_lem :
    (s : Scene) (raw : Map Raw) (cause : Option Cause) (metadata : Option ProjectionMetadata)
    → s.seq.cur + 1 < 2 ^ 64
    → ((advance s (to_patches raw) cause metadata).seq.cur ≡ s.seq.cur + 1)
      × (((advance s (to_patches raw) cause metadata).store ≡ s.store)
          × (members (advance s (to_patches raw) cause metadata) ≡ members s))
unfolding advance next_server
advance_lem s raw cause metadata room = (omega arith, (refl, refl))

module _ (i : ℕ) (j : Text) (Safe : Type 0) (w : World) (before after : List Waiting)
    (free : w.holder ≡ nobody) (inv : Inv i j Safe w) where
  -- What a client has while nobody holds the lock.
  free_At :
      (d : Client)
      → At i j Safe w d
      → (d.tracker.cur ≡ w.scene.seq.cur)
        × (Safe → IsSettled j w.waiting → lookup j d.state ≡ lookup j w.scene.store)
  unfolding member lookup
  free_At d a = (
    ground (arith, a.number, ap (λ h. lag h i) free),
    λ safe settled. a.leaf safe settled (λ due. ap (λ h. lookup j (held h)) free),
  )

  module _ (raw : Map Raw) (cause : Option Cause) (metadata : Option ProjectionMetadata)
      (waits : w.waiting ≡ before ++ (emission raw cause metadata ∷ after))
      (room : w.scene.seq.cur + 1 < 2 ^ 64) where
    abbrev pub emitting : World
    emitting = record w {
      scene = advance w.scene (to_patches raw) cause metadata;
      waiting = before ++ after;
      holder =
          sending
            (make_delta (advance w.scene (to_patches raw) cause metadata).seq.cur (to_patches raw)
              cause metadata)
            raw (members w.scene);
    }

    emitting-At :
        member i (members w.scene) ≡ true → (d : Client) → At i j Safe w d → At i j Safe emitting d
    emitting-At sub d a =
        let (number, leaf) = free_At d a in
        let (moved, (same, _)) = advance_lem w.scene raw cause metadata room in
        record {
          number = ground (arith, number, moved, sub);
          leaf = λ safe settled due.
              leaf safe (
                subst (IsSettled j) (sym waits) (
                  All-restore (λ x. lookup j (writes x) ≡ none) before (emission raw cause metadata)
                    after (due sub) settled))
              ∙ ap (lookup j) (sym same);
        }

    pub emitting-Inv : Inv i j Safe emitting
    emitting-Inv =
        let (moved, (same, subs)) = advance_lem w.scene raw cause metadata room in
        let (one, others) =
          All-remove (λ x. HasDistinctKeys (writes x)) before (emission raw cause metadata) after
            (subst (λ ws. All (λ x. HasDistinctKeys (writes x)) ws) waits inv.waiting_distinct) in
        let kept : Safe
            → Keeps j w.scene.store raw
              × All (λ x. Keeps j w.scene.store (writes x)) (before ++ after) =
          λ safe.
            All-remove (λ x. Keeps j w.scene.store (writes x)) before (emission raw cause metadata)
              after
              (subst (λ ws. All (λ x. Keeps j w.scene.store (writes x)) ws) waits
                (inv.waiting_kept safe)) in
        record {
          allocated = inv.allocated;
          numbered = omega (arith, moved);
          room = omega (arith, moved, room);
          member_set = rw subs inv.member_set;
          to_come_set = inv.member_set;
          waiting_distinct = others;
          held_distinct = one;
          waiting_kept = λ safe. rw same (kept safe).1;
          held_kept = λ safe. rw same (kept safe).0;
          carries = (refl, (refl, omega (arith, moved, inv.numbered)));
          hears = λ sub alive.
              let was : member i (members w.scene) ≡ true = ap (member i) (sym subs) ∙ sub in
              let (c, is, (d, got, a)) = inv.hears was alive in
              (c, is, (d, got, emitting-At was d a));
        }

  module _ (raw : Map Raw) (waits : w.waiting ≡ before ++ (refresh raw ∷ after)) where
    abbrev pub rebasing : World
    rebasing = record w {
      waiting = before ++ after;
      holder = refreshing (current_snapshot w.scene) raw (members w.scene);
    }

    rebasing-At :
        member i (members w.scene) ≡ true → (d : Client) → At i j Safe w d → At i j Safe rebasing d
    rebasing-At sub d a =
        let (number, leaf) = free_At d a in
        record {
          number = omega (arith, number);
          leaf = λ safe settled due. leaf safe (
              subst (IsSettled j) (sym waits) (
                All-restore (λ x. lookup j (writes x) ≡ none) before (refresh raw) after (due sub)
                  settled));
        }

    pub rebasing-Inv : Inv i j Safe rebasing
    rebasing-Inv =
        let (numbered, state) = current_snapshot_lem w.scene in
        let (one, others) =
          All-remove (λ x. HasDistinctKeys (writes x)) before (refresh raw) after
            (subst (λ ws. All (λ x. HasDistinctKeys (writes x)) ws) waits inv.waiting_distinct) in
        let kept : Safe
            → Keeps j w.scene.store raw
              × All (λ x. Keeps j w.scene.store (writes x)) (before ++ after) =
          λ safe.
            All-remove (λ x. Keeps j w.scene.store (writes x)) before (refresh raw) after
              (subst (λ ws. All (λ x. Keeps j w.scene.store (writes x)) ws) waits
                (inv.waiting_kept safe)) in
        record {
          allocated = inv.allocated;
          numbered = inv.numbered;
          room = inv.room;
          member_set = inv.member_set;
          to_come_set = inv.member_set;
          waiting_distinct = others;
          held_distinct = one;
          waiting_kept = λ safe. (kept safe).1;
          held_kept = λ safe. (kept safe).0;
          carries = (numbered, λ safe settled. ap (lookup j) state);
          hears = λ sub alive.
              let (c, is, (d, got, a)) = inv.hears sub alive in
              (c, is, (d, got, rebasing-At sub d a));
        }
