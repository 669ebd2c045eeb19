-- ===== src/Server/Scene/Emission.antt =====
-- Emissions, refreshes and subscriptions as a whole: what each subscriber of a scene gets.
use lumencast_go.Common.{
  ℕ, ℤ, ◌+◌, ◌^◌, ◌<◌, ◌≡◌, ◌≢◌, refl, ap, ◌∙◌, Text, Bool, true, false, Option, none, some, List,
  ◌∷◌, Map, HasDistinctKeys, arith, lookup,
}
use lumencast_go.Json.{Raw}
use lumencast_go.Protocol.Sequence.{next_server, add_u64}
use lumencast_go.Protocol.Frames.{Snapshot, snapshot, delta, Cause, ProjectionMetadata}
use lumencast_go.Server.Store.{Value, sort_patches}
use lumencast_go.Server.Store.Apply.{
  Encodes, insert_all, apply_patches-Encodes, lookup-insert_all, lookup-insert_all_sorted,
}
use lumencast_go.Server.Subscription.{Heap, member, insert_member, fan_out, alloc}
use lumencast_go.Server.Subscription.Fanout.{IsSetOfIds, at-fan_out, member-insert_member}
use lumencast_go.Server.Scene.{
  Scene, members, advance, to_patches, make_delta, finish_emit, finish_set, emit_with_cause,
  send_delta, refresh_all, set, fresh, subscribe_with_resume, new_subscription, current_snapshot,
}
use lumencast_go.Server.Scene.Client.{
  Client, Follows, receive, receive_all, receive_patches, receive_patches-insert_all, receive-delta,
}
use lumencast_go.Server.Scene.Sync.{
  InSync, taken_frames, send_delta-InSync, send_snapshot-InSync, snapshot-Follows,
}

module _ (s : Scene) (h : Heap) (xs : Map Raw) (p : Text × Value) (ps : Map Value)
    (encodes : Encodes (p ∷ ps) xs) (distinct : HasDistinctKeys xs) where
  -- The scene after the patches are written, and after its number has moved on.
  abbrev pub written : Scene
  written = record s { store = insert_all s.store xs }

  abbrev pub after : Option Cause → Option ProjectionMetadata → Scene
  after cause metadata = advance written (to_patches (sort_patches xs)) cause metadata

  pub set_lem : set s h (p ∷ ps) ≡ (written, refresh_all written h, none)
  unfolding set finish_set
  set_lem = rw (apply_patches-Encodes s.store xs p ps encodes)

  module _ (taken : ℕ → ℕ) (cause : Option Cause) (metadata : Option ProjectionMetadata) where
    pub emit_with_cause_lem : emit_with_cause taken s h (p ∷ ps) cause metadata ≡ (
      after cause metadata,
      fan_out
          (λ i.
            send_delta
              (after cause metadata)
              (make_delta
                (after cause metadata).seq.cur
                (to_patches (sort_patches xs))
                cause
                metadata)
              (taken i))
          (members s)
          h,
      none,
    )
    unfolding emit_with_cause finish_emit advance
    emit_with_cause_lem = rw (apply_patches-Encodes s.store xs p ps encodes)

    pub after_fields :
        s.seq.cur + 1 < 2 ^ 64
        → ((after cause metadata).seq.cur ≡ s.seq.cur + 1)
          × ((after cause metadata).store ≡ insert_all s.store xs)
    unfolding advance next_server
    after_fields room = (omega arith, refl)

    -- A client in step with the scene takes the delta, and is in step with the scene after it.
    pub delta-Follows :
        0 < s.seq.cur
        → s.seq.cur + 1 < 2 ^ 64
        → (c : Client) → Follows s c
        → let t = after cause metadata in
          (d : Client) × (receive c
              (delta (make_delta t.seq.cur (to_patches (sort_patches xs)) cause metadata))
            ≡ some d)
          × Follows t d
    unfolding advance next_server
    delta-Follows pos room c f = (
      record {
        tracker = record { cur = add_u64 s.seq.cur 1 };
        state = receive_patches c.state (to_patches (sort_patches xs));
      },
      receive-delta c _ (omega (arith, f.numbered)) (omega (arith, f.numbered))
          (omega (arith, f.numbered)),
      record {
        numbered = refl;
        leaves = λ j.
            ap (lookup j) (receive_patches-insert_all c.state (sort_patches xs))
            ∙ lookup-insert_all_sorted c.state s.store xs j distinct (f.leaves j);
      },
    )

    -- On a scene that is numbered, below the last number, an emission of one or more patches that
    -- can be encoded succeeds, moves the scene's number on by one and stores each patch. It keeps
    -- every subscriber that was in step in step: its client, after what the writer takes meanwhile
    -- and what is queued then, holds the new state and number, unless the subscriber is given up.
    -- The subscriptions of others do not change.
    pub emit_keeps_sync :
        (i : ℕ) (c : Client)
        → IsSetOfIds (members s)
        → 0 < s.seq.cur
        → s.seq.cur + 1 < 2 ^ 64
        → member i (members s) ≡ true
        → InSync s c (h.at i)
        → (h.at i).stale ≡ false
        → let (t, h', e) = emit_with_cause taken s h (p ∷ ps) cause metadata in
          (e ≡ none)
          × (t.seq.cur ≡ s.seq.cur + 1)
          × ((j : Text)
              → lookup j t.store
                ≡ (elim (lookup j xs) [ none ↦ lookup j s.store | some r ↦ some r ]))
          × ((d : Client) × (receive_all c (taken_frames (taken i) (h.at i)) ≡ some d)
              × InSync t d (h'.at i))
          × ((k : ℕ) → member k (members s) ≡ false → h'.at k ≡ h.at k)
    emit_keeps_sync i c ids pos room sub sync alive = rw emit_with_cause_lem (
      refl,
      (after_fields room).0,
      λ j. rw (after_fields room).1 (lookup-insert_all s.store xs j distinct),
      rw (at-fan_out _ (members s) h i ids, sub)
          (send_delta-InSync s (after cause metadata) c _ (taken i) (h.at i)
            (omega (arith, (after_fields room).0)) (delta-Follows pos room) sync alive),
      λ k out. rw (at-fan_out _ (members s) h k ids, out) refl,
    )

  -- On a scene that is numbered, Set on one or more patches that can be encoded succeeds, stores
  -- each patch and leaves the scene's number. Every subscriber that was in step is in step with the
  -- new state, or is given up; the subscriptions of others do not change.
  pub set_keeps_sync :
      (i : ℕ) (c : Client)
      → IsSetOfIds (members s)
      → 0 < s.seq.cur
      → member i (members s) ≡ true
      → InSync s c (h.at i)
      → let (t, h', e) = set s h (p ∷ ps) in
        (e ≡ none)
        × (t.seq.cur ≡ s.seq.cur)
        × ((j : Text)
            → lookup j t.store ≡ (elim (lookup j xs) [ none ↦ lookup j s.store | some r ↦ some r ]))
        × InSync t c (h'.at i)
        × ((k : ℕ) → member k (members s) ≡ false → h'.at k ≡ h.at k)
  set_keeps_sync i c ids pos sub sync = rw set_lem (
    refl,
    refl,
    λ j. lookup-insert_all s.store xs j distinct,
    unfold refresh_all in
        rw (at-fan_out _ (members s) h i ids, sub)
          (send_snapshot-InSync s written c (h.at i) pos sync),
    λ k out. unfold refresh_all in rw (at-fan_out _ (members s) h k ids, out) refl,
  )

-- On a numbered scene, a subscription without a resume opens with an empty queue behind a snapshot
-- that brings any client to the scene's state and number. Nothing else of the scene changes, and no
-- subscription in use is touched.
pub subscribe_opens :
    (s : Scene) (h : Heap) (is : List ℕ) (buffer : ℤ) (live proto11 : Bool) (c : Client)
    → s.subscribers ≡ some is
    → 0 < s.seq.cur
    → (t : Scene) × (h' : Heap) × (snap : Snapshot) × (d : Client) × (subscribe_with_resume s h
          buffer live proto11 0
        ≡ some (t, h', h.next, fresh snap))
      × (receive c (snapshot snap) ≡ some d)
      × Follows t d
      × InSync t d (h'.at h.next)
      × (member h.next (members t) ≡ true)
      × ((j : ℕ) → j ≢ h.next → h'.at j ≡ h.at j)
unfolding subscribe_with_resume alloc receive_all
subscribe_opens s h is buffer live proto11 c e pos =
    let (d, got, f) = snapshot-Follows s c pos in
    let g : Follows (record s { subscribers = some (insert_member h.next is) }) d = record {
      numbered = f.numbered;
      leaves = f.leaves;
    } in
    (
      record s { subscribers = some (insert_member h.next is) },
      alloc h (new_subscription buffer live proto11),
      current_snapshot s,
      d,
      ground (arith, e),
      got,
      g,
      (λ _. (d, ground arith, g)),
      ground (arith, member-insert_member h.next h.next is),
      (λ j ne. ground arith),
    )
