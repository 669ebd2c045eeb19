-- ===== src/Examples/Scene.antt =====
-- A scene with a slow subscriber: an emission, a refresh, a subscription and a resume.
use lumencast_go.Common.{
  ℕ, pos, ◌≡◌, ◌≢◌, refl, ap, Text, true, false, none, some, [], ◌∷◌, arith, lookup, insert,
  text_eq, some≢none,
}
use lumencast_go.Server.Replay.Window.{IsValid}
use lumencast_go.Server.Store.{raw, encode_value, apply_patches, apply_loop}
use lumencast_go.Protocol.Sequence.{next_server}
use lumencast_go.Server.Subscription.{Heap, member}
use lumencast_go.Server.Scene.{
  Scene, members, set, finish_set, emit_with_cause, finish_emit, advance, subscribe_with_resume,
  Initial, initial, resumed,
}
use lumencast_go.Server.Scene.Client.{Client, Follows, receive_all}
use lumencast_go.Server.Scene.Sync.{InSync, taken_frames}
use lumencast_go.Server.Scene.Emission.{emit_with_cause_lem, emit_keeps_sync, set_keeps_sync}
use lumencast_go.Server.Scene.Resume.{
  Emits, start, then_emits, resume_in_sync, set_not_resumed, receive_initial,
}
use lumencast_go.Examples.Data.{
  title, score, hello, bye, patches, encoded, patches-Encodes, encoded-HasDistinctKeys, scene, heap,
  client, client-Follows,
}

idle-InSync : InSync scene client (heap.at 0)
unfolding receive_all
idle-InSync = λ live. (client, refl, client-Follows)

zero_member : member 0 (members scene) ≡ true
unfolding member
zero_member = refl

emit_keeps_sync_example :
    let (t, h', e) = emit_with_cause (λ i. 1) scene heap patches none none in
    (e ≡ none)
    × (t.seq.cur ≡ 4)
    × ((j : Text)
        → lookup j t.store
          ≡ (elim (lookup j encoded) [ none ↦ lookup j scene.store | some r ↦ some r ]))
    × ((d : Client) × (receive_all client (taken_frames 1 (heap.at 0)) ≡ some d)
        × InSync t d (h'.at 0))
    × ((k : ℕ) → member k (members scene) ≡ false → h'.at k ≡ heap.at k)
unfolding member
emit_keeps_sync_example =
    emit_keeps_sync scene heap encoded (title, raw hello) ((score, raw bye) ∷ []) patches-Encodes
      encoded-HasDistinctKeys (λ i. 1) none none 0 client (refl, tt) (omega arith) (omega arith)
      zero_member idle-InSync refl

set_keeps_sync_example :
    let (t, h', e) = set scene heap patches in
    (e ≡ none)
    × (t.seq.cur ≡ 3)
    × ((j : Text)
        → lookup j t.store
          ≡ (elim (lookup j encoded) [ none ↦ lookup j scene.store | some r ↦ some r ]))
    × InSync t client (h'.at 0)
    × ((k : ℕ) → member k (members scene) ≡ false → h'.at k ≡ heap.at k)
unfolding member
set_keeps_sync_example =
    set_keeps_sync scene heap encoded (title, raw hello) ((score, raw bye) ∷ []) patches-Encodes
      encoded-HasDistinctKeys 0 client (refl, tt) (omega arith) zero_member idle-InSync

pub ring-IsValid : IsValid scene.replay
ring-IsValid = record { storage = refl; head_in = omega arith; size_in = omega arith }

-- The scene after an emission of `patches`.
abbrev pub moved : Scene
moved = (emit_with_cause (λ i. 1) scene heap patches none none).0

pub one_emission : Emits scene moved
one_emission =
    then_emits start heap (emit_with_cause (λ i. 1) scene heap patches none none).1 encoded
      (title, raw hello) ((score, raw bye) ∷ []) (λ i. 1) none none patches-Encodes
      encoded-HasDistinctKeys (omega arith)
      (ap (λ e. (moved, (emit_with_cause (λ i. 1) scene heap patches none none).1, e))
        (ap (λ x. x.2)
          (emit_with_cause_lem scene heap encoded (title, raw hello) ((score, raw bye) ∷ [])
            patches-Encodes encoded-HasDistinctKeys (λ i. 1) none none)))

pub moved_fields : (moved.seq.cur ≡ 4) × (moved.subscribers ≡ some (0 ∷ []))
unfolding emit_with_cause finish_emit apply_patches apply_loop encode_value advance next_server
moved_fields = (refl, refl)

resume_in_sync_example :
    (u : Scene) × (h' : Heap) × (first : Initial) × (d : Client) × (subscribe_with_resume moved heap
        (pos 8)
        true
        true
        client.tracker.cur
      ≡ some (u, h', heap.next, first))
    × (receive_initial client first ≡ some d)
    × Follows u d
resume_in_sync_example =
    resume_in_sync client 3 0 (0 ∷ []) heap (pos 8) true true ring-IsValid refl refl (omega arith)
      client-Follows one_emission (omega (arith, moved_fields.0)) moved_fields.1

score_changes : lookup score (set scene heap patches).0.store ≢ lookup score scene.store
unfolding set finish_set apply_patches apply_loop encode_value insert lookup text_eq
score_changes z = some≢none {a = bye} z

set_not_resumed_example :
    (initial (set scene heap patches).0 3 ≡ resumed [])
    × (receive_initial client (initial (set scene heap patches).0 3) ≡ some client)
    × ¬ Follows (set scene heap patches).0 client
set_not_resumed_example =
    set_not_resumed scene heap encoded (title, raw hello) ((score, raw bye) ∷ []) score client 3 0
      patches-Encodes encoded-HasDistinctKeys ring-IsValid refl refl (omega arith) (omega arith)
      client-Follows score_changes
