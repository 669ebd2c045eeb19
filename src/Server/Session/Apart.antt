-- ===== src/Server/Session/Apart.antt =====
-- What the messages of a connection leave alone: a subscription that is not of the scene of the
-- connection (server/ws_handler.go, the reader loop).
use lumencast_go.Common.{
  ℕ, ◌≡◌, refl, sym, ◌∙◌, ap, Text, false, Option, none, some, List, [], ◌∷◌, Map, arith, inl, inr,
  Bool-cases, Option-cases, is_empty, subst,
}
use lumencast_go.Json.{Raw}
use lumencast_go.Protocol.Frames.{
  Frame, snapshot, delta, scene_changed, scene_roster, overlay_apps, error, pong, ping, subscribe,
  input, unsubscribe, Input, Cause, ProjectionMetadata,
}
use lumencast_go.Protocol.Codec.{decode}
use lumencast_go.Server.Auth.{Identity}
use lumencast_go.Server.Store.{Value, Applied, ok, err, apply_patches}
use lumencast_go.Server.Subscription.{Heap, member}
use lumencast_go.Server.Subscription.Fanout.{fan_out_skip}
use lumencast_go.Server.Scene.{Scene, members, advance, finish_emit, emit_with_cause}
use lumencast_go.Server.Inputs.{Verdict, check_patches, collect, input_cause, apply_input}
use lumencast_go.Server.Hub.{Server}
use lumencast_go.Server.Session.{
  Surroundings, Session, scene_at, put_scene, report, handle_frame, handle_message, receive_message,
  read_all,
}
use lumencast_go.Server.Session.Connect.{Decoded-cases}
use lumencast_go.Server.Session.Messages.{
  handle_message-permitted, scene_at-put_scene, read_all_stops, read_all_goes,
}

module _ (i : ℕ) (taken : ℕ → ℕ) where
  -- The subscription is as before, and still not of the scene.
  abbrev LeavesAlone : Scene → Heap → Scene → Heap → Type 0
  LeavesAlone s h s' h' =
      member i (members s) ≡ false → (h'.at i ≡ h.at i) × (member i (members s') ≡ false)

  finish_emit-LeavesAlone :
      (s : Scene) (h : Heap) (cause : Option Cause) (metadata : Option ProjectionMetadata)
      (x : Map Raw × Applied)
      → let (s', h', rest) = finish_emit taken s h cause metadata x in LeavesAlone s h s' h'
  unfolding finish_emit advance
  finish_emit-LeavesAlone s h cause metadata (store, err e) out = (refl, out)
  finish_emit-LeavesAlone s h cause metadata (store, ok raw) out =
      (fan_out_skip _ (members s) h i out, out)

  emit_with_cause-LeavesAlone :
      (s : Scene) (h : Heap) (ps : Map Value) (cause : Option Cause)
      (metadata : Option ProjectionMetadata)
      → let (s', h', rest) = emit_with_cause taken s h ps cause metadata in LeavesAlone s h s' h'
  unfolding emit_with_cause
  emit_with_cause-LeavesAlone s h [] cause metadata out = (refl, out)
  emit_with_cause-LeavesAlone s h (p ∷ ps) cause metadata out =
      finish_emit-LeavesAlone s h cause metadata (apply_patches s.store (p ∷ ps)) out

  apply_input-LeavesAlone :
      (s : Scene) (h : Heap) (id : Identity) (m : Input)
      → let (s', h', rest) = apply_input taken s h id m in LeavesAlone s h s' h'
  unfolding apply_input
  apply_input-LeavesAlone s h id m out = elim (Bool-cases (is_empty m.patches)) [
    | inl e ↦ rw e (refl, out)
    | inr e ↦ elim (Option-cases (check_patches s id m.patches)) [
      | inr (x, k) ↦ rw (e, k) (refl, out)
      | inl k ↦
          rw (e, k)
            (emit_with_cause-LeavesAlone s h (collect [] m.patches) (input_cause id m.client_msg_id)
              none out)
    ]
  ]

  module _ (env : Surroundings) where
    report_heap :
        (id : Identity) (m : Input) (x : Scene × Heap × Verdict) (before : Scene) (ses : Session)
        → ((report env id m x before ses).0 ≡ x.0) × ((report env id m x before ses).1 ≡ x.1)
    report_heap id m (t, h, none) before ses = (refl, refl)
    report_heap id m (t, h, some (code, path)) before ses = (refl, refl)

    handle_frame-LeavesAlone :
        (s : Scene) (h : Heap) (ses : Session) (f : Frame)
        → let (s', h', ses', end) = handle_frame env taken s h ses f in LeavesAlone s h s' h'
    unfolding handle_frame
    handle_frame-LeavesAlone s h ses (input m) out =
        let x = apply_input taken s h ses.id m in
        let (same, heap) = report_heap ses.id m x s ses in
        let (kept, left) = apply_input-LeavesAlone s h ses.id m out in
        (ap (λ z. z.at i) heap ∙ kept, ap (λ z. member i (members z)) same ∙ left)
    handle_frame-LeavesAlone s h ses (ping m) out = (refl, out)
    handle_frame-LeavesAlone s h ses (unsubscribe m) out = (refl, out)
    handle_frame-LeavesAlone s h ses (subscribe m) out = (refl, out)
    handle_frame-LeavesAlone s h ses (snapshot m) out = (refl, out)
    handle_frame-LeavesAlone s h ses (delta m) out = (refl, out)
    handle_frame-LeavesAlone s h ses (scene_changed m) out = (refl, out)
    handle_frame-LeavesAlone s h ses (scene_roster m) out = (refl, out)
    handle_frame-LeavesAlone s h ses (overlay_apps m) out = (refl, out)
    handle_frame-LeavesAlone s h ses (error m) out = (refl, out)
    handle_frame-LeavesAlone s h ses (pong m) out = (refl, out)

    handle_message-LeavesAlone :
        (s : Scene) (h : Heap) (ses : Session) (raw : Text)
        → let (s', h', ses', end) = handle_message env taken s h ses raw in LeavesAlone s h s' h'
    unfolding handle_message
    handle_message-LeavesAlone s h ses raw out = elim (Decoded-cases (decode env.json raw)) [
      | inl (f, e) ↦ rw (e, handle_message) (handle_frame-LeavesAlone s h ses f out)
      | inr (x, e) ↦ rw (e, handle_message) (refl, out)
    ]

    -- The subscription is of no scene but others than that of the connection.
    abbrev IsElsewhere : Server → Session → Type 0
    IsElsewhere s ses =
        (scene : Scene) → scene_at s ses.place ≡ some scene → member i (members scene) ≡ false

    receive_message-apart :
        (s : Server) (h : Heap) (ses : Session) (raw : Text)
        → IsElsewhere s ses
        → let (t, h', ses', end) = receive_message env taken s h ses raw in
          (h'.at i ≡ h.at i) × IsElsewhere t ses'
    unfolding receive_message
    receive_message-apart s h ses raw out = elim (Option-cases (scene_at s ses.place)) [
      | inl gone ↦ rw (gone, receive_message) (refl, out)
      | inr (scene, there) ↦
          (let (kept, left) = handle_message-LeavesAlone scene h ses raw (out scene there) in
            let (who, at, writable) = handle_message-permitted env taken scene h ses raw in
            let t = (handle_message env taken scene h ses raw).0 in
            let stored = (scene_at-put_scene s ses.place ses.place t).0 in
            rw (there, receive_message)
              (
                kept,
                λ u is.
                    (let same : some t ≡ some u =
                        sym stored ∙ ap (scene_at (put_scene s ses.place t)) (sym at) ∙ is in
                      let now : t ≡ u = ground (arith, same) in
                      subst (λ x. member i (members x) ≡ false) now left),
              ))
    ]

    pub read_all-apart :
        (s : Server) (h : Heap) (ses : Session) (raws : List Text)
        → IsElsewhere s ses
        → (read_all env taken s h ses raws).1.at i ≡ h.at i
    read_all-apart s h ses [] out = unfold read_all in refl
    read_all-apart s h ses (raw ∷ raws) out =
        let (kept, left) = receive_message-apart s h ses raw out in
        let (t, h', ses', end) = receive_message env taken s h ses raw in
        elim (Option-cases end) [
          | inr (e, k) ↦ rw (read_all_stops env taken s h ses raw raws e k) kept
          | inl k ↦
              rw (read_all_goes env taken s h ses raw raws k)
                (read_all-apart t h' ses' raws left ∙ kept)
        ]
