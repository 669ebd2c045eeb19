-- ===== src/Server/Session/Reconnect.antt =====
-- A connection as a whole: the client that opens it ends in step with its scene.
use lumencast_go.Common.{
  ℕ, pos, ◌+◌, ◌^◌, ◌<◌, ◌≡◌, ap, sym, ◌∙◌, Text, Bool, ◌&&◌, Option, none, some, List, [], ◌++◌,
  All, text_eq, lookup,
}
use lumencast_go.Protocol.Frames.{Frame, Subscribe}
use lumencast_go.Protocol.Codec.{stamp}
use lumencast_go.Protocol.Codec.Roundtrip.{IsFaithful}
use lumencast_go.Server.Replay.Window.{IsValid}
use lumencast_go.Server.Replay.Resume.{Holds}
use lumencast_go.Server.Auth.{Identity}
use lumencast_go.Server.Subscription.{Heap}
use lumencast_go.Server.Scene.{Scene, Initial, fresh, initial, current_snapshot}
use lumencast_go.Server.Scene.Client.{Client, Follows}
use lumencast_go.Server.Scene.Sync.{snapshot-Follows}
use lumencast_go.Server.Scene.Resume.{Emits, receive_initial, resume_in_sync}
use lumencast_go.Server.Hub.{Server}
use lumencast_go.Server.Session.{
  Surroundings, Conn, Place, Session, opened, scene_at, initial_frames, show_frames, start_session,
}
use lumencast_go.Server.Session.Start.{start_session-Starts, subscribe_with_resume_lem}
use lumencast_go.Server.Session.Welcome.{hear, welcome}

-- The frames that a new connection writes.
abbrev pub first_frames : Server → Bool → Subscribe → Scene → List Frame
first_frames s proto11 frame scene =
    initial_frames (initial scene frame.since_sequence)
    ++ show_frames s (text_eq frame.scene [] && proto11)

-- The parts of what a subscription returns.
abbrev returned :
    Scene × Heap × ℕ × Initial → Option (Scene × Heap × ℕ × Initial) → Scene × Heap × ℕ × Initial
returned other none = other
returned other (some x) = x

module _ {Exact : Frame → Type 0} (env : Surroundings) (s : Server) (h : Heap) (proto11 : Bool)
    (frame : Subscribe) (id : Identity) (place : Place) (scene : Scene) (c : Conn) (ses : Session)
    (client : Client) where
  -- A connection that asks for no resume and is opened on a numbered scene has written texts that
  -- bring any client, whatever it held, to that scene. The frames must be ones that encoding/json
  -- keeps.
  pub join_in_sync :
      IsFaithful env.json Exact
      → All (λ f. Exact (stamp f)) (first_frames s proto11 frame scene)
      → (start_session env s h proto11 frame id place scene c).2 ≡ opened ses
      → frame.since_sequence ≡ 0
      → 0 < scene.seq.cur
      → (u : Scene) × (ts : List Text) × (d : Client) × (scene_at
            (start_session env s h proto11 frame id place scene c).0
            ses.place
          ≡ some u)
        × (ses.conn.sent ≡ c.sent ++ ts)
        × (hear env.json client ts ≡ some d)
        × Follows u d
  join_in_sync k x e since live =
      let (d, got, f) = snapshot-Follows scene client live in
      let first : initial scene frame.since_sequence ≡ fresh (current_snapshot scene) =
        ap (initial scene) since in
      let (u, ts, at, sent, heard, g) =
        welcome env s h proto11 frame id place scene c ses client d k e x
          (ap (receive_initial client) first ∙ got) f in
      (u, ts, d, at, sent, heard, g)

  -- A client that was in step with the scene when it broke off, and missed any number of emissions
  -- below the last number, comes back with a Subscribe frame that gives its own number. If the
  -- connection is opened, the texts that it writes first, deltas or a snapshot and then the frames
  -- of the show, bring the client back in step with the scene. The ring must have held the latest
  -- emissions when the client broke off, and the frames must be ones that encoding/json keeps.
  pub reconnect_in_sync :
      {before : Scene} (e n : ℕ)
      → IsFaithful env.json Exact
      → All (λ f. Exact (stamp f)) (first_frames s proto11 frame scene)
      → (start_session env s h proto11 frame id place scene c).2 ≡ opened ses
      → frame.since_sequence ≡ client.tracker.cur
      → IsValid before.replay
      → Holds before.replay e n
      → e + n ≡ before.seq.cur
      → 0 < before.seq.cur
      → Follows before client
      → Emits before scene
      → scene.seq.cur + 1 < 2 ^ 64
      → (u : Scene) × (ts : List Text) × (d : Client) × (scene_at
            (start_session env s h proto11 frame id place scene c).0
            ses.place
          ≡ some u)
        × (ses.conn.sent ≡ c.sent ++ ts)
        × (hear env.json client ts ≡ some d)
        × Follows u d
  reconnect_in_sync e n k x opens since valid holds total live in_step run room =
      let st = start_session-Starts env s h proto11 frame id place scene c ses opens in
      let (v, h', first, d, joins, got, f) =
        resume_in_sync client e n st.is h (pos 256) (text_eq frame.scene []) proto11 valid holds
          total live in_step run room st.joined in
      let same = ap (returned (scene, h, 0, first)) (
        sym (
          subscribe_with_resume_lem scene h (pos 256) (text_eq frame.scene []) proto11
            client.tracker.cur st.is st.joined)
        ∙ joins) in
      let (u, ts, at, sent, heard, g) =
        welcome env s h proto11 frame id place scene c ses client d k opens x
          (ap (λ q. receive_initial client (initial scene q)) since
            ∙ ap (λ y. receive_initial client y.3) same
            ∙ got)
          (record {
            numbered = f.numbered ∙ sym (ap (λ y. y.0.seq.cur) same);
            leaves = λ l. f.leaves l ∙ sym (ap (λ y. lookup l y.0.store) same);
          }) in
      (u, ts, d, at, sent, heard, g)
