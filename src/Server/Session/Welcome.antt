-- ===== src/Server/Session/Welcome.antt =====
-- The first frames of a connection, as its client decodes them.
use lumencast_go.Common.{
  ◌≡◌, refl, ap, sym, ◌∙◌, Text, Bool, true, false, ◌&&◌, Option, none, some, List, [], ◌∷◌, ◌++◌,
  arith, All, lookup, lookup-insert, insert, text_eq, text_eq_iff, inl, inr, Bool-cases,
  Option-cases, append_assoc, append-nil,
}
use lumencast_go.Protocol.Frames.{
  Frame, snapshot, delta, scene_changed, scene_roster, overlay_apps, error, pong, ping, subscribe,
  input, unsubscribe, Subscribe,
}
use lumencast_go.Protocol.Codec
use lumencast_go.Protocol.Codec.{JsonCodec, CodecError, unknown_type, stamp, encode, decode_server}
use lumencast_go.Protocol.Codec.Roundtrip.{IsFaithful, from_server, decode-encode}
use lumencast_go.Server.Replay.{ReplayRecord}
use lumencast_go.Server.Auth.{Identity}
use lumencast_go.Server.Subscription.{Heap, insert_member}
use lumencast_go.Server.Scene.{Scene, Initial, fresh, resumed, initial}
use lumencast_go.Server.Scene.Client.{Client, Follows, receive, receive_all, receive_all-append}
use lumencast_go.Server.Scene.Resume.{receive_initial}
use lumencast_go.Server.Hub.{Server, roster_frame, overlay_apps_frame}
use lumencast_go.Server.Session.{
  Surroundings, Conn, Place, in_holding, registered, Session, opened, scene_at, put_scene,
  send_frame, send_all, initial_frames, show_frames, start_session,
}
use lumencast_go.Server.Session.Start.{start_session-Starts}

-- Each text is what Encode makes of the frame beside it.
abbrev pub AllEncode : JsonCodec → List Frame → List Text → Type 0
AllEncode j [] [] = Unit
AllEncode j [] (t ∷ ts) = ⊥
AllEncode j (f ∷ fs) [] = ⊥
AllEncode j (f ∷ fs) (t ∷ ts) = (encode j f ≡ some t) × AllEncode j fs ts

send_frame-sent :
    (env : Surroundings) (f : Frame) (c : Conn)
    → (send_frame env f c).1 ≡ false
    → (t : Text) × (encode env.json f ≡ some t) × ((send_frame env f c).0.sent ≡ c.sent ++ (t ∷ []))
unfolding send_frame
send_frame-sent env f c e = elim (Option-cases (encode env.json f)) [
  | inl gone ↦ absurd (ground (arith, e, gone))
  | inr (t, h) ↦ (t, h, ground (arith, e, h))
]

send_all-sent :
    (env : Surroundings) (fs : List Frame) (c d : Conn)
    → send_all env fs c ≡ (d, false)
    → (ts : List Text) × (d.sent ≡ c.sent ++ ts) × AllEncode env.json fs ts
unfolding send_all
send_all-sent env [] c d e = ([], ground (arith, e, append-nil c.sent), tt)
send_all-sent env (f ∷ fs) c d e = elim (Bool-cases (send_frame env f c).1) [
  | inl bad ↦ absurd (ground (arith, e, bad))
  | inr good ↦
      (let (t, said, sent) = send_frame-sent env f c good in
        let (ts, more, rest) =
          send_all-sent env fs (send_frame env f c).0 d (ground (arith, e, good)) in
        (t ∷ ts, more ∙ ap (λ xs. xs ++ ts) sent ∙ append_assoc c.sent (t ∷ []) ts, (said, rest)))
]

-- The client of a connection: it decodes each text, ignores types that it does not know, and
-- reconnects (`none`) on a text that is no frame.
pub hear_frame : Client → Codec.Decoded → Option Client
hear_frame c (Codec.ok f) = receive c f
hear_frame c (Codec.err (unknown_type type)) = some c
hear_frame c (Codec.err e) = none

pub hear : JsonCodec → Client → List Text → Option Client
hear j c [] = some c
hear j c (t ∷ ts) = elim (hear_frame c (decode_server j t)) [ none ↦ none | some d ↦ hear j d ts ]

receive-stamp : (c : Client) (f : Frame) → receive c (stamp f) ≡ receive c f
unfolding receive stamp
receive-stamp c (snapshot m) = refl
receive-stamp c (delta m) = refl
receive-stamp c (scene_changed m) = refl
receive-stamp c (scene_roster m) = refl
receive-stamp c (overlay_apps m) = refl
receive-stamp c (error m) = refl
receive-stamp c (pong m) = refl
receive-stamp c (ping m) = refl
receive-stamp c (subscribe m) = refl
receive-stamp c (input m) = refl
receive-stamp c (unsubscribe m) = refl

-- Decoding what was encoded is receiving the frames.
pub hear-receive_all :
    {j : JsonCodec} {Exact : Frame → Type 0} (c : Client) (fs : List Frame) (ts : List Text)
    → IsFaithful j Exact
    → All (λ f. Exact (stamp f)) fs
    → All (λ f. from_server f ≡ true) fs
    → AllEncode j fs ts
    → hear j c ts ≡ receive_all c fs
unfolding hear hear_frame receive_all
hear-receive_all c [] [] k x o e = refl
hear-receive_all c [] (t ∷ ts) k x o e = absurd e
hear-receive_all c (f ∷ fs) [] k x o e = absurd e
hear-receive_all {j} c (f ∷ fs) (t ∷ ts) k x o e =
    let said : decode_server j t ≡ Codec.ok (stamp f) =
      (decode-encode f t k x.0 e.0).1 ∙ rw o.0 refl in
    elim (Option-cases (receive c f)) [
      | inl gone ↦ ground (arith, said, receive-stamp c f, gone)
      | inr (d, got) ↦
          ground (arith, said, receive-stamp c f, got, hear-receive_all d fs ts k x.1 o.1 e.1)
    ]

receive_initial-frames :
    (c : Client) (first : Initial) → receive_all c (initial_frames first) ≡ receive_initial c first
unfolding receive_all
receive_initial-frames c (fresh snap) = elim (Option-cases (receive c (snapshot snap))) [
  | inl gone ↦ ground (arith, gone)
  | inr (d, got) ↦ ground (arith, got)
]
receive_initial-frames c (resumed records) = refl

from_server-initial : (first : Initial) → All (λ f. from_server f ≡ true) (initial_frames first)
from_server-initial (fresh snap) = (refl, tt)
from_server-initial (resumed records) = deltas records
  where
    deltas :
        (rs : List ReplayRecord) → All (λ f. from_server f ≡ true) (initial_frames (resumed rs))
    deltas [] = tt
    deltas (r ∷ rs) = (refl, deltas rs)

-- The frames of the show are the server's, and leave the client of a scene as it is.
show_frames_pass :
    (s : Server) (b : Bool) (c : Client)
    → (receive_all c (show_frames s b) ≡ some c) × All (λ f. from_server f ≡ true) (show_frames s b)
unfolding receive_all receive
show_frames_pass s false c = (refl, tt)
show_frames_pass s true c = elim (Option-cases (roster_frame s)) [
  | inl e ↦ elim (Option-cases (overlay_apps_frame s)) [
    | inl k ↦ rw (e, k) (refl, tt)
    | inr (m, k) ↦ rw (e, k) (refl, (refl, tt))
  ]
  | inr (r, e) ↦ elim (Option-cases (overlay_apps_frame s)) [
    | inl k ↦ rw (e, k) (refl, (refl, tt))
    | inr (m, k) ↦ rw (e, k) (refl, (refl, (refl, tt)))
  ]
]

All-append : (P : Frame → Type 0) (xs ys : List Frame) → All P xs → All P ys → All P (xs ++ ys)
All-append P [] ys a b = b
All-append P (x ∷ xs) ys a b = (a.0, All-append P xs ys a.1 b)

scene_at-put_scene :
    (s : Server) (place : Place) (t : Scene) → scene_at (put_scene s place t) place ≡ some t
unfolding lookup insert
scene_at-put_scene s in_holding t = refl
scene_at-put_scene s (registered id) t =
    ground (arith, lookup-insert id id t s.scenes, text_eq_iff id id)

show_frames-put_scene :
    (s : Server) (place : Place) (t : Scene) (b : Bool)
    → show_frames (put_scene s place t) b ≡ show_frames s b
unfolding roster_frame overlay_apps_frame
show_frames-put_scene s place t false = refl
show_frames-put_scene s in_holding t true = refl
show_frames-put_scene s (registered id) t true = refl

-- What a new connection writes first, decoded by its client, brings the client to its scene, if
-- what the subscription opens with does: the texts come in order, and the frames of the show that
-- follow do not disturb it.
pub welcome :
    {Exact : Frame → Type 0} (env : Surroundings) (s : Server) (h : Heap) (proto11 : Bool)
    (frame : Subscribe) (id : Identity) (place : Place) (scene : Scene) (c : Conn) (ses : Session)
    (client d : Client)
    → IsFaithful env.json Exact
    → (start_session env s h proto11 frame id place scene c).2 ≡ opened ses
    → All
        (λ f. Exact (stamp f))
        (initial_frames (initial scene frame.since_sequence)
          ++ show_frames s (text_eq frame.scene [] && proto11))
    → receive_initial client (initial scene frame.since_sequence) ≡ some d
    → Follows scene d
    → (u : Scene) × (ts : List Text) × (scene_at
          (start_session env s h proto11 frame id place scene c).0
          ses.place
        ≡ some u)
      × (ses.conn.sent ≡ c.sent ++ ts)
      × (hear env.json client ts ≡ some d)
      × Follows u d
welcome env s h proto11 frame id place scene c ses client d k e x got f =
    let st = start_session-Starts env s h proto11 frame id place scene c ses e in
    let joined : Scene = record scene { subscribers = some (insert_member h.next st.is) } in
    let both = text_eq frame.scene [] && proto11 in
    let firsts = initial_frames (initial scene frame.since_sequence) in
    let (ts, sent, said) = send_all-sent env (firsts ++ show_frames s both) c ses.conn (
      ap (λ fs. send_all env (firsts ++ fs) c) (sym (show_frames-put_scene s place joined both))
      ∙ st.sent) in
    let (pass, ours) = show_frames_pass s both d in
    (
      joined,
      ts,
      ap (λ x. scene_at x ses.place) st.server
          ∙ ap (scene_at (put_scene s place joined)) st.place_is
          ∙ scene_at-put_scene s place joined,
      sent,
      hear-receive_all client (firsts ++ show_frames s both) ts k x
            (All-append (λ f. from_server f ≡ true) firsts (show_frames s both)
              (from_server-initial (initial scene frame.since_sequence)) ours)
            said
          ∙ receive_all-append client firsts (show_frames s both)
              (receive_initial-frames client (initial scene frame.since_sequence) ∙ got)
          ∙ pass,
      record { numbered = f.numbered; leaves = f.leaves },
    )
