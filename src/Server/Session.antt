-- ===== src/Server/Session.antt =====
-- server/ws_handler.go: the life of one connection, from the upgrade to the deferred detach.
pub mod Start
pub mod Connect
pub mod Welcome
pub mod Reconnect
pub mod Messages
pub mod Apart
pub mod Behind
use lumencast_go.Common.{
  ℕ, zero, suc, ℤ, pos, Text, codes, Bool, true, false, not, ◌&&◌, ◌||◌, Option, none, some, List,
  [], ◌∷◌, ◌++◌, map, lookup, insert, text_eq, if◌then◌else◌,
}
use lumencast_go.Protocol.Sequence.{current}
use lumencast_go.Protocol.Roles.{role_test, role_operator}
use lumencast_go.Protocol.ErrorCodes.{
  ErrorCode, code_text, auth_denied, scene_not_found, internal, version_mismatch,
}
use lumencast_go.Protocol.Frames.{
  Frame, snapshot, delta, scene_roster, overlay_apps, error, pong, ping, subscribe, input,
  unsubscribe, Delta, Subscribe, Input, Ping,
}
use lumencast_go.Protocol.Codec
use lumencast_go.Protocol.Codec.{
  JsonCodec, CodecError, Decoded, sub_protocol, sub_protocol_v1_1, encode, decode,
}
use lumencast_go.Server.Replay.{ReplayRecord}
use lumencast_go.Server.Auth.{Identity, is_authenticated}
use lumencast_go.Server.Subscription.{Subscription, Heap, write, drain}
use lumencast_go.Server.Scene.{Scene, Initial, fresh, resumed, make_delta, subscribe_with_resume}
use lumencast_go.Server.Inputs.{Verdict, apply_input}
use lumencast_go.Server.Hub.{Server, active_scene, roster_frame, overlay_apps_frame, detach}

-- What a connection uses of its surroundings: encoding/json, the Config's two sources of identity
-- (`none` is an error, and an unset IdentityFromRequest), and the wording of errors.
pub record Surroundings : Type 1 where
  pub json : JsonCodec
  pub from_request : Option (Option Identity)
  pub authenticate : Text → Option Identity
  pub describe : CodecError → Text
  pub explain : Scene → Identity → Input → Text

-- The socket: what was written to it, and how many more writes it takes before it breaks.
pub record Conn : Type 0 where
  pub sent : List Text
  pub left : ℕ

-- How the socket was closed. `aborted` is a return without a Close, `panicked` a panic.
pub data Close : Type 0 where
  policy_violation : Text → Close
  protocol_error : Close
  aborted : Close
  panicked : Close

-- The scene that a connection was given. It keeps it for good.
pub data Place : Type 0 where
  in_holding : Place
  registered : Text → Place

pub record Session : Type 0 where
  pub place : Place
  pub sub : ℕ
  pub id : Identity
  pub conn : Conn
  pub writer_done : Bool

pub data Opening : Type 0 where
  refused : Conn → Close → Opening
  opened : Session → Opening

-- A read from the socket, with the wording of its error.
pub data Read : Type 0 where
  read_ok : Text → Read
  read_error : Text → Read

-- The first frame.
pub data First : Type 0 where
  subscribed : Subscribe → First
  mismatched : First
  unexpected : Text → First

-- Why runConnection returns.
pub data End : Type 0 where
  undecodable : CodecError → End
  unwritable : End
  unsubscribed : End
  duplicate_subscribe : End

abbrev pub is_version_mismatch : CodecError → Bool
is_version_mismatch (Codec.version_mismatch v) = true
is_version_mismatch _ = false

abbrev pub is_auth_denied : ErrorCode → Bool
is_auth_denied auth_denied = true
is_auth_denied _ = false

-- The scene itself; `none` if it was replaced or dropped since.
abbrev pub scene_at : Server → Place → Option Scene
scene_at s in_holding = some s.holding
scene_at s (registered id) = lookup id s.scenes

abbrev pub put_scene : Server → Place → Scene → Server
put_scene s in_holding t = record s { holding = t }
put_scene s (registered id) t = record s { scenes = insert id t s.scenes }

abbrev pub error_frame : ℕ → ErrorCode → Text → Bool → Text → Frame
error_frame seq code message recoverable path = error (record {
  v = pos 0;
  type = [];
  seq = seq;
  ts = [];
  code = code_text code;
  message = message;
  recoverable = recoverable;
  path = path;
  retry_after_ms = pos 0;
})

-- The delta of one record of a resume.
abbrev pub replay_delta : ReplayRecord → Delta
replay_delta r = make_delta r.seq r.patches r.cause r.projection_metadata

abbrev pub initial_frames : Initial → List Frame
initial_frames (fresh snap) = snapshot snap ∷ []
initial_frames (resumed records) = map (λ r. delta (replay_delta r)) records

-- The cached frames of the show, for a live subscriber of version 1.1.
abbrev pub show_frames : Server → Bool → List Frame
show_frames s false = []
show_frames s true =
    (elim (roster_frame s) [ none ↦ [] | some m ↦ scene_roster m ∷ [] ])
    ++ (elim (overlay_apps_frame s) [ none ↦ [] | some m ↦ overlay_apps m ∷ [] ])

pub data Resolved : Type 0 where
  resolved : Place → Resolved
  unresolved : ErrorCode → Text → Resolved

unfoldable pub resolve_scene : Server → Subscribe → Identity → Resolved
resolve_scene s sub id =
    if text_eq sub.scene []
    then elim (active_scene s) [
      | none ↦ resolved in_holding
      | some scene ↦ resolved (registered s.active)
    ]
    else if not (text_eq id.role role_test) && not (text_eq id.role role_operator)
    then unresolved auth_denied (codes "test mode requires test or operator role")
    else if text_eq sub.session []
    then unresolved scene_not_found (codes "test mode requires session")
    else elim (lookup sub.scene s.scenes) [
      | none ↦ unresolved scene_not_found (codes "scene not registered")
      | some scene ↦ resolved (registered sub.scene)
    ]

abbrev pub first_of : Frame → First
first_of (subscribe m) = subscribed m
first_of _ = unexpected (codes "first frame must be subscribe")

module _ (env : Surroundings) where
  -- The Boolean is whether there was an error.
  unfoldable pub send_frame : Frame → Conn → Conn × Bool
  send_frame msg c = elim (encode env.json msg) [
    | none ↦ (c, true)
    | some raw ↦ elim c.left [
      | zero ↦ (c, true)
      | suc n ↦ (record { sent = c.sent ++ (raw ∷ []); left = n }, false)
    ]
  ]

  -- A sequence of sends that stops at the first error.
  unfoldable pub send_all : List Frame → Conn → Conn × Bool
  send_all [] c = (c, false)
  send_all (f ∷ fs) c =
      let (c', failed) = send_frame f c in
      elim failed [ true ↦ (c', true) | false ↦ send_all fs c' ]

  abbrev pub send_path_error : ℕ → ErrorCode → Text → Bool → Text → Conn → Conn
  send_path_error seq code message recoverable path c =
      (send_frame (error_frame seq code message recoverable path) c).0

  abbrev pub send_error : ℕ → ErrorCode → Text → Conn → Conn
  send_error seq code message c = send_path_error seq code message false [] c

  -- The source of the identity. `none` is an error.
  abbrev pub identify : Subscribe → Option Identity
  identify sub = elim env.from_request [ some found ↦ found | none ↦ env.authenticate sub.token ]

  -- The end of steps 4 to 4c: after a failed send the deferred detach runs.
  abbrev pub settle : Server → Heap → Place → Identity → ℕ → Conn × Bool → Server × Heap × Opening
  settle t h place id sub (c, true) = let (u, h') = detach t h sub in (u, h', refused c aborted)
  settle t h place id sub (c, false) =
      (t, h, opened (record { place = place; sub = sub; id = id; conn = c; writer_done = false }))

  -- Steps 4 to 4c of serveLSDP, on the scene that was resolved.
  unfoldable pub start_session :
      Server → Heap → Bool → Subscribe → Identity → Place → Scene → Conn → Server × Heap × Opening
  start_session s h proto11 frame id place scene c =
      let live = text_eq frame.scene [] in
      elim (subscribe_with_resume scene h (pos 256) live proto11 frame.since_sequence) [
        | none ↦ (s, h, refused c panicked)
        | some (scene', h', sub, first) ↦
            (let t = put_scene s place scene' in
              settle t h' place id sub
                (send_all (initial_frames first ++ show_frames t (live && proto11)) c))
      ]

  -- Steps 3 and 3b.
  unfoldable pub enter_scene :
      Server → Heap → Bool → Subscribe → Identity → Conn → Server × Heap × Opening
  enter_scene s h proto11 frame id c = elim (resolve_scene s frame id) [
    | unresolved code message ↦
        (s, h, refused (send_error 0 code message c) (policy_violation message))
    | resolved place ↦ elim (scene_at s place) [
      | none ↦ (s, h, refused c panicked)
      | some scene ↦ elim scene.rejection [
        | some rej ↦ (
          s,
          h,
          refused (send_error (current scene.seq) rej.code rej.message c)
              (policy_violation (codes "bundle rejected")),
        )
        | none ↦ start_session s h proto11 frame id place scene c
      ]
    ]
  ]

  -- Step 2.
  unfoldable pub admit : Server → Heap → Bool → Subscribe → Conn → Server × Heap × Opening
  admit s h proto11 frame c = elim (identify frame) [
    | none ↦ (
      s,
      h,
      refused (send_error 0 auth_denied (codes "token invalid") c)
          (policy_violation (codes "auth denied")),
    )
    | some id ↦ if is_authenticated id then enter_scene s h proto11 frame id c else (
      s,
      h,
      refused (send_error 0 auth_denied (codes "token invalid") c)
          (policy_violation (codes "auth denied")),
    )
  ]

  -- readSubscribe.
  unfoldable pub read_subscribe : Read → First
  read_subscribe (read_error why) = unexpected why
  read_subscribe (read_ok raw) = elim (decode env.json raw) [
    | Codec.err e ↦ if is_version_mismatch e then mismatched else unexpected (env.describe e)
    | Codec.ok f ↦ first_of f
  ]

  -- Step 1, and the frames before it.
  unfoldable pub open_session : Server → Heap → Text → Read → Conn → Server × Heap × Opening
  open_session s h negotiated read c =
      if not (text_eq negotiated sub_protocol_v1_1) && not (text_eq negotiated sub_protocol)
      then (s, h, refused c (policy_violation (codes "lsdp.v1 or lsdp.v1.1 subprotocol required")))
      else elim (read_subscribe read) [
        | mismatched ↦ (s, h, refused c protocol_error)
        | unexpected why ↦ (
          s,
          h,
          refused (send_error 0 auth_denied why c) (policy_violation (codes "subscribe expected")),
        )
        | subscribed frame ↦ admit s h (text_eq negotiated sub_protocol_v1_1) frame c
      ]

  abbrev pub with_conn : Session → Conn → Session
  with_conn ses c = record ses { conn = c }

  -- The case of an Input, after applyInput.
  abbrev pub report :
      Identity
      → Input
      → Scene × Heap × Verdict
      → Scene
      → Session
      → Scene × Heap × Session × Option End
  report id m (t, h, none) before ses = (t, h, ses, none)
  report id m (t, h, some (code, path)) before ses = (
    t,
    h,
    with_conn ses (
        send_path_error (current t.seq) code (env.explain before id m) (not (is_auth_denied code))
          path ses.conn),
    none,
  )

  -- The switch of the reader loop on one decoded frame. The last clause is Go's missing case.
  unfoldable pub handle_frame :
      (ℕ → ℕ) → Scene → Heap → Session → Frame → Scene × Heap × Session × Option End
  handle_frame taken scene h ses (input m) =
      report ses.id m (apply_input taken scene h ses.id m) scene ses
  handle_frame taken scene h ses (ping m) =
      let (c, failed) =
        send_frame (pong (record { v = pos 0; type = []; nonce = m.nonce })) ses.conn in
      (scene, h, with_conn ses c, if failed then some unwritable else none)
  handle_frame taken scene h ses (unsubscribe m) = (scene, h, ses, some unsubscribed)
  handle_frame taken scene h ses (subscribe m) = (
    scene,
    h,
    with_conn ses (send_error (current scene.seq) internal (codes "duplicate subscribe") ses.conn),
    some duplicate_subscribe,
  )
  handle_frame taken scene h ses _ = (scene, h, ses, none)

  -- One round of the reader loop, on a message that was read.
  unfoldable pub handle_message :
      (ℕ → ℕ) → Scene → Heap → Session → Text → Scene × Heap × Session × Option End
  handle_message taken scene h ses raw = elim (decode env.json raw) [
    | Codec.ok msg ↦ handle_frame taken scene h ses msg
    | Codec.err e ↦ (
      scene,
      h,
      with_conn ses (
          send_error (current scene.seq)
            (if is_version_mismatch e then version_mismatch else internal) (env.describe e)
            ses.conn),
      some (undecodable e),
    )
  ]

  -- The same on the server that holds the scene. A connection whose scene was replaced or dropped
  -- is left out: its scene is not on the server.
  unfoldable pub receive_message :
      (ℕ → ℕ) → Server → Heap → Session → Text → Server × Heap × Session × Option End
  receive_message taken s h ses raw = elim (scene_at s ses.place) [
    | none ↦ (s, h, ses, none)
    | some scene ↦
        (let (t, h', ses', end) = handle_message taken scene h ses raw in
          (put_scene s ses.place t, h', ses', end))
  ]

  -- The reader loop on the messages that come, up to the first that ends it.
  unfoldable pub read_all :
      (ℕ → ℕ) → Server → Heap → Session → List Text → Server × Heap × Session × Option End
  read_all taken s h ses [] = (s, h, ses, none)
  read_all taken s h ses (raw ∷ raws) =
      let (t, h', ses', end) = receive_message taken s h ses raw in
      elim end [ some e ↦ (t, h', ses', some e) | none ↦ read_all taken t h' ses' raws ]

  -- One round of writerLoop with a frame on the queue, or with the queue closed and empty: then the
  -- writer is done, and the reader is not told.
  unfoldable pub writer_round : Heap → Session → Heap × Session × Option End
  writer_round h ses = elim ses.writer_done [
    | true ↦ (h, ses, none)
    | false ↦ elim (h.at ses.sub).out [
      | [] ↦
          if (h.at ses.sub).closed
          then (h, record ses { writer_done = true }, none)
          else (h, ses, none)
      | f ∷ fs ↦
          (let (c, failed) = send_frame f ses.conn in
            (
              write h ses.sub (drain 1 (h.at ses.sub)),
              record ses { conn = c; writer_done = failed },
              none,
            ))
    ]
  ]

  -- The round of the timer.
  unfoldable pub ping_round : Session → Session
  ping_round ses = elim ses.writer_done [
    | true ↦ ses
    | false ↦
        (let (c, failed) =
            send_frame (ping (record { v = pos 0; type = []; nonce = [] })) ses.conn in
          record ses { conn = c; writer_done = failed })
  ]

-- The deferred detach.
abbrev pub end_session : Server → Heap → Session → Server × Heap
end_session s h ses = detach s h ses.sub
