-- ===== src/Examples/Session.antt =====
-- A connection from its first frame on: a join, a return after one missed emission, an input, and a
-- switch of scenes under it.
use lumencast_go.Common.{
  pos, ◌≡◌, ◌≢◌, refl, ap, sym, Text, codes, true, false, Option, none, some, List, [], ◌∷◌, ◌++◌,
  All, arith, lookup, insert, text_eq, if◌then◌else◌, ◌==◌, starts_with, text_ltb,
}
use lumencast_go.Protocol.Frames.{
  Frame, snapshot, delta, scene_changed, scene_roster, overlay_apps, error, pong, ping, subscribe,
  input, unsubscribe, Snapshot, Delta, Subscribe,
}
use lumencast_go.Protocol.Codec.{
  JsonCodec, Envelope, stamp, encode, decode, decode_client, decode_server, ok, err, unknown_type,
}
use lumencast_go.Protocol.Codec.Roundtrip.{
  IsFaithful, envelope_of, from_client, from_server, decode-encode,
}
use lumencast_go.Protocol.LeafPath.{has_prefix}
use lumencast_go.Server.Auth.{is_authenticated, can_write}
use lumencast_go.Protocol.Sequence.{next_server}
use lumencast_go.Server.Replay.{since, since_loop, push}
use lumencast_go.Protocol.Roles.{is_valid}
use lumencast_go.Common.Sorting.{sort_by_key, insert_sorted}
use lumencast_go.Server.Store.{apply_patches, apply_loop, encode_value}
use lumencast_go.Server.Inputs.{
  check_patch, check_patches, check_constraint, accepts_input_path, apply_input, collect,
}
use lumencast_go.Server.Scene.{
  Scene, members, no_metadata, subscribe_with_resume, current_snapshot, emit_with_cause,
  finish_emit, advance,
}
use lumencast_go.Server.Subscription.{Heap, member}
use lumencast_go.Server.Hub.{Server, roster_frame, overlay_apps_frame, set_active, active_scene}
use lumencast_go.Server.Scene.Client.{Client, Follows}
use lumencast_go.Server.Scene.Sync.{InSync}
use lumencast_go.Server.Session.{
  Surroundings, Conn, Session, Place, Opening, receive_message, handle_message, handle_frame,
  opened, send_all, send_frame, registered, read_ok, scene_at, open_session, start_session, admit,
  enter_scene, resolve_scene, read_subscribe, read_all,
}
use lumencast_go.Server.Session.Connect.{Admitted, open_session_admits}
use lumencast_go.Server.Session.Welcome.{hear}
use lumencast_go.Server.Session.Reconnect.{first_frames, join_in_sync, reconnect_in_sync}
use lumencast_go.Server.Session.Messages.{leaf_of, messages_permitted}
use lumencast_go.Server.Session.Behind.{inputs_stay_behind}
use lumencast_go.Examples.Data.{title, score, hello, bye, scene, heap, client, client-Follows}
use lumencast_go.Examples.Hub.{
  show, outro, outro_known, intro_known, names_differ, zero_member, zero-InSync,
}
use lumencast_go.Examples.Inputs.{operator, good}
use lumencast_go.Examples.Scene.{moved, moved_fields, one_emission, ring-IsValid}

-- encoding/json on the four frames below, with short texts in place of the real ones.
abbrev joining : Subscribe
joining = record {
  v = pos 1;
  type = codes "subscribe";
  token = codes "t";
  scene = [];
  session = [];
  since_sequence = 0;
}

abbrev whole : Snapshot
whole = record {
  v = pos 1;
  type = codes "snapshot";
  seq = 3;
  ts = [];
  scene_id = codes "intro";
  scene_version = codes "v1";
  state = (title, bye) ∷ [];
  metadata = no_metadata;
}

abbrev step : Delta
step = record {
  v = pos 1;
  type = codes "delta";
  seq = 4;
  ts = [];
  patches =
      record { path = score; value = bye; transition = none }
      ∷ record { path = title; value = hello; transition = none }
      ∷ [];
  cause = none;
  metadata = no_metadata;
}

abbrev marshal : Frame → Option Text
marshal (snapshot m) = some (codes "s")
marshal (delta m) = some (codes "d")
marshal (subscribe m) = some (codes "q")
marshal (input m) = some (codes "i")
marshal _ = none

abbrev read_envelope : Text → Option Envelope
read_envelope [] = none
read_envelope (c ∷ t) =
    if c == b's'
    then some (record { v = pos 1; type = codes "snapshot" })
    else if c == b'd'
    then some (record { v = pos 1; type = codes "delta" })
    else if c == b'q'
    then some (record { v = pos 1; type = codes "subscribe" })
    else some (record { v = pos 1; type = codes "input" })

abbrev toy : JsonCodec
toy = record {
  marshal = marshal;
  read_envelope = read_envelope;
  read_snapshot = λ t. some whole;
  read_delta = λ t. some step;
  read_scene_changed = λ t. none;
  read_scene_roster = λ t. none;
  read_overlay_apps = λ t. none;
  read_error = λ t. none;
  read_pong = λ t. none;
  read_ping = λ t. none;
  read_subscribe = λ t. some joining;
  read_input = λ t. some good;
  read_unsubscribe = λ t. none;
}

abbrev Exact : Frame → Type 0
Exact (snapshot m) = m ≡ whole
Exact (delta m) = m ≡ step
Exact (subscribe m) = m ≡ joining
Exact (input m) = m ≡ good
Exact _ = ⊥

some-eq : {a b : Text} → some a ≡ some b → a ≡ b
some-eq e = ground (arith, e)

toy_envelope :
    (f : Frame) (t : Text) → Exact f → marshal f ≡ some t → read_envelope t ≡ some (envelope_of f)
toy_envelope (snapshot m) t x e = rw (← some-eq e, x) refl
toy_envelope (delta m) t x e = rw (← some-eq e, x) refl
toy_envelope (subscribe m) t x e = rw (← some-eq e, x) refl
toy_envelope (input m) t x e = rw (← some-eq e, x) refl
toy_envelope (scene_changed m) t x e = absurd x
toy_envelope (scene_roster m) t x e = absurd x
toy_envelope (overlay_apps m) t x e = absurd x
toy_envelope (error m) t x e = absurd x
toy_envelope (pong m) t x e = absurd x
toy_envelope (ping m) t x e = absurd x
toy_envelope (unsubscribe m) t x e = absurd x

toy-IsFaithful : IsFaithful toy Exact
toy-IsFaithful = record {
  envelope = toy_envelope;
  on_snapshot = λ m t x e. sym (ap some x);
  on_delta = λ m t x e. sym (ap some x);
  on_scene_changed = λ m t x e. absurd x;
  on_scene_roster = λ m t x e. absurd x;
  on_overlay_apps = λ m t x e. absurd x;
  on_error = λ m t x e. absurd x;
  on_pong = λ m t x e. absurd x;
  on_ping = λ m t x e. absurd x;
  on_subscribe = λ m t x e. sym (ap some x);
  on_input = λ m t x e. sym (ap some x);
  on_unsubscribe = λ m t x e. absurd x;
}

decode-encode_example :
    (decode toy (codes "q") ≡ (
      if from_client (subscribe joining)
      then ok (stamp (subscribe joining))
      else err (unknown_type (codes "subscribe"))))
    × (decode_server toy (codes "q") ≡ (
        if from_server (subscribe joining)
        then ok (stamp (subscribe joining))
        else err (unknown_type (codes "subscribe"))))
unfolding encode stamp
decode-encode_example = decode-encode (subscribe joining) (codes "q") toy-IsFaithful refl refl

abbrev pub env : Surroundings
env = record {
  json = toy;
  from_request = none;
  authenticate = λ t. some operator;
  describe = λ e. [];
  explain = λ s id m. [];
}

abbrev pub socket : Conn
socket = record { sent = []; left = 5 }

-- The session of a connection that joins the show.
abbrev session_at : List Text → Session
session_at texts = record {
  place = registered (codes "intro");
  sub = 1;
  id = operator;
  conn = record { sent = texts; left = 4 };
  writer_done = false;
}

abbrev joined : Server × Heap × Opening
joined = start_session env show heap true joining operator (registered (codes "intro")) scene socket

joined_opened : joined.2 ≡ opened (session_at (codes "s" ∷ []))
unfolding start_session subscribe_with_resume send_all send_frame encode stamp text_eq
    current_snapshot roster_frame overlay_apps_frame lookup
joined_opened = refl

first_Exact : All (λ f. Exact (stamp f)) (first_frames show true joining scene)
unfolding stamp text_eq current_snapshot roster_frame overlay_apps_frame
first_Exact = (refl, tt)

join_in_sync_example :
    (u : Scene) × (ts : List Text) × (d : Client) × (scene_at joined.0 (registered (codes "intro"))
      ≡ some u)
    × (codes "s" ∷ [] ≡ [] ++ ts)
    × (hear toy client ts ≡ some d)
    × Follows u d
join_in_sync_example =
    join_in_sync env show heap true joining operator (registered (codes "intro")) scene socket
      (session_at (codes "s" ∷ [])) client toy-IsFaithful first_Exact joined_opened refl
      (omega arith)

-- The same, after an emission that the client missed.
abbrev returning : Subscribe
returning = record joining { since_sequence = 3 }

abbrev show_moved : Server
show_moved = record show { scenes = (codes "intro", moved) ∷ (codes "outro", outro) ∷ [] }

abbrev returned : Server × Heap × Opening
returned =
    start_session env show_moved heap true returning operator (registered (codes "intro")) moved
      socket

returned_opened : returned.2 ≡ opened (session_at (codes "d" ∷ []))
unfolding start_session subscribe_with_resume send_all send_frame encode stamp text_eq
    current_snapshot roster_frame overlay_apps_frame lookup emit_with_cause finish_emit
    apply_patches apply_loop encode_value advance next_server since since_loop push
returned_opened = refl

step_Exact : All (λ f. Exact (stamp f)) (first_frames show_moved true returning moved)
unfolding stamp text_eq current_snapshot roster_frame overlay_apps_frame lookup emit_with_cause
    finish_emit apply_patches apply_loop encode_value advance next_server since since_loop push
    sort_by_key insert_sorted text_ltb
step_Exact = (refl, tt)

reconnect_in_sync_example :
    (u : Scene) × (ts : List Text) × (d : Client) × (scene_at returned.0
        (registered (codes "intro"))
      ≡ some u)
    × (codes "d" ∷ [] ≡ [] ++ ts)
    × (hear toy client ts ≡ some d)
    × Follows u d
reconnect_in_sync_example =
    reconnect_in_sync env show_moved heap true returning operator (registered (codes "intro")) moved
      socket (session_at (codes "d" ∷ [])) client 3 0 toy-IsFaithful step_Exact returned_opened refl
      ring-IsValid refl refl (omega arith) client-Follows one_emission
      (omega (arith, moved_fields.0))

admitted_opened :
    (open_session env show heap (codes "lsdp.v1.1") (read_ok (codes "q")) socket).2
    ≡ opened (session_at (codes "s" ∷ []))
unfolding open_session read_subscribe decode decode_client admit is_authenticated enter_scene
    resolve_scene start_session subscribe_with_resume send_all send_frame encode stamp text_eq
    current_snapshot roster_frame overlay_apps_frame lookup is_valid active_scene
admitted_opened = refl

open_session_admits_example :
    Admitted env show heap
      (codes "lsdp.v1.1")
      (read_ok (codes "q"))
      socket
      (session_at (codes "s" ∷ []))
open_session_admits_example =
    open_session_admits env show heap (codes "lsdp.v1.1") (read_ok (codes "q")) socket
      (session_at (codes "s" ∷ [])) admitted_opened

leaf_changes :
    leaf_of title (
      scene_at
        (read_all env (λ i. 1) show heap (session_at []) (codes "i" ∷ [])).0
        (registered (codes "intro")))
    ≢ leaf_of title (scene_at show (registered (codes "intro")))
unfolding read_all receive_message handle_message handle_frame decode decode_client apply_input
    check_patches check_patch can_write accepts_input_path check_constraint has_prefix text_eq
    starts_with lookup collect insert emit_with_cause finish_emit apply_patches apply_loop
    encode_value advance
leaf_changes z = absurd (ground (arith, z))

messages_permitted_example :
    (◌≡◌ {A = Place} (registered (codes "intro")) (registered (codes "intro")))
    × (can_write operator title ≡ true)
messages_permitted_example =
    messages_permitted env (λ i. 1) show heap (session_at []) (codes "i" ∷ [])
      (registered (codes "intro")) title leaf_changes

-- The connection of the subscriber of the scene.
abbrev viewer : Session
viewer = record (session_at []) { sub = 0 }

inputs_stay_behind_example :
    let (t, h', unknown) = set_active show heap (codes "outro") in
    let (u, h'', ses', end) = read_all env (λ i. 1) t h' viewer (codes "i" ∷ []) in
    (shown : Scene) × (left : Scene) × ((active_scene t ≡ some shown)
      × (lookup (codes "intro") t.scenes ≡ some left))
    × (member 0 (members left) ≡ false)
    × ((h''.at 0).stale ≡ false → member 0 (members shown) ≡ true)
    × (scene_at u (registered (codes "outro")) ≡ some shown)
    × InSync shown client (h''.at 0)
unfolding member
inputs_stay_behind_example =
    inputs_stay_behind env (λ i. 1) show heap viewer (codes "outro") scene outro client (0 ∷ []) []
      (codes "i" ∷ []) refl outro_known names_differ.0 names_differ.1 names_differ.2 intro_known
      refl refl (refl, tt) (omega arith) (omega arith) (omega arith) zero_member refl zero-InSync
      refl
