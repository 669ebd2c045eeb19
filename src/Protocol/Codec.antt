-- ===== src/Protocol/Codec.antt =====
-- protocol/envelope.go and protocol/codec.go: the stamps of a frame, and the dispatch on its type.
pub mod Roundtrip
use lumencast_go.Common.{
  ℕ, ℤ, pos, negsuc, Text, codes, Bool, true, false, not, Option, none, some, List, [], ◌∷◌, ◌≡◌,
  eqb_int, text_eq, if◌then◌else◌,
}
use lumencast_go.Protocol.Frames.{
  Frame, snapshot, delta, scene_changed, scene_roster, overlay_apps, error, pong, ping, subscribe,
  input, unsubscribe, Snapshot, Delta, SceneChanged, SceneRoster, OverlayApps, ErrorFrame, Pong,
  Ping, Subscribe, Input, Unsubscribe,
}

abbrev pub version : ℤ
version = pos 1

abbrev pub sub_protocol : Text
sub_protocol = codes "lsdp.v1"

abbrev pub sub_protocol_v1_1 : Text
sub_protocol_v1_1 = codes "lsdp.v1.1"

abbrev pub sub_protocols : List Text
sub_protocols = sub_protocol_v1_1 ∷ sub_protocol ∷ []

abbrev pub type_snapshot : Text
type_snapshot = codes "snapshot"

abbrev pub type_delta : Text
type_delta = codes "delta"

abbrev pub type_scene_changed : Text
type_scene_changed = codes "scene_changed"

abbrev pub type_scene_roster : Text
type_scene_roster = codes "scene_roster"

abbrev pub type_overlay_apps : Text
type_overlay_apps = codes "overlay_apps"

abbrev pub type_error : Text
type_error = codes "error"

abbrev pub type_pong : Text
type_pong = codes "pong"

abbrev pub type_subscribe : Text
type_subscribe = codes "subscribe"

abbrev pub type_input : Text
type_input = codes "input"

abbrev pub type_ping : Text
type_ping = codes "ping"

abbrev pub type_unsubscribe : Text
type_unsubscribe = codes "unsubscribe"

pub record Envelope : Type 0 where
  pub v : ℤ
  pub type : Text

-- ErrInvalidEnvelope, ErrVersionMismatch with the version that came, ErrUnknownType with the type.
pub data CodecError : Type 0 where
  invalid_envelope : CodecError
  version_mismatch : ℤ → CodecError
  unknown_type : Text → CodecError

pub data Decoded : Type 0 where
  ok : Frame → Decoded
  err : CodecError → Decoded

-- encoding/json on the structs of the protocol: an Encoder without HTML escapes and without the
-- final newline, and Unmarshal into each struct. `none` is an error.
pub record JsonCodec : Type 1 where
  pub marshal : Frame → Option Text
  pub read_envelope : Text → Option Envelope
  pub read_snapshot : Text → Option Snapshot
  pub read_delta : Text → Option Delta
  pub read_scene_changed : Text → Option SceneChanged
  pub read_scene_roster : Text → Option SceneRoster
  pub read_overlay_apps : Text → Option OverlayApps
  pub read_error : Text → Option ErrorFrame
  pub read_pong : Text → Option Pong
  pub read_ping : Text → Option Ping
  pub read_subscribe : Text → Option Subscribe
  pub read_input : Text → Option Input
  pub read_unsubscribe : Text → Option Unsubscribe

-- The first half of each case of Encode.
unfoldable pub stamp : Frame → Frame
stamp (snapshot m) = snapshot (record m { v = version; type = type_snapshot })
stamp (delta m) = delta (record m { v = version; type = type_delta })
stamp (scene_changed m) = scene_changed (record m { v = version; type = type_scene_changed })
stamp (scene_roster m) = scene_roster (record m {
  v = version;
  type = type_scene_roster;
  entries = elim m.entries [ none ↦ some [] | some es ↦ some es ];
})
stamp (overlay_apps m) = overlay_apps (record m {
  v = version;
  type = type_overlay_apps;
  apps = elim m.apps [ none ↦ some [] | some a ↦ some a ];
})
stamp (error m) = error (record m { v = version; type = type_error })
stamp (pong m) = pong (record m { v = version; type = type_pong })
stamp (ping m) = ping (record m { v = version; type = type_ping })
stamp (subscribe m) = subscribe (record m { v = version; type = type_subscribe })
stamp (input m) = input (record m { v = version; type = type_input })
stamp (unsubscribe m) = unsubscribe (record m { v = version; type = type_unsubscribe })

abbrev pub parsed : {A : Type 0} → (A → Frame) → Option A → Decoded
parsed f none = err invalid_envelope
parsed f (some m) = ok (f m)

module _ (j : JsonCodec) where
  unfoldable pub encode : Frame → Option Text
  encode msg = j.marshal (stamp msg)

  -- The switch of Decode.
  unfoldable pub decode_client : Text → Text → Decoded
  decode_client type raw =
      if text_eq type type_subscribe
      then parsed subscribe (j.read_subscribe raw)
      else if text_eq type type_input
      then parsed input (j.read_input raw)
      else if text_eq type type_ping
      then parsed ping (j.read_ping raw)
      else if text_eq type type_pong
      then parsed pong (j.read_pong raw)
      else if text_eq type type_unsubscribe
      then parsed unsubscribe (j.read_unsubscribe raw)
      else err (unknown_type type)

  -- The switch of DecodeServer.
  unfoldable pub decode_from_server : Text → Text → Decoded
  decode_from_server type raw =
      if text_eq type type_snapshot
      then parsed snapshot (j.read_snapshot raw)
      else if text_eq type type_delta
      then parsed delta (j.read_delta raw)
      else if text_eq type type_scene_changed
      then parsed scene_changed (j.read_scene_changed raw)
      else if text_eq type type_scene_roster
      then parsed scene_roster (j.read_scene_roster raw)
      else if text_eq type type_overlay_apps
      then parsed overlay_apps (j.read_overlay_apps raw)
      else if text_eq type type_error
      then parsed error (j.read_error raw)
      else if text_eq type type_pong
      then parsed pong (j.read_pong raw)
      else if text_eq type type_ping
      then parsed ping (j.read_ping raw)
      else err (unknown_type type)

  -- The checks that both decoders begin with.
  abbrev pub with_envelope : (Text → Text → Decoded) → Text → Decoded
  with_envelope dispatch raw = elim (j.read_envelope raw) [
    | none ↦ err invalid_envelope
    | some env ↦
        if eqb_int env.v version then dispatch env.type raw else err (version_mismatch env.v)
  ]

  unfoldable pub decode : Text → Decoded
  decode raw = with_envelope decode_client raw

  unfoldable pub decode_server : Text → Decoded
  decode_server raw = with_envelope decode_from_server raw
