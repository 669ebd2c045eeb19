-- ===== src/Protocol/Codec/Roundtrip.antt =====
-- Encoded frames come back from the decoder of their direction, and from that one alone.
use lumencast_go.Common.{Text, Bool, true, false, some, ◌≡◌, refl, text_eq, if◌then◌else◌, arith}
use lumencast_go.Protocol.Frames.{
  Frame, snapshot, delta, scene_changed, scene_roster, overlay_apps, error, pong, ping, subscribe,
  input, unsubscribe, Snapshot, Delta, SceneChanged, SceneRoster, OverlayApps, ErrorFrame, Pong,
  Ping, Subscribe, Input, Unsubscribe,
}
use lumencast_go.Protocol.Codec.{
  JsonCodec, Envelope, ok, err, unknown_type, stamp, encode, decode_client, decode_from_server,
  decode, decode_server, version,
}

-- The envelope that is in a frame.
abbrev pub envelope_of : Frame → Envelope
envelope_of (snapshot m) = record { v = m.v; type = m.type }
envelope_of (delta m) = record { v = m.v; type = m.type }
envelope_of (scene_changed m) = record { v = m.v; type = m.type }
envelope_of (scene_roster m) = record { v = m.v; type = m.type }
envelope_of (overlay_apps m) = record { v = m.v; type = m.type }
envelope_of (error m) = record { v = m.v; type = m.type }
envelope_of (pong m) = record { v = m.v; type = m.type }
envelope_of (ping m) = record { v = m.v; type = m.type }
envelope_of (subscribe m) = record { v = m.v; type = m.type }
envelope_of (input m) = record { v = m.v; type = m.type }
envelope_of (unsubscribe m) = record { v = m.v; type = m.type }

-- What encoding/json documents of its two directions: Unmarshal reads the fields that Marshal
-- wrote. `Exact` is of the frames for which nothing else differs: numbers in the range of their
-- fields, raw messages that are valid and compact, and maps in the order in which they are read.
pub record IsFaithful (j : JsonCodec) (Exact : Frame → Type 0) : Type 0 where
  pub envelope :
      (f : Frame) (t : Text)
      → Exact f
      → j.marshal f ≡ some t
      → j.read_envelope t ≡ some (envelope_of f)
  pub on_snapshot :
      (m : Snapshot) (t : Text)
      → Exact (snapshot m)
      → j.marshal (snapshot m) ≡ some t
      → j.read_snapshot t ≡ some m
  pub on_delta :
      (m : Delta) (t : Text)
      → Exact (delta m)
      → j.marshal (delta m) ≡ some t
      → j.read_delta t ≡ some m
  pub on_scene_changed :
      (m : SceneChanged) (t : Text)
      → Exact (scene_changed m)
      → j.marshal (scene_changed m) ≡ some t
      → j.read_scene_changed t ≡ some m
  pub on_scene_roster :
      (m : SceneRoster) (t : Text)
      → Exact (scene_roster m)
      → j.marshal (scene_roster m) ≡ some t
      → j.read_scene_roster t ≡ some m
  pub on_overlay_apps :
      (m : OverlayApps) (t : Text)
      → Exact (overlay_apps m)
      → j.marshal (overlay_apps m) ≡ some t
      → j.read_overlay_apps t ≡ some m
  pub on_error :
      (m : ErrorFrame) (t : Text)
      → Exact (error m)
      → j.marshal (error m) ≡ some t
      → j.read_error t ≡ some m
  pub on_pong :
      (m : Pong) (t : Text) → Exact (pong m) → j.marshal (pong m) ≡ some t → j.read_pong t ≡ some m
  pub on_ping :
      (m : Ping) (t : Text) → Exact (ping m) → j.marshal (ping m) ≡ some t → j.read_ping t ≡ some m
  pub on_subscribe :
      (m : Subscribe) (t : Text)
      → Exact (subscribe m)
      → j.marshal (subscribe m) ≡ some t
      → j.read_subscribe t ≡ some m
  pub on_input :
      (m : Input) (t : Text)
      → Exact (input m)
      → j.marshal (input m) ≡ some t
      → j.read_input t ≡ some m
  pub on_unsubscribe :
      (m : Unsubscribe) (t : Text)
      → Exact (unsubscribe m)
      → j.marshal (unsubscribe m) ≡ some t
      → j.read_unsubscribe t ≡ some m

-- Who may send a frame: Ping and Pong go both ways.
abbrev pub from_client : Frame → Bool
from_client (subscribe m) = true
from_client (input m) = true
from_client (unsubscribe m) = true
from_client (ping m) = true
from_client (pong m) = true
from_client _ = false

abbrev pub from_server : Frame → Bool
from_server (subscribe m) = false
from_server (input m) = false
from_server (unsubscribe m) = false
from_server _ = true

decoders :
    (j : JsonCodec) (type t : Text)
    → j.read_envelope t ≡ some (record { v = version; type = type })
    → (decode j t ≡ decode_client j type t) × (decode_server j t ≡ decode_from_server j type t)
unfolding decode decode_server
decoders j type t e = ground (arith, e)

-- Encode stamps a frame, whatever version and type the caller left in it. A decoder for the
-- direction of the frame gives the stamped frame back; the other decoder names its type as unknown.
-- The frame must be one that encoding/json keeps.
pub decode-encode :
    {j : JsonCodec} {Exact : Frame → Type 0} (f : Frame) (t : Text)
    → IsFaithful j Exact
    → Exact (stamp f)
    → encode j f ≡ some t
    → let unknown = err (unknown_type (envelope_of (stamp f)).type) in
      (decode j t ≡ (if from_client f then ok (stamp f) else unknown))
      × (decode_server j t ≡ (if from_server f then ok (stamp f) else unknown))
unfolding encode stamp decode_client decode_from_server text_eq
decode-encode {j} (snapshot m) t k x e =
    rw ((decoders j _ t (k.envelope _ t x e)).0, (decoders j _ t (k.envelope _ t x e)).1)
      (refl, rw (k.on_snapshot _ t x e) refl)
decode-encode {j} (delta m) t k x e =
    rw ((decoders j _ t (k.envelope _ t x e)).0, (decoders j _ t (k.envelope _ t x e)).1)
      (refl, rw (k.on_delta _ t x e) refl)
decode-encode {j} (scene_changed m) t k x e =
    rw ((decoders j _ t (k.envelope _ t x e)).0, (decoders j _ t (k.envelope _ t x e)).1)
      (refl, rw (k.on_scene_changed _ t x e) refl)
decode-encode {j} (scene_roster m) t k x e =
    rw ((decoders j _ t (k.envelope _ t x e)).0, (decoders j _ t (k.envelope _ t x e)).1)
      (refl, rw (k.on_scene_roster _ t x e) refl)
decode-encode {j} (overlay_apps m) t k x e =
    rw ((decoders j _ t (k.envelope _ t x e)).0, (decoders j _ t (k.envelope _ t x e)).1)
      (refl, rw (k.on_overlay_apps _ t x e) refl)
decode-encode {j} (error m) t k x e =
    rw ((decoders j _ t (k.envelope _ t x e)).0, (decoders j _ t (k.envelope _ t x e)).1)
      (refl, rw (k.on_error _ t x e) refl)
decode-encode {j} (pong m) t k x e =
    rw ((decoders j _ t (k.envelope _ t x e)).0, (decoders j _ t (k.envelope _ t x e)).1)
      (rw (k.on_pong _ t x e) refl, rw (k.on_pong _ t x e) refl)
decode-encode {j} (ping m) t k x e =
    rw ((decoders j _ t (k.envelope _ t x e)).0, (decoders j _ t (k.envelope _ t x e)).1)
      (rw (k.on_ping _ t x e) refl, rw (k.on_ping _ t x e) refl)
decode-encode {j} (subscribe m) t k x e =
    rw ((decoders j _ t (k.envelope _ t x e)).0, (decoders j _ t (k.envelope _ t x e)).1)
      (rw (k.on_subscribe _ t x e) refl, refl)
decode-encode {j} (input m) t k x e =
    rw ((decoders j _ t (k.envelope _ t x e)).0, (decoders j _ t (k.envelope _ t x e)).1)
      (rw (k.on_input _ t x e) refl, refl)
decode-encode {j} (unsubscribe m) t k x e =
    rw ((decoders j _ t (k.envelope _ t x e)).0, (decoders j _ t (k.envelope _ t x e)).1)
      (rw (k.on_unsubscribe _ t x e) refl, refl)
