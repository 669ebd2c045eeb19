-- ===== src/Protocol/Frames.antt =====
-- protocol/frames.go: the frames of the wire. A slice that may be nil and one that is empty are the
-- same list here; encoding makes the difference only for `entries` and `apps`, which are options.
use lumencast_go.Common.{ℕ, ℤ, Text, Bool, Option, List, Map}
use lumencast_go.Json.{Raw}

pub record TransitionSpec : Type 0 where
  pub kind : Text
  pub duration_ms : ℤ
  pub easing : Text
  pub stiffness : ℤ
  pub damping : ℤ

pub record Cause : Type 0 where
  pub source : Text
  pub input_id : Text

pub record ProjectionMetadata : Type 0 where
  pub schema_version : Text
  pub scene_digest : Text
  pub runtime_instance_id : Text
  pub target : Text
  pub render_revision : Text
  pub correlation_id : Text

pub record SceneTransition : Type 0 where
  pub kind : Text
  pub duration_ms : ℤ

-- The six projection fields of the frame are the fields of `metadata`.
pub record Snapshot : Type 0 where
  pub v : ℤ
  pub type : Text
  pub seq : ℕ
  pub ts : Text
  pub scene_id : Text
  pub scene_version : Text
  pub state : Map Raw
  pub metadata : ProjectionMetadata

pub record Patch : Type 0 where
  pub path : Text
  pub value : Raw
  pub transition : Option TransitionSpec

-- The six projection fields of the frame are the fields of `metadata`.
pub record Delta : Type 0 where
  pub v : ℤ
  pub type : Text
  pub seq : ℕ
  pub ts : Text
  pub patches : List Patch
  pub cause : Option Cause
  pub metadata : ProjectionMetadata

pub record SceneChanged : Type 0 where
  pub v : ℤ
  pub type : Text
  pub seq : ℕ
  pub ts : Text
  pub scene_id : Text
  pub scene_version : Text
  pub from_scene_id : Text
  pub transition : Option SceneTransition

pub record RosterEntry : Type 0 where
  pub scene_id : Text
  pub scene_version : Text

pub record SceneRoster : Type 0 where
  pub v : ℤ
  pub type : Text
  pub entries : Option (List RosterEntry)
  pub ts : Text

pub record OverlayAppState : Type 0 where
  pub running : Option Bool
  pub on_air : Option Bool

pub record OverlayApps : Type 0 where
  pub v : ℤ
  pub type : Text
  pub apps : Option (Map OverlayAppState)
  pub ts : Text

pub record ErrorFrame : Type 0 where
  pub v : ℤ
  pub type : Text
  pub seq : ℕ
  pub ts : Text
  pub code : Text
  pub message : Text
  pub recoverable : Bool
  pub path : Text
  pub retry_after_ms : ℤ

pub record Pong : Type 0 where
  pub v : ℤ
  pub type : Text
  pub nonce : Text

pub record Subscribe : Type 0 where
  pub v : ℤ
  pub type : Text
  pub token : Text
  pub scene : Text
  pub session : Text
  pub since_sequence : ℕ

pub record Input : Type 0 where
  pub v : ℤ
  pub type : Text
  pub patches : List Patch
  pub client_msg_id : Text

pub record Ping : Type 0 where
  pub v : ℤ
  pub type : Text
  pub nonce : Text

pub record Unsubscribe : Type 0 where
  pub v : ℤ
  pub type : Text

-- What the program passes on as `any`: one of its frames, by value or by pointer.
pub data Frame : Type 0 where
  snapshot : Snapshot → Frame
  delta : Delta → Frame
  scene_changed : SceneChanged → Frame
  scene_roster : SceneRoster → Frame
  overlay_apps : OverlayApps → Frame
  error : ErrorFrame → Frame
  pong : Pong → Frame
  ping : Ping → Frame
  subscribe : Subscribe → Frame
  input : Input → Frame
  unsubscribe : Unsubscribe → Frame
