-- ===== src/Server/Scene.antt =====
-- server/scene.go: a scene, its emissions and its subscribers. A method returns the new scene and
-- heap before its results, and is one step: the writer of a connection acts between steps, and
-- inside sendDelta where `taken` says so.
pub mod Client
pub mod Sync
pub mod Emission
pub mod Resume
use lumencast_go.Common.{
  ℕ, ℤ, pos, negsuc, ◌<◌, ◌≤◌, Text, codes, Bool, true, false, ◌&&◌, Option, none, some, List, [],
  ◌∷◌, map, Map, insert, ltb, leb, ltb_int, is_empty, if◌then◌else◌,
}
use lumencast_go.Json.{Raw}
use lumencast_go.Protocol.Sequence.{SequenceTracker, new_sequence_tracker, next_server, current}
use lumencast_go.Protocol.ErrorCodes.{ErrorCode}
use lumencast_go.Protocol.Frames.{
  Frame, snapshot, delta, Snapshot, Delta, Patch, Cause, ProjectionMetadata,
}
use lumencast_go.Server.Replay.{
  ReplayRecord, ReplayBuffer, new_replay_buffer, default_replay_buffer_size, push, since,
}
use lumencast_go.Server.Store
use lumencast_go.Server.Store.{Value, StoreError, empty_patches, Applied, ok, err, apply_patches}
use lumencast_go.Server.Subscription.{
  Subscription, Heap, offer, mark_stale, close, drain, write, alloc, member, insert_member,
  remove_member, fan_out,
}

pub record SceneRejection : Type 0 where
  pub code : ErrorCode
  pub message : Text

pub record InputSpec : Type 0 where
  pub path : Text
  pub type : Text
  pub max_length : ℤ
  pub min : Option ℤ
  pub max : Option ℤ
  pub values : List Text

-- `none` for the subscribers is Go's nil map, to which nothing can be added.
pub record Scene : Type 0 where
  pub id : Text
  pub version : Text
  pub store : Map Raw
  pub seq : SequenceTracker
  pub replay : ReplayBuffer
  pub subscribers : Option (List ℕ)
  pub last_metadata : Option ProjectionMetadata
  pub declared_inputs : Map InputSpec
  pub rejection : Option SceneRejection

abbrev pub SceneOption : Type 0
SceneOption = Scene → Scene

abbrev pub with_scene_version : Text → SceneOption
with_scene_version v s = record s { version = v }

abbrev pub undeclared_spec : Text → InputSpec
undeclared_spec p = record {
  path = p;
  type = [];
  max_length = pos 0;
  min = none;
  max = none;
  values = [];
}

abbrev pub declare_inputs : List InputSpec → Map InputSpec → Map InputSpec
declare_inputs [] m = m
declare_inputs (spec ∷ specs) m = declare_inputs specs (insert spec.path spec m)

abbrev pub with_declared_inputs : List Text → SceneOption
with_declared_inputs paths s = record s {
  declared_inputs = declare_inputs (map undeclared_spec paths) s.declared_inputs;
}

abbrev pub with_operator_inputs : List InputSpec → SceneOption
with_operator_inputs specs s = record s { declared_inputs = declare_inputs specs s.declared_inputs }

abbrev pub default_scene_version : Text
default_scene_version =
    codes "sha256:0000000000000000000000000000000000000000000000000000000000000000"

abbrev pub apply_options : List SceneOption → Scene → Scene
apply_options [] s = s
apply_options (opt ∷ opts) s = apply_options opts (opt s)

unfoldable pub new_scene : Text → List SceneOption → Scene
unfolding next_server
new_scene id opts = apply_options opts (record {
  id = id;
  version = default_scene_version;
  store = Store.new_store;
  seq = (next_server new_sequence_tracker).0;
  replay = new_replay_buffer (pos default_replay_buffer_size);
  subscribers = some [];
  last_metadata = none;
  declared_inputs = [];
  rejection = none;
})

unfoldable pub set_version : Scene → Text → Scene
set_version s v = record s { version = v }

unfoldable pub reject : Scene → ErrorCode → Text → Scene
reject s code message = record s { rejection = some (record { code = code; message = message }) }

abbrev pub members : Scene → List ℕ
members s = elim s.subscribers [ none ↦ [] | some is ↦ is ]

abbrev pub no_metadata : ProjectionMetadata
no_metadata = record {
  schema_version = [];
  scene_digest = [];
  runtime_instance_id = [];
  target = [];
  render_revision = [];
  correlation_id = [];
}

abbrev pub metadata_or_empty : Option ProjectionMetadata → ProjectionMetadata
metadata_or_empty none = no_metadata
metadata_or_empty (some m) = m

abbrev pub stamp_metadata : Scene → Snapshot → Snapshot
stamp_metadata s snap = elim s.last_metadata [ none ↦ snap | some m ↦ record snap { metadata = m } ]

-- A Snapshot of the scene as it is. `v` and `type` are stamped by Encode.
unfoldable pub current_snapshot : Scene → Snapshot
current_snapshot s = stamp_metadata s (record {
  v = pos 0;
  type = [];
  seq = s.seq.cur;
  ts = [];
  scene_id = s.id;
  scene_version = s.version;
  state = Store.snapshot s.store;
  metadata = no_metadata;
})

abbrev pub make_delta : ℕ → List Patch → Option Cause → Option ProjectionMetadata → Delta
make_delta seq patches cause metadata = record {
  v = pos 0;
  type = [];
  seq = seq;
  ts = [];
  patches = patches;
  cause = cause;
  metadata = metadata_or_empty metadata;
}

-- The second attempt comes after the writer has taken the first `taken` frames.
unfoldable pub send_delta : Scene → Delta → ℕ → Subscription → Subscription
send_delta s d taken sub = elim (offer (delta d) sub) [
  | some sub' ↦ sub'
  | none ↦ elim (offer (snapshot (current_snapshot s)) (drain taken sub)) [
    | some sub' ↦ sub'
    | none ↦ mark_stale (drain taken sub)
  ]
]

unfoldable pub send_snapshot : Scene → Subscription → Subscription
send_snapshot s sub = elim (offer (snapshot (current_snapshot s)) sub) [
  | some sub' ↦ sub'
  | none ↦ mark_stale sub
]

unfoldable pub refresh_all : Scene → Heap → Heap
refresh_all s h = fan_out (λ i. send_snapshot s) (members s) h

-- Set after applyPatches. The error is `none` on success.
unfoldable pub finish_set : Scene → Heap → Map Raw × Applied → Scene × Heap × Option StoreError
finish_set s h (store, err e) = (record s { store = store }, h, some e)
finish_set s h (store, ok raw) =
    (record s { store = store }, refresh_all (record s { store = store }) h, none)

unfoldable pub set : Scene → Heap → Map Value → Scene × Heap × Option StoreError
set s h patches =
    if is_empty patches
    then (s, h, some empty_patches)
    else finish_set s h (apply_patches s.store patches)

abbrev pub to_patches : Map Raw → List Patch
to_patches [] = []
to_patches ((path, value) ∷ raw) =
    record { path = path; value = value; transition = none } ∷ to_patches raw

-- The scene after the part of emitWithCause that holds its lock, up to the loop.
unfoldable pub advance : Scene → List Patch → Option Cause → Option ProjectionMetadata → Scene
advance s patches cause metadata =
    let (tracker, seq) = next_server s.seq in
    record s {
      last_metadata = elim metadata [ none ↦ s.last_metadata | some m ↦ some m ];
      seq = tracker;
      replay =
          push s.replay (record {
            seq = seq;
            patches = patches;
            cause = cause;
            projection_metadata = metadata;
          });
    }

-- emitWithCause after applyPatches.
unfoldable pub finish_emit :
    (ℕ → ℕ)
    → Scene
    → Heap
    → Option Cause
    → Option ProjectionMetadata
    → Map Raw × Applied
    → Scene × Heap × Option StoreError
finish_emit taken s h cause metadata (store, err e) = (record s { store = store }, h, some e)
finish_emit taken s h cause metadata (store, ok raw) =
    let patches = to_patches raw in
    let t = advance (record s { store = store }) patches cause metadata in
    let d = make_delta t.seq.cur patches cause metadata in
    (t, fan_out (λ i. send_delta t d (taken i)) (members t) h, none)

unfoldable pub emit_with_cause :
    (ℕ → ℕ)
    → Scene
    → Heap
    → Map Value
    → Option Cause
    → Option ProjectionMetadata
    → Scene × Heap × Option StoreError
emit_with_cause taken s h patches cause metadata =
    if is_empty patches
    then (s, h, some empty_patches)
    else finish_emit taken s h cause metadata (apply_patches s.store patches)

unfoldable pub emit : (ℕ → ℕ) → Scene → Heap → Map Value → Scene × Heap × Option StoreError
emit taken s h patches = emit_with_cause taken s h patches none none

-- What goes out first: a snapshot, or the deltas of a resume.
pub data Initial : Type 0 where
  fresh : Snapshot → Initial
  resumed : List ReplayRecord → Initial

abbrev pub buffer_size : ℤ → ℕ
buffer_size (pos n) = if ltb n 1 then 64 else n
buffer_size (negsuc n) = 64

abbrev pub new_subscription : ℤ → Bool → Bool → Subscription
new_subscription buffer live proto11 = record {
  out = [];
  cap = buffer_size buffer;
  closed = false;
  stale = false;
  live = live;
  proto11 = proto11;
}

abbrev pub initial : Scene → ℕ → Initial
initial s since_sequence =
    let (records, covered) = since s.replay since_sequence in
    if (ltb 0 since_sequence && leb since_sequence s.seq.cur) && covered
    then resumed records
    else fresh (current_snapshot s)

-- The new subscription has the address `h.next`. `none` is the panic of a write to a nil map.
unfoldable pub subscribe_with_resume :
    Scene → Heap → ℤ → Bool → Bool → ℕ → Option (Scene × Heap × ℕ × Initial)
subscribe_with_resume s h buffer live proto11 since_sequence = elim s.subscribers [
  | none ↦ none
  | some is ↦ some (
    record s { subscribers = some (insert_member h.next is) },
    alloc h (new_subscription buffer live proto11),
    h.next,
    initial s since_sequence,
  )
]

unfoldable pub unsubscribe : Scene → Heap → ℕ → Scene × Heap
unsubscribe s h i =
    if member i (members s)
    then (record s { subscribers = some (remove_member i (members s)) }, write h i (close (h.at i)))
    else (s, h)
