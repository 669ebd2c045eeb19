-- ===== src/Server/Replay.antt =====
-- server/replay_buffer.go: the ring of the latest emissions of a scene. The locks are left out:
-- each method is one step.
pub mod Window
pub mod Refine
pub mod Resume
use lumencast_go.Common.{
  ℕ, zero, suc, ◌+◌, ◌-◌, ◌%◌, ◌^◌, ℤ, pos, negsuc, Bool, true, false, Option, none, some, List, [],
  ◌∷◌, ltb, ◌==◌, if◌then◌else◌, get_or, set, replicate,
}
use lumencast_go.Protocol.Frames.{Patch, Cause, ProjectionMetadata}
use lumencast_go.Protocol.Sequence.{add_u64}

abbrev pub default_replay_buffer_size : ℕ
default_replay_buffer_size = 256

pub record ReplayRecord : Type 0 where
  pub seq : ℕ
  pub patches : List Patch
  pub cause : Option Cause
  pub projection_metadata : Option ProjectionMetadata

-- Go's zero value, which `make` fills the ring with.
abbrev pub zero_record : ReplayRecord
zero_record = record { seq = 0; patches = []; cause = none; projection_metadata = none }

pub record ReplayBuffer : Type 0 where
  pub records : List ReplayRecord
  pub head : ℕ
  pub cap : ℕ
  pub size : ℕ

abbrev pub with_capacity : ℕ → ReplayBuffer
with_capacity cap = record { records = replicate cap zero_record; head = 0; cap = cap; size = 0 }

unfoldable pub new_replay_buffer : ℤ → ReplayBuffer
new_replay_buffer (pos cap) =
    if ltb cap 1 then with_capacity default_replay_buffer_size else with_capacity cap
new_replay_buffer (negsuc n) = with_capacity default_replay_buffer_size

-- The copy of the metadata is the metadata: values here are not shared.
unfoldable pub push : ReplayBuffer → ReplayRecord → ReplayBuffer
push b r = record b {
  records = set b.records b.head r;
  head = (b.head + 1) % b.cap;
  size = if ltb b.size b.cap then b.size + 1 else b.size;
}

-- The index of the oldest record. `cap` is added first, as ℕ has no negative numbers.
abbrev pub tail : ReplayBuffer → ℕ
tail b = (b.head + b.cap - b.size) % b.cap

-- The loop of `since` over the `n` offsets from `i` on.
unfoldable pub since_loop : ReplayBuffer → ℕ → ℕ → ℕ → List ReplayRecord
since_loop b since_seq i zero = []
since_loop b since_seq i (suc n) =
    let r = get_or b.records ((tail b + i) % b.cap) zero_record in
    let rest = since_loop b since_seq (suc i) n in if ltb since_seq r.seq then r ∷ rest else rest

unfoldable pub since : ReplayBuffer → ℕ → List ReplayRecord × Bool
since b since_seq =
    if b.size == 0
    then ([], true)
    else if ltb (add_u64 since_seq 1) (get_or b.records (tail b) zero_record).seq
    then ([], false)
    else (since_loop b since_seq 0 b.size, true)

unfoldable pub reset : ReplayBuffer → ReplayBuffer
reset b = record b { head = 0; size = 0 }

unfoldable pub length : ReplayBuffer → ℕ
length b = b.size
