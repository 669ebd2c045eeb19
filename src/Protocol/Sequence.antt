-- ===== src/Protocol/Sequence.antt =====
-- protocol/sequence.go: the counter that numbers server frames, and the receiver's check of it.
-- A method that updates the tracker returns the new tracker first.
pub mod Stream
use lumencast_go.Common.{
  ℕ, ◌+◌, ◌%◌, ◌^◌, Bool, true, false, Option, none, some, ltb, leb, ◌==◌, if◌then◌else◌,
}

-- uint64 addition
abbrev pub add_u64 : ℕ → ℕ → ℕ
add_u64 a b = (a + b) % 2 ^ 64

pub record SequenceTracker : Type 0 where
  pub cur : ℕ

-- ErrGap and ErrInvalidSeqStart
pub data SeqError : Type 0 where
  gap invalid_seq_start : SeqError

abbrev pub new_sequence_tracker : SequenceTracker
new_sequence_tracker = record { cur = 0 }

unfoldable pub next_server : SequenceTracker → SequenceTracker × ℕ
next_server s = let c = add_u64 s.cur 1 in (record s { cur = c }, c)

unfoldable pub reset : SequenceTracker → SequenceTracker
reset s = record s { cur = 0 }

unfoldable pub current : SequenceTracker → ℕ
current s = s.cur

-- The results are `skip` and `err`.
unfoldable pub observe_server : SequenceTracker → ℕ → SequenceTracker × Bool × Option SeqError
observe_server s seq =
    if s.cur == 0
    then if ltb seq 1
      then (s, false, some invalid_seq_start)
      else (record s { cur = seq }, false, none)
    else if seq == add_u64 s.cur 1
    then (record s { cur = seq }, false, none)
    else if leb seq s.cur
    then (s, true, none)
    else (s, false, some gap)

unfoldable pub observe_snapshot : SequenceTracker → ℕ → SequenceTracker × Option SeqError
observe_snapshot s seq =
    if ltb seq 1 then (s, some invalid_seq_start) else (record s { cur = seq }, none)
