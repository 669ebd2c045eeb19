-- ===== src/Examples/Replay.antt =====
-- A ring of three records that has wrapped round once.
use lumencast_go.Common.{ℕ, ◌+◌, ◌-◌, ◌≤◌, ◌<◌, ◌≡◌, refl, true, not, ltb, [], ◌∷◌, arith}
use lumencast_go.Protocol.Sequence.Stream.{count_from}
use lumencast_go.Server.Replay.{
  ReplayRecord, ReplayBuffer, zero_record, push, since, since_loop, with_capacity,
}
use lumencast_go.Server.Replay.Window.{IsValid, contents}
use lumencast_go.Server.Replay.Refine.{push_latest, since_latest, push_refines, since_refines}
use lumencast_go.Server.Replay.Resume.{seqs, resume_complete}

abbrev emission : ℕ → ReplayRecord
emission n = record zero_record { seq = n }

-- The emissions 3, 4 and 5.
abbrev wrapped : ReplayBuffer
wrapped = record {
  records = emission 4 ∷ emission 5 ∷ emission 3 ∷ [];
  head = 2;
  cap = 3;
  size = 3;
}

wrapped_run :
    push
      (push
        (push (push (push (with_capacity 3) (emission 1)) (emission 2)) (emission 3))
        (emission 4))
      (emission 5)
    ≡ wrapped
unfolding push
wrapped_run = refl

since_three : since wrapped 3 ≡ (emission 4 ∷ emission 5 ∷ [], true)
unfolding since since_loop
since_three = refl

wrapped-IsValid : IsValid wrapped
wrapped-IsValid = record { storage = refl; head_in = omega arith; size_in = omega arith }

resume_complete_example :
    ((since wrapped 3).1 ≡ not (ltb 3 2))
    × (2 ≤ 3 → seqs (since wrapped 3).0 ≡ count_from 4 (2 + 3 - 3))
    × (3 < 2 → (since wrapped 3).0 ≡ [])
resume_complete_example = resume_complete 3 2 2 wrapped-IsValid refl (omega arith) (omega arith)

push_refines_example :
    contents (push wrapped (emission 6))
    ≡ push_latest 3 (emission 3 ∷ emission 4 ∷ emission 5 ∷ []) (emission 6)
push_refines_example = push_refines (emission 6) wrapped-IsValid

since_refines_example : since wrapped 3 ≡ since_latest (emission 3 ∷ emission 4 ∷ emission 5 ∷ []) 3
since_refines_example = since_refines wrapped 3 wrapped-IsValid
