-- ===== src/Protocol/Sequence/Stream.antt =====
-- Whole streams of sequence numbers: what a receiver that closes on the first error accepts.
use lumencast_go.Common.{
  ℕ, zero, suc, ◌+◌, ◌^◌, ◌≤◌, ◌<◌, ◌≡◌, refl, true, false, Option, none, some, List, [], ◌∷◌,
  arith, length, if◌then◌else◌, inl, inr, ◌⊎◌,
}
use lumencast_go.Protocol.Sequence.{
  SequenceTracker, SeqError, gap, next_server, observe_server, observe_snapshot,
}

-- The receiver's loop: frames are taken one by one, a skipped frame is dropped, and the first
-- error ends the stream. The list holds the numbers of the frames that were kept.
pub observe_all : SequenceTracker → List ℕ → SequenceTracker × List ℕ × Option SeqError
observe_all s [] = (s, [], none)
observe_all s (seq ∷ rest) =
    let (s', skip, err) = observe_server s seq in
    let (t, kept, err') = observe_all s' rest in
    elim err [ some e ↦ (s', [], some e) | none ↦ (t, if skip then kept else seq ∷ kept, err') ]

-- The numbers of the next `n` frames of a server.
pub emit_all : SequenceTracker → ℕ → SequenceTracker × List ℕ
emit_all s zero = (s, [])
emit_all s (suc n) =
    let (s', seq) = next_server s in let (t, rest) = emit_all s' n in (t, seq ∷ rest)

-- start, start + 1, …, start + n - 1
abbrev pub count_from : ℕ → ℕ → List ℕ
count_from start zero = []
count_from start (suc n) = start ∷ count_from (suc start) n

-- One observation with a baseline, below the wrap.
pub observe_server_cases :
    (c seq : ℕ)
    → 0 < c
    → c + 1 < 2 ^ 64
    → ((seq ≡ suc c)
        × (observe_server (record { cur = c }) seq ≡ (record { cur = suc c }, false, none)))
      ⊎ ((seq ≤ c) × (observe_server (record { cur = c }) seq ≡ (record { cur = c }, true, none)))
      ⊎ ((suc c < seq)
          × (observe_server (record { cur = c }) seq ≡ (record { cur = c }, false, some gap)))
unfolding observe_server
observe_server_cases c seq h k = ground arith

-- What a receiver keeps is an unbroken run of numbers from its baseline on, whatever arrives:
-- duplicates are dropped, and nothing is kept past a missing number.
observe_all_contiguous :
    (c : ℕ) (seqs : List ℕ)
    → 0 < c
    → c + length seqs < 2 ^ 64
    → let (t, kept, err) = observe_all (record { cur = c }) seqs in
      (kept ≡ count_from (suc c) (length kept)) × (t.cur ≡ c + length kept)
unfolding observe_all
observe_all_contiguous c [] h k = (refl, omega arith)
observe_all_contiguous c (seq ∷ rest) h k = elim (observe_server_cases c seq h (omega arith)) [
  | inl next ↦ ground (arith, next, observe_all_contiguous (suc c) rest)
  | inr (inl old) ↦ ground (arith, old, observe_all_contiguous c rest)
  | inr (inr missing) ↦ ground (arith, missing)
]

emit_all-count :
    (n c : ℕ)
    → c + n < 2 ^ 64
    → emit_all (record { cur = c }) n ≡ (record { cur = c + n }, count_from (suc c) n)
unfolding emit_all next_server
emit_all-count zero c h = ground arith
emit_all-count (suc n) c h = ground (arith, emit_all-count n (suc c))

observe_all-count :
    (n c : ℕ)
    → 0 < c
    → c + n < 2 ^ 64
    → observe_all (record { cur = c }) (count_from (suc c) n)
      ≡ (record { cur = c + n }, count_from (suc c) n, none)
unfolding observe_all
observe_all-count zero c h k = ground arith
observe_all-count (suc n) c h k = elim (observe_server_cases c (suc c) h (omega arith)) [
  | inl next ↦ ground (arith, next, observe_all-count n (suc c))
  | inr (inl old) ↦ absurd (omega (arith, old))
  | inr (inr missing) ↦ absurd (omega (arith, missing))
]

-- A receiver that rebases on a snapshot numbered as the server's counter keeps every frame that the
-- server numbers from then on, without error, and ends at the server's counter.
pub snapshot_then_stream :
    (s : SequenceTracker) (c n : ℕ)
    → 0 < c
    → c + n < 2 ^ 64
    → let (t, seqs) = emit_all (record { cur = c }) n in
      observe_all (observe_snapshot s c).0 seqs ≡ (t, seqs, none)
unfolding observe_snapshot
snapshot_then_stream s c n h k = ground (arith, emit_all-count n c, observe_all-count n c)

-- A frame lost from the stream is never passed over: if the next frame to arrive is numbered past
-- the one that is due, the receiver stops with ErrGap and keeps nothing more.
observe_all_gap :
    (c seq : ℕ) (rest : List ℕ)
    → 0 < c
    → c + 1 < seq
    → seq < 2 ^ 64
    → observe_all (record { cur = c }) (seq ∷ rest) ≡ (record { cur = c }, [], some gap)
unfolding observe_all
observe_all_gap c seq rest h k b = elim (observe_server_cases c seq h (omega arith)) [
  | inl next ↦ absurd (omega (arith, next))
  | inr (inl old) ↦ absurd (omega (arith, old))
  | inr (inr missing) ↦ ground (arith, missing)
]
