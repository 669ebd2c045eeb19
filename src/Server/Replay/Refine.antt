-- ===== src/Server/Replay/Refine.antt =====
-- The ring against its specification: the list of the latest emissions, at most `cap` of them.
use lumencast_go.Common.{
  ℕ, zero, suc, ◌+◌, ◌-◌, ◌%◌, ◌≤◌, ◌<◌, ◌≡◌, refl, ap, sym, ◌∙◌, Bool, true, false, List, [], ◌∷◌,
  ◌++◌, arith, length, get_or, set, drop, keep, ltb, if◌then◌else◌, dec_lt, ◌⊎◌, ap₂, ◌≢◌, lt→ltb,
  le→ltb,
}
use lumencast_go.Protocol.Sequence.{add_u64}
use lumencast_go.Server.Replay.{
  ReplayRecord, ReplayBuffer, zero_record, push, tail, since, since_loop,
}
use lumencast_go.Server.Replay.Window.{
  IsValid, contents, window, window-set, window_shift, mod_cases, length-window,
}
use native.Mathlib.Nat.{mod-eq_of_lt}

-- Appending to a list of at most `cap` records drops the oldest if there is no room.
unfoldable pub push_latest : ℕ → List ReplayRecord → ReplayRecord → List ReplayRecord
push_latest cap xs r = if ltb (length xs) cap then xs ++ (r ∷ []) else drop 1 xs ++ (r ∷ [])

-- The answer to a resume request from the list of the records.
unfoldable pub since_latest : List ReplayRecord → ℕ → List ReplayRecord × Bool
since_latest [] since_seq = ([], true)
since_latest (r ∷ rs) since_seq =
    if ltb (add_u64 since_seq 1) r.seq
    then ([], false)
    else (keep (λ x. ltb since_seq x.seq) (r ∷ rs), true)

pub length-contents : (b : ReplayBuffer) → length (contents b) ≡ b.size
length-contents b = length-window b.records b.cap (tail b) 0 b.size

tail_cases :
    {b : ReplayBuffer}
    → IsValid b
    → ((tail b + b.size ≡ b.head + b.cap) × (b.head < b.size)
        ⊎ (tail b + b.size ≡ b.head) × (b.size ≤ b.head))
tail_cases {b} v = ground (arith, mod_cases (b.head + b.cap - b.size) b.cap (omega arith))

module _ {b : ReplayBuffer} (r : ReplayRecord) (v : IsValid b) where
  tail-push_not_full : b.size < b.cap → tail (push b r) ≡ tail b
  unfolding push
  tail-push_not_full h = ground (
    arith,
    tail_cases v,
    mod_cases (b.head + 1) b.cap (omega arith),
    mod_cases ((b.head + 1) % b.cap + b.cap - (b.size + 1)) b.cap (omega arith),
  )

  tail-push_full : b.size ≡ b.cap → tail (push b r) ≡ (tail b + 1) % b.cap
  unfolding push
  tail-push_full h =
      ground
        (arith, tail_cases v, mod_cases ((b.head + 1) % b.cap + b.cap - b.cap) b.cap (omega arith))

-- Where there is room, `head` is the index just past the records, and else the oldest.
head-eq : {b : ReplayBuffer} → IsValid b → b.head ≡ (tail b + b.size) % b.cap
head-eq {b} v = ground (arith, tail_cases v, mod_cases (tail b + b.size) b.cap (omega arith))

tail-lt : {b : ReplayBuffer} → IsValid b → tail b < b.cap
tail-lt v = ground (arith, tail_cases v)

-- The window of a non-empty ring begins with the record at `tail`.
window_of_ne_zero :
    (records : List ReplayRecord) (cap t n : ℕ)
    → t < cap
    → n ≢ 0
    → window records cap t 0 n ≡ get_or records t zero_record ∷ window records cap t 1 (n - 1)
window_of_ne_zero records cap t zero h ne = absurd (ne refl)
window_of_ne_zero records cap t (suc n) h ne =
    ap₂ ◌∷◌
      (ap (λ k. get_or records k zero_record) (ap (λ k. k % cap) (omega arith) ∙ mod-eq_of_lt h))
      (ap (window records cap t 1) (omega arith))

window_of_zero : (records : List ReplayRecord) (cap t n : ℕ) → n ≡ 0 → window records cap t 0 n ≡ []
window_of_zero records cap t zero e = refl
window_of_zero records cap t (suc n) e = absurd (omega arith)

module _ {b : ReplayBuffer} (r : ReplayRecord) (v : IsValid b) where
  contents-push_not_full : b.size < b.cap → contents (push b r) ≡ contents b ++ (r ∷ [])
  unfolding push
  contents-push_not_full h =
      ap₂ (λ t n. window (set b.records b.head r) b.cap t 0 n) (tail-push_not_full r v h) grown
      ∙ window-set b.records b.cap (tail b) 0 b.size b.head r v.storage (tail-lt v) (omega arith) h
          (head-eq v ∙ ap (λ k. k % b.cap) (omega arith))
    where
      grown : (push b r).size ≡ suc b.size
      grown = ground arith

  contents-push_full : b.size ≡ b.cap → contents (push b r) ≡ drop 1 (contents b) ++ (r ∷ [])
  unfolding push
  contents-push_full h =
      ap₂ (λ t n. window (set b.records b.head r) b.cap t 0 n) (tail-push_full r v h) same
      ∙ window_shift (set b.records b.head r) b.cap (tail b) 0 (suc (b.cap - 1))
      ∙ window-set b.records b.cap (tail b) 1 (b.cap - 1) b.head r v.storage (tail-lt v)
          (omega arith) (omega arith) (head-eq v ∙ ap (λ k. k % b.cap) (omega arith))
      ∙ ap (λ xs. drop 1 xs ++ (r ∷ [])) (sym first)
    where
      same : (push b r).size ≡ suc (b.cap - 1)
      same = ground arith

      first :
          contents b
          ≡ get_or b.records (tail b) zero_record ∷ window b.records b.cap (tail b) 1 (b.cap - 1)
      first =
          window_of_ne_zero b.records b.cap (tail b) b.size (tail-lt v) (omega arith)
          ∙ ap (λ k. get_or b.records (tail b) zero_record ∷ window b.records b.cap (tail b) 1 k)
              (omega arith)

-- A new emission becomes the latest of the ring; the oldest is dropped only where there is no room.
pub push_refines :
    {b : ReplayBuffer} (r : ReplayRecord)
    → IsValid b
    → contents (push b r) ≡ push_latest b.cap (contents b) r
unfolding push_latest
push_refines {b} r v = elim (dec_lt b.size b.cap) [
  | yes h ↦ rw (length-contents, lt→ltb _ _ h) (contents-push_not_full r v h)
  | no h ↦
      rw (length-contents, le→ltb b.size b.cap (omega arith)) (contents-push_full r v (omega arith))
]

-- Each offset that the loop of `since` visits is a record of the ring.
since_loop-eq-keep :
    (b : ReplayBuffer) (since_seq i n : ℕ)
    → since_loop b since_seq i n
      ≡ keep (λ x. ltb since_seq x.seq) (window b.records b.cap (tail b) i n)
unfolding since_loop
since_loop-eq-keep b since_seq i zero = refl
since_loop-eq-keep b since_seq i (suc n) = ground (arith, since_loop-eq-keep b since_seq (suc i) n)

-- A resume request is answered from the records that the ring holds, oldest first: with those past
-- the requested number, or by a refusal if records between it and the oldest may be missing.
pub since_refines :
    (b : ReplayBuffer) (since_seq : ℕ)
    → IsValid b
    → since b since_seq ≡ since_latest (contents b) since_seq
unfolding since since_latest
since_refines b since_seq v = ground (
  arith,
  since_loop-eq-keep b since_seq 0 b.size,
  window_of_ne_zero b.records b.cap (tail b) b.size (tail-lt v),
  window_of_zero b.records b.cap (tail b) b.size,
)
