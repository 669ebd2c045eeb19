-- ===== src/Server/Replay/Window.antt =====
-- The representation of the ring: its invariant, and the records that it holds, oldest first.
use lumencast_go.Common.{
  ℕ, zero, suc, ◌+◌, ◌-◌, ◌%◌, ◌≤◌, ◌<◌, ℤ, pos, negsuc, ◌≡◌, ◌≢◌, refl, ap, ap₂, sym, ◌∙◌, List,
  [], ◌∷◌, ◌++◌, arith, length, get_or, set, get_or-set_self, get_or-set_ne, length-set,
  length-replicate, dec_lt, ◌⊎◌, inl, inr,
}
use lumencast_go.Server.Replay.{
  ReplayRecord, ReplayBuffer, zero_record, with_capacity, new_replay_buffer, push, tail, reset,
}
use native.Mathlib.Nat.{mod-eq_of_lt, mod-eq-sub-mod, mod-add-mod}

pub record IsValid (b : ReplayBuffer) : Type 0 where
  pub storage : length b.records ≡ b.cap
  pub head_in : b.head < b.cap
  pub size_in : b.size ≤ b.cap

-- A remainder below twice the modulus.
pub mod_cases :
    (n cap : ℕ) → n < cap + cap → (n % cap ≡ n) × (n < cap) ⊎ (n % cap + cap ≡ n) × (cap ≤ n)
mod_cases n cap h = elim (dec_lt n cap) [
  | yes p ↦ inl (mod-eq_of_lt p, p)
  | no p ↦ inr (
    omega (
      arith,
      mod-eq-sub-mod {n = n} {m = cap} (omega arith),
      mod-eq_of_lt {n = n - cap} {m = cap} (omega arith),
    ),
    omega arith,
  )
]

-- Two offsets less than a round apart are two indices.
mod-ne : (cap t i j : ℕ) → t < cap → i < j → j ≤ cap → j < i + cap → (t + j) % cap ≢ (t + i) % cap
mod-ne cap t i j ht h hj d e =
    ground (arith, mod_cases (t + i) cap (omega arith), mod_cases (t + j) cap (omega arith))

-- The n records at offsets i, i + 1, … from index t.
abbrev pub window : List ReplayRecord → ℕ → ℕ → ℕ → ℕ → List ReplayRecord
window records cap t i zero = []
window records cap t i (suc n) =
    get_or records ((t + i) % cap) zero_record ∷ window records cap t (suc i) n

-- What the ring holds, oldest first.
abbrev pub contents : ReplayBuffer → List ReplayRecord
contents b = window b.records b.cap (tail b) 0 b.size

pub length-window :
    (records : List ReplayRecord) (cap t i n : ℕ) → length (window records cap t i n) ≡ n
length-window records cap t i zero = refl
length-window records cap t i (suc n) = ap suc (length-window records cap t (suc i) n)

-- A write just past a window extends it by that record.
pub window-set :
    (records : List ReplayRecord) (cap t i n p : ℕ) (r : ReplayRecord)
    → length records ≡ cap
    → t < cap
    → i + n ≤ cap
    → n < cap
    → p ≡ (t + (i + n)) % cap
    → window (set records p r) cap t i (suc n) ≡ window records cap t i n ++ (r ∷ [])
window-set records cap t i zero p r hs ht hn hc e =
    ap (λ x. x ∷ []) (rw at_p (get_or-set_self records p r zero_record in_range))
  where
    at_p : (t + i) % cap ≡ p
    at_p = ap (λ k. k % cap) (omega arith) ∙ sym e

    in_range : p < length records
    in_range = omega (arith, e, hs)
window-set records cap t i (suc n) p r hs ht hn hc e =
    ap₂ ◌∷◌ (get_or-set_ne records p ((t + i) % cap) r zero_record apart) (
      window-set records cap t (suc i) n p r hs ht (omega arith) (omega arith)
        (e ∙ ap (λ k. k % cap) (omega arith)))
  where
    apart : p ≢ (t + i) % cap
    apart = rw e (mod-ne cap t i (i + suc n) ht (omega arith) hn (omega arith))

-- Starting one index later is starting at the next offset.
pub window_shift :
    (records : List ReplayRecord) (cap t i n : ℕ)
    → window records cap ((t + 1) % cap) i n ≡ window records cap t (suc i) n
window_shift records cap t i zero = refl
window_shift records cap t i (suc n) =
    ap₂ ◌∷◌ (ap (λ k. get_or records k zero_record) same) (window_shift records cap t (suc i) n)
  where
    same : ((t + 1) % cap + i) % cap ≡ (t + suc i) % cap
    same = rw mod-add-mod (ap (λ k. k % cap) (omega arith))

pub with_capacity-IsValid : (cap : ℕ) → 0 < cap → IsValid (with_capacity cap)
with_capacity-IsValid cap h = record {
  storage = length-replicate cap zero_record;
  head_in = h;
  size_in = omega arith;
}

-- A new buffer is valid and empty, whatever capacity is asked for.
pub new_replay_buffer-IsValid :
    (cap : ℤ) → IsValid (new_replay_buffer cap) × (contents (new_replay_buffer cap) ≡ [])
unfolding new_replay_buffer
new_replay_buffer-IsValid (pos cap) = elim (dec_lt 0 cap) [
  | yes h ↦ ground (arith, with_capacity-IsValid cap h)
  | no h ↦ ground (arith, with_capacity-IsValid 256)
]
new_replay_buffer-IsValid (negsuc n) = ground (arith, with_capacity-IsValid 256)

pub push-IsValid : {b : ReplayBuffer} (r : ReplayRecord) → IsValid b → IsValid (push b r)
unfolding push
push-IsValid {b} r v = ground (arith, length-set b.records b.head r)

pub reset-IsValid : {b : ReplayBuffer} → IsValid b → IsValid (reset b) × (contents (reset b) ≡ [])
unfolding reset
reset-IsValid v = ground arith
