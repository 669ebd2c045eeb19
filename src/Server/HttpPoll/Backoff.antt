-- ===== src/Server/HttpPoll/Backoff.antt =====
-- How long HTTPPoll waits.
use lumencast_go.Common.{
  ℕ, zero, suc, ℤ, pos, ◌*◌, ◌^◌, ◌≤◌, ◌<◌, ◌≡◌, refl, sym, subst, ap, true, false, Option, none,
  some, List, [], ◌∷◌, Map, ltb, arith, All, if◌then◌else◌, ltb_int, ◌⊎◌, inl, inr, Bool-cases,
  is_empty,
}
use lumencast_go.Server.Store.{Value}
use lumencast_go.Server.Subscription.{Heap}
use lumencast_go.Server.Scene.{Scene}
use lumencast_go.Server.HttpPoll.{next_backoff, wait_for, poll_round, poll_all}

abbrev lesser : ℕ → ℕ → ℕ
lesser a b = if ltb a b then a else b

-- 250 ms, doubled n times.
abbrev doublings : ℕ → ℕ
doublings zero = 250000000
doublings (suc n) = doublings n * 2

-- The backoff after n failures in a row.
abbrev pub backoff_after : ℕ → ℕ → ℤ
backoff_after max zero = pos 0
backoff_after max (suc n) = pos (lesser (doublings n) max)

doublings_large : (n : ℕ) → 250000000 ≤ doublings n
doublings_large zero = omega arith
doublings_large (suc n) = omega (arith, doublings_large n)

next_backoff-lesser :
    (x max : ℕ)
    → 250000000 ≤ x
    → 250000000 ≤ max
    → max < 2 ^ 62
    → next_backoff (pos (lesser x max)) (pos max) ≡ pos (lesser (x * 2) max)
unfolding next_backoff
next_backoff-lesser x max large low high = ground arith

next_backoff-after :
    (max n : ℕ)
    → 250000000 ≤ max
    → max < 2 ^ 62
    → next_backoff (backoff_after max n) (pos max) ≡ backoff_after max (suc n)
unfolding next_backoff
next_backoff-after max zero low high = ground arith
next_backoff-after max (suc n) low high =
    next_backoff-lesser (doublings n) max (doublings_large n) low high

-- The interval, or a longer wait that is no longer than the cap.
abbrev pub IsWait : ℤ → ℕ → ℤ → Type 0
IsWait interval max w =
    (w ≡ interval) ⊎ ((ltb_int interval w ≡ true) × (ltb_int (pos max) w ≡ false))

backoff_capped : (max n : ℕ) → ltb_int (pos max) (backoff_after max n) ≡ false
backoff_capped max zero = ground arith
backoff_capped max (suc n) = ground arith

wait_for-IsWait :
    (interval : ℤ) (max n : ℕ) → IsWait interval max (wait_for interval (backoff_after max n))
unfolding wait_for
wait_for-IsWait interval max n = elim (Bool-cases (ltb_int interval (backoff_after max n))) [
  | inl e ↦ rw e (inr (e, backoff_capped max n))
  | inr e ↦ rw e (inl refl)
]

module _ (taken : ℕ → ℕ) (interval : ℤ) (max : ℕ) (low : 250000000 ≤ max)
    (high : max < 2 ^ 62) where
  -- A turn leaves the backoff of some number of failures in a row, and waits for it.
  poll_round-after :
      (s : Scene) (h : Heap) (n : ℕ) (polled : Option (Map Value))
      → (m : ℕ) × ((poll_round taken interval (pos max) s h (backoff_after max n) polled).2
          ≡ backoff_after max m)
        × ((poll_round taken interval (pos max) s h (backoff_after max n) polled).3
            ≡ wait_for interval (backoff_after max m))
  unfolding poll_round
  poll_round-after s h n none = (
    suc n,
    next_backoff-after max n low high,
    ap (wait_for interval) (next_backoff-after max n low high),
  )
  poll_round-after s h n (some patches) = elim (Bool-cases (is_empty patches)) [
    | inl e ↦ rw e (0, refl, refl)
    | inr e ↦ rw e (0, refl, refl)
  ]

  poll_all-after :
      (s : Scene) (h : Heap) (n : ℕ) (polls : List (Option (Map Value)))
      → All
          (IsWait interval max)
          (poll_all taken interval (pos max) s h (backoff_after max n) polls).2
  unfolding poll_all
  poll_all-after s h n [] = tt
  poll_all-after s h n (polled ∷ polls) =
      let (m, later, wait) = poll_round-after s h n polled in
      let turn = poll_round taken interval (pos max) s h (backoff_after max n) polled in
      (
        subst (IsWait interval max) (sym wait) (wait_for-IsWait interval max m),
        rw later (poll_all-after turn.0 turn.1 m polls),
      )

  -- Whatever the polls return, every wait is the interval or a longer one that is no longer than the
  -- cap. The cap must be at least the floor of 250 ms, and below 2^62 ns, a limit of int64.
  pub poll_all_waits :
      (s : Scene) (h : Heap) (polls : List (Option (Map Value)))
      → All (IsWait interval max) (poll_all taken interval (pos max) s h (pos 0) polls).2
  poll_all_waits s h polls = poll_all-after s h 0 polls
