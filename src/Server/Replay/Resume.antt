-- ===== src/Server/Replay/Resume.antt =====
-- Resuming from the ring: which requests it can answer, and that the answer has no gap.
use lumencast_go.Common.{
  ℕ, zero, suc, ◌+◌, ◌-◌, ◌^◌, ◌≤◌, ◌<◌, ◌≡◌, refl, ap, ◌∙◌, List, [], ◌∷◌, ◌++◌, arith, map,
  length, keep, keep-append, ltb, true, false, if◌then◌else◌, dec_lt, ℕ_discrete, ap₂, not, drop,
  lt→ltb, le→ltb,
}
use lumencast_go.Protocol.Sequence.Stream.{count_from}
use lumencast_go.Server.Replay.{ReplayRecord, ReplayBuffer, push, since}
use lumencast_go.Server.Replay.Window.{IsValid, contents}
use lumencast_go.Server.Replay.Refine.{
  push_latest, since_latest, push_refines, since_refines, length-contents,
}

abbrev pub seqs : List ReplayRecord → List ℕ
seqs = map (λ r. r.seq)

-- All records of a run past `s` are kept, and those up to `s` dropped.
keep_all :
    (xs : List ReplayRecord) (s e n : ℕ)
    → s ≤ e
    → seqs xs ≡ count_from (suc e) n
    → seqs (keep (λ x. ltb s x.seq) xs) ≡ count_from (suc e) n
keep_all [] s e n h k = k
keep_all (x ∷ xs) s e zero h k = ground arith
keep_all (x ∷ xs) s e (suc n) h k = ground (arith, keep_all xs s (suc e) n)

pub keep_later :
    (xs : List ReplayRecord) (s e n m : ℕ)
    → e ≤ s
    → m + s ≡ e + n
    → seqs xs ≡ count_from (suc e) n
    → seqs (keep (λ x. ltb s x.seq) xs) ≡ count_from (suc s) m
keep_later [] s e zero zero h l k = refl
keep_later [] s e zero (suc m) h l k = absurd (omega arith)
keep_later [] s e (suc n) m h l k = ground arith
keep_later (x ∷ xs) s e zero m h l k = ground arith
keep_later (x ∷ xs) s e (suc n) m h l k = elim (ℕ_discrete s e) [
  | yes same ↦
      keep_all (x ∷ xs) s e (suc n) (omega arith) k
      ∙ ap₂ count_from {x = suc e} {u = suc n} (omega arith) (omega arith)
  | no past ↦ ground (arith, keep_later xs s (suc e) n m)
]

-- A ring whose records are numbered without a break, e + 1 to e + n.
abbrev pub Holds : ReplayBuffer → ℕ → ℕ → Type 0
Holds b e n = seqs (contents b) ≡ count_from (suc e) n

since_latest_complete :
    (xs : List ReplayRecord) (s e n : ℕ)
    → seqs xs ≡ count_from (suc e) (suc n)
    → s ≤ e + suc n
    → e + suc n + 1 < 2 ^ 64
    → ((since_latest xs s).1 ≡ not (ltb s e))
      × (e ≤ s → seqs (since_latest xs s).0 ≡ count_from (suc s) (e + suc n - s))
      × (s < e → (since_latest xs s).0 ≡ [])
unfolding since_latest
since_latest_complete [] s e n h k w = ground arith
since_latest_complete (x ∷ xs) s e n h k w = elim (dec_lt s e) [
  | yes old ↦ ground arith
  | no new ↦ ground (arith, keep_later (x ∷ xs) s e (suc n) (e + suc n - s))
]

-- A ring that holds the emissions e + 1 to e + n answers a client that has seen all up to s with
-- exactly the emissions s + 1 to e + n, in order and without a gap; it refuses exactly when some
-- emission after s has been dropped, which is when s is below e.
pub resume_complete :
    {b : ReplayBuffer} (s e n : ℕ)
    → IsValid b
    → Holds b e (suc n)
    → s ≤ e + suc n
    → e + suc n + 1 < 2 ^ 64
    → ((since b s).1 ≡ not (ltb s e))
      × (e ≤ s → seqs (since b s).0 ≡ count_from (suc s) (e + suc n - s))
      × (s < e → (since b s).0 ≡ [])
resume_complete {b} s e n v h k w =
    rw (since_refines b s v) (since_latest_complete (contents b) s e n h k w)

seqs-append :
    (xs : List ReplayRecord) (r : ReplayRecord) (s n : ℕ)
    → seqs xs ≡ count_from s n
    → r.seq ≡ s + n
    → seqs (xs ++ (r ∷ [])) ≡ count_from s (suc n)
seqs-append [] r s zero h e = ground arith
seqs-append [] r s (suc n) h e = ground arith
seqs-append (x ∷ xs) r s zero h e = ground arith
seqs-append (x ∷ xs) r s (suc n) h e = ground (arith, seqs-append xs r (suc s) n)

length-seqs : (xs : List ReplayRecord) (s n : ℕ) → seqs xs ≡ count_from s n → length xs ≡ n
length-seqs [] s zero h = refl
length-seqs [] s (suc n) h = ground arith
length-seqs (x ∷ xs) s zero h = ground arith
length-seqs (x ∷ xs) s (suc n) h = ground (arith, length-seqs xs (suc s) n)

seqs-drop :
    (xs : List ReplayRecord) (e n : ℕ)
    → seqs xs ≡ count_from (suc e) (suc n)
    → seqs (drop 1 xs) ≡ count_from (suc (suc e)) n
seqs-drop [] e n h = ground arith
seqs-drop (x ∷ xs) e n h = ground arith

replace_seqs :
    (xs : List ReplayRecord) (r : ReplayRecord) (e n : ℕ)
    → 0 < n
    → seqs xs ≡ count_from (suc e) n
    → r.seq ≡ suc (e + n)
    → seqs (drop 1 xs ++ (r ∷ [])) ≡ count_from (suc (suc e)) n
replace_seqs xs r e zero p h q = absurd (omega arith)
replace_seqs xs r e (suc n) p h q =
    seqs-append (drop 1 xs) r (suc (suc e)) n (seqs-drop xs e n h) (omega arith)

-- Storing the next emission keeps the numbers unbroken. Where the ring is full, exactly the oldest
-- number goes.
pub push-Holds :
    {b : ReplayBuffer} (r : ReplayRecord) (e n : ℕ)
    → IsValid b
    → Holds b e n
    → r.seq ≡ suc (e + n)
    → (if ltb n b.cap then Holds (push b r) e (suc n) else Holds (push b r) (suc e) n)
unfolding push_latest
push-Holds {b} r e n v h q = elim (dec_lt n b.cap) [
  | yes room ↦
      rw (lt→ltb _ _ room, push_refines r v, at_length, lt→ltb _ _ room)
        (seqs-append (contents b) r (suc e) n h (omega arith))
  | no full ↦
      rw (le→ltb n b.cap (omega arith), push_refines r v, at_length, le→ltb n b.cap (omega arith))
        (replace_seqs (contents b) r e n (omega (arith, at_length, length-contents b)) h q)
]
  where
    at_length : length (contents b) ≡ n
    at_length = length-seqs (contents b) (suc e) n h

since_latest_missed :
    (xs : List ReplayRecord) (s e n : ℕ)
    → seqs xs ≡ count_from (suc e) n
    → s ≤ e + n
    → e + n + 1 < 2 ^ 64
    → (n ≡ 0 → e ≤ s)
    → (e ≤ s → since_latest xs s ≡ (keep (λ x. ltb s x.seq) xs, true))
      × (s < e → (since_latest xs s).1 ≡ false)
unfolding since_latest
since_latest_missed [] s e zero h k w c = (λ _. refl, λ l. absurd (omega (arith, c refl)))
since_latest_missed [] s e (suc n) h k w c = ground arith
since_latest_missed (x ∷ xs) s e zero h k w c = ground arith
since_latest_missed (x ∷ xs) s e (suc n) h k w c = (λ l. ground arith, λ l. ground arith)

-- The answer to a request, in terms of the records past the requested number.
pub since_missed :
    {b : ReplayBuffer} (s e n : ℕ)
    → IsValid b
    → Holds b e n
    → s ≤ e + n
    → e + n + 1 < 2 ^ 64
    → (n ≡ 0 → e ≤ s)
    → (e ≤ s → since b s ≡ (keep (λ x. ltb s x.seq) (contents b), true))
      × (s < e → (since b s).1 ≡ false)
since_missed {b} s e n v h k w c =
    rw (since_refines b s v) (since_latest_missed (contents b) s e n h k w c)

keep-drop :
    (xs : List ReplayRecord) (s e n : ℕ)
    → seqs xs ≡ count_from (suc e) n
    → suc e ≤ s
    → keep (λ x. ltb s x.seq) (drop 1 xs) ≡ keep (λ x. ltb s x.seq) xs
keep-drop [] s e n h k = refl
keep-drop (x ∷ xs) s e zero h k = ground arith
keep-drop (x ∷ xs) s e (suc n) h k = ground arith

-- A new emission is missed by everybody who could still be answered; none of those misses the
-- record that it pushes out.
pub missed-push :
    {b : ReplayBuffer} (r : ReplayRecord) (s e n : ℕ)
    → IsValid b
    → Holds b e n
    → r.seq ≡ suc (e + n)
    → s ≤ e + n
    → (b.cap ≤ n → suc e ≤ s)
    → keep (λ x. ltb s x.seq) (contents (push b r))
      ≡ keep (λ x. ltb s x.seq) (contents b) ++ (r ∷ [])
unfolding push_latest
missed-push {b} r s e n v h q k l = elim (dec_lt n b.cap) [
  | yes room ↦
      rw (push_refines r v, at_length, lt→ltb _ _ room, keep-append) (ap (λ ys. kept ++ ys) last)
  | no full ↦
      rw (push_refines r v, at_length, le→ltb n b.cap (omega arith), keep-append)
        (ap₂ ◌++◌ (keep-drop (contents b) s e n h (l (omega arith))) last)
]
  where
    at_length : length (contents b) ≡ n
    at_length = length-seqs (contents b) (suc e) n h

    kept : List ReplayRecord
    kept = keep (λ x. ltb s x.seq) (contents b)

    last : keep (λ x. ltb s x.seq) (r ∷ []) ≡ r ∷ []
    last = ground arith
