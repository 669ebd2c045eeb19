-- ===== src/Server/HttpPoll.antt =====
-- server/adapters/http_poll.go: the turns of HTTPPoll and its backoff.
pub mod Backoff
use lumencast_go.Common.{
  ℕ, ℤ, pos, negsuc, ◌+◌, ◌-◌, ◌*◌, ◌^◌, Text, codes, Bool, true, false, Option, none, some, List,
  [], ◌∷◌, ◌++◌, Map, insert, ltb, ltb_int, is_empty, if◌then◌else◌, text_eq,
}
use lumencast_go.Json.{Json, null, bool, num, str, arr, obj, Items, Fields, end, field}
use lumencast_go.Server.Store.{Value}
use lumencast_go.Server.Subscription.{Heap}
use lumencast_go.Server.Scene.{Scene, emit}

-- A time.Duration is an int64, in nanoseconds.
abbrev pub int64 : ℕ → ℤ
int64 n = if ltb n (2 ^ 63) then pos n else negsuc (2 ^ 64 - n - 1)

-- `prev * 2`. Twice a negative duration is not used.
abbrev pub double : ℤ → ℤ
double (pos n) = int64 (n * 2)
double (negsuc n) = negsuc (n * 2 + 1)

abbrev pub backoff_floor : ℤ
backoff_floor = pos 250000000

unfoldable pub next_backoff : ℤ → ℤ → ℤ
next_backoff prev max =
    let next = double prev in
    if ltb_int prev backoff_floor then backoff_floor else if ltb_int max next then max else next

-- The longer of the interval and the backoff.
unfoldable pub wait_for : ℤ → ℤ → ℤ
wait_for interval backoff = if ltb_int interval backoff then backoff else interval

-- One turn of the loop, on what pollOnce returns (`none` is an error): the backoff and the wait after
-- it. An error of Emit is only reported.
unfoldable pub poll_round :
    (ℕ → ℕ) → ℤ → ℤ → Scene → Heap → ℤ → Option (Map Value) → Scene × Heap × ℤ × ℤ
poll_round taken interval max s h backoff none =
    let later = next_backoff backoff max in (s, h, later, wait_for interval later)
poll_round taken interval max s h backoff (some patches) =
    if is_empty patches
    then (s, h, pos 0, wait_for interval (pos 0))
    else (let (t, h', e) = emit taken s h patches in (t, h', pos 0, wait_for interval (pos 0)))

-- The loop, until the context ends, with the wait after each turn.
unfoldable pub poll_all :
    (ℕ → ℕ) → ℤ → ℤ → Scene → Heap → ℤ → List (Option (Map Value)) → Scene × Heap × List ℤ
poll_all taken interval max s h backoff [] = (s, h, [])
poll_all taken interval max s h backoff (polled ∷ rest) =
    let (t, h', later, wait) = poll_round taken interval max s h backoff polled in
    let (u, h'', waits) = poll_all taken interval max t h' later rest in (u, h'', wait ∷ waits)
