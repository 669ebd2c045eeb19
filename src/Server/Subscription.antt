-- ===== src/Server/Subscription.antt =====
-- The subscription of server/scene.go: the queue between a scene and the writer of a connection.
-- Subscriptions are shared by address, so they stand in a heap.
pub mod Fanout
use lumencast_go.Common.{
  ℕ, ◌+◌, Bool, true, false, not, Option, none, some, List, [], ◌∷◌, ◌++◌, length, drop, ltb, ◌==◌,
  if◌then◌else◌, ◌||◌,
}
use lumencast_go.Protocol.Frames.{Frame}

-- `out` is the content of the channel, oldest frame first, and `cap` its capacity.
pub record Subscription : Type 0 where
  pub out : List Frame
  pub cap : ℕ
  pub closed : Bool
  pub stale : Bool
  pub live : Bool
  pub proto11 : Bool

-- `select { case sub.out <- frame: default: }` on an open channel. `none` is the default case.
unfoldable pub offer : Frame → Subscription → Option Subscription
offer frame sub =
    if ltb (length sub.out) sub.cap
    then some (record sub { out = sub.out ++ (frame ∷ []) })
    else none

unfoldable pub mark_stale : Subscription → Subscription
mark_stale sub = record sub { stale = true }

-- close(s.out) keeps what is queued.
unfoldable pub close : Subscription → Subscription
close sub = record sub { closed = true }

unfoldable pub is_stale : Subscription → Bool
is_stale sub = sub.stale

-- The writer of the connection takes the first `k` frames.
unfoldable pub drain : ℕ → Subscription → Subscription
drain k sub = record sub { out = drop k sub.out }

-- The addresses below `next` are in use.
pub record Heap : Type 0 where
  pub next : ℕ
  pub at : ℕ → Subscription

unfoldable pub write : Heap → ℕ → Subscription → Heap
write h i sub = record h { at = λ j. if j == i then sub else h.at j }

unfoldable pub alloc : Heap → Subscription → Heap
alloc h sub = record h { next = h.next + 1; at = λ j. if j == h.next then sub else h.at j }

-- A Go set of addresses, as a list without repetition.
unfoldable pub member : ℕ → List ℕ → Bool
member i [] = false
member i (j ∷ is) = i == j || member i is

unfoldable pub insert_member : ℕ → List ℕ → List ℕ
insert_member i is = if member i is then is else i ∷ is

unfoldable pub remove_member : ℕ → List ℕ → List ℕ
remove_member i [] = []
remove_member i (j ∷ is) = let rest = remove_member i is in if i == j then rest else j ∷ rest

-- A loop over a set of subscribers, in the order in which the range meets them.
unfoldable pub fan_out : (ℕ → Subscription → Subscription) → List ℕ → Heap → Heap
fan_out f [] h = h
fan_out f (i ∷ is) h = fan_out f is (write h i (f i (h.at i)))
