-- ===== src/Server/Concurrent/Held.antt =====
-- What the calls in progress have written and not yet sent.
use lumencast_go.Common.{ℕ, ◌≡◌, if◌then◌else◌, Text, none, some, List, [], All, Map, lookup}
use lumencast_go.Json.{Raw}
use lumencast_go.Server.Subscription.{member}
use lumencast_go.Server.Concurrent.{
  Waiting, emission, refresh, Holder, nobody, sending, refreshing, World,
}

abbrev pub writes : Waiting → Map Raw
writes (emission raw cause metadata) = raw
writes (refresh raw) = raw

abbrev pub held : Holder → Map Raw
held nobody = []
held (sending m raw is) = raw
held (refreshing snap raw is) = raw

-- The subscribers to come.
abbrev pub to_come : Holder → List ℕ
to_come nobody = []
to_come (sending m raw is) = is
to_come (refreshing snap raw is) = is

-- A subscriber that is still to get the delta is one number behind.
abbrev pub lag : Holder → ℕ → ℕ
lag (sending m raw is) i = if member i is then 1 else 0
lag _ i = 0

-- No call that waits has written the leaf.
abbrev pub IsSettled : Text → List Waiting → Type 0
IsSettled j ws = All (λ x. lookup j (writes x) ≡ none) ws

-- No call in progress has written the leaf.
abbrev pub IsUntouched : Text → World → Type 0
IsUntouched j w = IsSettled j w.waiting × (lookup j (held w.holder) ≡ none)

-- The leaf has the value that these patches gave it.
abbrev pub Keeps : Text → Map Raw → Map Raw → Type 0
Keeps j store raw = (v : Raw) → lookup j raw ≡ some v → lookup j store ≡ some v
