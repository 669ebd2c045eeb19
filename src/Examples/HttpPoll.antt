-- ===== src/Examples/HttpPoll.antt =====
-- Two failed polls and one with a patch.
use lumencast_go.Common.{pos, none, some, [], ◌∷◌, arith, All, List, Option, Map}
use lumencast_go.Server.Store.{Value}
use lumencast_go.Server.HttpPoll.{poll_all}
use lumencast_go.Server.HttpPoll.Backoff.{IsWait, poll_all_waits}
use lumencast_go.Examples.Data.{patches, scene, heap}

abbrev polls : List (Option (Map Value))
polls = none ∷ none ∷ some patches ∷ []

poll_all_waits_example :
    All
      (IsWait (pos 200000000) 30000000000)
      (poll_all (λ i. 1) (pos 200000000) (pos 30000000000) scene heap (pos 0) polls).2
poll_all_waits_example =
    poll_all_waits (λ i. 1) (pos 200000000) 30000000000 (omega arith) (omega arith) scene heap polls
