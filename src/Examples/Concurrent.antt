-- ===== src/Examples/Concurrent.antt =====
-- Runs of the calls of a scene.
use lumencast_go.Common.{Map, text_eq, ◌≡◌, ◌+◌, refl, none, some, [], ◌∷◌, lookup, arith}
use lumencast_go.Protocol.Frames.{Delta}
use lumencast_go.Server.Store.{Value, other, raw, sort_patches, apply_patches, encode_value}
use lumencast_go.Server.Subscription.{Heap, write, member, offer}
use lumencast_go.Server.Scene.{Scene, advance, to_patches, make_delta, send_delta}
use lumencast_go.Server.Scene.Client.{Client, receive_all}
use lumencast_go.Server.Scene.Sync.{taken_frames}
use lumencast_go.Server.Concurrent.{
  World, Written, all_of, only, write_fails, emission, nobody, sending, Run, emit_writes,
  emit_locks, sends, emit_unlocks, begins, and_then, put, hear_all,
}
use lumencast_go.Server.Concurrent.Held.{lag}
use lumencast_go.Server.Concurrent.Invariant.{Careful}
use lumencast_go.Server.Concurrent.Converge.{Begins, Any, interleaved_numbers, interleaved_leaf}
use lumencast_go.Server.Store.Apply.{Encodes}
use lumencast_go.Examples.Data.{
  title, score, hello, bye, patches, encoded, patches-Encodes, encoded-HasDistinctKeys, scene, idle,
  client, client-Follows,
}

-- The queue has room for two frames.
abbrev roomy : Heap
roomy = record { next = 1; at = λ i. record idle { cap = 2 } }

abbrev start : World
start = record {
  scene = scene;
  heap = roomy;
  waiting = [];
  holder = nobody;
  clients = λ i. some client;
}

start-Begins : Begins 0 start client
unfolding member
start-Begins = record {
  idle = (refl, refl);
  allocated = omega arith;
  member_set = (refl, tt);
  room = (omega arith, omega arith);
  client = refl;
  queue = refl;
  in_step = record { numbered = client-Follows.numbered; leaves = client-Follows.leaves };
}

-- An emission, up to its loop over the subscribers.
abbrev emitted : World
emitted = record start {
  scene = record scene { store = (apply_patches scene.store patches).0 };
  waiting = emission (sort_patches encoded) none none ∷ [];
}

abbrev locked_scene : Scene
locked_scene = advance emitted.scene (to_patches (sort_patches encoded)) none none

abbrev message : Delta
message = make_delta locked_scene.seq.cur (to_patches (sort_patches encoded)) none none

abbrev locked : World
locked = record emitted {
  scene = locked_scene;
  waiting = [];
  holder = sending message (sort_patches encoded) (0 ∷ []);
}

runs_to_lock : (May : World → Written → Type 0) → May start (all_of encoded) → Run May start locked
runs_to_lock May may =
    and_then
      (and_then begins (
        emit_writes (title, raw hello) ((score, raw bye) ∷ []) encoded none none patches-Encodes
          encoded-HasDistinctKeys may))
      (emit_locks [] [] (sort_patches encoded) none none refl refl (omega arith))

-- The rest of it.
abbrev sent : World
sent = record locked {
  heap = write roomy 0 (send_delta locked_scene message 0 (roomy.at 0));
  holder = nobody;
  clients = put start.clients 0 (hear_all (some client) (taken_frames 0 (roomy.at 0)));
}

runs_to_end : (May : World → Written → Type 0) → May start (all_of encoded) → Run May start sent
runs_to_end May may =
    and_then (and_then (runs_to_lock May may) (sends message (sort_patches encoded) 0 0 [] refl))
      (emit_unlocks message (sort_patches encoded) refl)

interleaved_numbers_example :
    (a : Client) × (d : Client) × (locked.clients 0 ≡ some a)
    × ((receive_all a (locked.heap.at 0).out ≡ some d)
        × (d.tracker.cur + lag locked.holder 0 ≡ locked.scene.seq.cur))
unfolding member advance
interleaved_numbers_example =
    interleaved_numbers 0 start locked client start-Begins (runs_to_lock Any tt) refl refl

-- Then a call fails at its second patch, with the first one written.
abbrev failing : Map Value
failing = (score, raw hello) ∷ (title, other none) ∷ []

abbrev failed : World
failed = record sent {
  scene = record (sent.scene) { store = (apply_patches sent.scene.store failing).0 };
}

half-Encodes : Encodes ((score, raw hello) ∷ []) ((score, hello) ∷ [])
unfolding encode_value
half-Encodes = (refl, refl, tt)

runs_to_failure :
    (May : World → Written → Type 0)
    → May start (all_of encoded)
    → May sent (only ((score, hello) ∷ []))
    → Run May start failed
unfolding encode_value
runs_to_failure May may also_may = and_then (runs_to_end May may) (
    write_fails ((score, raw hello) ∷ []) [] title (other none) ((score, hello) ∷ []) half-Encodes
      (tt, tt) refl also_may)

interleaved_leaf_example :
    (a : Client) × (d : Client) × (failed.clients 0 ≡ some a)
    × ((receive_all a (failed.heap.at 0).out ≡ some d)
        × ((d.tracker.cur ≡ failed.scene.seq.cur)
            × (lookup title d.state ≡ lookup title failed.scene.store)))
unfolding member advance write lookup send_delta offer text_eq
interleaved_leaf_example =
    interleaved_leaf 0 title start failed client start-Begins
      (runs_to_failure (Careful title Unit) (λ safe found. (tt, refl)) (λ safe. refl)) refl refl
      refl refl
