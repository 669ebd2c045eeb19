-- ===== src/Server/Concurrent/Overlap.antt =====
-- Two emissions whose writes come in one order and whose locks come in the other.
use lumencast_go.Common.{
  ℕ, ◌+◌, ◌^◌, ◌<◌, ◌≡◌, refl, ap, ◌∙◌, Text, Option, none, some, List, [], ◌∷◌, ◌++◌, Map, arith,
  inl, inr, Option-cases, length, lt→ltb,
}
use lumencast_go.Json.{Raw}
use lumencast_go.Protocol.Frames.{delta, Delta}
use lumencast_go.Protocol.Sequence.{next_server}
use lumencast_go.Server.Subscription.{Subscription, Heap, write, offer}
use lumencast_go.Server.Store.{Value, sort_patches, apply_patches, encode_value}
use lumencast_go.Server.Scene.{Scene, members, advance, to_patches, make_delta, send_delta}
use lumencast_go.Server.Scene.Client.{Client, receive_all, receive_patches}
use lumencast_go.Server.Scene.Sync.{taken_frames}
use lumencast_go.Server.Concurrent.{Waiting, emission, nobody, sending, World, put, hear_all}
use lumencast_go.Server.Concurrent.Converge.{Begins}

send_delta_room :
    (s : Scene) (m : Delta) (k : ℕ) (sub : Subscription)
    → length sub.out < sub.cap
    → send_delta s m k sub ≡ record sub { out = sub.out ++ (delta m ∷ []) }
unfolding send_delta offer
send_delta_room s m k sub room = ground (arith, lt→ltb (length sub.out) sub.cap room)

at-write : (h : Heap) (i : ℕ) (sub : Subscription) → (write h i sub).at i ≡ sub
unfolding write
at-write h i sub = ground arith

put-same : (clients : ℕ → Option Client) (i : ℕ) (c : Option Client) → put clients i c i ≡ c
put-same clients i c = ground arith

took_none : (sub : Subscription) → length sub.out < sub.cap → taken_frames 0 sub ≡ []
took_none sub room = ground (arith, lt→ltb (length sub.out) sub.cap room)

-- What an emission's part under the lock does to a scene with one subscriber.
record Sent (i : ℕ) (raw : Map Raw) (w u : World) : Type 0 where
  free : u.holder ≡ nobody
  numbered : u.scene.seq.cur ≡ w.scene.seq.cur + 1
  store : u.scene.store ≡ w.scene.store
  subscribers : members u.scene ≡ members w.scene
  queue : u.heap.at i ≡ record (w.heap.at i) {
    out =
        (w.heap.at i).out
        ++ (delta (make_delta (w.scene.seq.cur + 1) (to_patches raw) none none) ∷ []);
  }
  client : u.clients i ≡ w.clients i

module _ (i : ℕ) (w : World) (before after : List Waiting) (raw : Map Raw)
    (free : w.holder ≡ nobody) (waits : w.waiting ≡ before ++ (emission raw none none ∷ after))
    (alone : members w.scene ≡ i ∷ []) (number : w.scene.seq.cur + 1 < 2 ^ 64)
    (queue : length (w.heap.at i).out < (w.heap.at i).cap) where
  abbrev locked_scene : Scene
  locked_scene = advance w.scene (to_patches raw) none none

  abbrev sending_delta : Delta
  sending_delta = make_delta locked_scene.seq.cur (to_patches raw) none none

  abbrev locked : World
  locked = record w {
    scene = locked_scene;
    waiting = before ++ after;
    holder = sending sending_delta raw (members w.scene);
  }

  abbrev offered : World
  offered = record locked {
    heap = write w.heap i (send_delta locked_scene sending_delta 0 (w.heap.at i));
    holder = sending sending_delta raw [];
    clients = put w.clients i (hear_all (w.clients i) (taken_frames 0 (w.heap.at i)));
  }

  abbrev unlocked : World
  unlocked = record offered { holder = nobody }

  hears_nothing : hear_all (w.clients i) [] ≡ w.clients i
  unfolding receive_all
  hears_nothing = elim (Option-cases (w.clients i)) [
    | inl e ↦ ground (arith, e)
    | inr (c, e) ↦ ground (arith, e)
  ]

  emission-Sent : Sent i raw w unlocked
  unfolding advance next_server
  emission-Sent = record {
    free = refl;
    numbered = omega (arith, number);
    store = refl;
    subscribers = refl;
    queue =
        at-write w.heap i (send_delta locked_scene sending_delta 0 (w.heap.at i))
        ∙ send_delta_room locked_scene sending_delta 0 (w.heap.at i) queue
        ∙ ap
            (λ n. record (w.heap.at i) {
              out = (w.heap.at i).out ++ (delta (make_delta n (to_patches raw) none none) ∷ []);
            })
            (omega (arith, number));
    client =
        put-same w.clients i (hear_all (w.clients i) (taken_frames 0 (w.heap.at i)))
        ∙ ap (hear_all (w.clients i)) (took_none (w.heap.at i) queue)
        ∙ hears_nothing;
  }

-- Both emissions write the leaf j. The one that writes first locks last.
module _ (w : World) (i : ℕ) (j : Text) (c : Client) (v1 v2 : Value) (r1 r2 : Raw)
    (encodes1 : encode_value v1 ≡ some r1) (encodes2 : encode_value v2 ≡ some r2) (b : Begins i w c)
    (alone : members w.scene ≡ i ∷ []) (number : w.scene.seq.cur + 2 < 2 ^ 64)
    (queue : 1 < (w.heap.at i).cap) where
  abbrev raw1 : Map Raw
  raw1 = sort_patches ((j, r1) ∷ [])

  abbrev raw2 : Map Raw
  raw2 = sort_patches ((j, r2) ∷ [])

  abbrev written1 : World
  written1 = record w {
    scene = record (w.scene) { store = (apply_patches w.scene.store ((j, v1) ∷ [])).0 };
    waiting = w.waiting ++ (emission raw1 none none ∷ []);
  }

  abbrev written2 : World
  written2 = record written1 {
    scene = record (written1.scene) {
      store = (apply_patches written1.scene.store ((j, v2) ∷ [])).0;
    };
    waiting = written1.waiting ++ (emission raw2 none none ∷ []);
  }

  waits2 : written2.waiting ≡ (emission raw1 none none ∷ []) ++ (emission raw2 none none ∷ [])
  waits2 =
      ap (λ ws. (ws ++ (emission raw1 none none ∷ [])) ++ (emission raw2 none none ∷ [])) b.idle.1

  room2 : length (written2.heap.at i).out < (written2.heap.at i).cap
  room2 = rw b.queue (omega (arith, queue))

  abbrev sent2 : World
  sent2 =
      unlocked i written2 (emission raw1 none none ∷ []) [] raw2 b.idle.0 waits2 alone
        (omega (arith, number)) room2

  after2 : Sent i raw2 written2 sent2
  after2 =
      emission-Sent i written2 (emission raw1 none none ∷ []) [] raw2 b.idle.0 waits2 alone
        (omega (arith, number)) room2

  queue2 :
      (sent2.heap.at i).out
      ≡ delta (make_delta (w.scene.seq.cur + 1) (to_patches raw2) none none) ∷ []
  queue2 = ap (λ (x : Subscription). x.out) after2.queue ∙ rw b.queue refl

  number2 : sent2.scene.seq.cur + 1 < 2 ^ 64
  number2 = omega (arith, after2.numbered, number)

  room1 : length (sent2.heap.at i).out < (sent2.heap.at i).cap
  room1 = ground (arith, queue2, ap (λ (x : Subscription). x.cap) after2.queue, queue)

  abbrev sent1 : World
  sent1 = unlocked i sent2 [] [] raw1 refl refl (after2.subscribers ∙ alone) number2 room1

  abbrev hears2 : Client
  hears2 = record {
    tracker = record { cur = w.scene.seq.cur + 1 };
    state = receive_patches c.state (to_patches raw2);
  }

  abbrev hears1 : Client
  hears1 = record {
    tracker = record { cur = sent2.scene.seq.cur + 1 };
    state = receive_patches hears2.state (to_patches raw1);
  }
