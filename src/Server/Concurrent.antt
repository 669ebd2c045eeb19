-- ===== src/Server/Concurrent.antt =====
-- server/scene.go under concurrent callers: the calls of a scene, cut where it takes and releases
-- its locks, and run in any order together with the writers of its connections.
-- The store has a lock of its own: applyPatches is over before emitWithCause and Set wait for the
-- lock of the scene, which they hold while they go through the subscribers. A call that fails, as a
-- patch cannot be encoded, has written the patches that it met before, and never comes to the lock.
pub mod Held
pub mod Invariant
pub mod Writes
pub mod Locks
pub mod Sends
pub mod Refreshes
pub mod Others
pub mod Converge
pub mod Overlap
pub mod Whole
use lumencast_go.Common.{
  ℕ, ℤ, suc, ◌+◌, ◌^◌, ◌<◌, ◌≡◌, Text, Bool, true, false, Option, none, some, List, [], ◌∷◌, ◌++◌,
  Map, HasDistinctKeys, ◌==◌, if◌then◌else◌,
}
use lumencast_go.Json.{Raw}
use lumencast_go.Protocol.Frames.{
  Frame, snapshot, delta, Snapshot, Delta, Cause, ProjectionMetadata,
}
use lumencast_go.Server.Store.{Value, encode_value, sort_patches, apply_patches}
use lumencast_go.Server.Store.Apply.{Encodes}
use lumencast_go.Server.Subscription.{Subscription, Heap, offer, mark_stale, drain, write}
use lumencast_go.Server.Scene.{
  Scene, Initial, members, to_patches, advance, make_delta, current_snapshot, send_delta,
  subscribe_with_resume, unsubscribe,
}
use lumencast_go.Server.Scene.Client.{Client, receive, receive_all}
use lumencast_go.Server.Scene.Sync.{taken_frames}
use lumencast_go.Server.Scene.Resume.{receive_initial}

-- A call that has written its patches, and waits for the lock of the scene: what is left of
-- emitWithCause, and of Set. The patches of a Set are kept only for the theorems.
pub data Waiting : Type 0 where
  emission : Map Raw → Option Cause → Option ProjectionMetadata → Waiting
  refresh : Map Raw → Waiting

-- Who holds the lock, and which subscribers it has not come to.
pub data Holder : Type 0 where
  nobody : Holder
  sending : Delta → Map Raw → List ℕ → Holder
  refreshing : Snapshot → Map Raw → List ℕ → Holder

-- What a call of applyPatches has written: all its patches, or those before one that fails.
pub data Written : Type 0 where
  all_of : Map Raw → Written
  only : Map Raw → Written

-- `clients` are at the other ends of the connections. `none` is a client that broke off.
pub record World : Type 0 where
  pub scene : Scene
  pub heap : Heap
  pub waiting : List Waiting
  pub holder : Holder
  pub clients : ℕ → Option Client

-- The loop body of refreshAll, on the state that was read before the loop.
unfoldable pub send_captured : Snapshot → Subscription → Subscription
send_captured snap sub = elim (offer (snapshot snap) sub) [
  | some sub' ↦ sub'
  | none ↦ mark_stale sub
]

abbrev pub put : (ℕ → Option Client) → ℕ → Option Client → ℕ → Option Client
put clients i c j = if j == i then c else clients j

abbrev pub hear_all : Option Client → List Frame → Option Client
hear_all none fs = none
hear_all (some c) fs = receive_all c fs

-- The calls, the writers and the clients. `May` restricts the writes to the store.
pub data Step (May : World → Written → Type 0) (w : World) : World → Type 0 where
  -- applyPatches of emitWithCause, and of Set, when all patches can be encoded
  emit_writes :
      (p : Text × Value) (ps : Map Value) (xs : Map Raw) (cause : Option Cause)
      (metadata : Option ProjectionMetadata)
      → Encodes (p ∷ ps) xs
      → HasDistinctKeys xs
      → May w (all_of xs)
      → Step May w (record w {
        scene = record (w.scene) { store = (apply_patches w.scene.store (p ∷ ps)).0 };
        waiting = w.waiting ++ (emission (sort_patches xs) cause metadata ∷ []);
      })
  set_writes :
      (p : Text × Value) (ps : Map Value) (xs : Map Raw)
      → Encodes (p ∷ ps) xs
      → HasDistinctKeys xs
      → May w (all_of xs)
      → Step May w (record w {
        scene = record (w.scene) { store = (apply_patches w.scene.store (p ∷ ps)).0 };
        waiting = w.waiting ++ (refresh (sort_patches xs) ∷ []);
      })
  -- applyPatches of emitWithCause, and of Set, when the patch after `ps` cannot be encoded. Both
  -- return its error at once.
  write_fails :
      (ps rest : Map Value) (k : Text) (v : Value) (xs : Map Raw)
      → Encodes ps xs
      → HasDistinctKeys xs
      → encode_value v ≡ none
      → May w (only xs)
      → Step May w (record w {
        scene = record (w.scene) {
          store = (apply_patches w.scene.store (ps ++ ((k, v) ∷ rest))).0;
        };
      })
  -- s.mu.Lock() in emitWithCause, for any of those that wait, up to the loop
  emit_locks :
      (before after : List Waiting) (raw : Map Raw) (cause : Option Cause)
      (metadata : Option ProjectionMetadata)
      → w.holder ≡ nobody
      → w.waiting ≡ before ++ (emission raw cause metadata ∷ after)
      → w.scene.seq.cur + 1 < 2 ^ 64
      → Step May w (record w {
        scene = advance w.scene (to_patches raw) cause metadata;
        waiting = before ++ after;
        holder =
            sending
              (make_delta
                (advance w.scene (to_patches raw) cause metadata).seq.cur
                (to_patches raw)
                cause
                metadata)
              raw
              (members w.scene);
      })
  -- s.mu.Lock() in refreshAll, up to the loop
  refresh_locks :
      (before after : List Waiting) (raw : Map Raw)
      → w.holder ≡ nobody
      → w.waiting ≡ before ++ (refresh raw ∷ after)
      → Step May w (record w {
        waiting = before ++ after;
        holder = refreshing (current_snapshot w.scene) raw (members w.scene);
      })
  -- sendDelta to the next subscriber, whose writer takes up to k frames between its two attempts
  sends :
      (m : Delta) (raw : Map Raw) (i k : ℕ) (rest : List ℕ)
      → w.holder ≡ sending m raw (i ∷ rest)
      → Step May w (record w {
        heap = write w.heap i (send_delta w.scene m k (w.heap.at i));
        holder = sending m raw rest;
        clients = put w.clients i (hear_all (w.clients i) (taken_frames k (w.heap.at i)));
      })
  refreshes :
      (snap : Snapshot) (raw : Map Raw) (i : ℕ) (rest : List ℕ)
      → w.holder ≡ refreshing snap raw (i ∷ rest)
      → Step May w (record w {
        heap = write w.heap i (send_captured snap (w.heap.at i));
        holder = refreshing snap raw rest;
      })
  -- s.mu.Unlock()
  emit_unlocks :
      (m : Delta) (raw : Map Raw)
      → w.holder ≡ sending m raw []
      → Step May w (record w { holder = nobody })
  refresh_unlocks :
      (snap : Snapshot) (raw : Map Raw)
      → w.holder ≡ refreshing snap raw []
      → Step May w (record w { holder = nobody })
  -- A writer takes a frame, and the client receives it.
  delivers :
      (i : ℕ) (f : Frame) (fs : List Frame)
      → (w.heap.at i).out ≡ f ∷ fs
      → Step May w (record w {
        heap = write w.heap i (drain 1 (w.heap.at i));
        clients = put w.clients i (hear_all (w.clients i) (f ∷ []));
      })
  -- subscribeWithResume, and a client that receives what the connection writes first
  joins :
      (s : Scene) (h : Heap) (i : ℕ) (buffer : ℤ) (live proto11 : Bool) (since : ℕ)
      (first : Initial) (c : Client)
      → w.holder ≡ nobody
      → subscribe_with_resume w.scene w.heap buffer live proto11 since ≡ some (s, h, i, first)
      → Step May w
          (record w { scene = s; heap = h; clients = put w.clients i (receive_initial c first) })
  leaves :
      (i : ℕ)
      → w.holder ≡ nobody
      → Step May w (record w {
        scene = (unsubscribe w.scene w.heap i).0;
        heap = (unsubscribe w.scene w.heap i).1;
      })

pub data Run (May : World → Written → Type 0) (w : World) : World → Type 0 where
  begins : Run May w w
  and_then : {u v : World} → Run May w u → Step May u v → Run May w v
