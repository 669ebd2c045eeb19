-- ===== src/Server/Concurrent/Whole.antt =====
-- The calls of server/scene.go that nothing interrupts, as runs of their steps.
use lumencast_go.Common.{ℕ, ◌≡◌, Text, Option, [], ◌∷◌, Map, HasDistinctKeys}
use lumencast_go.Json.{Raw}
use lumencast_go.Protocol.Frames.{Delta, Cause, ProjectionMetadata}
use lumencast_go.Server.Store.{Value, sort_patches, apply_patches}
use lumencast_go.Server.Store.Apply.{Encodes}
use lumencast_go.Server.Subscription.{Heap, fan_out}
use lumencast_go.Server.Scene.{
  Scene, members, advance, to_patches, make_delta, send_delta, current_snapshot,
}
use lumencast_go.Server.Concurrent.{nobody, World, Written, all_of, send_captured}

-- The world in which a call has left the scene and the subscriptions like this, and nothing is in
-- progress.
pub record Ends (u : World) (s : Scene) (h : Heap) : Type 0 where
  pub scene : u.scene ≡ s
  pub heap : u.heap ≡ h
  pub idle : (u.holder ≡ nobody) × (u.waiting ≡ [])

module _ (May : World → Written → Type 0) (w : World) (p : Text × Value) (ps : Map Value)
    (xs : Map Raw) (encodes : Encodes (p ∷ ps) xs) (distinct : HasDistinctKeys xs)
    (may : May w (all_of xs)) (free : w.holder ≡ nobody) (quiet : w.waiting ≡ []) where
  -- applyPatches as one step, beside what its result is.
  abbrev stored_scene : Map Raw → Scene
  stored_scene store = record (w.scene) { store = store }

  abbrev applied : Map Raw
  applied = (apply_patches w.scene.store (p ∷ ps)).0

  abbrev raw : Map Raw
  raw = sort_patches xs

  module _ (taken : ℕ → ℕ) (cause : Option Cause) (metadata : Option ProjectionMetadata) where
    abbrev numbered : Map Raw → Scene
    numbered store = advance (stored_scene store) (to_patches raw) cause metadata

    abbrev message : Map Raw → Delta
    message store = make_delta (numbered store).seq.cur (to_patches raw) cause metadata

    abbrev sent : Map Raw → Heap
    sent store =
        fan_out (λ i. send_delta (numbered store) (message store) (taken i)) (members w.scene)
          w.heap

  abbrev refreshed : Map Raw → Heap
  refreshed store =
      fan_out (λ i. send_captured (current_snapshot (stored_scene store))) (members w.scene) w.heap
