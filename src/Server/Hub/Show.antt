-- ===== src/Server/Hub/Show.antt =====
-- The frames of the show: whom the roster and the overlay apps reach.
use lumencast_go.Common.{
  ℕ, pos, ◌≤◌, ◌≡◌, refl, true, some, ◌&&◌, ltb, length, ◌++◌, List, [], ◌∷◌, Map, arith, ◌==◌,
  if◌then◌else◌,
}
use lumencast_go.Protocol.Frames.{
  Frame, scene_roster, overlay_apps, SceneRoster, OverlayApps, RosterEntry, OverlayAppState,
}
use lumencast_go.Server.Subscription.{Subscription, Heap, write, fan_out, offer, mark_stale}
use lumencast_go.Server.Scene.{Scene, members}
use lumencast_go.Server.Hub.{
  Server, send_show_frame, fan_out_scenes, fanout_show_frame, all_fanout_scenes, set_roster,
  set_overlay_apps,
}
use lumencast_go.Server.Hub.Ownership.{count, owned, owners}

at-fan_out_once :
    (f : ℕ → Subscription → Subscription) (is : List ℕ) (h : Heap) (j : ℕ)
    → count j is ≤ 1
    → (fan_out f is h).at j ≡ (if count j is == 0 then h.at j else f j (h.at j))
unfolding fan_out count write
at-fan_out_once f [] h j one = refl
at-fan_out_once f (i ∷ is) h j one =
    ground (arith, at-fan_out_once f is (write h i (f i (h.at i))) j)

at-fan_out_scenes :
    (frame : Frame) (scenes : List Scene) (h : Heap) (j : ℕ)
    → owned j scenes ≤ 1
    → (fan_out_scenes frame scenes h).at j
      ≡ (if owned j scenes == 0 then h.at j else send_show_frame frame (h.at j))
unfolding owned
at-fan_out_scenes frame [] h j one = refl
at-fan_out_scenes frame (s ∷ scenes) h j one = ground (
  arith,
  at-fan_out_scenes frame scenes (fan_out (λ i. send_show_frame frame) (members s) h) j,
  at-fan_out_once (λ i. send_show_frame frame) (members s) h j,
)

-- The frames that the two calls send out.
abbrev pub roster_of : List RosterEntry → SceneRoster
roster_of entries = record { v = pos 0; type = []; entries = some entries; ts = [] }

abbrev pub overlay_of : Map OverlayAppState → OverlayApps
overlay_of apps = record { v = pos 0; type = []; apps = some apps; ts = [] }

-- A subscription once it has been shown a frame. Only a live one of version 1.1 gets it, and one
-- whose queue is full is given up instead.
abbrev pub shown : Frame → Subscription → Subscription
shown frame sub =
    if sub.live && sub.proto11
    then if ltb (length sub.out) sub.cap
      then record sub { out = sub.out ++ (frame ∷ []) }
      else record sub { stale = true }
    else sub

send_show_frame-shown :
    (frame : Frame) (sub : Subscription) → send_show_frame frame sub ≡ shown frame sub
unfolding offer mark_stale
send_show_frame-shown frame sub = ground arith

-- SetRoster and SetOverlayApps reach a subscription that is in one scene of the server, the holding
-- scene included, exactly once: if it is live and of version 1.1, the frame ends its queue, or it is
-- marked stale if its queue is full, and else it is not touched. Nor is a subscription in no scene.
pub show_frames_reach :
    (s : Server) (h : Heap) (i : ℕ) (entries : List RosterEntry) (apps : Map OverlayAppState)
    → owners i s ≤ 1
    → ((set_roster s h entries).1.at i
        ≡ (if owners i s == 0 then h.at i else shown (scene_roster (roster_of entries)) (h.at i)))
      × ((set_overlay_apps s h apps).1.at i
          ≡ (if owners i s == 0 then h.at i else shown (overlay_apps (overlay_of apps)) (h.at i)))
unfolding set_roster set_overlay_apps fanout_show_frame owners
show_frames_reach s h i entries apps one = (
  ground (
    arith,
    at-fan_out_scenes (scene_roster (roster_of entries)) (all_fanout_scenes s) h i one,
    send_show_frame-shown (scene_roster (roster_of entries)) (h.at i),
  ),
  ground (
    arith,
    at-fan_out_scenes (overlay_apps (overlay_of apps)) (all_fanout_scenes s) h i one,
    send_show_frame-shown (overlay_apps (overlay_of apps)) (h.at i),
  ),
)
