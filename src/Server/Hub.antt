-- ===== src/Server/Hub.antt =====
-- server/server.go: the scenes by id, the active one, and the frames of the show. A method is one
-- step. A scene that is replaced or dropped has no subscribers any more, and leaves the model.
pub mod Migration
pub mod Active
pub mod Ownership
pub mod Show
use lumencast_go.Common.{
  ℕ, pos, Text, codes, Bool, true, false, not, ◌&&◌, ◌||◌, Option, none, some, List, [], ◌∷◌, ◌++◌,
  map, keep, Map, lookup, insert, is_empty, text_eq, if◌then◌else◌,
}
use lumencast_go.Protocol.Sequence.{next_server, current}
use lumencast_go.Protocol.Frames.{
  Frame, snapshot, scene_changed, scene_roster, overlay_apps, SceneChanged, SceneRoster,
  OverlayApps, RosterEntry, OverlayAppState,
}
use lumencast_go.Server.Subscription.{
  Subscription, Heap, offer, mark_stale, close, write, insert_member, fan_out,
}
use lumencast_go.Server.Scene.{
  Scene, SceneOption, new_scene, members, current_snapshot, unsubscribe,
}

-- The fields of Config on which New decides: whether the two funcs are set.
pub record Config : Type 0 where
  pub listen_addr : Text
  pub has_auth : Bool
  pub has_identity_from_request : Bool

pub record Server : Type 0 where
  pub scenes : Map Scene
  pub active : Text
  pub roster : List RosterEntry
  pub roster_set : Bool
  pub overlay : Map OverlayAppState
  pub overlay_set : Bool
  pub holding : Scene

abbrev pub holding_scene_id : Text
holding_scene_id = codes "__holding"

-- `none` is an incomplete Config.
unfoldable pub new_server : Config → Option Server
new_server cfg =
    if text_eq cfg.listen_addr []
    then none
    else if not cfg.has_auth && not cfg.has_identity_from_request
    then none
    else some (record {
      scenes = [];
      active = [];
      roster = [];
      roster_set = false;
      overlay = [];
      overlay_set = false;
      holding = new_scene holding_scene_id [];
    })

-- The SceneChanged of a migration.
abbrev pub make_scene_changed : ℕ → Scene → SceneChanged
make_scene_changed prev_seq next = record {
  v = pos 0;
  type = [];
  seq = prev_seq;
  ts = [];
  scene_id = next.id;
  scene_version = next.version;
  from_scene_id = [];
  transition = none;
}

-- One subscription in the second loop of migrateLive, and whether it is added to the next scene.
unfoldable pub move_one : ℕ → Scene → Subscription → Subscription × Bool
move_one prev_seq next sub = elim (offer (scene_changed (make_scene_changed prev_seq next)) sub) [
  | none ↦ (mark_stale sub, false)
  | some told ↦ elim (offer (snapshot (current_snapshot next)) told) [
    | none ↦ (mark_stale told, false)
    | some sub' ↦ (sub', true)
  ]
]

-- The loop itself: the new members of the next scene beside the heap.
unfoldable pub move_all : ℕ → Scene → List ℕ → List ℕ → Heap → List ℕ × Heap
move_all prev_seq next [] is h = (is, h)
move_all prev_seq next (i ∷ live) is h =
    let (sub, added) = move_one prev_seq next (h.at i) in
    move_all prev_seq next live (if added then insert_member i is else is) (write h i sub)

-- The members of a nil map stay none: adding to one panics, but no registered scene has one.
abbrev pub with_members : Scene → List ℕ → Scene
with_members s is = record s { subscribers = elim s.subscribers [ none ↦ none | some _ ↦ some is ] }

-- The two scenes and the heap after migrateLive. The scenes are different ones.
unfoldable pub migrate_live : Scene → Scene → Heap → Scene × Scene × Heap
migrate_live prev next h =
    let live = keep (λ i. (h.at i).live) (members prev) in
    let others = keep (λ i. not (h.at i).live) (members prev) in
    let (tracker, prev_seq) = next_server prev.seq in
    let (is, h') = move_all prev_seq next live (members next) h in
    (record (with_members prev others) { seq = tracker }, with_members next is, h')

-- Every subscription of a set is closed.
abbrev pub close_all : List ℕ → Heap → Heap
close_all is h = fan_out (λ i. close) is h

unfoldable pub register_scene : Server → Heap → Text → List SceneOption → Server × Heap
register_scene s h id opts =
    let (holding, scene, h') =
      (if text_eq s.active []
        then migrate_live s.holding (new_scene id opts) h
        else (s.holding, new_scene id opts, h)) in
    (
      record s {
        scenes = insert id scene s.scenes;
        active = if text_eq s.active [] then id else s.active;
        holding = holding;
      },
      elim (lookup id s.scenes) [ none ↦ h' | some prev ↦ close_all (members prev) h' ],
    )

-- The migration from the scene that was active, if it is registered.
abbrev pub leave_active : Server → Text → Scene → Heap → Server × Heap
leave_active s id scene h = elim (lookup s.active s.scenes) [
  | none ↦ (record s { scenes = insert id scene s.scenes; active = id }, h)
  | some prev ↦
      (let (prev', scene', h') = migrate_live prev scene h in
        (record s { scenes = insert s.active prev' (insert id scene' s.scenes); active = id }, h'))
]

-- The Boolean is whether the error is ErrSceneNotFound.
unfoldable pub set_active : Server → Heap → Text → Server × Heap × Bool
set_active s h id = elim (lookup id s.scenes) [
  | none ↦ (s, h, true)
  | some scene ↦
      if text_eq s.active id
      then (s, h, false)
      else (let (holding, scene', h') =
            (if text_eq s.active []
              then migrate_live s.holding scene h
              else (s.holding, scene, h)) in
          let (t, h'') = leave_active (record s { holding = holding }) id scene' h' in
          (t, h'', false))
]

abbrev pub scenes_of : Map Scene → List Scene
scenes_of m = map (λ e. e.1) m

abbrev pub all_fanout_scenes : Server → List Scene
all_fanout_scenes s = scenes_of s.scenes ++ (s.holding ∷ [])

abbrev pub send_show_frame : Frame → Subscription → Subscription
send_show_frame frame sub =
    if not sub.live || not sub.proto11
    then sub
    else elim (offer frame sub) [ none ↦ mark_stale sub | some sub' ↦ sub' ]

abbrev pub fan_out_scenes : Frame → List Scene → Heap → Heap
fan_out_scenes frame [] h = h
fan_out_scenes frame (s ∷ scenes) h =
    fan_out_scenes frame scenes (fan_out (λ i. send_show_frame frame) (members s) h)

unfoldable pub fanout_show_frame : Server → Frame → Heap → Heap
fanout_show_frame s frame h = fan_out_scenes frame (all_fanout_scenes s) h

unfoldable pub set_roster : Server → Heap → List RosterEntry → Server × Heap
set_roster s h entries = (
  record s { roster = entries; roster_set = true },
  fanout_show_frame s
      (scene_roster (record { v = pos 0; type = []; entries = some entries; ts = [] })) h,
)

unfoldable pub set_overlay_apps : Server → Heap → Map OverlayAppState → Server × Heap
set_overlay_apps s h apps = (
  record s { overlay = apps; overlay_set = true },
  fanout_show_frame s (overlay_apps (record { v = pos 0; type = []; apps = some apps; ts = [] })) h,
)

unfoldable pub roster_frame : Server → Option SceneRoster
roster_frame s =
    if s.roster_set
    then some (record { v = pos 0; type = []; entries = some s.roster; ts = [] })
    else none

unfoldable pub overlay_apps_frame : Server → Option OverlayApps
overlay_apps_frame s =
    if s.overlay_set
    then some (record { v = pos 0; type = []; apps = some s.overlay; ts = [] })
    else none

unfoldable pub active_scene : Server → Option Scene
active_scene s = if text_eq s.active [] then none else lookup s.active s.scenes

abbrev pub detach_all : Map Scene → Heap → ℕ → Map Scene × Heap
detach_all [] h i = ([], h)
detach_all ((id, s) ∷ m) h i =
    let (s', h') = unsubscribe s h i in let (m', h'') = detach_all m h' i in ((id, s') ∷ m', h'')

unfoldable pub detach : Server → Heap → ℕ → Server × Heap
detach s h i =
    let (m, h') = detach_all s.scenes h i in
    let (holding, h'') = unsubscribe s.holding h' i in
    (record s { scenes = m; holding = holding }, h'')

abbrev pub close_scenes : List Scene → Heap → Heap
close_scenes [] h = h
close_scenes (s ∷ scenes) h = close_scenes scenes (close_all (members s) h)

-- Reset of the server.
unfoldable pub drop_scenes : Server → Heap → Server × Heap
drop_scenes s h = (record s { scenes = []; active = [] }, close_scenes (scenes_of s.scenes) h)
