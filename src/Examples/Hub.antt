-- ===== src/Examples/Hub.antt =====
-- A show with two scenes: switching the active one, and the end of a connection.
use lumencast_go.Common.{
  List, ◌==◌, if◌then◌else◌, ◌≤◌, ◌≡◌, refl, codes, true, false, some, [], ◌∷◌, arith, lookup,
  text_eq,
}
use lumencast_go.Server.Subscription.{member}
use lumencast_go.Server.Scene.{Scene, members, new_scene}
use lumencast_go.Server.Scene.Sync.{InSync}
use lumencast_go.Server.Scene.Client.{receive_all}
use lumencast_go.Server.Hub.Show.{roster_of, overlay_of, shown, show_frames_reach}
use lumencast_go.Protocol.Frames.{RosterEntry, scene_roster, overlay_apps}
use lumencast_go.Server.Hub.{
  set_roster, set_overlay_apps, Server, register_scene, set_active, detach, drop_scenes,
  active_scene, holding_scene_id,
}
use lumencast_go.Server.Hub.Active.{set_active_keeps_sync}
use lumencast_go.Server.Hub.Ownership.{owners, owned, count}
use lumencast_go.Server.Hub.Ownership.Calls.{at_most_one_scene}
use lumencast_go.Examples.Data.{scene, heap, client, client-Follows}

abbrev pub outro : Scene
outro = record scene { id = codes "outro"; store = []; subscribers = some [] }

abbrev pub show : Server
show = record {
  scenes = (codes "intro", scene) ∷ (codes "outro", outro) ∷ [];
  active = codes "intro";
  roster = [];
  roster_set = false;
  overlay = [];
  overlay_set = false;
  holding = record outro { id = holding_scene_id };
}

pub zero_member : member 0 (members scene) ≡ true
unfolding member
zero_member = refl

pub zero-InSync : InSync scene client (heap.at 0)
unfolding receive_all
zero-InSync = λ live. (client, refl, client-Follows)

pub outro_known : lookup (codes "outro") show.scenes ≡ some outro
unfolding lookup text_eq
outro_known = refl

pub intro_known : lookup (codes "intro") show.scenes ≡ some scene
unfolding lookup text_eq
intro_known = refl

pub names_differ :
    (text_eq (codes "outro") [] ≡ false)
    × (text_eq (codes "intro") (codes "outro") ≡ false)
    × (text_eq (codes "intro") [] ≡ false)
unfolding text_eq
names_differ = (refl, refl, refl)

set_active_keeps_sync_example :
    let (t, h', unknown) = set_active show heap (codes "outro") in
    (unknown ≡ false)
    × ((prev' : Scene) × (next' : Scene) × (active_scene t ≡ some next')
        × (lookup (codes "intro") t.scenes ≡ some prev')
        × InSync next' client (h'.at 0)
        × ((h'.at 0).stale ≡ false → member 0 (members next') ≡ true)
        × (member 0 (members prev') ≡ false))
unfolding member
set_active_keeps_sync_example =
    set_active_keeps_sync show heap (codes "outro") scene outro 0 client (0 ∷ []) [] outro_known
      names_differ.0 names_differ.1 names_differ.2 intro_known refl refl (refl, tt) (omega arith)
      (omega arith) (omega arith) zero_member refl zero-InSync refl

one_owner : owners 0 show ≤ 1
unfolding owners owned count
one_owner = omega arith

no_members : members (new_scene (codes "break") []) ≡ []
unfolding new_scene
no_members = refl

at_most_one_scene_example :
    (owners 0 (register_scene show heap (codes "break") []).0 ≤ 1)
    × (owners 0 (set_active show heap (codes "break")).0 ≤ 1)
    × (owners 0 (detach show heap 3).0 ≤ 1)
    × (owners 0 (drop_scenes show heap).0 ≤ 1)
at_most_one_scene_example = at_most_one_scene 0 3 show heap (codes "break") [] one_owner no_members

abbrev entries : List RosterEntry
entries = record { scene_id = codes "intro"; scene_version = codes "v1" } ∷ []

show_frames_reach_example :
    ((set_roster show heap entries).1.at 0 ≡ (
      if owners 0 show == 0
      then heap.at 0
      else shown (scene_roster (roster_of entries)) (heap.at 0)))
    × ((set_overlay_apps show heap []).1.at 0 ≡ (
        if owners 0 show == 0 then heap.at 0 else shown (overlay_apps (overlay_of [])) (heap.at 0)))
show_frames_reach_example = show_frames_reach show heap 0 entries [] one_owner
