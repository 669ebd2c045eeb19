-- ===== src/Server/Hub/Active.antt =====
-- SetActive as a whole, and what a show with no active scene does.
use lumencast_go.Common.{
  ℕ, ◌+◌, ◌^◌, ◌<◌, ◌≡◌, refl, Text, true, false, some, List, [], arith, lookup, insert,
  lookup-insert, text_eq, text_eq_iff,
}
use lumencast_go.Server.Subscription.{Heap, member}
use lumencast_go.Server.Subscription.Fanout.{IsSetOfIds}
use lumencast_go.Server.Scene.{Scene, members}
use lumencast_go.Server.Scene.Client.{Client}
use lumencast_go.Server.Scene.Sync.{InSync}
use lumencast_go.Server.Hub.{Server, set_active, active_scene, migrate_live}
use lumencast_go.Server.Hub.Migration.{migrate_keeps_sync}

set_active_lem :
    (s : Server) (h : Heap) (id : Text) (prev next : Scene)
    → lookup id s.scenes ≡ some next
    → text_eq s.active id ≡ false
    → text_eq s.active [] ≡ false
    → lookup s.active s.scenes ≡ some prev
    → set_active s h id ≡ (
        let (prev', next', h') = migrate_live prev next h in
        (
          record s { scenes = insert s.active prev' (insert id next' s.scenes); active = id },
          h',
          false,
        ))
unfolding set_active
set_active_lem s h id prev next known other some_active from =
    ground (arith, known, other, some_active, from)

-- Switching between two registered scenes with different ids, neither of them empty, succeeds, and
-- makes the other the active one. The first scene must be numbered, below the last number, and the
-- other numbered. Every live subscriber of the first that was in step with it ends in step with the
-- new active scene, at its number, which need not be 1, as a subscriber of it, or is given up; it
-- leaves the first.
pub set_active_keeps_sync :
    (s : Server) (h : Heap) (id : Text) (prev next : Scene) (i : ℕ) (c : Client) (js is : List ℕ)
    → lookup id s.scenes ≡ some next
    → text_eq id [] ≡ false
    → text_eq s.active id ≡ false
    → text_eq s.active [] ≡ false
    → lookup s.active s.scenes ≡ some prev
    → prev.subscribers ≡ some js
    → next.subscribers ≡ some is
    → IsSetOfIds (members prev)
    → 0 < prev.seq.cur
    → prev.seq.cur + 1 < 2 ^ 64
    → 0 < next.seq.cur
    → member i (members prev) ≡ true
    → (h.at i).live ≡ true
    → InSync prev c (h.at i)
    → (h.at i).stale ≡ false
    → let (t, h', unknown) = set_active s h id in
      (unknown ≡ false)
      × ((prev' : Scene) × (next' : Scene) × (active_scene t ≡ some next')
          × (lookup s.active t.scenes ≡ some prev')
          × InSync next' c (h'.at i)
          × ((h'.at i).stale ≡ false → member i (members next') ≡ true)
          × (member i (members prev') ≡ false))
unfolding active_scene
set_active_keeps_sync s h id prev next i c js is known named other some_active from j k ids pos room
      live sub on sync alive =
    let (in_sync, joined, left, stay, rest) =
      migrate_keeps_sync prev next h i c js is j k ids pos room live sub on sync alive in
    let (prev', next', h') = migrate_live prev next h in
    rw (set_active_lem s h id prev next known other some_active from) (
      refl,
      (
        prev',
        next',
        ground (
          arith,
          named,
          other,
          lookup-insert s.active id prev' (insert id next' s.scenes),
          lookup-insert id id next' s.scenes,
          text_eq_iff id id,
        ),
        ground (
          arith,
          lookup-insert s.active s.active prev' (insert id next' s.scenes),
          text_eq_iff s.active s.active,
        ),
        in_sync,
        joined,
        left,
      ),
    )
