-- ===== src/Server/Session/Behind.antt =====
-- An operator whose scene is switched away under its connection (server/server.go, SetActive;
-- server/ws_handler.go, the reader loop).
use lumencast_go.Common.{
  ℕ, ◌+◌, ◌^◌, ◌<◌, ◌≡◌, ◌∙◌, ap, [], subst, sym, Text, true, false, some, List, arith, lookup,
  text_eq, text_eq_iff,
}
use lumencast_go.Server.Subscription.{Heap, member}
use lumencast_go.Server.Subscription.Fanout.{IsSetOfIds}
use lumencast_go.Server.Scene.{Scene, members}
use lumencast_go.Server.Scene.Client.{Client}
use lumencast_go.Server.Scene.Sync.{InSync}
use lumencast_go.Server.Hub.{Server, set_active, active_scene}
use lumencast_go.Server.Hub.Active.{set_active_keeps_sync}
use lumencast_go.Server.Session.{Surroundings, Place, registered, Session, scene_at, read_all}
use lumencast_go.Server.Session.Messages.{read_all-Permits}
use lumencast_go.Server.Session.Apart.{read_all-apart}

active-set_active :
    (s : Server) (h : Heap) (id : Text) (next : Scene)
    → lookup id s.scenes ≡ some next
    → text_eq s.active id ≡ false
    → (set_active s h id).0.active ≡ id
unfolding set_active
active-set_active s h id next known other = ground (arith, known, other)

-- A scene found at a place is the one that is known to be there.
elsewhere :
    (i : ℕ) (t : Server) (p : Place) (id : Text) (left x : Scene)
    → p ≡ registered id
    → lookup id t.scenes ≡ some left
    → member i (members left) ≡ false
    → scene_at t p ≡ some x
    → member i (members x) ≡ false
elsewhere i t p id left x at was gone there =
    let same : some left ≡ some x = sym was ∙ ap (scene_at t) (sym at) ∙ there in
    let now : left ≡ x = ground (arith, same) in subst (λ y. member i (members y) ≡ false) now gone

-- SetActive switches between two registered scenes with different ids, the first numbered below the
-- last number, and the other numbered. Take a connection to the first scene whose subscription is
-- live, in step with it and not given up. The switch moves that subscription out of the first scene
-- and into the new active one, but not the connection. Whatever messages the connection then sends,
-- the new active scene is as the switch left it, and the client ends in step with it, as a
-- subscriber of it unless given up: the inputs have no effect on what the operator is shown.
pub inputs_stay_behind :
    (env : Surroundings) (taken : ℕ → ℕ) (s : Server) (h : Heap) (ses : Session) (id : Text)
    (prev next : Scene) (c : Client) (js is : List ℕ) (raws : List Text)
    → ses.place ≡ registered s.active
    → lookup id s.scenes ≡ some next
    → text_eq id [] ≡ false
    → text_eq s.active id ≡ false
    → text_eq s.active [] ≡ false
    → lookup s.active s.scenes ≡ some prev
    → prev.subscribers ≡ some js
    → next.subscribers ≡ some is
    → IsSetOfIds (members prev)
    → 0 < prev.seq.cur
    → prev.seq.cur + 1 < 2 ^ 64
    → 0 < next.seq.cur
    → member ses.sub (members prev) ≡ true
    → (h.at ses.sub).live ≡ true
    → InSync prev c (h.at ses.sub)
    → (h.at ses.sub).stale ≡ false
    → let (t, h', unknown) = set_active s h id in
      let (u, h'', ses', end) = read_all env taken t h' ses raws in
      (shown : Scene) × (left : Scene) × ((active_scene t ≡ some shown)
        × (lookup s.active t.scenes ≡ some left))
      × (member ses.sub (members left) ≡ false)
      × ((h''.at ses.sub).stale ≡ false → member ses.sub (members shown) ≡ true)
      × (scene_at u (registered id) ≡ some shown)
      × InSync shown c (h''.at ses.sub)
unfolding active_scene
inputs_stay_behind env taken s h ses id prev next c js is raws at known named other some_active from
      k l ids pos room numbered sub on sync alive =
    let (t, h', unknown) = set_active s h id in
    let (fine, (left, shown, active, was, in_step, joined, gone)) =
      set_active_keeps_sync s h id prev next ses.sub c js is known named other some_active from k l
        ids pos room numbered sub on sync alive in
    let here = active-set_active s h id next known other in
    let untouched =
      (read_all-Permits env taken t h' ses raws).0 (registered id)
        (λ e. absurd (ground (arith, e, at, other, text_eq_iff s.active id))) in
    let kept =
      read_all-apart ses.sub taken env t h' ses raws
        (λ x there. elsewhere ses.sub t ses.place s.active left x at was gone there) in
    (
      shown,
      left,
      (active, was),
      gone,
      (λ stay. joined (ground (arith, stay, kept))),
      untouched ∙ ground (arith, active, named, here),
      subst (InSync shown c) (sym kept) in_step,
    )
