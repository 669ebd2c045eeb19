-- ===== src/Server/Session/Start.antt =====
-- The session that starts on a scene.
use lumencast_go.Common.{
  ℕ, ℤ, pos, ◌≡◌, refl, ap, sym, ◌∙◌, Bool, true, false, ◌&&◌, none, some, List, [], ◌++◌, arith,
  text_eq, inl, inr, Option-cases,
}
use lumencast_go.Protocol.Frames.{Subscribe}
use lumencast_go.Server.Auth.{Identity}
use lumencast_go.Server.Subscription.{Heap, alloc, insert_member}
use lumencast_go.Server.Scene.{Scene, initial, subscribe_with_resume, new_subscription}
use lumencast_go.Server.Hub.{Server}
use lumencast_go.Server.Session.{
  Surroundings, Conn, Place, Session, refused, opened, panicked, put_scene, settle, send_all,
  initial_frames, show_frames, start_session,
}

-- What a session that was opened on a scene is.
pub record Starts (env : Surroundings) (s : Server) (h : Heap) (proto11 : Bool) (frame : Subscribe)
    (id : Identity) (place : Place) (scene : Scene) (c : Conn) (ses : Session) : Type 0 where
  pub is : List ℕ
  pub joined : scene.subscribers ≡ some is
  pub place_is : ses.place ≡ place
  pub id_is : ses.id ≡ id
  pub sub_is : ses.sub ≡ h.next
  pub server :
      (start_session env s h proto11 frame id place scene c).0
      ≡ put_scene s place (record scene { subscribers = some (insert_member h.next is) })
  pub heap :
      (start_session env s h proto11 frame id place scene c).1
      ≡ alloc h (new_subscription (pos 256) (text_eq frame.scene []) proto11)
  pub sent :
      send_all env
        (initial_frames (initial scene frame.since_sequence)
          ++ show_frames
              (put_scene s place (record scene { subscribers = some (insert_member h.next is) }))
              (text_eq frame.scene [] && proto11))
        c
      ≡ (ses.conn, false)

settle-opened :
    (env : Surroundings) (t : Server) (h : Heap) (place : Place) (id : Identity) (sub : ℕ)
    (r : Conn × Bool) (ses : Session)
    → (settle env t h place id sub r).2 ≡ opened ses
    → (ses.place ≡ place)
      × (ses.id ≡ id)
      × (ses.sub ≡ sub)
      × (r ≡ (ses.conn, false))
      × ((settle env t h place id sub r).0 ≡ t)
      × ((settle env t h place id sub r).1 ≡ h)
settle-opened env t h place id sub (c, true) ses e = absurd (ground (arith, e))
settle-opened env t h place id sub (c, false) ses e = ground (arith, e)

pub subscribe_with_resume_lem :
    (scene : Scene) (h : Heap) (buffer : ℤ) (live proto11 : Bool) (since_sequence : ℕ) (is : List ℕ)
    → scene.subscribers ≡ some is
    → subscribe_with_resume scene h buffer live proto11 since_sequence
      ≡ some (
        record scene { subscribers = some (insert_member h.next is) },
        alloc h (new_subscription buffer live proto11),
        h.next,
        initial scene since_sequence,
      )
unfolding subscribe_with_resume
subscribe_with_resume_lem scene h buffer live proto11 since_sequence is joined =
    ground (arith, joined)

start_settles :
    (env : Surroundings) (s : Server) (h : Heap) (proto11 : Bool) (frame : Subscribe)
    (id : Identity) (place : Place) (scene : Scene) (c : Conn) (is : List ℕ)
    → scene.subscribers ≡ some is
    → let t = put_scene s place (record scene { subscribers = some (insert_member h.next is) }) in
      start_session env s h proto11 frame id place scene c
      ≡ settle env t
          (alloc h (new_subscription (pos 256) (text_eq frame.scene []) proto11))
          place
          id
          h.next
          (send_all env
            (initial_frames (initial scene frame.since_sequence)
              ++ show_frames t (text_eq frame.scene [] && proto11))
            c)
unfolding start_session
start_settles env s h proto11 frame id place scene c is joined =
    rw
      (
        subscribe_with_resume_lem scene h (pos 256) (text_eq frame.scene []) proto11
            frame.since_sequence is joined,
        start_session,
      )
      refl

start_panics :
    (env : Surroundings) (s : Server) (h : Heap) (proto11 : Bool) (frame : Subscribe)
    (id : Identity) (place : Place) (scene : Scene) (c : Conn)
    → scene.subscribers ≡ none
    → (start_session env s h proto11 frame id place scene c) ≡ (s, h, refused c panicked)
unfolding start_session subscribe_with_resume
start_panics env s h proto11 frame id place scene c gone = ground (arith, gone)

pub start_session-Starts :
    (env : Surroundings) (s : Server) (h : Heap) (proto11 : Bool) (frame : Subscribe)
    (id : Identity) (place : Place) (scene : Scene) (c : Conn) (ses : Session)
    → (start_session env s h proto11 frame id place scene c).2 ≡ opened ses
    → Starts env s h proto11 frame id place scene c ses
start_session-Starts env s h proto11 frame id place scene c ses e =
    elim (Option-cases scene.subscribers) [
      | inl gone ↦
          absurd (ground (arith, e, start_panics env s h proto11 frame id place scene c gone))
      | inr (is, joined) ↦
          (let same = start_settles env s h proto11 frame id place scene c is joined in
            let (at, who, sub, out, server, heap) =
              settle-opened env _ _ place id h.next _ ses (ap (λ x. x.2) (sym same) ∙ e) in
            record {
              is = is;
              joined = joined;
              place_is = at;
              id_is = who;
              sub_is = sub;
              server = ap (λ x. x.0) same ∙ server;
              heap = ap (λ x. x.1) same ∙ heap;
              sent = out;
            })
    ]
