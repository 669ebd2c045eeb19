-- ===== src/Server/Session/Connect.antt =====
-- Who gets a connection, and to which scene.
use lumencast_go.Common.{
  ◌≡◌, ◌≢◌, ◌⊎◌, refl, ap, sym, ◌∙◌, Text, Bool, true, false, not, ◌&&◌, none, some, [], arith,
  lookup, text_eq, text_eq_iff, text_eq→eq, subst, inl, inr, Bool-cases, Option-cases,
}
use lumencast_go.Protocol.ErrorCodes.{ErrorCode}
use lumencast_go.Protocol.Roles.{role_test, role_operator}
use lumencast_go.Protocol.Frames.{
  Frame, Subscribe, subscribe, snapshot, delta, scene_changed, scene_roster, overlay_apps, error,
  pong, ping, input, unsubscribe,
}
use lumencast_go.Protocol.Codec
use lumencast_go.Protocol.Codec.{
  CodecError, Decoded, encode, decode, sub_protocol, sub_protocol_v1_1,
}
use lumencast_go.Server.Auth.{Identity, is_authenticated}
use lumencast_go.Server.Subscription.{Heap}
use lumencast_go.Server.Scene.{Scene}
use lumencast_go.Server.Hub.{Server, active_scene}
use lumencast_go.Server.Session.{
  Surroundings, Conn, Place, in_holding, registered, Session, opened, Read, read_ok, read_error,
  First, subscribed, mismatched, unexpected, Resolved, resolved, unresolved, resolve_scene,
  scene_at, identify, start_session, enter_scene, admit, read_subscribe, first_of,
  is_version_mismatch, open_session,
}
use lumencast_go.Server.Session.Start.{Starts, start_session-Starts}

-- Which scene a Subscribe frame leads an identity to.
pub data MayEnter (s : Server) (frame : Subscribe) (id : Identity) : Place → Type 0 where
  live_active :
      (scene : Scene)
      → frame.scene ≡ []
      → active_scene s ≡ some scene
      → MayEnter s frame id (registered s.active)
  live_holding : frame.scene ≡ [] → active_scene s ≡ none → MayEnter s frame id in_holding
  test_mode :
      frame.scene ≢ []
      → (id.role ≡ role_test) ⊎ (id.role ≡ role_operator)
      → frame.session ≢ []
      → MayEnter s frame id (registered frame.scene)

tester :
    (role : Text)
    → (not (text_eq role role_test) && not (text_eq role role_operator)) ≡ false
    → (role ≡ role_test) ⊎ (role ≡ role_operator)
tester role h = elim (Bool-cases (text_eq role role_test)) [
  | inl e ↦ inl (text_eq→eq role role_test e)
  | inr e ↦ inr (text_eq→eq role role_operator (ground (arith, h, e)))
]

resolve_scene-MayEnter :
    (s : Server) (frame : Subscribe) (id : Identity) (place : Place)
    → resolve_scene s frame id ≡ resolved place
    → MayEnter s frame id place
unfolding resolve_scene
resolve_scene-MayEnter s frame id place h = elim (Bool-cases (text_eq frame.scene [])) [
  | inl live ↦ elim (Option-cases (active_scene s)) [
    | inl e ↦
        subst (MayEnter s frame id) (ground (arith, h, live, e))
          (live_holding (text_eq→eq frame.scene [] live) e)
    | inr (scene, e) ↦
        subst (MayEnter s frame id) (ground (arith, h, live, e))
          (live_active scene (text_eq→eq frame.scene [] live) e)
  ]
  | inr named ↦
      elim (Bool-cases (not (text_eq id.role role_test) && not (text_eq id.role role_operator))) [
        | inl e ↦ absurd (ground (arith, h, named, e))
        | inr e ↦ elim (Bool-cases (text_eq frame.session [])) [
          | inl none_given ↦ absurd (ground (arith, h, named, e, none_given))
          | inr given ↦ elim (Option-cases (lookup frame.scene s.scenes)) [
            | inl gone ↦ absurd (ground (arith, h, named, e, given, gone))
            | inr (scene, there) ↦
                subst (MayEnter s frame id) (ground (arith, h, named, e, given, there)) (
                  test_mode (λ z. ground (arith, named, text_eq_iff frame.scene [], z))
                    (tester id.role e)
                    (λ z. ground (arith, given, text_eq_iff frame.session [], z)))
          ]
        ]
      ]
]

Resolved-cases :
    (r : Resolved)
    → ((place : Place) × (r ≡ resolved place))
      ⊎ ((code : ErrorCode) × (why : Text) × (r ≡ unresolved code why))
Resolved-cases (resolved place) = inl (place, refl)
Resolved-cases (unresolved code why) = inr (code, why, refl)

-- A connection that was opened on a scene.
pub record Entered (env : Surroundings) (s : Server) (h : Heap) (proto11 : Bool) (frame : Subscribe)
    (id : Identity) (c : Conn) (ses : Session) : Type 0 where
  pub place : Place
  pub scene : Scene
  pub may : MayEnter s frame id place
  pub found : scene_at s place ≡ some scene
  pub servable : scene.rejection ≡ none
  pub same :
      enter_scene env s h proto11 frame id c ≡ start_session env s h proto11 frame id place scene c
  pub starts : Starts env s h proto11 frame id place scene c ses

enter_scene-Entered :
    (env : Surroundings) (s : Server) (h : Heap) (proto11 : Bool) (frame : Subscribe)
    (id : Identity) (c : Conn) (ses : Session)
    → (enter_scene env s h proto11 frame id c).2 ≡ opened ses
    → Entered env s h proto11 frame id c ses
unfolding enter_scene
enter_scene-Entered env s h proto11 frame id c ses e =
    elim (Resolved-cases (resolve_scene s frame id)) [
      | inr (code, why, r) ↦ absurd (ground (arith, e, r))
      | inl (place, r) ↦ elim (Option-cases (scene_at s place)) [
        | inl gone ↦ absurd (ground (arith, e, r, gone))
        | inr (scene, there) ↦ elim (Option-cases scene.rejection) [
          | inr (rej, x) ↦ absurd (ground (arith, e, r, there, x))
          | inl x ↦
              (let same : enter_scene env s h proto11 frame id c
                    ≡ start_session env s h proto11 frame id place scene c =
                  ground (arith, r, there, x) in
                record {
                  place = place;
                  scene = scene;
                  may = resolve_scene-MayEnter s frame id place r;
                  found = there;
                  servable = x;
                  same = same;
                  starts =
                      start_session-Starts env s h proto11 frame id place scene c ses
                        (ap (λ y. y.2) (sym same) ∙ e);
                })
        ]
      ]
    ]

First-cases :
    (f : First)
    → ((frame : Subscribe) × (f ≡ subscribed frame))
      ⊎ (f ≡ mismatched)
      ⊎ ((why : Text) × (f ≡ unexpected why))
First-cases (subscribed frame) = inl (frame, refl)
First-cases mismatched = inr (inl refl)
First-cases (unexpected why) = inr (inr (why, refl))

pub Decoded-cases :
    (d : Decoded) → ((f : Frame) × (d ≡ Codec.ok f)) ⊎ ((e : CodecError) × (d ≡ Codec.err e))
Decoded-cases (Codec.ok f) = inl (f, refl)
Decoded-cases (Codec.err e) = inr (e, refl)

first_of-subscribed :
    (d : Frame) (frame : Subscribe) → first_of d ≡ subscribed frame → d ≡ subscribe frame
first_of-subscribed (subscribe m) frame e = ground (arith, e)
first_of-subscribed (snapshot m) frame e = absurd (ground (arith, e))
first_of-subscribed (delta m) frame e = absurd (ground (arith, e))
first_of-subscribed (scene_changed m) frame e = absurd (ground (arith, e))
first_of-subscribed (scene_roster m) frame e = absurd (ground (arith, e))
first_of-subscribed (overlay_apps m) frame e = absurd (ground (arith, e))
first_of-subscribed (error m) frame e = absurd (ground (arith, e))
first_of-subscribed (pong m) frame e = absurd (ground (arith, e))
first_of-subscribed (ping m) frame e = absurd (ground (arith, e))
first_of-subscribed (input m) frame e = absurd (ground (arith, e))
first_of-subscribed (unsubscribe m) frame e = absurd (ground (arith, e))

read_subscribe-subscribed :
    (env : Surroundings) (read : Read) (frame : Subscribe)
    → read_subscribe env read ≡ subscribed frame
    → (raw : Text) × (read ≡ read_ok raw) × (decode env.json raw ≡ Codec.ok (subscribe frame))
unfolding read_subscribe
read_subscribe-subscribed env (read_error why) frame e = absurd (ground (arith, e))
read_subscribe-subscribed env (read_ok raw) frame e = elim (Decoded-cases (decode env.json raw)) [
  | inl (f, d) ↦ (raw, refl, d ∙ ap Codec.ok (first_of-subscribed f frame (ground (arith, d, e))))
  | inr (x, d) ↦ elim (Bool-cases (is_version_mismatch x)) [
    | inl m ↦ absurd (ground (arith, d, e, m))
    | inr m ↦ absurd (ground (arith, d, e, m))
  ]
]

-- What lies behind an opened connection.
pub record Admitted (env : Surroundings) (s : Server) (h : Heap) (negotiated : Text) (read : Read)
    (c : Conn) (ses : Session) : Type 0 where
  pub raw : Text
  pub frame : Subscribe
  pub spoken : (negotiated ≡ sub_protocol_v1_1) ⊎ (negotiated ≡ sub_protocol)
  pub received : read ≡ read_ok raw
  pub decoded : decode env.json raw ≡ Codec.ok (subscribe frame)
  pub identified : identify env frame ≡ some ses.id
  pub authentic : is_authenticated ses.id ≡ true
  pub may : MayEnter s frame ses.id ses.place
  pub scene : Scene
  pub found : scene_at s ses.place ≡ some scene
  pub servable : scene.rejection ≡ none

admit-Entered :
    (env : Surroundings) (s : Server) (h : Heap) (proto11 : Bool) (frame : Subscribe) (c : Conn)
    (ses : Session)
    → (admit env s h proto11 frame c).2 ≡ opened ses
    → (id : Identity) × (identify env frame ≡ some id)
      × (is_authenticated id ≡ true)
      × (admit env s h proto11 frame c ≡ enter_scene env s h proto11 frame id c)
      × Entered env s h proto11 frame id c ses
unfolding admit
admit-Entered env s h proto11 frame c ses e = elim (Option-cases (identify env frame)) [
  | inl gone ↦ absurd (ground (arith, e, gone))
  | inr (id, found) ↦ elim (Bool-cases (is_authenticated id)) [
    | inr un ↦ absurd (ground (arith, e, found, un))
    | inl known ↦
        (let same : admit env s h proto11 frame c ≡ enter_scene env s h proto11 frame id c =
            ground (arith, found, known) in
          (
            id,
            found,
            known,
            same,
            enter_scene-Entered env s h proto11 frame id c ses (ap (λ y. y.2) (sym same) ∙ e),
          ))
  ]
]

open_session-Entered :
    (env : Surroundings) (s : Server) (h : Heap) (negotiated : Text) (read : Read) (c : Conn)
    (ses : Session)
    → (open_session env s h negotiated read c).2 ≡ opened ses
    → (frame : Subscribe) × (read_subscribe env read ≡ subscribed frame)
      × ((negotiated ≡ sub_protocol_v1_1) ⊎ (negotiated ≡ sub_protocol))
      × (open_session env s h negotiated read c
          ≡ admit env s h (text_eq negotiated sub_protocol_v1_1) frame c)
unfolding open_session
open_session-Entered env s h negotiated read c ses e =
    elim (Bool-cases
      (not (text_eq negotiated sub_protocol_v1_1) && not (text_eq negotiated sub_protocol))) [
        | inl bad ↦ absurd (ground (arith, e, bad))
        | inr good ↦ elim (First-cases (read_subscribe env read)) [
          | inr (inl m) ↦ absurd (ground (arith, e, good, m))
          | inr (inr (why, m)) ↦ absurd (ground (arith, e, good, m))
          | inl (frame, m) ↦ (frame, m, spoke good, ground (arith, good, m))
        ]
      ]
  where
    spoke :
        (not (text_eq negotiated sub_protocol_v1_1) && not (text_eq negotiated sub_protocol))
          ≡ false
        → (negotiated ≡ sub_protocol_v1_1) ⊎ (negotiated ≡ sub_protocol)
    spoke h = elim (Bool-cases (text_eq negotiated sub_protocol_v1_1)) [
      | inl e ↦ inl (text_eq→eq negotiated sub_protocol_v1_1 e)
      | inr e ↦ inr (text_eq→eq negotiated sub_protocol (ground (arith, h, e)))
    ]

-- A connection that is opened speaks one of the two protocols, began with a Subscribe frame, has an
-- identity with a valid role, from the request or else from the frame's token, and is on a scene
-- that is on the server and not rejected: the active scene, or the holding one if there is none, for
-- a frame without a scene; else the scene that it names, for a test or operator identity that gives
-- a session.
pub open_session_admits :
    (env : Surroundings) (s : Server) (h : Heap) (negotiated : Text) (read : Read) (c : Conn)
    (ses : Session)
    → (open_session env s h negotiated read c).2 ≡ opened ses
    → Admitted env s h negotiated read c ses
open_session_admits env s h negotiated read c ses e =
    let (frame, first, spoken, same) = open_session-Entered env s h negotiated read c ses e in
    let proto11 = text_eq negotiated sub_protocol_v1_1 in
    let (id, found, known, into, entered) =
      admit-Entered env s h proto11 frame c ses (ap (λ y. y.2) (sym same) ∙ e) in
    let (raw, got, said) = read_subscribe-subscribed env read frame first in
    let who : id ≡ ses.id = sym entered.starts.id_is in
    let there : entered.place ≡ ses.place = sym entered.starts.place_is in
    record {
      raw = raw;
      frame = frame;
      spoken = spoken;
      received = got;
      decoded = said;
      identified = found ∙ ap some who;
      authentic = subst (λ x. is_authenticated x ≡ true) who known;
      may =
          subst (λ x. MayEnter s frame x ses.place) who
            (subst (λ x. MayEnter s frame id x) there entered.may);
      scene = entered.scene;
      found = subst (λ x. scene_at s x ≡ some entered.scene) there entered.found;
      servable = entered.servable;
    }
