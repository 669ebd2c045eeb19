-- ===== src/Server/Session/Messages.antt =====
-- What the messages of a connection do to its scene, and to the others.
use lumencast_go.Common.{
  ℕ, ◌≡◌, ◌≢◌, ◌⊎◌, refl, ap, sym, ◌∙◌, Text, true, Option, none, some, List, [], ◌∷◌, arith,
  lookup, lookup-insert, text_eq, text_eq_iff, inl, inr, Bool-cases, Option-cases, subst,
}
use lumencast_go.Json.{Raw}
use lumencast_go.Protocol.Frames.{
  Frame, snapshot, delta, scene_changed, scene_roster, overlay_apps, error, pong, ping, subscribe,
  input, unsubscribe, Input,
}
use lumencast_go.Protocol.Codec.{decode}
use lumencast_go.Server.Auth.{Identity, can_write}
use lumencast_go.Server.Subscription.{Heap}
use lumencast_go.Server.Scene.{Scene}
use lumencast_go.Server.Inputs.{Verdict, apply_input}
use lumencast_go.Server.Inputs.Commit.{apply_input_permitted}
use lumencast_go.Server.Hub.{Server}
use lumencast_go.Server.Session.{
  Surroundings, Place, in_holding, registered, Session, End, scene_at, put_scene, report,
  handle_frame, handle_message, receive_message, read_all,
}
use lumencast_go.Server.Session.Connect.{Decoded-cases}

module _ (env : Surroundings) where
  report_scene :
      (id : Identity) (m : Input) (x : Scene × Heap × Verdict) (before : Scene) (ses : Session)
      → ((report env id m x before ses).0 ≡ x.0)
        × ((report env id m x before ses).2.id ≡ ses.id)
        × ((report env id m x before ses).2.place ≡ ses.place)
  report_scene id m (t, h, none) before ses = (refl, refl, refl)
  report_scene id m (t, h, some (code, path)) before ses = (refl, refl, refl)

  -- One frame: the identity and the scene of the connection stay, and a leaf that changes is one that the
  -- identity may write.
  handle_frame-permitted :
      (taken : ℕ → ℕ) (scene : Scene) (h : Heap) (ses : Session) (f : Frame)
      → ((handle_frame env taken scene h ses f).2.id ≡ ses.id)
        × ((handle_frame env taken scene h ses f).2.place ≡ ses.place)
        × ((j : Text)
            → lookup j (handle_frame env taken scene h ses f).0.store ≢ lookup j scene.store
            → can_write ses.id j ≡ true)
  unfolding handle_frame
  handle_frame-permitted taken scene h ses (input m) =
      let x = apply_input taken scene h ses.id m in
      let (same, who, at) = report_scene ses.id m x scene ses in
      (
        who,
        at,
        λ j changed.
            (apply_input_permitted taken scene h ses.id m j
              (λ z. changed (ap (λ t. lookup j t.store) same ∙ z))).0,
      )
  handle_frame-permitted taken scene h ses (ping m) = (refl, refl, λ j c. absurd (c refl))
  handle_frame-permitted taken scene h ses (unsubscribe m) = (refl, refl, λ j c. absurd (c refl))
  handle_frame-permitted taken scene h ses (subscribe m) = (refl, refl, λ j c. absurd (c refl))
  handle_frame-permitted taken scene h ses (snapshot m) = (refl, refl, λ j c. absurd (c refl))
  handle_frame-permitted taken scene h ses (delta m) = (refl, refl, λ j c. absurd (c refl))
  handle_frame-permitted taken scene h ses (scene_changed m) = (refl, refl, λ j c. absurd (c refl))
  handle_frame-permitted taken scene h ses (scene_roster m) = (refl, refl, λ j c. absurd (c refl))
  handle_frame-permitted taken scene h ses (overlay_apps m) = (refl, refl, λ j c. absurd (c refl))
  handle_frame-permitted taken scene h ses (error m) = (refl, refl, λ j c. absurd (c refl))
  handle_frame-permitted taken scene h ses (pong m) = (refl, refl, λ j c. absurd (c refl))

  pub handle_message-permitted :
      (taken : ℕ → ℕ) (scene : Scene) (h : Heap) (ses : Session) (raw : Text)
      → ((handle_message env taken scene h ses raw).2.id ≡ ses.id)
        × ((handle_message env taken scene h ses raw).2.place ≡ ses.place)
        × ((j : Text)
            → lookup j (handle_message env taken scene h ses raw).0.store ≢ lookup j scene.store
            → can_write ses.id j ≡ true)
  unfolding handle_message
  handle_message-permitted taken scene h ses raw = elim (Decoded-cases (decode env.json raw)) [
    | inl (f, e) ↦ rw (e, handle_message) (handle_frame-permitted taken scene h ses f)
    | inr (x, e) ↦ rw (e, handle_message) (refl, refl, λ j c. absurd (c refl))
  ]

-- A leaf of a scene of the server.
abbrev pub leaf_of : Text → Option Scene → Option Raw
leaf_of j none = none
leaf_of j (some t) = lookup j t.store

pub scene_at-put_scene :
    (s : Server) (place p : Place) (t : Scene)
    → (scene_at (put_scene s place t) place ≡ some t)
      × (p ≢ place → scene_at (put_scene s place t) p ≡ scene_at s p)
scene_at-put_scene s in_holding in_holding t = (refl, λ ne. absurd (ne refl))
scene_at-put_scene s in_holding (registered b) t = (refl, λ ne. refl)
scene_at-put_scene s (registered a) in_holding t =
    (ground (arith, lookup-insert a a t s.scenes, text_eq_iff a a), λ ne. refl)
scene_at-put_scene s (registered a) (registered b) t = (
  ground (arith, lookup-insert a a t s.scenes, text_eq_iff a a),
  λ ne. elim (Bool-cases (text_eq a b)) [
    | inl e ↦ absurd (ne (ap registered (sym ((text_eq_iff a b).0 e))))
    | inr e ↦ ground (arith, lookup-insert a b t s.scenes, e)
  ],
)

module _ (env : Surroundings) (taken : ℕ → ℕ) where
  -- One message on the server: the other scenes stay as they are.
  receive_message-permitted :
      (s : Server) (h : Heap) (ses : Session) (raw : Text)
      → ((receive_message env taken s h ses raw).2.id ≡ ses.id)
        × ((receive_message env taken s h ses raw).2.place ≡ ses.place)
        × ((p : Place)
            → p ≢ ses.place
            → scene_at (receive_message env taken s h ses raw).0 p ≡ scene_at s p)
        × ((j : Text)
            → leaf_of j (scene_at (receive_message env taken s h ses raw).0 ses.place)
              ≢ leaf_of j (scene_at s ses.place)
            → can_write ses.id j ≡ true)
  unfolding receive_message
  receive_message-permitted s h ses raw = elim (Option-cases (scene_at s ses.place)) [
    | inl gone ↦
        rw (gone, receive_message)
          (refl, refl, (λ p ne. refl), (λ j c. absurd (c (ap (leaf_of j) gone))))
    | inr (scene, there) ↦
        (let (who, at, ok) = handle_message-permitted env taken scene h ses raw in
          let t = (handle_message env taken scene h ses raw).0 in
          let stored = (scene_at-put_scene s ses.place ses.place t).0 in
          rw (there, receive_message)
            (
              who,
              at,
              (λ p ne. (scene_at-put_scene s ses.place p t).1 ne),
              (λ j c. ok j (λ z. c (ap (leaf_of j) stored ∙ z))),
            ))
  ]

  pub read_all_stops :
      (s : Server) (h : Heap) (ses : Session) (raw : Text) (raws : List Text) (e : End)
      → (receive_message env taken s h ses raw).3 ≡ some e
      → let (t, h', ses', end) = receive_message env taken s h ses raw in
        read_all env taken s h ses (raw ∷ raws) ≡ (t, h', ses', some e)
  unfolding read_all
  read_all_stops s h ses raw raws e k = ground (arith, k)

  pub read_all_goes :
      (s : Server) (h : Heap) (ses : Session) (raw : Text) (raws : List Text)
      → (receive_message env taken s h ses raw).3 ≡ none
      → let (t, h', ses', end) = receive_message env taken s h ses raw in
        read_all env taken s h ses (raw ∷ raws) ≡ read_all env taken t h' ses' raws
  unfolding read_all
  read_all_goes s h ses raw raws k = ground (arith, k)

  abbrev pub Permits : Server → Session → Server × Heap × Session × Option End → Type 0
  Permits s ses out =
      ((p : Place) → p ≢ ses.place → scene_at out.0 p ≡ scene_at s p)
      × ((j : Text)
          → leaf_of j (scene_at out.0 ses.place) ≢ leaf_of j (scene_at s ses.place)
          → can_write ses.id j ≡ true)

  pub read_all-Permits :
      (s : Server) (h : Heap) (ses : Session) (raws : List Text)
      → Permits s ses (read_all env taken s h ses raws)
  read_all-Permits s h ses [] = unfold read_all in ((λ p ne. refl), (λ j c. absurd (c refl)))
  read_all-Permits s h ses (raw ∷ raws) =
      let (who, at, apart, ok) = receive_message-permitted s h ses raw in
      let (t, h', ses', end) = receive_message env taken s h ses raw in
      let (apart', ok') = read_all-Permits t h' ses' raws in
      elim (Option-cases end) [
        | inr (e, k) ↦ rw (read_all_stops s h ses raw raws e k) (apart, ok)
        | inl k ↦ rw (read_all_goes s h ses raw raws k) (
          (λ p ne. apart' p (λ z. ne (z ∙ at)) ∙ apart p ne),
          (λ j c. elim (Bool-cases (can_write ses.id j)) [
            | inl w ↦ w
            | inr w ↦
                (let refused : can_write ses.id j ≢ true = λ y. absurd (ground (arith, w, y)) in
                  let out : Server = (read_all env taken t h' ses' raws).0 in
                  absurd (
                    refused (
                      ok j (λ first. refused (
                        subst (λ i. can_write i j ≡ true) who
                          (ok' j (λ later. c (
                            ap (λ q. leaf_of j (scene_at out q)) (sym at)
                            ∙ later
                            ∙ ap (λ q. leaf_of j (scene_at t q)) at
                            ∙ first))))))))
          ]),
        )
      ]

Place-cases : (p q : Place) → (p ≡ q) ⊎ (p ≢ q)
Place-cases in_holding in_holding = inl refl
Place-cases in_holding (registered b) = inr (λ e. absurd (ground (arith, e)))
Place-cases (registered a) in_holding = inr (λ e. absurd (ground (arith, e)))
Place-cases (registered a) (registered b) = elim (Bool-cases (text_eq a b)) [
  | inl e ↦ inl (ap registered ((text_eq_iff a b).0 e))
  | inr e ↦ inr (λ same. ground (arith, e, same, text_eq_iff a b))
]

-- Whatever the messages of a connection are, as many as it reads, a leaf that they change is of the
-- scene that the connection was given, and one that the identity of the connection may write.
pub messages_permitted :
    (env : Surroundings) (taken : ℕ → ℕ) (s : Server) (h : Heap) (ses : Session) (raws : List Text)
    (p : Place) (j : Text)
    → leaf_of j (scene_at (read_all env taken s h ses raws).0 p) ≢ leaf_of j (scene_at s p)
    → (p ≡ ses.place) × (can_write ses.id j ≡ true)
messages_permitted env taken s h ses raws p j changed =
    let (apart, ok) = read_all-Permits env taken s h ses raws in
    elim (Place-cases p ses.place) [
      | inr ne ↦ absurd (changed (ap (leaf_of j) (apart p ne)))
      | inl e ↦ (
        e,
        ok j (λ z. changed (
            ap (λ q. leaf_of j (scene_at (read_all env taken s h ses raws).0 q)) e
            ∙ z
            ∙ ap (λ q. leaf_of j (scene_at s q)) (sym e))),
      )
    ]
