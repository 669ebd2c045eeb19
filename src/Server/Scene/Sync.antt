-- ===== src/Server/Scene/Sync.antt =====
-- Subscribers keep up with their scene: what is queued for one brings its client to the scene's
-- state and number, through emissions, back-pressure and refreshes.
use lumencast_go.Common.{
  ℕ, ◌<◌, ◌≡◌, ap, sym, ◌∙◌, true, false, some, List, [], ◌∷◌, ◌++◌, arith, lookup, ltb, take, drop,
  take-append-drop, length, if◌then◌else◌, inl, inr, Bool-cases,
}
use lumencast_go.Protocol.Frames.{Frame, snapshot, delta, Delta}
use lumencast_go.Server.Subscription.{Subscription, offer, mark_stale, drain}
use lumencast_go.Server.Scene.{Scene, current_snapshot, send_delta, send_snapshot}
use lumencast_go.Server.Scene.Client.{
  Client, receive, receive_all, receive_all-append, receive_all-split, Follows, receive-snapshot,
}

-- Unless it was given up, what is queued on the subscription brings the client to a state with `F`.
abbrev pub Brings : (Client → Type 0) → Client → Subscription → Type 0
Brings F c sub = sub.stale ≡ false → (d : Client) × (receive_all c sub.out ≡ some d) × F d

-- The same, for the state of the scene.
abbrev pub InSync : Scene → Client → Subscription → Type 0
InSync s c sub = Brings (Follows s) c sub

-- What the writer takes while sendDelta retries: nothing, if there was room at once.
abbrev pub taken_frames : ℕ → Subscription → List Frame
taken_frames k sub = if ltb (length sub.out) sub.cap then [] else take k sub.out

pub receive_all-one :
    (c d e : Client) (fs : List Frame) (f : Frame)
    → receive_all c fs ≡ some d
    → receive d f ≡ some e
    → receive_all c (fs ++ (f ∷ [])) ≡ some e
unfolding receive_all
receive_all-one c d e fs f h k = receive_all-append c fs (f ∷ []) h ∙ ground (arith, k)

pub current_snapshot_lem :
    (s : Scene) → ((current_snapshot s).seq ≡ s.seq.cur) × ((current_snapshot s).state ≡ s.store)
unfolding current_snapshot
current_snapshot_lem s = ground arith

-- A snapshot of the scene brings any client to the scene.
pub snapshot-Follows :
    (s : Scene) (c : Client)
    → 0 < s.seq.cur
    → (d : Client) × (receive c (snapshot (current_snapshot s)) ≡ some d) × Follows s d
snapshot-Follows s c h =
    let (numbered, state) = current_snapshot_lem s in
    (
      record {
        tracker = record { cur = (current_snapshot s).seq };
        state = (current_snapshot s).state;
      },
      receive-snapshot c (current_snapshot s) (omega (arith, numbered)),
      record { numbered = numbered; leaves = λ j. ap (lookup j) state },
    )

-- What a send leaves on the queue, case by case.
module _ (s : Scene) (d : Delta) (k : ℕ) (sub : Subscription) where
  send_delta_room :
      ltb (length sub.out) sub.cap ≡ true
      → send_delta s d k sub ≡ record sub { out = sub.out ++ (delta d ∷ []) }
  unfolding send_delta offer
  send_delta_room e = ground arith

  send_delta_rebase :
      ltb (length sub.out) sub.cap ≡ false
      → ltb (length (drop k sub.out)) sub.cap ≡ true
      → send_delta s d k sub
        ≡ record sub { out = drop k sub.out ++ (snapshot (current_snapshot s) ∷ []) }
  unfolding send_delta offer drain
  send_delta_rebase e f = ground arith

  send_delta_full :
      ltb (length sub.out) sub.cap ≡ false
      → ltb (length (drop k sub.out)) sub.cap ≡ false
      → send_delta s d k sub ≡ record sub { out = drop k sub.out; stale = true }
  unfolding send_delta offer drain mark_stale
  send_delta_full e f = ground arith

module _ (s : Scene) (sub : Subscription) where
  send_snapshot_room :
      ltb (length sub.out) sub.cap ≡ true
      → send_snapshot s sub ≡ record sub { out = sub.out ++ (snapshot (current_snapshot s) ∷ []) }
  unfolding send_snapshot offer
  send_snapshot_room e = ground arith

  send_snapshot_full :
      ltb (length sub.out) sub.cap ≡ false → send_snapshot s sub ≡ record sub { stale = true }
  unfolding send_snapshot offer mark_stale
  send_snapshot_full e = ground arith

-- A refresh brings every subscriber that takes it to the scene, whatever the scene was before.
pub send_snapshot-InSync :
    (s t : Scene) (c : Client) (sub : Subscription)
    → 0 < t.seq.cur
    → InSync s c sub
    → InSync t c (send_snapshot t sub)
send_snapshot-InSync s t c sub h sync = elim (Bool-cases (ltb (length sub.out) sub.cap)) [
  | inl e ↦ rw (send_snapshot_room t sub e) (λ live.
      let (d, got, f) = sync live in
      let (x, r, g) = snapshot-Follows t d h in
      (x, receive_all-one c d x sub.out (snapshot (current_snapshot t)) got r, g))
  | inr e ↦ rw (send_snapshot_full t sub e) (λ live. cc)
]

-- An emission brings a subscriber from `F` to `G`: it gets the delta, or after back-pressure a
-- snapshot, or it is given up. What the writer takes meanwhile is part of the old queue.
pub send_delta-Brings :
    (F G : Client → Type 0) (t : Scene) (c : Client) (m : Delta) (k : ℕ) (sub : Subscription)
    → ((d : Client) → F d → (e : Client) × (receive d (delta m) ≡ some e) × G e)
    → ((d : Client) → (e : Client) × (receive d (snapshot (current_snapshot t)) ≡ some e) × G e)
    → Brings F c sub
    → sub.stale ≡ false
    → (d : Client) × (receive_all c (taken_frames k sub) ≡ some d)
      × Brings G d (send_delta t m k sub)
unfolding receive_all
send_delta-Brings F G t c m k sub next rebase sync alive =
    elim (Bool-cases (ltb (length sub.out) sub.cap)) [
      | inl e ↦
          (let (d, got, f) = sync alive in
            let (x, r, g) = next d f in
            (
              c,
              rw e,
              rw (send_delta_room t m k sub e)
                  (λ live. (x, receive_all-one c d x sub.out (delta m) got r, g)),
            ))
      | inr e ↦
          (let (d, got, f) = sync alive in
            let (b, first, second) =
              receive_all-split c (take k sub.out) (drop k sub.out)
                (ap (receive_all c) (take-append-drop k sub.out) ∙ got) in
            (
              b,
              rw e first,
              elim (Bool-cases (ltb (length (drop k sub.out)) sub.cap)) [
                | inl e' ↦ rw (send_delta_rebase t m k sub e e') (λ live.
                    let (x, r, g) = rebase d in
                    (
                      x,
                      receive_all-one b d x (drop k sub.out) (snapshot (current_snapshot t)) second
                          r,
                      g,
                    ))
                | inr e' ↦ rw (send_delta_full t m k sub e e') (λ live. cc)
              ],
            ))
    ]

-- An emission keeps a subscriber in step.
pub send_delta-InSync :
    (s t : Scene) (c : Client) (m : Delta) (k : ℕ) (sub : Subscription)
    → 0 < t.seq.cur
    → ((d : Client) → Follows s d → (e : Client) × (receive d (delta m) ≡ some e) × Follows t e)
    → InSync s c sub
    → sub.stale ≡ false
    → (d : Client) × (receive_all c (taken_frames k sub) ≡ some d)
      × InSync t d (send_delta t m k sub)
send_delta-InSync s t c m k sub h next sync alive =
    send_delta-Brings (Follows s) (Follows t) t c m k sub next (λ d. snapshot-Follows t d h) sync
      alive

-- A subscription that is not given up by a send was not given up before.
pub send_delta-alive :
    (t : Scene) (m : Delta) (k : ℕ) (sub : Subscription)
    → (send_delta t m k sub).stale ≡ false
    → sub.stale ≡ false
send_delta-alive t m k sub h = elim (Bool-cases (ltb (length sub.out) sub.cap)) [
  | inl e ↦ ap (λ x. x.stale) (sym (send_delta_room t m k sub e)) ∙ h
  | inr e ↦ elim (Bool-cases (ltb (length (drop k sub.out)) sub.cap)) [
    | inl f ↦ ap (λ x. x.stale) (sym (send_delta_rebase t m k sub e f)) ∙ h
    | inr f ↦ absurd (ground (arith, ap (λ x. x.stale) (sym (send_delta_full t m k sub e f)) ∙ h))
  ]
]
