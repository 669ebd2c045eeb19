-- ===== src/Server/Scene/Resume.antt =====
-- Clients that come back with `since_sequence`: a client that was in step, and missed only
-- emissions, is brought back in step by the initial frames of its new subscription.
use lumencast_go.Common.{
  ℕ, ℤ, suc, ◌+◌, ◌^◌, ◌<◌, ◌≤◌, ◌≡◌, ◌≢◌, refl, ap, sym, ◌∙◌, subst, Text, Bool, true, false,
  Option, none, some, List, [], ◌∷◌, ◌++◌, map, map-append, Map, HasDistinctKeys, arith, keep,
  lookup, ltb, lt→ltb, le→ltb, dec_lt, if◌then◌else◌,
}
use lumencast_go.Json.{Raw}
use lumencast_go.Protocol.Sequence.{next_server, add_u64}
use lumencast_go.Protocol.Frames.{Frame, snapshot, delta, Cause, ProjectionMetadata}
use lumencast_go.Server.Replay.{ReplayRecord, ReplayBuffer, push, since}
use lumencast_go.Server.Replay.Window.{IsValid, contents, push-IsValid}
use lumencast_go.Server.Replay.Resume.{
  seqs, Holds, keep_later, push-Holds, since_missed, missed-push,
}
use lumencast_go.Server.Store.{Value, sort_patches}
use lumencast_go.Server.Store.Apply.{Encodes, insert_all}
use lumencast_go.Server.Subscription.{Heap, alloc, insert_member}
use lumencast_go.Server.Scene.{
  Scene, advance, to_patches, make_delta, emit_with_cause, set, Initial, fresh, resumed, initial,
  current_snapshot, new_subscription, subscribe_with_resume,
}
use lumencast_go.Server.Scene.Client.{Client, Follows, receive, receive_all}
use lumencast_go.Server.Scene.Sync.{snapshot-Follows, receive_all-one}
use lumencast_go.Server.Scene.Emission.{after, delta-Follows, emit_with_cause_lem, set_lem}

-- The Delta that serveLSDP sends for a record of the ring.
abbrev pub replay_frame : ReplayRecord → Frame
replay_frame r = delta (make_delta r.seq r.patches r.cause r.projection_metadata)

-- The initial frames, sent before anything that is queued.
abbrev pub receive_initial : Client → Initial → Option Client
receive_initial c (fresh snap) = receive c (snapshot snap)
receive_initial c (resumed records) = receive_all c (map replay_frame records)

abbrev pub missed : ReplayBuffer → ℕ → List ReplayRecord
missed b s = keep (λ x. ltb s x.seq) (contents b)

-- The ring holds the emissions e + 1 to e + n, the latest of them the scene's number. Those that
-- the client has missed bring it to the scene, if none of them is gone.
pub record Recovers (s : Scene) (c : Client) (e n : ℕ) : Type 0 where
  pub valid : IsValid s.replay
  pub holds : Holds s.replay e n
  pub total : e + n ≡ s.seq.cur
  pub behind : c.tracker.cur ≤ s.seq.cur
  pub caught_up : n ≡ 0 → e ≤ c.tracker.cur
  pub replays :
      e ≤ c.tracker.cur
      → (d : Client) × (receive_all c (map replay_frame (missed s.replay c.tracker.cur)) ≡ some d)
        × Follows s d

no_seqs : (xs : List ReplayRecord) → seqs xs ≡ [] → xs ≡ []
no_seqs [] h = refl
no_seqs (x ∷ xs) h = ground arith

-- A client in step has missed nothing.
Follows-missed :
    (s : Scene) (c : Client) (e n : ℕ)
    → Holds s.replay e n
    → e + n ≡ s.seq.cur
    → Follows s c
    → missed s.replay c.tracker.cur ≡ []
Follows-missed s c e n h t f = no_seqs (missed s.replay c.tracker.cur) (
    keep_later (contents s.replay) c.tracker.cur e n 0 (omega (arith, f.numbered))
      (omega (arith, f.numbered)) h)

Follows-Recovers :
    (s : Scene) (c : Client) (e n : ℕ)
    → IsValid s.replay
    → Holds s.replay e n
    → e + n ≡ s.seq.cur
    → Follows s c
    → Recovers s c e n
unfolding receive_all
Follows-Recovers s c e n v h t f = record {
  valid = v;
  holds = h;
  total = t;
  behind = omega (arith, f.numbered);
  caught_up = λ z. omega (arith, f.numbered);
  replays = λ _. (c, rw (Follows-missed s c e n h t f) refl, f);
}

-- The initial frames of a resumed subscription bring the client to the scene.
pub initial-Follows :
    (s : Scene) (c : Client) (e n : ℕ)
    → Recovers s c e n
    → 0 < c.tracker.cur
    → s.seq.cur + 1 < 2 ^ 64
    → (d : Client) × (receive_initial c (initial s c.tracker.cur) ≡ some d) × Follows s d
initial-Follows s c e n r pos room = elim (dec_lt c.tracker.cur e) [
  | yes old ↦ rw (gone (answer.1 old)) (snapshot-Follows s c (omega (arith, r.total, r.behind)))
  | no new ↦ rw (kept (answer.0 (omega arith))) (r.replays (omega arith))
]
  where
    answer :
        (e ≤ c.tracker.cur → since s.replay c.tracker.cur ≡ (missed s.replay c.tracker.cur, true))
        × (c.tracker.cur < e → (since s.replay c.tracker.cur).1 ≡ false)
    answer =
        since_missed c.tracker.cur e n r.valid r.holds (omega (arith, r.total, r.behind))
          (omega (arith, r.total)) r.caught_up

    gone :
        (since s.replay c.tracker.cur).1 ≡ false
        → initial s c.tracker.cur ≡ fresh (current_snapshot s)
    gone h = ground (arith, h)

    kept :
        since s.replay c.tracker.cur ≡ (missed s.replay c.tracker.cur, true)
        → initial s c.tracker.cur ≡ resumed (missed s.replay c.tracker.cur)
    kept h = ground (arith, h, r.behind)

module _ (s : Scene) (h : Heap) (xs : Map Raw) (p : Text × Value) (ps : Map Value)
    (encodes : Encodes (p ∷ ps) xs) (distinct : HasDistinctKeys xs) (taken : ℕ → ℕ)
    (cause : Option Cause) (metadata : Option ProjectionMetadata) where
  emission : ReplayRecord
  emission = record {
    seq = add_u64 s.seq.cur 1;
    patches = to_patches (sort_patches xs);
    cause = cause;
    projection_metadata = metadata;
  }

  later : Scene
  later = after s h xs p ps encodes distinct cause metadata

  later_fields : (later.replay ≡ push s.replay emission) × (later.seq.cur ≡ emission.seq)
  unfolding later emission advance next_server
  later_fields = (refl, refl)

  emission-missed :
      (c : Client) (e n : ℕ)
      → Recovers s c e n
      → s.seq.cur + 1 < 2 ^ 64
      → (s.replay.cap ≤ n → suc e ≤ c.tracker.cur)
      → missed later.replay c.tracker.cur ≡ missed s.replay c.tracker.cur ++ (emission ∷ [])
  unfolding later emission advance next_server
  emission-missed c e n r room l =
      missed-push emission c.tracker.cur e n r.valid r.holds (omega (arith, r.total))
        (omega (arith, r.total, r.behind)) l

  emission-replays :
      (c : Client) (e n : ℕ)
      → Recovers s c e n
      → 0 < s.seq.cur
      → s.seq.cur + 1 < 2 ^ 64
      → (s.replay.cap ≤ n → suc e ≤ c.tracker.cur)
      → e ≤ c.tracker.cur
      → (d : Client) × (receive_all c (map replay_frame (missed later.replay c.tracker.cur))
          ≡ some d)
        × Follows later d
  unfolding later emission receive_all advance next_server
  emission-replays c e n r pos room l k =
      let (d, got, f) = r.replays k in
      let (x, step, g) =
        delta-Follows s h xs p ps encodes distinct taken cause metadata pos room d f in
      (
        x,
        rw (emission-missed c e n r room l, map-append)
            (receive_all-one c d x (map replay_frame (missed s.replay c.tracker.cur))
              (replay_frame emission) got step),
        g,
      )

  -- An emission keeps a client recoverable, whether or not it pushes a record out of the ring.
  emission-Recovers :
      (c : Client) (e n : ℕ)
      → Recovers s c e n
      → 0 < s.seq.cur
      → s.seq.cur + 1 < 2 ^ 64
      → (f : ℕ) × (m : ℕ) × Recovers later c f m
  unfolding later emission advance next_server
  emission-Recovers c e n r pos room = elim (dec_lt n s.replay.cap) [
    | yes space ↦ (
      e,
      suc n,
      record {
        valid = push-IsValid emission r.valid;
        holds = rw (lt→ltb _ _ space) at stored;
        total = omega (arith, r.total);
        behind = omega (arith, r.behind);
        caught_up = λ z. absurd (omega arith);
        replays = λ k. emission-replays c e n r pos room (λ l. absurd (omega arith)) k;
      },
    )
    | no full ↦ (
      suc e,
      n,
      record {
        valid = push-IsValid emission r.valid;
        holds = rw (le→ltb n s.replay.cap (omega arith)) at stored;
        total = omega (arith, r.total);
        behind = omega (arith, r.behind);
        caught_up = λ z. absurd (omega (arith, r.valid.head_in));
        replays = λ k. emission-replays c e n r pos room (λ l. k) (omega arith);
      },
    )
  ]
    where
      stored :
          if ltb n s.replay.cap
          then Holds (push s.replay emission) e (suc n)
          else Holds (push s.replay emission) (suc e) n
      stored = push-Holds emission e n r.valid r.holds (omega (arith, r.total))

later_pos :
    (s : Scene) (h : Heap) (xs : Map Raw) (p : Text × Value) (ps : Map Value)
    (encodes : Encodes (p ∷ ps) xs) (distinct : HasDistinctKeys xs) (taken : ℕ → ℕ)
    (cause : Option Cause) (metadata : Option ProjectionMetadata) (u : Scene)
    → s.seq.cur + 1 < 2 ^ 64
    → later s h xs p ps encodes distinct taken cause metadata ≡ u
    → 0 < u.seq.cur
unfolding later advance next_server
later_pos s h xs p ps encodes distinct taken cause metadata u room same =
    omega (arith, ap (λ (v : Scene). v.seq.cur) same)

-- A scene after any number of successful emissions, each below the largest sequence number.
pub data Emits (s : Scene) : Scene → Type 0 where
  start : Emits s s
  then_emits :
      {t u : Scene}
      → Emits s t
      → (h h' : Heap) (xs : Map Raw) (p : Text × Value) (ps : Map Value) (taken : ℕ → ℕ)
      → (cause : Option Cause) (metadata : Option ProjectionMetadata) → Encodes (p ∷ ps) xs
      → HasDistinctKeys xs
      → t.seq.cur + 1 < 2 ^ 64
      → emit_with_cause taken t h (p ∷ ps) cause metadata ≡ (u, h', none)
      → Emits s u

Emits-Recovers :
    {s t : Scene} (c : Client) (e n : ℕ)
    → Emits s t
    → 0 < s.seq.cur
    → Recovers s c e n
    → (0 < t.seq.cur) × ((f : ℕ) × (m : ℕ) × Recovers t c f m)
unfolding later advance
Emits-Recovers c e n start pos r = (pos, (e, n, r))
Emits-Recovers c e n (then_emits {t} {u} run h h' xs p ps taken cause metadata enc d room eq) pos
      r =
    let (live, found) = Emits-Recovers c e n run pos r in
    let (f, m, q) = found in
    let same : later t h xs p ps enc d taken cause metadata ≡ u =
      ap (λ x. x.0) (sym (emit_with_cause_lem t h xs p ps enc d taken cause metadata) ∙ eq) in
    let (f', m', q') = emission-Recovers t h xs p ps enc d taken cause metadata c f m q live room in
    (
      later_pos t h xs p ps enc d taken cause metadata u room same,
      (f', m', subst (λ v. Recovers v c f' m') same q'),
    )

-- A client that was in step with a scene whose ring held its latest emissions, and that missed any
-- number of emissions below the last number, comes back with its own number: whatever the ring
-- still holds, the initial frames of its new subscription, deltas or a snapshot, bring it in step
-- with the scene again.
pub resume_in_sync :
    {s t : Scene} (c : Client) (e n : ℕ) (is : List ℕ) (h : Heap) (buffer : ℤ) (live proto11 : Bool)
    → IsValid s.replay
    → Holds s.replay e n
    → e + n ≡ s.seq.cur
    → 0 < s.seq.cur
    → Follows s c
    → Emits s t
    → t.seq.cur + 1 < 2 ^ 64
    → t.subscribers ≡ some is
    → (u : Scene) × (h' : Heap) × (first : Initial) × (d : Client) × (subscribe_with_resume t h
          buffer live proto11 c.tracker.cur
        ≡ some (u, h', h.next, first))
      × (receive_initial c first ≡ some d)
      × Follows u d
unfolding subscribe_with_resume
resume_in_sync {s} {t} c e n is h buffer live proto11 v k total pos f run room subs =
    let (alive, found) = Emits-Recovers c e n run pos (Follows-Recovers s c e n v k total f) in
    let (e', n', r) = found in
    let (d, got, g) = initial-Follows t c e' n' r (omega (arith, f.numbered)) room in
    (
      record t { subscribers = some (insert_member h.next is) },
      alloc h (new_subscription buffer live proto11),
      initial t c.tracker.cur,
      d,
      ground (arith, subs),
      got,
      record { numbered = g.numbered; leaves = g.leaves },
    )

-- Set, on one or more patches that can be encoded, is not recorded for resumes. A client that was
-- in step and disconnects before a Set that changes a leaf is answered, on coming back, with no
-- frame at all, and so stays out of step.
pub set_not_resumed :
    (s : Scene) (h : Heap) (xs : Map Raw) (p : Text × Value) (ps : Map Value) (j : Text)
    (c : Client) (e n : ℕ)
    → Encodes (p ∷ ps) xs
    → HasDistinctKeys xs
    → IsValid s.replay
    → Holds s.replay e n
    → e + n ≡ s.seq.cur
    → 0 < s.seq.cur
    → s.seq.cur + 1 < 2 ^ 64
    → Follows s c
    → lookup j (set s h (p ∷ ps)).0.store ≢ lookup j s.store
    → (initial (set s h (p ∷ ps)).0 c.tracker.cur ≡ resumed [])
      × (receive_initial c (initial (set s h (p ∷ ps)).0 c.tracker.cur) ≡ some c)
      × ¬ Follows (set s h (p ∷ ps)).0 c
set_not_resumed s h xs p ps j c e n enc d v k total pos room f differs = (
  nothing,
  ap (receive_initial c) nothing ∙ unfold receive_all in refl,
  λ g. differs (sym (g.leaves j) ∙ f.leaves j),
)
  where
    stored : (set s h (p ∷ ps)).0 ≡ record s { store = insert_all s.store xs }
    stored = ap (λ x. x.0) (set_lem s h xs p ps enc d)

    answer : since s.replay c.tracker.cur ≡ (missed s.replay c.tracker.cur, true)
    answer =
        (since_missed c.tracker.cur e n v k (omega (arith, f.numbered)) (omega arith)
            (λ z. omega (arith, f.numbered))).0
          (omega (arith, f.numbered))

    unchanged : initial (record s { store = insert_all s.store xs }) c.tracker.cur ≡ resumed []
    unchanged = ground (arith, answer, Follows-missed s c e n k total f, f.numbered)

    nothing : initial (set s h (p ∷ ps)).0 c.tracker.cur ≡ resumed []
    nothing = ap (λ t. initial t c.tracker.cur) stored ∙ unchanged
