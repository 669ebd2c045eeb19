-- ===== src/Server/Scene/Client.antt =====
-- The receiver that the sequencing rules of protocol/sequence.go describe: it rebases on snapshots,
-- applies the deltas that are due, drops repeated ones and reconnects on a gap.
use lumencast_go.Common.{
  suc, ◌+◌, ◌^◌, ◌<◌, ◌≡◌, refl, Text, Option, none, some, List, [], ◌∷◌, ◌++◌, Map, arith, lookup,
  insert, if◌then◌else◌, inl, inr, Option-cases,
}
use lumencast_go.Json.{Raw}
use lumencast_go.Protocol.Sequence.{SequenceTracker, observe_server, observe_snapshot}
use lumencast_go.Protocol.Sequence.Stream.{observe_server_cases}
use lumencast_go.Protocol.Frames.{Frame, snapshot, delta, scene_changed, Snapshot, Delta, Patch}
use lumencast_go.Server.Store.Apply.{insert_all}
use lumencast_go.Server.Scene.{Scene, to_patches}

pub record Client : Type 0 where
  pub tracker : SequenceTracker
  pub state : Map Raw

unfoldable pub receive_patches : Map Raw → List Patch → Map Raw
receive_patches state [] = state
receive_patches state (p ∷ ps) = receive_patches (insert p.path p.value state) ps

-- `none` is a reconnection. Frames without a number leave the client as it is.
unfoldable pub receive : Client → Frame → Option Client
receive c (snapshot m) =
    let (t, e) = observe_snapshot c.tracker m.seq in
    elim e [ some _ ↦ none | none ↦ some (record { tracker = t; state = m.state }) ]
receive c (delta d) =
    let (t, skip, e) = observe_server c.tracker d.seq in
    elim e [
      | some _ ↦ none
      | none ↦ some (record {
        tracker = t;
        state = if skip then c.state else receive_patches c.state d.patches;
      })
    ]
receive c (scene_changed m) =
    let (t, skip, e) = observe_server c.tracker m.seq in
    elim e [ some _ ↦ none | none ↦ some (record c { tracker = t }) ]
receive c _ = some c

unfoldable pub receive_all : Client → List Frame → Option Client
receive_all c [] = some c
receive_all c (f ∷ fs) = elim (receive c f) [ none ↦ none | some c' ↦ receive_all c' fs ]

pub receive_all-append :
    (c : Client) {d : Client} (fs gs : List Frame)
    → receive_all c fs ≡ some d
    → receive_all c (fs ++ gs) ≡ receive_all d gs
unfolding receive_all
receive_all-append c {d} [] gs e = ground arith
receive_all-append c {d} (f ∷ fs) gs e = elim (Option-cases (receive c f)) [
  | inl gone ↦ ground (arith, gone)
  | inr (c', got) ↦ ground (arith, got, receive_all-append c' {d = d} fs gs)
]

-- What is received in one go is received in two.
pub receive_all-split :
    (c : Client) {d : Client} (fs gs : List Frame)
    → receive_all c (fs ++ gs) ≡ some d
    → (e : Client) × (receive_all c fs ≡ some e) × (receive_all e gs ≡ some d)
unfolding receive_all
receive_all-split c {d} [] gs h = (c, refl, h)
receive_all-split c {d} (f ∷ fs) gs h = elim (Option-cases (receive c f)) [
  | inl gone ↦ ground (arith, gone)
  | inr (c', got) ↦
      let (e, first, second) = receive_all-split c' fs gs (ground (arith, got)) in
      (e, ground (arith, got, first), second)
]

pub receive_patches-insert_all :
    (state raw : Map Raw) → receive_patches state (to_patches raw) ≡ insert_all state raw
unfolding receive_patches insert_all
receive_patches-insert_all state [] = refl
receive_patches-insert_all state ((k, v) ∷ raw) = receive_patches-insert_all (insert k v state) raw

-- A client that holds the leaves of the scene, and the number of its latest emission.
pub record Follows (s : Scene) (c : Client) : Type 0 where
  pub numbered : c.tracker.cur ≡ s.seq.cur
  pub leaves : (j : Text) → lookup j c.state ≡ lookup j s.store

pub receive-snapshot :
    (c : Client) (m : Snapshot)
    → 0 < m.seq
    → receive c (snapshot m) ≡ some (record { tracker = record { cur = m.seq }; state = m.state })
unfolding receive observe_snapshot
receive-snapshot c m h = ground arith

-- The delta that is due.
pub receive-delta :
    (c : Client) (d : Delta)
    → 0 < c.tracker.cur
    → c.tracker.cur + 1 < 2 ^ 64
    → d.seq ≡ suc c.tracker.cur
    → receive c (delta d)
      ≡ some
          (record { tracker = record { cur = d.seq }; state = receive_patches c.state d.patches })
unfolding receive
receive-delta c d h k e = elim (observe_server_cases c.tracker.cur d.seq h k) [
  | inl due ↦ ground (arith, due)
  | inr (inl old) ↦ absurd (omega (arith, old))
  | inr (inr gap) ↦ absurd (omega (arith, gap))
]
