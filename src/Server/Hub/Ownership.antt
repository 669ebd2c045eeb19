-- ===== src/Server/Hub/Ownership.antt =====
-- In how many scenes of a server a subscription is, by counting.
pub mod Calls
use lumencast_go.Common.{
  ℕ, suc, ◌∙◌, ◌+◌, ◌≤◌, ◌<◌, ◌≡◌, refl, Text, Bool, true, false, not, Option, none, some, List, [],
  ◌∷◌, ◌++◌, arith, ◌==◌, keep, Map, map, lookup, insert, lookup-insert, text_eq, text_eq_iff, ap,
  if◌then◌else◌, inl, inr, Bool-cases, Option-cases,
}
use lumencast_go.Protocol.Sequence.{next_server}
use lumencast_go.Server.Subscription.{Heap, write, member, insert_member, remove_member}
use lumencast_go.Server.Scene.{Scene, SceneOption, members, new_scene, unsubscribe}
use lumencast_go.Server.Hub.{
  Server, move_one, move_all, with_members, migrate_live, register_scene, leave_active, set_active,
  detach_all, detach, drop_scenes, scenes_of, all_fanout_scenes,
}

-- How often a subscription stands in a list.
unfoldable pub count : ℕ → List ℕ → ℕ
count i [] = 0
count i (j ∷ is) = (if i == j then 1 else 0) + count i is

count-keep :
    (p : ℕ → Bool) (i : ℕ) (is : List ℕ)
    → count i (keep p is) + count i (keep (λ k. not (p k)) is) ≡ count i is
unfolding count
count-keep p i [] = refl
count-keep p i (j ∷ is) = ground (arith, count-keep p i is)

count-insert_member : (i j : ℕ) (is : List ℕ) → count i (insert_member j is) ≤ count i (j ∷ is)
unfolding insert_member count
count-insert_member i j is = ground arith

count-remove_member : (i j : ℕ) (is : List ℕ) → count i (remove_member j is) ≤ count i is
unfolding remove_member count
count-remove_member i j [] = ground arith
count-remove_member i j (k ∷ is) = ground (arith, count-remove_member i j is)

count-move_all :
    (q : ℕ) (next : Scene) (i : ℕ) (live is : List ℕ) (h : Heap)
    → count i (move_all q next live is h).0 ≤ count i live + count i is
unfolding move_all count
count-move_all q next i [] is h = ground arith
count-move_all q next i (j ∷ live) is h =
    let (sub, added) = move_one q next (h.at j) in
    ground (
      arith,
      count-move_all q next i live (if added then insert_member j is else is) (write h j sub),
      count-insert_member i j is,
    )

-- How many scenes of the server have a subscription, each as often as it lists it.
unfoldable pub owned : ℕ → List Scene → ℕ
owned i [] = 0
owned i (s ∷ scenes) = count i (members s) + owned i scenes

unfoldable pub owners : ℕ → Server → ℕ
owners i s = owned i (all_fanout_scenes s)

count-with_members :
    (i : ℕ) (s : Scene) (is : List ℕ) → count i (members (with_members s is)) ≤ count i is
unfolding count
count-with_members i s is = elim (Option-cases s.subscribers) [
  | inl e ↦ rw e (omega arith)
  | inr (js, e) ↦ rw e (omega arith)
]

pub count-migrate_live :
    (i : ℕ) (prev next : Scene) (h : Heap)
    → let (prev', next', h') = migrate_live prev next h in
      count i (members prev') + count i (members next')
      ≤ count i (members prev) + count i (members next)
unfolding migrate_live count
count-migrate_live i prev next h =
    let live : List ℕ = keep (λ k. (h.at k).live) (members prev) in
    let others : List ℕ = keep (λ k. not (h.at k).live) (members prev) in
    let (tracker, q) = next_server prev.seq in
    omega (
      arith,
      count-with_members i prev others,
      count-with_members i next (move_all q next live (members next) h).0,
      count-move_all q next i live (members next) h,
      count-keep (λ k. (h.at k).live) i (members prev),
    )

pub owned-append : (i : ℕ) (xs ys : List Scene) → owned i (xs ++ ys) ≡ owned i xs + owned i ys
unfolding owned
owned-append i [] ys = omega arith
owned-append i (x ∷ xs) ys = ground (arith, owned-append i xs ys)

-- What is registered under a name, counted as a list of scenes.
pub owned_at : ℕ → Option Scene → ℕ
owned_at i none = 0
owned_at i (some s) = count i (members s)

pub owned-insert :
    (i : ℕ) (k : Text) (s : Scene) (m : Map Scene)
    → owned i (scenes_of (insert k s m)) + owned_at i (lookup k m)
      ≡ owned i (scenes_of m) + count i (members s)
unfolding owned insert lookup owned_at
owned-insert i k s [] = ground arith
owned-insert i k s ((j, t) ∷ m) = elim (Bool-cases (text_eq j k)) [
  | inl e ↦ rw e (omega arith)
  | inr e ↦ rw e (omega (arith, owned-insert i k s m))
]

count-remove_member_self : (i : ℕ) (is : List ℕ) → count i (remove_member i is) ≡ 0
unfolding remove_member count
count-remove_member_self i [] = refl
count-remove_member_self i (k ∷ is) = ground (arith, count-remove_member_self i is)

count-not_member : (i : ℕ) (is : List ℕ) → member i is ≡ false → count i is ≡ 0
unfolding member count
count-not_member i [] h = refl
count-not_member i (k ∷ is) h = ground (arith, count-not_member i is)

-- Leaving a scene takes a subscription out of it, and nobody else in.
pub count-unsubscribe :
    (i k : ℕ) (s : Scene) (h : Heap)
    → (count i (members (unsubscribe s h i).0) ≡ 0)
      × (count i (members (unsubscribe s h k).0) ≤ count i (members s))
unfolding unsubscribe
count-unsubscribe i k s h = (
  ground (arith, count-remove_member_self i (members s), count-not_member i (members s)),
  ground (arith, count-remove_member i k (members s)),
)
