-- ===== src/Server/Concurrent/Invariant.antt =====
-- The invariant of one subscriber and one leaf.
use lumencast_go.Common.{
  ℕ, ◌+◌, ◌^◌, ◌<◌, ◌≡◌, ◌≢◌, Text, true, false, Option, none, some, List, [], ◌∷◌, ◌++◌, All,
  lookup, HasDistinctKeys,
}
use lumencast_go.Server.Subscription.{Subscription, member}
use lumencast_go.Server.Subscription.Fanout.{IsSetOfIds}
use lumencast_go.Server.Scene.{members, to_patches}
use lumencast_go.Server.Scene.Client.{Client, receive_all}
use lumencast_go.Server.Concurrent.{
  Holder, nobody, sending, refreshing, World, Written, all_of, only,
}
use lumencast_go.Server.Concurrent.Held.{writes, held, to_come, lag, IsSettled, IsUntouched, Keeps}

-- `Safe` stands for the promise that no call writes the leaf while another that has written it is
-- in progress. Without it, what is said of values says nothing.
module _ (i : ℕ) (j : Text) (Safe : Type 0) where
  -- What a client has once it received its queue.
  pub record At (w : World) (d : Client) : Type 0 where
    pub number : d.tracker.cur + lag w.holder i ≡ w.scene.seq.cur
    pub leaf :
        Safe
        → IsSettled j w.waiting
        → (member i (to_come w.holder) ≡ true → lookup j (held w.holder) ≡ none)
        → lookup j d.state ≡ lookup j w.scene.store

  abbrev pub Hears : World → Option Client → Subscription → Type 0
  Hears w o sub =
      sub.stale ≡ false
      → (c : Client) × (o ≡ some c) × ((d : Client) × (receive_all c sub.out ≡ some d) × At w d)

  -- What the holder of the lock is about to send.
  abbrev pub Carries : World → Holder → Type 0
  Carries w nobody = Unit
  Carries w (sending m raw is) =
      (m.seq ≡ w.scene.seq.cur) × ((m.patches ≡ to_patches raw) × (1 < w.scene.seq.cur))
  Carries w (refreshing snap raw is) =
      (snap.seq ≡ w.scene.seq.cur)
      × (Safe → IsSettled j w.waiting → lookup j snap.state ≡ lookup j w.scene.store)

  pub record Inv (w : World) : Type 0 where
    pub allocated : i < w.heap.next
    pub numbered : 0 < w.scene.seq.cur
    pub room : w.scene.seq.cur < 2 ^ 64
    pub member_set : IsSetOfIds (members w.scene)
    pub to_come_set : IsSetOfIds (to_come w.holder)
    pub waiting_distinct : All (λ x. HasDistinctKeys (writes x)) w.waiting
    pub held_distinct : HasDistinctKeys (held w.holder)
    pub waiting_kept : Safe → All (λ x. Keeps j w.scene.store (writes x)) w.waiting
    pub held_kept : Safe → Keeps j w.scene.store (held w.holder)
    pub carries : Carries w w.holder
    pub hears : member i (members w.scene) ≡ true → Hears w (w.clients i) (w.heap.at i)

-- The promise, as a restriction of writes. A call that fails may not write the leaf at all.
abbrev pub Careful : Text → Type 0 → World → Written → Type 0
Careful j Safe w (all_of xs) = Safe → lookup j xs ≢ none → IsUntouched j w
Careful j Safe w (only xs) = Safe → lookup j xs ≡ none

pub All-remove :
    {A : Type 0} (P : A → Type 0) (b : List A) (e : A) (a : List A)
    → All P (b ++ (e ∷ a))
    → P e × All P (b ++ a)
All-remove P [] e a h = h
All-remove P (x ∷ b) e a h = let (p, rest) = All-remove P b e a h.1 in (p, (h.0, rest))

pub All-restore :
    {A : Type 0} (P : A → Type 0) (b : List A) (e : A) (a : List A)
    → P e
    → All P (b ++ a)
    → All P (b ++ (e ∷ a))
All-restore P [] e a p h = (p, h)
All-restore P (x ∷ b) e a p h = (h.0, All-restore P b e a p h.1)

-- A list that ends with one more element.
pub All-last :
    {A : Type 0} (P : A → Type 0) (b : List A) (e : A) → All P (b ++ (e ∷ [])) → P e × All P b
All-last P [] e h = h
All-last P (x ∷ b) e h = let (p, rest) = All-last P b e h.1 in (p, (h.0, rest))
