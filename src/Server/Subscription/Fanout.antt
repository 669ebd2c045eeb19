-- ===== src/Server/Subscription/Fanout.antt =====
-- A loop over a set of subscribers acts on each of them once, and on nobody else.
use lumencast_go.Common.{ℕ, ◌≡◌, refl, true, false, List, [], ◌∷◌, arith, ◌==◌, if◌then◌else◌}
use lumencast_go.Server.Subscription.{
  Subscription, Heap, write, member, insert_member, remove_member, fan_out,
}

abbrev pub IsSetOfIds : List ℕ → Type 0
IsSetOfIds [] = Unit
IsSetOfIds (i ∷ is) = (member i is ≡ false) × IsSetOfIds is

pub fan_out_skip :
    (f : ℕ → Subscription → Subscription) (is : List ℕ) (h : Heap) (j : ℕ)
    → member j is ≡ false
    → (fan_out f is h).at j ≡ h.at j
unfolding fan_out member write
fan_out_skip f [] h j e = refl
fan_out_skip f (i ∷ is) h j e = ground (arith, fan_out_skip f is (write h i (f i (h.at i))) j)

pub at-fan_out :
    (f : ℕ → Subscription → Subscription) (is : List ℕ) (h : Heap) (j : ℕ)
    → IsSetOfIds is
    → (fan_out f is h).at j ≡ (if member j is then f j (h.at j) else h.at j)
unfolding fan_out member write
at-fan_out f [] h j d = refl
at-fan_out f (i ∷ is) h j d = ground (
  arith,
  at-fan_out f is (write h i (f i (h.at i))) j,
  fan_out_skip f is (write h i (f i (h.at i))) j,
)

pub next-fan_out :
    (f : ℕ → Subscription → Subscription) (is : List ℕ) (h : Heap) → (fan_out f is h).next ≡ h.next
unfolding fan_out write
next-fan_out f [] h = refl
next-fan_out f (i ∷ is) h = ground (arith, next-fan_out f is (write h i (f i (h.at i))))

pub member-remove_member :
    (i j : ℕ) (is : List ℕ)
    → member j (remove_member i is) ≡ (if i == j then false else member j is)
unfolding member remove_member
member-remove_member i j [] = ground arith
member-remove_member i j (k ∷ is) = ground (arith, member-remove_member i j is)

pub member-insert_member :
    (i j : ℕ) (is : List ℕ) → member j (insert_member i is) ≡ (if j == i then true else member j is)
unfolding member insert_member
member-insert_member i j is = ground arith

pub remove_member-IsSetOfIds :
    (i : ℕ) (is : List ℕ) → IsSetOfIds is → IsSetOfIds (remove_member i is)
unfolding remove_member
remove_member-IsSetOfIds i [] d = tt
remove_member-IsSetOfIds i (k ∷ is) d =
    ground (arith, member-remove_member i k is, remove_member-IsSetOfIds i is)

pub insert_member-IsSetOfIds :
    (i : ℕ) (is : List ℕ) → IsSetOfIds is → IsSetOfIds (insert_member i is)
unfolding insert_member
insert_member-IsSetOfIds i is d = ground arith
