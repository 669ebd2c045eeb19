-- ===== src/Lsml/Validate/Entries.antt =====
-- When the checks of what a node binds and animates report no error.
use lumencast_go.Common.{
  ◌≡◌, refl, sym, subst, ◌↔◌, Text, codes, Bool, true, false, not, Option, none, some, List, [],
  ◌∷◌, ◌++◌, arith,
}
use lumencast_go.Json.{Json, null, bool, num, str, arr, obj, Fields, end, field}
use lumencast_go.Protocol.LeafPath.{Unicode, PathError, validate_template}
use lumencast_go.Lsml.Validate.{
  Report, Message, not_animatable, also, report_if, report_path, is_one_of, animatable,
  check_animate, check_animates, check_bind, check_binds,
}
use lumencast_go.Lsml.Validate.Nodes.{Entry, this, that}

-- A report without errors.
abbrev pub IsClean : Report → Type 0
IsClean r = r.errors ≡ []

append-empty : {A : Type 0} (xs ys : List A) → (xs ++ ys ≡ []) ↔ ((xs ≡ []) × (ys ≡ []))
append-empty [] ys = ground arith
append-empty (x ∷ xs) ys = ground arith

pub also_iff : (r q : Report) → IsClean (also r q) ↔ (IsClean r × IsClean q)
unfolding also
also_iff r q = append-empty r.errors q.errors

pub report_if_iff : (b : Bool) (p : Text) (m : Message) → IsClean (report_if b p m) ↔ (b ≡ false)
unfolding report_if
report_if_iff true p m = ground arith
report_if_iff false p m = ground arith

pub report_path_iff : (p : Text) (o : Option PathError) → IsClean (report_path p o) ↔ (o ≡ none)
unfolding report_path
report_path_iff p none = ground arith
report_path_iff p (some e) = ground arith

-- What holds of the entries of an object.
abbrev EveryEntry : (Text → Json → Type 0) → Fields → Type 0
EveryEntry P fs = (k : Text) (v : Json) → Entry k v fs → P k v

every_end : (P : Text → Json → Type 0) → EveryEntry P end
every_end P k v i = elim i [ ]

every_field :
    (P : Text → Json → Type 0) (j : Text) (w : Json) (fs : Fields)
    → (P j w × EveryEntry P fs) ↔ EveryEntry P (field j w fs)
every_field P j w fs = (λ h k v i. split h k v i, λ h. (h j w this, λ k v i. h k v (that i)))
  where
    split : P j w × EveryEntry P fs → EveryEntry P (field j w fs)
    split h k v this = h.0
    split h k v (that i) = h.1 k v i

check_animate_iff :
    (base : Text) (anim : Fields)
    → IsClean (check_animate base anim) ↔ EveryEntry (λ k v. is_one_of animatable k ≡ true) anim
unfolding check_animate
check_animate_iff base end = (λ h. every_end (λ k v. is_one_of animatable k ≡ true), λ h. refl)
check_animate_iff base (field k v fs) =
    let rest = check_animate_iff base fs in
    let step = every_field (λ k v. is_one_of animatable k ≡ true) k v fs in
    let first =
      report_if_iff (not (is_one_of animatable k)) (base ++ codes ".animate." ++ k)
        not_animatable in
    let both =
      also_iff
        (report_if (not (is_one_of animatable k)) (base ++ codes ".animate." ++ k) not_animatable)
        (check_animate base fs) in
    (
      λ h. step.0 (ground (arith, first.0 (both.0 h).0), rest.0 (both.0 h).1),
      λ h. both.1 (first.1 (ground (arith, (step.1 h).0)), rest.1 (step.1 h).1),
    )

-- What check_animates needs of the animated names of a node.
abbrev pub FineAnimate : Option Json → Type 0
FineAnimate o =
    (anim : Fields) (k : Text) (v : Json)
    → o ≡ some (obj anim)
    → Entry k v anim
    → is_one_of animatable k ≡ true

pub check_animates_iff :
    (base : Text) (o : Option Json) → IsClean (check_animates base o) ↔ FineAnimate o
unfolding check_animates
check_animates_iff base none = (λ h fs k v e. absurd (ground (arith, e)), λ h. refl)
check_animates_iff base (some null) = (λ h fs k v e. absurd (ground (arith, e)), λ h. refl)
check_animates_iff base (some (bool b)) = (λ h fs k v e. absurd (ground (arith, e)), λ h. refl)
check_animates_iff base (some (num n)) = (λ h fs k v e. absurd (ground (arith, e)), λ h. refl)
check_animates_iff base (some (str t)) = (λ h fs k v e. absurd (ground (arith, e)), λ h. refl)
check_animates_iff base (some (arr vs)) = (λ h fs k v e. absurd (ground (arith, e)), λ h. refl)
check_animates_iff base (some (obj anim)) = (
  λ h fs k v e i. (check_animate_iff base anim).0 h k v (subst (Entry k v) (ground (arith, e)) i),
  λ h. (check_animate_iff base anim).1 (λ k v i. h anim k v refl i),
)

module _ (u : Unicode) where
  abbrev FineTemplate : Text → Json → Type 0
  FineTemplate k (str s) = validate_template u s ≡ none
  FineTemplate k _ = Unit

  fine_templates :
      (fs : Fields)
      → ((k s : Text) → Entry k (str s) fs → validate_template u s ≡ none)
      → EveryEntry FineTemplate fs
  fine_templates fs h k (str s) i = h k s i
  fine_templates fs h k null i = tt
  fine_templates fs h k (bool b) i = tt
  fine_templates fs h k (num n) i = tt
  fine_templates fs h k (arr vs) i = tt
  fine_templates fs h k (obj gs) i = tt

  check_bind-skip :
      (base k : Text) (v : Json) (fs : Fields)
      → FineTemplate k v
      → IsClean (check_bind u base fs) ↔ EveryEntry FineTemplate fs
      → (check_bind u base (field k v fs) ≡ check_bind u base fs)
      → IsClean (check_bind u base (field k v fs)) ↔ EveryEntry FineTemplate (field k v fs)
  check_bind-skip base k v fs f rest same = (
    λ h. (every_field FineTemplate k v fs).0 (f, rest.0 (subst IsClean same h)),
    λ h. subst IsClean (sym same) (rest.1 ((every_field FineTemplate k v fs).1 h).1),
  )

  check_bind_iff :
      (base : Text) (bind : Fields)
      → IsClean (check_bind u base bind) ↔ EveryEntry FineTemplate bind
  unfolding check_bind
  check_bind_iff base end = (λ h. every_end FineTemplate, λ h. refl)
  check_bind_iff base (field k (str s) fs) =
      let rest = check_bind_iff base fs in
      let step = every_field FineTemplate k (str s) fs in
      let first = report_path_iff (base ++ codes ".bind." ++ k) (validate_template u s) in
      let both =
        also_iff (report_path (base ++ codes ".bind." ++ k) (validate_template u s))
          (check_bind u base fs) in
      (
        λ h. step.0 (first.0 (both.0 h).0, rest.0 (both.0 h).1),
        λ h. both.1 (first.1 (step.1 h).0, rest.1 (step.1 h).1),
      )
  check_bind_iff base (field k null fs) =
      check_bind-skip base k null fs tt (check_bind_iff base fs) refl
  check_bind_iff base (field k (bool b) fs) =
      check_bind-skip base k (bool b) fs tt (check_bind_iff base fs) refl
  check_bind_iff base (field k (num n) fs) =
      check_bind-skip base k (num n) fs tt (check_bind_iff base fs) refl
  check_bind_iff base (field k (arr vs) fs) =
      check_bind-skip base k (arr vs) fs tt (check_bind_iff base fs) refl
  check_bind_iff base (field k (obj gs) fs) =
      check_bind-skip base k (obj gs) fs tt (check_bind_iff base fs) refl

  abbrev pub FineBind : Option Json → Type 0
  FineBind o =
      (bind : Fields) (k s : Text)
      → o ≡ some (obj bind)
      → Entry k (str s) bind
      → validate_template u s ≡ none

  pub check_binds_iff :
      (base : Text) (o : Option Json) → IsClean (check_binds u base o) ↔ FineBind o
  unfolding check_binds
  check_binds_iff base none = (λ h fs k v e. absurd (ground (arith, e)), λ h. refl)
  check_binds_iff base (some null) = (λ h fs k v e. absurd (ground (arith, e)), λ h. refl)
  check_binds_iff base (some (bool b)) = (λ h fs k v e. absurd (ground (arith, e)), λ h. refl)
  check_binds_iff base (some (num n)) = (λ h fs k v e. absurd (ground (arith, e)), λ h. refl)
  check_binds_iff base (some (str t)) = (λ h fs k v e. absurd (ground (arith, e)), λ h. refl)
  check_binds_iff base (some (arr vs)) = (λ h fs k v e. absurd (ground (arith, e)), λ h. refl)
  check_binds_iff base (some (obj bind)) = (
    λ h fs k s e i.
        (check_bind_iff base bind).0 h k (str s) (subst (Entry k (str s)) (ground (arith, e)) i),
    λ h. (check_bind_iff base bind).1 (fine_templates bind (λ k s i. h bind k s refl i)),
  )
