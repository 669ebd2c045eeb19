-- ===== src/Lsml/Capture/Size.antt =====
-- What the loop of CheckZabCaptureNodes puts on its stack is no larger than what it takes off.
use lumencast_go.Common.{
  ℕ, ◌+◌, ◌≤◌, ◌≡◌, refl, inl, inr, Option, none, some, List, [], ◌∷◌, codes, arith, false,
  Bool-cases, text_eq, text_eq_iff, Text,
}
use lumencast_go.Json.{
  Json, null, bool, num, str, arr, obj, Items, nil, cons, Fields, end, field, get_field,
}
use lumencast_go.Lsml.Capture.{
  push_items, push_children, push_template, push_parts, json_size, items_size, fields_size,
}

abbrev pub stack_size : List Json → ℕ
stack_size [] = 0
stack_size (v ∷ vs) = json_size v + stack_size vs

stack_size-push_items :
    (vs : Items) (stack : List Json)
    → stack_size (push_items vs stack) ≡ items_size vs + stack_size stack
unfolding push_items
stack_size-push_items nil stack = ground arith
stack_size-push_items (cons v vs) stack = ground (arith, stack_size-push_items vs (v ∷ stack))

-- The size of a field, none having the size 0.
abbrev found_size : Option Json → ℕ
found_size none = 0
found_size (some v) = json_size v

one_field : (k : Text) (fs : Fields) → found_size (get_field k fs) ≤ fields_size fs
unfolding get_field
one_field k end = ground arith
one_field k (field i v fs) = ground (arith, one_field k fs)

two_fields :
    (j k : Text) (fs : Fields)
    → text_eq j k ≡ false
    → found_size (get_field j fs) + found_size (get_field k fs) ≤ fields_size fs
unfolding get_field
two_fields j k end ne = ground arith
two_fields j k (field i v fs) ne = elim (Bool-cases (text_eq i j)) [
  | inl e ↦ rw (e, (text_eq_iff i j).0 e, ne) (ground (arith, one_field k fs))
  | inr e ↦ rw e (ground (arith, two_fields j k fs ne, one_field j fs))
]

stack_size-push_children :
    (v : Option Json) (stack : List Json)
    → stack_size (push_children v stack) ≤ found_size v + stack_size stack
unfolding push_children
stack_size-push_children none stack = ground arith
stack_size-push_children (some (arr vs)) stack = ground (arith, stack_size-push_items vs stack)
stack_size-push_children (some null) stack = ground arith
stack_size-push_children (some (bool b)) stack = ground arith
stack_size-push_children (some (num n)) stack = ground arith
stack_size-push_children (some (str s)) stack = ground arith
stack_size-push_children (some (obj fs)) stack = ground arith

stack_size-push_template :
    (v : Option Json) (stack : List Json)
    → stack_size (push_template v stack) ≡ found_size v + stack_size stack
unfolding push_template
stack_size-push_template none stack = ground arith
stack_size-push_template (some v) stack = ground arith

pub stack_size-push_parts :
    (fs : Fields) (stack : List Json)
    → stack_size (push_parts fs stack) ≤ fields_size fs + stack_size stack
unfolding push_parts text_eq
stack_size-push_parts fs stack =
    let template = get_field (codes "template") fs in
    let children = get_field (codes "children") fs in
    omega (
      arith,
      stack_size-push_template template (push_children children stack),
      stack_size-push_children children stack,
      two_fields (codes "template") (codes "children") fs refl,
    )
