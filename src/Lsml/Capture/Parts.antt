-- ===== src/Lsml/Capture/Parts.antt =====
-- The parts of an object that CheckZabCaptureNodes puts on its stack are all that it leads to.
use lumencast_go.Common.{
  ◌≡◌, refl, subst, ◌⊎◌, inl, inr, Option, none, some, List, ◌∷◌, All, codes, arith,
}
use lumencast_go.Json.{Json, null, bool, num, str, arr, obj, Items, nil, cons, Fields, get_field}
use lumencast_go.Lsml.Capture.{
  CaptureError, check_object, push_items, push_children, push_template, push_parts,
}
use lumencast_go.Lsml.Capture.Reach.{
  Item, first, later, Reaches, itself, by_child, by_template, Fine, Bad, Some,
}

-- An item is the first one or a later one.
Fine-item :
    (v : Json) (vs : Items)
    → Fine v
    → ((w : Json) → Item w vs → Fine w)
    → (w : Json) → Item w (cons v vs)
    → Fine w
Fine-item v vs f h w first = f
Fine-item v vs f h w (later i) = h w i

Item-nil : {A : Type 0} (v : Json) → Item v nil → A
Item-nil v i = elim i [ ]

Fine-push_items :
    (vs : Items) (stack : List Json)
    → All Fine (push_items vs stack)
    → ((v : Json) → Item v vs → Fine v) × All Fine stack
unfolding push_items
Fine-push_items nil stack h = (λ v i. Item-nil v i, h)
Fine-push_items (cons v vs) stack h =
    let (items, below) = Fine-push_items vs (v ∷ stack) h in
    (λ w i. Fine-item v vs below.0 items w i, below.1)

Bad-push_items :
    (e : CaptureError) (vs : Items) (stack : List Json)
    → Some (Bad e) (push_items vs stack)
    → ((v : Json) × Item v vs × Bad e v) ⊎ Some (Bad e) stack
unfolding push_items
Bad-push_items e nil stack h = inr h
Bad-push_items e (cons v vs) stack h = elim (Bad-push_items e vs (v ∷ stack) h) [
  | inl (w, i, b) ↦ inl (w, later i, b)
  | inr (inl b) ↦ inl (v, first, b)
  | inr (inr b) ↦ inr b
]

Fine-push_template :
    (o : Option Json) (stack : List Json)
    → All Fine (push_template o stack)
    → ((v : Json) → o ≡ some v → Fine v) × All Fine stack
unfolding push_template
Fine-push_template none stack h = (λ v e. absurd (ground (arith, e)), h)
Fine-push_template (some w) stack h = (λ v e. subst Fine (ground (arith, e)) h.0, h.1)

abbrev FineItems : Option Json → Type 0
FineItems o = (vs : Items) → o ≡ some (arr vs) → (v : Json) → Item v vs → Fine v

Fine-push_children :
    (o : Option Json) (stack : List Json)
    → All Fine (push_children o stack)
    → FineItems o × All Fine stack
unfolding push_children
Fine-push_children none stack h = (λ vs e. absurd (ground (arith, e)), h)
Fine-push_children (some null) stack h = (λ vs e. absurd (ground (arith, e)), h)
Fine-push_children (some (bool b)) stack h = (λ vs e. absurd (ground (arith, e)), h)
Fine-push_children (some (num n)) stack h = (λ vs e. absurd (ground (arith, e)), h)
Fine-push_children (some (str t)) stack h = (λ vs e. absurd (ground (arith, e)), h)
Fine-push_children (some (obj fs)) stack h = (λ vs e. absurd (ground (arith, e)), h)
Fine-push_children (some (arr ws)) stack h =
    let (items, below) = Fine-push_items ws stack h in
    (λ vs e. subst (λ us. (v : Json) → Item v us → Fine v) (ground (arith, e)) items, below)

-- An object is fine when it passes, and its parts are fine.
Fine-obj :
    (fs : Fields)
    → check_object fs ≡ none
    → FineItems (get_field (codes "children") fs)
    → ((v : Json) → get_field (codes "template") fs ≡ some v → Fine v)
    → (f : Fields) → Reaches fs f
    → check_object f ≡ none
Fine-obj fs passes items template f itself = passes
Fine-obj fs passes items template f (by_child {c = c} {items = vs} e i r) = items vs e (obj c) i f r
Fine-obj fs passes items template f (by_template {c = c} e r) = template (obj c) e f r

pub Fine-parts :
    (fs : Fields) (stack : List Json)
    → check_object fs ≡ none
    → All Fine (push_parts fs stack)
    → Fine (obj fs) × All Fine stack
unfolding push_parts
Fine-parts fs stack passes h =
    let children = get_field (codes "children") fs in
    let (template, rest) =
      Fine-push_template (get_field (codes "template") fs) (push_children children stack) h in
    let (items, below) = Fine-push_children children stack rest in
    (Fine-obj fs passes items template, below)

-- A failure below an object is one that the object leads to.
Bad-push_template :
    (e : CaptureError) (o : Option Json) (stack : List Json)
    → Some (Bad e) (push_template o stack)
    → ((v : Json) × (o ≡ some v) × Bad e v) ⊎ Some (Bad e) stack
unfolding push_template
Bad-push_template e none stack h = inr h
Bad-push_template e (some v) stack (inl b) = inl (v, refl, b)
Bad-push_template e (some v) stack (inr b) = inr b

Bad-push_children :
    (e : CaptureError) (o : Option Json) (stack : List Json)
    → Some (Bad e) (push_children o stack)
    → ((vs : Items) × (o ≡ some (arr vs)) × (v : Json) × Item v vs × Bad e v) ⊎ Some (Bad e) stack
unfolding push_children
Bad-push_children e none stack h = inr h
Bad-push_children e (some null) stack h = inr h
Bad-push_children e (some (bool b)) stack h = inr h
Bad-push_children e (some (num n)) stack h = inr h
Bad-push_children e (some (str t)) stack h = inr h
Bad-push_children e (some (obj fs)) stack h = inr h
Bad-push_children e (some (arr vs)) stack h = elim (Bad-push_items e vs stack h) [
  | inl (v, i, b) ↦ inl (vs, refl, v, i, b)
  | inr b ↦ inr b
]

Bad-child :
    (e : CaptureError) (fs : Fields) (vs : Items) (v : Json)
    → get_field (codes "children") fs ≡ some (arr vs)
    → Item v vs
    → Bad e v
    → Bad e (obj fs)
Bad-child e fs vs (obj c) found i (f, r, wrong) = (f, by_child found i r, wrong)
Bad-child e fs vs null found i b = absurd b
Bad-child e fs vs (bool x) found i b = absurd b
Bad-child e fs vs (num n) found i b = absurd b
Bad-child e fs vs (str t) found i b = absurd b
Bad-child e fs vs (arr ws) found i b = absurd b

Bad-template :
    (e : CaptureError) (fs : Fields) (v : Json)
    → get_field (codes "template") fs ≡ some v
    → Bad e v
    → Bad e (obj fs)
Bad-template e fs (obj c) found (f, r, wrong) = (f, by_template found r, wrong)
Bad-template e fs null found b = absurd b
Bad-template e fs (bool x) found b = absurd b
Bad-template e fs (num n) found b = absurd b
Bad-template e fs (str t) found b = absurd b
Bad-template e fs (arr ws) found b = absurd b

pub Bad-parts :
    (e : CaptureError) (fs : Fields) (stack : List Json)
    → Some (Bad e) (push_parts fs stack)
    → Bad e (obj fs) ⊎ Some (Bad e) stack
unfolding push_parts
Bad-parts e fs stack h =
    let children = get_field (codes "children") fs in
    elim (Bad-push_template e (get_field (codes "template") fs) (push_children children stack) h) [
      | inl (v, found, b) ↦ inl (Bad-template e fs v found b)
      | inr rest ↦ elim (Bad-push_children e children stack rest) [
        | inl (vs, found, v, i, b) ↦ inl (Bad-child e fs vs v found i b)
        | inr b ↦ inr b
      ]
    ]
