-- ===== src/Server/Inputs/Atomic.antt =====
-- Input frames are applied whole or not at all.
use lumencast_go.Common.{
  ◌≡◌, refl, ap, subst, ◌∙◌, Text, true, false, Option, none, some, List, [], ◌∷◌, ◌++◌, arith, All,
  Map, HasDistinctKeys, insert-HasDistinctKeys, lookup, insert, lookup-insert, text_eq, text_eq_iff,
  if◌then◌else◌, inl, inr, Option-cases, Bool-cases,
}
use lumencast_go.Json.{Raw, is_valid_json}
use lumencast_go.Protocol.ErrorCodes.{ErrorCode, write_forbidden, unknown_path, invalid_value}
use lumencast_go.Protocol.Frames.{Patch}
use lumencast_go.Server.Auth.{Identity, can_write}
use lumencast_go.Server.Store.{Value, raw, encode_value}
use lumencast_go.Server.Store.Insert.{insert-Encodes, insert-nonempty}
use lumencast_go.Server.Store.Apply.{Encodes}
use lumencast_go.Server.Scene.{Scene}
use lumencast_go.Server.Inputs.{
  check_constraint, check_patch, check_patches, accepts_input_path, collect, ConstraintError,
}

-- A patch that the connection may write, to a path that the scene takes, with a value that fits.
pub record IsAllowed (s : Scene) (id : Identity) (p : Patch) : Type 0 where
  pub permitted : can_write id p.path ≡ true
  pub known : accepts_input_path s id.role p.path ≡ true
  pub well_formed : is_valid_json p.value ≡ true
  pub conforms : check_constraint s p.path p.value ≡ none

-- The value of the last patch for a path.
pub last_value : Text → List Patch → Option Raw
last_value j [] = none
last_value j (p ∷ ps) = elim (last_value j ps) [
  | some r ↦ some r
  | none ↦ if text_eq p.path j then some p.value else none
]

check_patch-IsAllowed :
    (s : Scene) (id : Identity) (p : Patch) → check_patch s id p ≡ none → IsAllowed s id p
unfolding check_patch
check_patch-IsAllowed s id p h = ground arith

pub check_patches-IsAllowed :
    (s : Scene) (id : Identity) (ps : List Patch)
    → check_patches s id ps ≡ none
    → All (IsAllowed s id) ps
unfolding check_patches
check_patches-IsAllowed s id [] h = tt
check_patches-IsAllowed s id (p ∷ ps) h =
    (check_patch-IsAllowed s id p (ground arith), check_patches-IsAllowed s id ps (ground arith))

pub check_patches-allows :
    (s : Scene) (id : Identity) (ps : List Patch)
    → All (IsAllowed s id) ps
    → check_patches s id ps ≡ none
unfolding check_patches check_patch
check_patches-allows s id [] a = refl
check_patches-allows s id (p ∷ ps) a = ground (
  arith,
  a.0.permitted,
  a.0.known,
  a.0.well_formed,
  a.0.conforms,
  check_patches-allows s id ps a.1,
)

-- The raw values that are stored.
pub values : Map Raw → List Patch → Map Raw
values m [] = m
values m (p ∷ ps) = values (insert p.path p.value m) ps

encode_value-raw : (r : Raw) → is_valid_json r ≡ true → encode_value (raw r) ≡ some r
unfolding encode_value
encode_value-raw r v = ground arith

-- What is stored is the encoding of what the frame says.
pub collect-Encodes :
    (s : Scene) (id : Identity) (m : Map Value) (xs : Map Raw) (ps : List Patch)
    → All (IsAllowed s id) ps
    → Encodes m xs
    → Encodes (collect m ps) (values xs ps)
unfolding collect values
collect-Encodes s id m xs [] a h = h
collect-Encodes s id m xs (p ∷ ps) a h =
    collect-Encodes s id (insert p.path (raw p.value) m) (insert p.path p.value xs) ps a.1 (
      insert-Encodes p.path (raw p.value) p.value m xs (encode_value-raw p.value a.0.well_formed) h)

pub values-HasDistinctKeys :
    (xs : Map Raw) (ps : List Patch) → HasDistinctKeys xs → HasDistinctKeys (values xs ps)
unfolding values
values-HasDistinctKeys xs [] d = d
values-HasDistinctKeys xs (p ∷ ps) d =
    values-HasDistinctKeys (insert p.path p.value xs) ps
      (insert-HasDistinctKeys p.path p.value xs d)

pub lookup-values :
    (j : Text) (xs : Map Raw) (ps : List Patch)
    → lookup j (values xs ps) ≡ (elim (last_value j ps) [ none ↦ lookup j xs | some r ↦ some r ])
unfolding last_value lookup values
lookup-values j xs [] = refl
lookup-values j xs (p ∷ ps) =
    ground (arith, lookup-values j (insert p.path p.value xs) ps, lookup-insert p.path j p.value xs)

pub lookup-values_nil : (j : Text) (ps : List Patch) → lookup j (values [] ps) ≡ last_value j ps
unfolding lookup
lookup-values_nil j ps = elim (Option-cases (last_value j ps)) [
  | inl e ↦ lookup-values j [] ps ∙ rw e refl
  | inr (r, e) ↦ lookup-values j [] ps ∙ rw e refl
]

pub last_value-permits :
    (s : Scene) (id : Identity) (j : Text) (r : Raw) (ps : List Patch)
    → All (IsAllowed s id) ps
    → last_value j ps ≡ some r
    → (can_write id j ≡ true) × (accepts_input_path s id.role j ≡ true)
unfolding last_value
last_value-permits s id j r [] a h = absurd (ground (arith, h))
last_value-permits s id j r (p ∷ ps) a h = elim (Option-cases (last_value j ps)) [
  | inr (x, e) ↦ last_value-permits s id j x ps a.1 e
  | inl e ↦
      subst (λ k. (can_write id k ≡ true) × (accepts_input_path s id.role k ≡ true))
        ((text_eq_iff p.path j).0 (ground (arith, h, e))) (a.0.permitted, a.0.known)
]

pub collect-nonempty :
    (m : Map Value) (p : Patch) (ps : List Patch)
    → (q : Text × Value) × (qs : Map Value) × (collect m (p ∷ ps) ≡ q ∷ qs)
unfolding collect
collect-nonempty m p [] = insert-nonempty p.path (raw p.value) m
collect-nonempty m p (q ∷ qs) = collect-nonempty (insert p.path (raw p.value) m) q qs

-- Why a patch is refused, with the code that says so. The checks stand in the order of the code.
pub data Refusal (s : Scene) (id : Identity) (p : Patch) : ErrorCode → Type 0 where
  forbidden : can_write id p.path ≡ false → Refusal s id p write_forbidden
  unknown :
      can_write id p.path ≡ true
      → accepts_input_path s id.role p.path ≡ false
      → Refusal s id p unknown_path
  malformed :
      can_write id p.path ≡ true
      → accepts_input_path s id.role p.path ≡ true
      → is_valid_json p.value ≡ false
      → Refusal s id p invalid_value
  unfit :
      (e : ConstraintError)
      → can_write id p.path ≡ true
      → accepts_input_path s id.role p.path ≡ true
      → is_valid_json p.value ≡ true
      → check_constraint s p.path p.value ≡ some e
      → Refusal s id p invalid_value

check_patch-Refusal :
    (s : Scene) (id : Identity) (p : Patch) (code : ErrorCode)
    → check_patch s id p ≡ some code
    → Refusal s id p code
unfolding check_patch
check_patch-Refusal s id p code h = elim (Bool-cases (can_write id p.path)) [
  | inr a ↦ subst (Refusal s id p) (ground (arith, a)) (forbidden a)
  | inl a ↦ elim (Bool-cases (accepts_input_path s id.role p.path)) [
    | inr b ↦ subst (Refusal s id p) (ground (arith, a, b)) (unknown a b)
    | inl b ↦ elim (Bool-cases (is_valid_json p.value)) [
      | inr c ↦ subst (Refusal s id p) (ground (arith, a, b, c)) (malformed a b c)
      | inl c ↦ elim (Option-cases (check_constraint s p.path p.value)) [
        | inl d ↦ absurd (ground (arith, a, b, c, d))
        | inr (e, d) ↦ subst (Refusal s id p) (ground (arith, a, b, c, d)) (unfit e a b c d)
      ]
    ]
  ]
]

-- The first patch that is refused.
pub record FirstRefusal (s : Scene) (id : Identity) (ps : List Patch) (code : ErrorCode)
    (path : Text) : Type 0 where
  pub before : List Patch
  pub refused : Patch
  pub rest : List Patch
  pub split : ps ≡ before ++ (refused ∷ rest)
  pub allowed : All (IsAllowed s id) before
  pub at_path : refused.path ≡ path
  pub reason : Refusal s id refused code

pub check_patches-FirstRefusal :
    (s : Scene) (id : Identity) (ps : List Patch) (code : ErrorCode) (path : Text)
    → check_patches s id ps ≡ some (code, path)
    → FirstRefusal s id ps code path
unfolding check_patches
check_patches-FirstRefusal s id [] code path h = absurd (ground (arith, h))
check_patches-FirstRefusal s id (p ∷ ps) code path h = elim (Option-cases (check_patch s id p)) [
  | inl e ↦
      (let r = check_patches-FirstRefusal s id ps code path (ground (arith, e)) in
        record {
          before = p ∷ r.before;
          refused = r.refused;
          rest = r.rest;
          split = ap (◌∷◌ p) r.split;
          allowed = (check_patch-IsAllowed s id p e, r.allowed);
          at_path = r.at_path;
          reason = r.reason;
        })
  | inr (c, e) ↦ record {
    before = [];
    refused = p;
    rest = ps;
    split = refl;
    allowed = tt;
    at_path = ground (arith, e);
    reason = check_patch-Refusal s id p code (ground (arith, e));
  }
]
