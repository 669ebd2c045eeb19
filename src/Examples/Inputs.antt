-- ===== src/Examples/Inputs.antt =====
-- Frames of an operator: one that is applied, and one whose second patch is refused.
use lumencast_go.Common.{
  pos, ◌≡◌, ◌≢◌, ◌⊎◌, refl, codes, true, none, some, [], ◌∷◌, arith, All, lookup, insert, text_eq,
  starts_with,
}
use lumencast_go.Protocol.ErrorCodes.{invalid_value}
use lumencast_go.Protocol.Frames.{Input}
use lumencast_go.Protocol.LeafPath.{has_prefix}
use lumencast_go.Protocol.Roles.{role_operator}
use lumencast_go.Server.Auth.{Identity, can_write}
use lumencast_go.Server.Inputs.{
  check_patch, check_patches, check_constraint, accepts_input_path, apply_input, collect,
}
use lumencast_go.Server.Inputs.Atomic.{IsAllowed, FirstRefusal, last_value}
use lumencast_go.Server.Inputs.Commit.{
  apply_input_refuses, apply_input_writes, apply_input_permitted,
}
use lumencast_go.Server.Store.{apply_patches, apply_loop, encode_value}
use lumencast_go.Server.Scene.{emit_with_cause, finish_emit, advance}
use lumencast_go.Examples.Data.{title, score, hello, broken, scene, heap}

abbrev pub operator : Identity
operator = record { subject = codes "ana"; role = role_operator; paths = [] }

abbrev pub good : Input
good = record {
  v = pos 1;
  type = codes "input";
  patches = record { path = title; value = hello; transition = none } ∷ [];
  client_msg_id = codes "m1";
}

abbrev bad : Input
bad = record good {
  patches =
      record { path = title; value = hello; transition = none }
      ∷ record { path = score; value = broken; transition = none }
      ∷ [];
}

good-IsAllowed :
    All (IsAllowed scene operator) (record { path = title; value = hello; transition = none } ∷ [])
unfolding can_write accepts_input_path check_constraint has_prefix text_eq starts_with lookup
good-IsAllowed =
    (record { permitted = refl; known = refl; well_formed = refl; conforms = refl }, tt)

bad_refused : (apply_input (λ i. 1) scene heap operator bad).2 ≡ some (invalid_value, score)
unfolding apply_input check_patches check_patch can_write accepts_input_path check_constraint
    has_prefix text_eq starts_with lookup
bad_refused = refl

apply_input_refuses_example :
    ((apply_input (λ i. 1) scene heap operator bad).0 ≡ scene)
    × ((apply_input (λ i. 1) scene heap operator bad).1 ≡ heap)
    × (((bad.patches ≡ []) × (invalid_value ≡ invalid_value) × (score ≡ []))
        ⊎ FirstRefusal scene operator bad.patches invalid_value score)
apply_input_refuses_example =
    apply_input_refuses (λ i. 1) scene heap operator bad invalid_value score bad_refused

apply_input_writes_example :
    ((apply_input (λ i. 1) scene heap operator good).2 ≡ none)
    × ((apply_input (λ i. 1) scene heap operator good).0.seq.cur ≡ 4)
    × (lookup title (apply_input (λ i. 1) scene heap operator good).0.store
        ≡ (elim (last_value title good.patches) [
          | none ↦ lookup title scene.store
          | some r ↦ some r
        ]))
apply_input_writes_example =
    apply_input_writes (λ i. 1) scene heap operator good
      (record { path = title; value = hello; transition = none }) [] title refl good-IsAllowed
      (omega arith)

title_changes :
    lookup title (apply_input (λ i. 1) scene heap operator good).0.store ≢ lookup title scene.store
unfolding apply_input check_patches check_patch can_write accepts_input_path check_constraint
    has_prefix text_eq starts_with lookup collect insert emit_with_cause finish_emit apply_patches
    apply_loop encode_value advance
title_changes z = absurd (ground (arith, z))

apply_input_permitted_example :
    (can_write operator title ≡ true) × (accepts_input_path scene operator.role title ≡ true)
apply_input_permitted_example =
    apply_input_permitted (λ i. 1) scene heap operator good title title_changes
