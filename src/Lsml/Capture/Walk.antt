-- ===== src/Lsml/Capture/Walk.antt =====
-- The loop of CheckZabCaptureNodes ends, and meets every object that the layout leads to.
use lumencast_go.Common.{
  ℕ, zero, suc, ◌≤◌, ◌<◌, ◌≡◌, refl, inl, inr, Option, none, some, List, [], ◌∷◌, arith,
}
use lumencast_go.Json.{Json, null, bool, num, str, arr, obj, Fields}
use lumencast_go.Lsml.Capture.{
  CaptureError, check_object, push_parts, Outcome, passed, failed, out_of_fuel, or_fail,
  check_stack, json_size, check_zab_capture_nodes,
}
use lumencast_go.Lsml.Capture.Reach.{itself, Fine, Explains}
use lumencast_go.Lsml.Capture.Size.{stack_size, stack_size-push_parts}
use lumencast_go.Lsml.Capture.Parts.{Fine-parts, Bad-parts}

-- One object, and the rest of the loop.
Explains-object :
    (fs : Fields) (stack : List Json) (found : Option CaptureError) (rest : Outcome)
    → check_object fs ≡ found
    → Explains rest (push_parts fs stack)
    → Explains (or_fail found rest) (obj fs ∷ stack)
unfolding or_fail
Explains-object fs stack (some e) rest is h = inl (fs, itself, is)
Explains-object fs stack none passed is h = Fine-parts fs stack is h
Explains-object fs stack none (failed e) is h = Bad-parts e fs stack h
Explains-object fs stack none out_of_fuel is h = absurd h

-- Any other value leads to no object.
Explains-other :
    (v : Json) (stack : List Json) (rest : Outcome)
    → Fine v
    → Explains rest stack
    → Explains rest (v ∷ stack)
Explains-other v stack passed f h = (f, h)
Explains-other v stack (failed e) f h = inr h
Explains-other v stack out_of_fuel f h = absurd h

json_size_pos : (v : Json) → 0 < json_size v
json_size_pos null = omega arith
json_size_pos (bool b) = omega arith
json_size_pos (num n) = omega arith
json_size_pos (str s) = omega arith
json_size_pos (arr vs) = omega arith
json_size_pos (obj fs) = omega arith

check_stack-Explains :
    (fuel : ℕ) (stack : List Json)
    → stack_size stack ≤ fuel
    → Explains (check_stack fuel stack) stack
unfolding check_stack
check_stack-Explains fuel [] h = tt
check_stack-Explains zero (v ∷ stack) h = absurd (ground (arith, json_size_pos v))
check_stack-Explains (suc fuel) (obj fs ∷ stack) h =
    let rest =
      check_stack-Explains fuel (push_parts fs stack)
        (omega (arith, h, stack_size-push_parts fs stack)) in
    Explains-object fs stack (check_object fs) (check_stack fuel (push_parts fs stack)) refl rest
check_stack-Explains (suc fuel) (null ∷ stack) h =
    Explains-other null stack (check_stack fuel stack) tt
      (check_stack-Explains fuel stack (omega (arith, h)))
check_stack-Explains (suc fuel) ((bool b) ∷ stack) h =
    Explains-other (bool b) stack (check_stack fuel stack) tt
      (check_stack-Explains fuel stack (omega (arith, h)))
check_stack-Explains (suc fuel) ((num n) ∷ stack) h =
    Explains-other (num n) stack (check_stack fuel stack) tt
      (check_stack-Explains fuel stack (omega (arith, h)))
check_stack-Explains (suc fuel) ((str t) ∷ stack) h =
    Explains-other (str t) stack (check_stack fuel stack) tt
      (check_stack-Explains fuel stack (omega (arith, h)))
check_stack-Explains (suc fuel) ((arr vs) ∷ stack) h =
    Explains-other (arr vs) stack (check_stack fuel stack) tt
      (check_stack-Explains fuel stack (omega (arith, h)))

-- The walk never runs out of fuel. If it passes, every object that the children and templates of the
-- layout lead to passes; if it fails, one of these objects fails with the same error.
pub check_zab_capture_nodes-Explains :
    (root : Json) → Explains (check_zab_capture_nodes root) (root ∷ [])
unfolding check_zab_capture_nodes
check_zab_capture_nodes-Explains root =
    check_stack-Explains (json_size root) (root ∷ []) (omega arith)
