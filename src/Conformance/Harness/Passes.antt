-- ===== src/Conformance/Harness/Passes.antt =====
-- Two steps of a scenario on a snapshot.
use lumencast_go.Common.{pos, ◌≡◌, Text, codes, Option, some, []}
use lumencast_go.Json.{Json, obj, Fields, end, Raw}
use lumencast_go.Conformance.Harness.Steps.{Outside, got, Exec}
use lumencast_go.Conformance.Harness.{ScenarioStep, substitute_fields, absorb_server_frame}

-- A step with what its kind uses.
abbrev pub step_of : Text → Fields → Fields → ScenarioStep
step_of kind frame state = record {
  kind = kind;
  frame = frame;
  state = state;
  duration_ms = pos 0;
  action = [];
  reason = [];
}

module _ (marshal : Json → Option Raw) where
  module _ (e : Exec) (template want frame fs : Fields) (raw : Raw) (out out' : Outside)
      (received : out.incoming ≡ got raw) (decoded : raw.value ≡ some (obj frame)) where
    abbrev server_sends : ScenarioStep
    server_sends = step_of (codes "server-sends") template end

    abbrev runtime_state : ScenarioStep
    runtime_state = step_of (codes "expect-runtime-state") end want

    abbrev mirrored : Exec
    mirrored = record e { runtime_state = absorb_server_frame marshal e.runtime_state frame }

    abbrev expected : Fields
    expected = substitute_fields e.tokens e.bundle_hashes template
