-- ===== src/Examples/Harness.antt =====
-- A report of three scenarios, and two steps on a snapshot.
use lumencast_go.Common.{
  ◌≡◌, Text, codes, true, not, ◌&&◌, Option, none, some, List, [], ◌∷◌, length, if◌then◌else◌,
  text_eq,
}
use lumencast_go.Json.{Json, str, obj, Fields, end, field, Raw}
use lumencast_go.Conformance.Harness.{Scenario, HarnessConfig, run}
use lumencast_go.Conformance.Harness.Steps.{Outside, got, timed_out, Exec}
use lumencast_go.Conformance.Harness.Counts.{is_run, how_many, fails, run_counts}

abbrev scenario : Text → Text → Scenario
scenario name tag = record {
  name = name;
  description = [];
  tag = tag;
  target = codes "server";
  spec_refs = [];
  bundles = [];
  steps = [];
}

abbrev suite : List Scenario
suite =
    scenario (codes "a") (codes "required")
    ∷ scenario (codes "b") (codes "required")
    ∷ scenario (codes "c") (codes "extended")
    ∷ []

abbrev config : HarnessConfig
config = record { tag_filter = []; skip_scenarios = [] }

-- The second scenario fails.
abbrev outcome : Scenario → Option Text
outcome s = if text_eq s.name (codes "b") then some (codes "failed") else none

run_counts_example :
    let r = run config true outcome suite in
    (r.total ≡ length suite)
    × (r.passed ≡ how_many (λ s. is_run config s && not (fails (outcome s))) suite)
    × (r.failed ≡ how_many (λ s. not true && (is_run config s && fails (outcome s))) suite)
    × (r.skipped ≡ how_many (λ s. not (is_run config s)) suite)
run_counts_example = run_counts config true outcome suite

abbrev shown_fields : Fields
shown_fields = field (codes "title") (str (codes "hi")) end

abbrev received : Fields
received =
    field (codes "type") (str (codes "snapshot")) (field (codes "state") (obj shown_fields) end)

abbrev wanted : Fields
wanted = field (codes "type") (str (codes "snapshot")) end

abbrev exact : Json → Option Raw
exact v = some (record { bytes = []; value = some v })

abbrev harness : Exec
harness = record { tokens = []; bundle_hashes = []; runtime_state = [] }

abbrev answers : Outside
answers = record {
  wrote = true;
  incoming = got (record { bytes = []; value = some (obj received) });
  emitted = none;
  shown_state = none;
}

abbrev nothing : Outside
nothing = record answers { incoming = timed_out }
