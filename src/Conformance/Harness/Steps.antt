-- ===== src/Conformance/Harness/Steps.antt =====
-- conformance/harness.go: the steps of a scenario, on what the socket and the driver answer.
use lumencast_go.Common.{
  ℕ, Text, codes, Bool, true, false, not, ◌||◌, Option, none, some, List, [], ◌∷◌, Map, text_eq,
  ◌==◌, if◌then◌else◌,
}
use lumencast_go.Json.{Json, null, obj, arr, Items, nil, cons, Fields, end, field, Raw, get_field}
use lumencast_go.Conformance.Match.{MatchError, match_frame, match_value}
use lumencast_go.Conformance.Harness.{
  ScenarioStep, RuntimeError, expect_runtime, substitute_fields, substitute_placeholders,
  absorb_server_frame, text_of,
}

-- What a read of the socket returns: a frame, the end of its deadline, a close with its status, or
-- another error.
pub data Incoming : Type 0 where
  got : Raw → Incoming
  timed_out : Incoming
  closed : ℕ → Incoming
  broken : Incoming

-- What the outside does in a step: whether the write succeeds, what the read returns, whether the
-- driver can emit and succeeds in it, and the state that it shows, if there is a driver.
pub record Outside : Type 0 where
  pub wrote : Bool
  pub incoming : Incoming
  pub emitted : Option Bool
  pub shown_state : Option Fields

pub record Exec : Type 0 where
  pub tokens : Map Text
  pub bundle_hashes : Map Text
  pub runtime_state : Map Raw

pub data StepError : Type 0 where
  unsupported_kind : Text → StepError
  unmarshalled : StepError
  unwritten : StepError
  unread : StepError
  undecoded : StepError
  mismatch : MatchError → StepError
  runtime : RuntimeError → StepError
  server_missing : Text → StepError
  only_delta : StepError
  no_emitter : StepError
  no_patches : StepError
  patch_not_map : StepError
  emit_failed : StepError
  not_silent : StepError
  not_closed : StepError
  unknown_action : Text → StepError

-- json.Unmarshal into a map: null leaves it nil.
abbrev pub decode_map : Raw → Option Fields
decode_map r = elim r.value [
  | none ↦ none
  | some v ↦ elim v [ obj fs ↦ some fs | null ↦ some end | _ ↦ none ]
]

unfoldable pub expect_quiet : Incoming → Option StepError
expect_quiet (got raw) = some not_silent
expect_quiet timed_out = none
expect_quiet (closed code) =
    if code == 1000 || (code == 1001 || code == 1005) then none else some unread
expect_quiet broken = some unread

unfoldable pub expect_client_action : Text → Incoming → Option StepError
expect_client_action action incoming =
    if text_eq action (codes "close-with-reason") || text_eq action (codes "reconnect")
    then elim incoming [ got raw ↦ some not_closed | _ ↦ none ]
    else some (unknown_action action)

abbrev pub first_step_error : Option StepError → Option StepError → Option StepError
first_step_error (some e) rest = some e
first_step_error none rest = rest

-- The loop of expectServerState.
unfoldable pub check_server_state : Fields → Fields → Option StepError
check_server_state state end = none
check_server_state state (field k v want) =
    first_step_error
      (elim (get_field k state) [
        | none ↦ some (server_missing k)
        | some found ↦ elim (match_value k v found) [ none ↦ none | some e ↦ some (mismatch e) ]
      ])
      (check_server_state state want)

abbrev pub runtime_error : Option RuntimeError → Option StepError
runtime_error none = none
runtime_error (some e) = some (runtime e)

unfoldable pub expect_server_state : Exec → Option Fields → Fields → Option StepError
expect_server_state e none want = runtime_error (expect_runtime e.runtime_state want)
expect_server_state e (some state) want = check_server_state state want

-- Whether every patch of a delta is a map.
abbrev pub all_maps : Items → Bool
all_maps nil = true
all_maps (cons (obj p) ps) = all_maps ps
all_maps (cons v ps) = false

module _ (marshal : Json → Option Raw) where
  unfoldable pub send : Exec → Bool → Fields → Option StepError
  send e wrote frame =
      elim (marshal (substitute_placeholders e.tokens e.bundle_hashes (obj frame))) [
        | none ↦ some unmarshalled
        | some raw ↦ if wrote then none else some unwritten
      ]

  -- expectServer, once a frame is decoded.
  unfoldable pub match_and_absorb : Exec → Fields → Fields → Exec × Option StepError
  match_and_absorb e expected actual =
      elim (match_frame (substitute_fields e.tokens e.bundle_hashes expected) actual) [
        | some why ↦ (e, some (mismatch why))
        | none ↦
            (record e { runtime_state = absorb_server_frame marshal e.runtime_state actual }, none)
      ]

  unfoldable pub expect_server : Exec → Incoming → Fields → Exec × Option StepError
  expect_server e (got raw) expected = elim (decode_map raw) [
    | none ↦ (e, some undecoded)
    | some actual ↦ match_and_absorb e expected actual
  ]
  expect_server e incoming expected = (e, some unread)

  unfoldable pub emit_and_expect : Exec → Outside → Fields → Option Json → Exec × Option StepError
  emit_and_expect e out expected (some (arr patches)) =
      if not (all_maps patches) then (e, some patch_not_map) else elim out.emitted [
        | some true ↦ expect_server e out.incoming expected
        | _ ↦ (e, some emit_failed)
      ]
  emit_and_expect e out expected _ = (e, some no_patches)

  unfoldable pub server_emits : Exec → Outside → Fields → Exec × Option StepError
  server_emits e out expected =
      if not (text_eq (text_of (get_field (codes "type") expected)) (codes "delta"))
      then (e, some only_delta)
      else elim out.emitted [
        | none ↦ (e, some no_emitter)
        | some ok ↦ emit_and_expect e out expected (get_field (codes "patches") expected)
      ]

  unfoldable pub run_step : Exec → ScenarioStep → Outside → Exec × Option StepError
  run_step e step out =
      if text_eq step.kind (codes "client-sends")
      then (e, send e out.wrote step.frame)
      else if text_eq step.kind (codes "server-sends")
      then expect_server e out.incoming step.frame
      else if text_eq step.kind (codes "server-emits")
      then server_emits e out step.frame
      else if text_eq step.kind (codes "expect-runtime-state")
      then (e, runtime_error (expect_runtime e.runtime_state step.state))
      else if text_eq step.kind (codes "expect-server-state")
      then (e, expect_server_state e out.shown_state step.state)
      else if text_eq step.kind (codes "expect-no-frame-for")
      then (e, expect_quiet out.incoming)
      else if text_eq step.kind (codes "expect-client-action")
      then (e, expect_client_action step.action out.incoming)
      else (e, some (unsupported_kind step.kind))

  -- The loop of runScenario, up to the first step that fails.
  unfoldable pub run_steps : Exec → List (ScenarioStep × Outside) → Exec × Option StepError
  run_steps e [] = (e, none)
  run_steps e ((step, out) ∷ steps) =
      let (e', failure) = run_step e step out in
      elim failure [ some why ↦ (e', some why) | none ↦ run_steps e' steps ]
