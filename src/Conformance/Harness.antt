-- ===== src/Conformance/Harness.antt =====
-- conformance/scenario.go and conformance/harness.go: which scenarios are run and what the report
-- says of them, the placeholders of a frame, and the state that a run mirrors from the frames.
pub mod Steps
pub mod Counts
pub mod Mirror
pub mod Passes
use lumencast_go.Common.{
  ℕ, ℤ, ◌+◌, Text, codes, Bool, true, false, not, ◌&&◌, ◌||◌, Option, none, some, List, [], ◌∷◌,
  ◌++◌, any, Map, lookup, insert, text_eq, starts_with, ends_with, drop, drop_last, length,
  if◌then◌else◌,
}
use lumencast_go.Json.{
  Json, null, bool, num, str, arr, obj, Items, nil, cons, Fields, end, field, Raw, get_field,
  as_string,
}
use lumencast_go.Conformance.Match.{MatchError, match_value}

-- Tags and targets are strings.
abbrev pub tag_required : Text
tag_required = codes "required"

abbrev pub target_runtime : Text
target_runtime = codes "runtime"

abbrev pub target_any : Text
target_any = codes "any"

pub record BundleDecl : Type 0 where
  pub id : Text
  pub inline : Fields
  pub hash : Text

pub record ScenarioStep : Type 0 where
  pub kind : Text
  pub frame : Fields
  pub state : Fields
  pub duration_ms : ℤ
  pub action : Text
  pub reason : Text

pub record Scenario : Type 0 where
  pub name : Text
  pub description : Text
  pub tag : Text
  pub target : Text
  pub spec_refs : List Text
  pub bundles : List BundleDecl
  pub steps : List ScenarioStep

-- ParseScenario, after yaml.Unmarshal. `none` is the error of a missing name.
unfoldable pub parse_scenario : Scenario → Option Scenario
parse_scenario s =
    if text_eq s.name []
    then none
    else some (record s {
      target = if text_eq s.target [] then target_any else s.target;
      tag = if text_eq s.tag [] then tag_required else s.tag;
    })

-- The fields of Config on which Run decides.
pub record HarnessConfig : Type 0 where
  pub tag_filter : Text
  pub skip_scenarios : List Text

-- `err` is what runScenario returned.
pub record Result (Err : Type 0) : Type 0 where
  pub name : Text
  pub tag : Text
  pub target : Text
  pub passed : Bool
  pub skipped : Bool
  pub reason : Text
  pub err : Option Err

pub record RunReport (Err : Type 0) : Type 0 where
  pub total : ℕ
  pub passed : ℕ
  pub failed : ℕ
  pub skipped : ℕ
  pub results : List (Result Err)

abbrev pub tag_of : HarnessConfig → Text
tag_of cfg = if text_eq cfg.tag_filter [] then tag_required else cfg.tag_filter

module _ {Err : Type 0} where
  abbrev pub skipped_result : Scenario → Text → Result Err
  skipped_result s reason = record {
    name = s.name;
    tag = s.tag;
    target = s.target;
    passed = false;
    skipped = true;
    reason = reason;
    err = none;
  }

  abbrev pub run_result : Scenario → Option Err → Result Err
  run_result s err = record {
    name = s.name;
    tag = s.tag;
    target = s.target;
    passed = elim err [ none ↦ true | some e ↦ false ];
    skipped = false;
    reason = [];
    err = err;
  }

  -- A scenario that is run. Under a *testing.T a failure ends the sub-test in Fatalf, and with it
  -- the function that would have counted it.
  unfoldable pub count_run : Bool → Scenario → Option Err → RunReport Err → RunReport Err
  count_run in_test s none rep = record rep {
    passed = rep.passed + 1;
    results = rep.results ++ (run_result s none ∷ []);
  }
  count_run true s (some e) rep = rep
  count_run false s (some e) rep = record rep {
    failed = rep.failed + 1;
    results = rep.results ++ (run_result s (some e) ∷ []);
  }

  -- One turn of the loop of Run, after rep.Total++.
  unfoldable pub run_one :
      HarnessConfig → Bool → Scenario → Option Err → RunReport Err → RunReport Err
  run_one cfg in_test s err rep =
      let tag = tag_of cfg in
      if any (λ n. text_eq n s.name) cfg.skip_scenarios
      then record rep {
        skipped = rep.skipped + 1;
        results = rep.results ++ (skipped_result s (codes "skipped via SkipScenarios") ∷ []);
      }
      else if not (text_eq s.tag tag)
          && (not (text_eq tag []) && not (text_eq tag tag_required && text_eq s.tag tag_required))
      then record rep { skipped = rep.skipped + 1 }
      else if text_eq s.target target_runtime
      then record rep {
        skipped = rep.skipped + 1;
        results =
            rep.results
            ++ (skipped_result s (codes "runtime-targeted scenario, harness drives a server") ∷ []);
      }
      else count_run in_test s err rep

  -- Run, on what runScenario returns for each scenario that is run.
  unfoldable pub run_all :
      HarnessConfig → Bool → (Scenario → Option Err) → RunReport Err → List Scenario → RunReport Err
  run_all cfg in_test outcome rep [] = rep
  run_all cfg in_test outcome rep (s ∷ ss) =
      run_all cfg in_test outcome
        (run_one cfg in_test s (outcome s) (record rep { total = rep.total + 1 })) ss

  unfoldable pub run :
      HarnessConfig → Bool → (Scenario → Option Err) → List Scenario → RunReport Err
  run cfg in_test outcome ss =
      run_all cfg in_test outcome
        (record { total = 0; passed = 0; failed = 0; skipped = 0; results = [] }) ss

-- strings.TrimSuffix with ".hash"
abbrev pub trim_hash : Text → Text
trim_hash s =
    if ends_with s (codes ".hash")
    then drop_last (drop_last (drop_last (drop_last (drop_last s))))
    else s

abbrev pub bundle_id : Text → Text
bundle_id s = trim_hash (drop 8 s)

unfoldable pub substitute_text : Map Text → Map Text → Text → Text
substitute_text tokens hashes v =
    if starts_with v (codes "$TOKEN_")
    then elim (lookup v tokens) [ none ↦ v | some t ↦ t ]
    else if starts_with v (codes "$BUNDLE.") && ends_with v (codes ".hash")
    then elim (lookup (bundle_id v) hashes) [ none ↦ v | some h ↦ h ]
    else v

unfoldable mutual
  pub substitute_placeholders : Map Text → Map Text → Json → Json
  substitute_placeholders tokens hashes (str v) = str (substitute_text tokens hashes v)
  substitute_placeholders tokens hashes (obj fs) = obj (substitute_fields tokens hashes fs)
  substitute_placeholders tokens hashes (arr vs) = arr (substitute_items tokens hashes vs)
  substitute_placeholders tokens hashes v = v

  pub substitute_fields : Map Text → Map Text → Fields → Fields
  substitute_fields tokens hashes end = end
  substitute_fields tokens hashes (field k v fs) =
      field k (substitute_placeholders tokens hashes v) (substitute_fields tokens hashes fs)

  pub substitute_items : Map Text → Map Text → Items → Items
  substitute_items tokens hashes nil = nil
  substitute_items tokens hashes (cons v vs) =
      cons (substitute_placeholders tokens hashes v) (substitute_items tokens hashes vs)

abbrev pub fields_of : Option Json → Fields
fields_of (some (obj fs)) = fs
fields_of _ = end

abbrev pub items_of : Option Json → Items
items_of (some (arr vs)) = vs
items_of _ = nil

abbrev pub text_of : Option Json → Text
text_of v = elim (as_string v) [ none ↦ [] | some s ↦ s ]

-- The value of a missing key is nil.
abbrev pub value_of : Option Json → Json
value_of none = null
value_of (some v) = v

-- json.Marshal, which is a parameter: `none` is an error, and leaves no bytes.
module _ (marshal : Json → Option Raw) where
  abbrev pub marshalled : Json → Raw
  marshalled v = elim (marshal v) [ none ↦ record { bytes = []; value = none } | some r ↦ r ]

  abbrev pub mirror_state : Map Raw → Fields → Map Raw
  mirror_state m end = m
  mirror_state m (field k v fs) = mirror_state (insert k (marshalled v) m) fs

  abbrev pub mirror_patches : Map Raw → Items → Map Raw
  mirror_patches m nil = m
  mirror_patches m (cons (obj p) ps) =
      mirror_patches
        (insert (text_of (get_field (codes "path") p))
          (marshalled (value_of (get_field (codes "value") p))) m)
        ps
  mirror_patches m (cons v ps) = mirror_patches m ps

  -- A nil map reads as the empty one.
  unfoldable pub absorb_server_frame : Map Raw → Fields → Map Raw
  absorb_server_frame m frame =
      let t = text_of (get_field (codes "type") frame) in
      if text_eq t (codes "snapshot")
      then mirror_state [] (fields_of (get_field (codes "state") frame))
      else if text_eq t (codes "delta")
      then mirror_patches m (items_of (get_field (codes "patches") frame))
      else m

-- The errors of expectRuntime.
pub data RuntimeError : Type 0 where
  missing_state : Text → RuntimeError
  not_json : RuntimeError
  differs : MatchError → RuntimeError

-- What is compared with one wanted value.
unfoldable pub check_leaf : Text → Json → Option Raw → Option RuntimeError
check_leaf k v none = some (missing_state k)
check_leaf k v (some got) = elim got.value [
  | none ↦ some not_json
  | some actual ↦ elim (match_value k v actual) [ none ↦ none | some e ↦ some (differs e) ]
]

abbrev pub first_error : Option RuntimeError → Option RuntimeError → Option RuntimeError
first_error (some e) rest = some e
first_error none rest = rest

unfoldable pub expect_runtime : Map Raw → Fields → Option RuntimeError
expect_runtime m end = none
expect_runtime m (field k v want) =
    first_error (check_leaf k v (lookup k m)) (expect_runtime m want)
