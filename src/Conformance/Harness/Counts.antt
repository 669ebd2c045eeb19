-- ===== src/Conformance/Harness/Counts.antt =====
-- The counters of a report.
use lumencast_go.Common.{
  inl, inr, ℕ, ◌+◌, ◌≡◌, refl, Text, Bool, true, false, not, ◌&&◌, Option, none, some, List, [],
  ◌∷◌, any, arith, text_eq, text_eq_iff, if◌then◌else◌, length, Bool-cases,
}
use lumencast_go.Conformance.Harness.{
  Scenario, HarnessConfig, RunReport, tag_of, tag_required, target_runtime, count_run, run_one,
  run_all, run,
}

-- A scenario of the wanted tag that is not skipped by its name and can be run on a server.
abbrev pub is_run : HarnessConfig → Scenario → Bool
is_run cfg s =
    not (any (λ n. text_eq n s.name) cfg.skip_scenarios)
    && (text_eq s.tag (tag_of cfg) && not (text_eq s.target target_runtime))

abbrev pub how_many : (Scenario → Bool) → List Scenario → ℕ
how_many p [] = 0
how_many p (s ∷ ss) = (if p s then 1 else 0) + how_many p ss

abbrev pub fails : {Err : Type 0} → Option Err → Bool
fails none = false
fails (some e) = true

tag_of-named : (cfg : HarnessConfig) → text_eq (tag_of cfg) [] ≡ false
unfolding text_eq
tag_of-named cfg = ground arith

same_tag : (a b c : Text) → text_eq b c ≡ true → text_eq a c ≡ true → text_eq a b ≡ true
same_tag a b c e k = ground (arith, e, k, text_eq_iff b c, text_eq_iff a c, text_eq_iff a b)

module _ {Err : Type 0} (cfg : HarnessConfig) where
  -- The branches of one turn of the loop.
  run_one_branches :
      (in_test : Bool) (s : Scenario) (err : Option Err) (rep : RunReport Err)
      → (is_run cfg s ≡ true → run_one cfg in_test s err rep ≡ count_run in_test s err rep)
        × (is_run cfg s ≡ false
            → let r = run_one cfg in_test s err rep in
              (r.total ≡ rep.total)
              × (r.passed ≡ rep.passed)
              × (r.failed ≡ rep.failed)
              × (r.skipped ≡ rep.skipped + 1))
  unfolding run_one
  run_one_branches in_test s err rep = (
    λ e. ground (arith, e, tag_of-named cfg, same_tag s.tag (tag_of cfg) tag_required),
    λ e. (
      ground (arith, e, tag_of-named cfg, same_tag s.tag (tag_of cfg) tag_required),
      ground (arith, e, tag_of-named cfg, same_tag s.tag (tag_of cfg) tag_required),
      ground (arith, e, tag_of-named cfg, same_tag s.tag (tag_of cfg) tag_required),
      ground (arith, e, tag_of-named cfg, same_tag s.tag (tag_of cfg) tag_required),
    ),
  )

  count_run_counts :
      (in_test : Bool) (s : Scenario) (err : Option Err) (rep : RunReport Err)
      → let r = count_run in_test s err rep in
        (r.total ≡ rep.total)
        × (r.passed ≡ rep.passed + (if not (fails err) then 1 else 0))
        × (r.failed ≡ rep.failed + (if not in_test && fails err then 1 else 0))
        × (r.skipped ≡ rep.skipped + 0)
  unfolding count_run
  count_run_counts true s none rep = (refl, refl, omega arith, omega arith)
  count_run_counts false s none rep = (refl, refl, omega arith, omega arith)
  count_run_counts true s (some e) rep = (refl, omega arith, omega arith, omega arith)
  count_run_counts false s (some e) rep = (refl, omega arith, refl, omega arith)

  -- What one scenario adds.
  run_one_counts :
      (in_test : Bool) (s : Scenario) (err : Option Err) (rep : RunReport Err)
      → let r = run_one cfg in_test s err rep in
        (r.total ≡ rep.total)
        × (r.passed ≡ rep.passed + (if is_run cfg s && not (fails err) then 1 else 0))
        × (r.failed ≡ rep.failed + (if not in_test && (is_run cfg s && fails err) then 1 else 0))
        × (r.skipped ≡ rep.skipped + (if not (is_run cfg s) then 1 else 0))
  run_one_counts in_test s err rep =
      let (runs, skips) = run_one_branches in_test s err rep in
      elim (Bool-cases (is_run cfg s)) [
        | inl e ↦ rw (runs e, e) (count_run_counts in_test s err rep)
        | inr e ↦
            (let (a, b, c, d) = skips e in
              rw e (a, omega (arith, b), ground (arith, c), omega (arith, d)))
      ]

  abbrev Adds : RunReport Err → RunReport Err → ℕ → ℕ → ℕ → ℕ → Type 0
  Adds rep r total passed failed skipped =
      (r.total ≡ rep.total + total)
      × (r.passed ≡ rep.passed + passed)
      × (r.failed ≡ rep.failed + failed)
      × (r.skipped ≡ rep.skipped + skipped)

  module _ (in_test : Bool) (outcome : Scenario → Option Err) where
    run_all-Adds :
        (ss : List Scenario) (rep : RunReport Err)
        → Adds rep
            (run_all cfg in_test outcome rep ss)
            (length ss)
            (how_many (λ s. is_run cfg s && not (fails (outcome s))) ss)
            (how_many (λ s. not in_test && (is_run cfg s && fails (outcome s))) ss)
            (how_many (λ s. not (is_run cfg s)) ss)
    unfolding run_all
    run_all-Adds [] rep = (omega arith, omega arith, omega arith, omega arith)
    run_all-Adds (s ∷ ss) rep =
        let next = record rep { total = rep.total + 1 } in
        let (a, b, c, d) = run_one_counts in_test s (outcome s) next in
        let (t, p, f, k) = run_all-Adds ss (run_one cfg in_test s (outcome s) next) in
        (omega (arith, a, t), omega (arith, b, p), omega (arith, c, f), omega (arith, d, k))

    -- The report of Run counts every scenario in Total, in Skipped those that are skipped by their
    -- name, have another tag than the wanted one or are for a runtime, and in Passed those that are
    -- run and do not fail. Those that are run and fail are counted in Failed if Run is called
    -- without a *testing.T, and with one in no counter.
    pub run_counts :
        (ss : List Scenario)
        → let r = run cfg in_test outcome ss in
          (r.total ≡ length ss)
          × (r.passed ≡ how_many (λ s. is_run cfg s && not (fails (outcome s))) ss)
          × (r.failed ≡ how_many (λ s. not in_test && (is_run cfg s && fails (outcome s))) ss)
          × (r.skipped ≡ how_many (λ s. not (is_run cfg s)) ss)
    unfolding run
    run_counts ss =
        let (t, p, f, k) =
          run_all-Adds ss
            (record { total = 0; passed = 0; failed = 0; skipped = 0; results = [] }) in
        (omega (arith, t), omega (arith, p), omega (arith, f), omega (arith, k))
