-- ===== src/Ftr/Gates.antt =====
-- workers/src/marketmind_workers/ftr/validation/gates.py: the gates and the verdict. The texts of the
-- notes and the copy of the metrics in the report are left out.
pub mod Verdicts
mod Tests
use Prim.Native.String.{String}
use marketmind_open.Common.{
  ℕ, Bool, true, false, ◌&&◌, Option, none, some, List, [], ◌∷◌, ◌++◌, ◌==◌, if◌then◌else◌,
}
use marketmind_open.Ftr.Floats.{Floats}

pub data Verdict : Type 0 where
  pass pass_low_frequency conditional_pass_infeasible_venue rejected insufficient_data : Verdict

-- The metrics that the gates read.
pub record NetMetrics (F : Type 0) : Type 0 where
  pub sharpe : F
  pub profit_factor : F
  pub expectancy : F
  pub num_trades : ℕ
  pub trades_per_day : F
  pub cost_over_gross_edge : F

pub record GateInputs (F : Type 0) : Type 0 where
  pub metrics : NetMetrics F
  pub dsr_probability : Option F
  pub positive_fold_fraction : Option F
  pub random_entry_percentile : Option F
  pub plateau_ratio : Option F
  pub expectancy_at_1p5x_cost : Option F
  pub n_trials : ℕ

pub record GateReport : Type 0 where
  pub strategy_id : String
  pub venue_profile : String
  pub uk_execution_feasible : Bool
  pub verdict : Verdict
  pub failed_gates : List String
  pub passed_gates : List String
  pub skipped_gates : List String
  pub n_trials : ℕ

-- The lists of failed, passed and skipped gates.
pub record Lists : Type 0 where
  pub failed : List String
  pub passed : List String
  pub skipped : List String

abbrev pub none_yet : Lists
none_yet = record { failed = []; passed = []; skipped = [] }

unfoldable pub check : String → Option Bool → Lists → Lists
check name none lists = record lists { skipped = lists.skipped ++ name ∷ [] }
check name (some true) lists = record lists { passed = lists.passed ++ name ∷ [] }
check name (some false) lists = record lists { failed = lists.failed ++ name ∷ [] }

abbrev pub is_empty : List String → Bool
is_empty [] = true
is_empty (name ∷ names) = false

-- `None if x is None else test(x)`
abbrev pub test_of : {F : Type 0} → (F → Bool) → Option F → Option Bool
test_of test none = none
test_of test (some x) = some (test x)

module _ {F : Type 0} (floats : Floats F) where
  -- x >= n / 10 ^ k and x > 0.
  abbrev pub at_least : ℕ → ℕ → F → Bool
  at_least n k x = floats.le (floats.constant n k) x

  abbrev pub is_positive : F → Bool
  is_positive x = floats.lt (floats.constant 0 0) x

  -- The eight gates before the frequency, in the order of the calls of `check`.
  abbrev pub gates : GateInputs F → List (String × Option Bool)
  gates inputs =
      let m = inputs.metrics in
      ("G1_expectancy_pf", some (is_positive m.expectancy && at_least 115 2 m.profit_factor))
      ∷ ("G2_sharpe", some (at_least 8 1 m.sharpe))
      ∷ ("G3_dsr", test_of (at_least 95 2) inputs.dsr_probability)
      ∷ ("G4_folds_positive", test_of (at_least 60 2) inputs.positive_fold_fraction)
      ∷ ("G5_beats_random", test_of (at_least 95 2) inputs.random_entry_percentile)
      ∷ ("G6_cost_over_edge", some (floats.le m.cost_over_gross_edge (floats.constant 5 1)))
      ∷ ("G7_plateau", test_of (at_least 70 2) inputs.plateau_ratio)
      ∷ ("G8_cost_sensitivity", test_of is_positive inputs.expectancy_at_1p5x_cost)
      ∷ []

  unfoldable pub check_all : List (String × Option Bool) → Lists → Lists
  check_all [] lists = lists
  check_all ((name, ok) ∷ rest) lists = check_all rest (check name ok lists)

  abbrev pub low_freq : GateInputs F → Bool
  low_freq inputs = floats.lt inputs.metrics.trades_per_day (floats.constant 2 1)

  abbrev pub high_freq : GateInputs F → Bool
  high_freq inputs = floats.lt (floats.constant 5 0) inputs.metrics.trades_per_day

  -- Gate 9: below the band nothing is said yet.
  unfoldable pub check_frequency : GateInputs F → Lists → Lists
  check_frequency inputs lists =
      if high_freq inputs
      then record lists { failed = lists.failed ++ "G9_frequency_above_band" ∷ [] }
      else (if low_freq inputs
          then lists
          else record lists { passed = lists.passed ++ "G9_frequency_in_band" ∷ [] })

  unfoldable pub verdict_of : Bool → GateInputs F → List String → Verdict
  verdict_of uk_execution_feasible inputs failed =
      if is_empty failed
      then (if low_freq inputs
          then Verdict.pass_low_frequency
          else (if uk_execution_feasible
              then Verdict.pass
              else Verdict.conditional_pass_infeasible_venue))
      else Verdict.rejected

  unfoldable pub archived : GateInputs F → Lists → List String
  archived inputs lists =
      if is_empty lists.failed && low_freq inputs
      then lists.passed ++ "G9_frequency_below_band_archived" ∷ []
      else lists.passed

  unfoldable pub evaluate_gates : String → String → Bool → GateInputs F → GateReport
  evaluate_gates strategy_id venue_profile uk_execution_feasible inputs =
      let lists = check_frequency inputs (check_all (gates inputs) none_yet) in
      if inputs.metrics.num_trades == 0
      then record {
        strategy_id = strategy_id;
        venue_profile = venue_profile;
        uk_execution_feasible = uk_execution_feasible;
        verdict = Verdict.rejected;
        failed_gates = "G9_frequency_zero_trades" ∷ [];
        passed_gates = [];
        skipped_gates = "G1" ∷ "G2" ∷ "G3" ∷ "G4" ∷ "G5" ∷ "G6" ∷ "G7" ∷ "G8" ∷ [];
        n_trials = inputs.n_trials;
      }
      else record {
        strategy_id = strategy_id;
        venue_profile = venue_profile;
        uk_execution_feasible = uk_execution_feasible;
        verdict = verdict_of uk_execution_feasible inputs lists.failed;
        failed_gates = lists.failed;
        passed_gates = archived inputs lists;
        skipped_gates = lists.skipped;
        n_trials = inputs.n_trials;
      }
