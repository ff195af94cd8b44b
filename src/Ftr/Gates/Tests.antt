-- ===== src/Ftr/Gates/Tests.antt =====
-- Gates at concrete metrics.
use marketmind_open.Common.{◌≡◌, refl, true, false, none, some, [], ◌∷◌}
use marketmind_open.Decimal.{Decimal, literal}
use marketmind_open.Ftr.Exact.{exact}
use marketmind_open.Ftr.Gates.{
  Verdict, GateInputs, check, check_all, check_frequency, verdict_of, evaluate_gates,
}
use marketmind_open.Ftr.Gates.Verdicts.{IsPassing, evaluate_gates_pass}

abbrev good : GateInputs Decimal
good = record {
  metrics = record {
    sharpe = literal 12 1;
    profit_factor = literal 13 1;
    expectancy = literal 2 3;
    num_trades = 120;
    trades_per_day = literal 1 0;
    cost_over_gross_edge = literal 3 1;
  };
  dsr_probability = some (literal 97 2);
  positive_fold_fraction = some (literal 70 2);
  random_entry_percentile = some (literal 96 2);
  plateau_ratio = none;
  expectancy_at_1p5x_cost = some (literal 1 3);
  n_trials = 12;
}

passed : (evaluate_gates exact "trend" "kraken_pro_uk_tier0" true good).verdict ≡ Verdict.pass
unfolding evaluate_gates check_all check check_frequency verdict_of
passed = refl

evaluate_gates_pass_example : IsPassing exact good × (true ≡ true)
evaluate_gates_pass_example =
    (evaluate_gates_pass exact "trend" "kraken_pro_uk_tier0" true good).0 passed

skipped :
    (evaluate_gates exact "trend" "kraken_pro_uk_tier0" true good).skipped_gates ≡ "G7_plateau" ∷ []
unfolding evaluate_gates check_all check check_frequency verdict_of
skipped = refl

-- Below the band the venue no longer counts.
abbrev rare : GateInputs Decimal
rare = record good { metrics = record good.metrics { trades_per_day = literal 1 1 } }

low_frequency :
    (evaluate_gates exact "trend" "binance_spot_reference" false rare).verdict
    ≡ Verdict.pass_low_frequency
unfolding evaluate_gates check_all check check_frequency verdict_of
low_frequency = refl
