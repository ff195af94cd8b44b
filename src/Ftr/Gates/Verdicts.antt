-- ===== src/Ftr/Gates/Verdicts.antt =====
-- What the verdict says of the gates.
use Prim.Native.String.{String}
use marketmind_open.Common.{
  ℕ, ◌≡◌, ◌≢◌, ◌↔◌, refl, ◌∙◌, sym, Bool, true, false, not, ◌&&◌, Option, none, some, List, [], ◌∷◌,
  ◌++◌, All, ◌==◌, inl, inr, Bool-cases, arith,
}
use marketmind_open.Ftr.Floats.{Floats}
use marketmind_open.Ftr.Gates.{
  Verdict, GateInputs, Lists, none_yet, test_of, at_least, is_positive, check, gates, check_all,
  low_freq, high_freq, is_empty, check_frequency, verdict_of, evaluate_gates,
}

-- A gate that did not fail: it passed, or it had no input.
abbrev pub is_clear : Option Bool → Bool
is_clear none = true
is_clear (some true) = true
is_clear (some false) = false

is_empty-append : (xs : List String) (x : String) → is_empty (xs ++ x ∷ []) ≡ false
is_empty-append [] x = refl
is_empty-append (y ∷ xs) x = refl

checked :
    (name : String) (result : Option Bool) (lists : Lists)
    → is_empty (check name result lists).failed ≡ is_empty lists.failed && is_clear result
unfolding check
checked name none lists = ground arith
checked name (some true) lists = ground arith
checked name (some false) lists = ground (arith, is_empty-append lists.failed name)

module _ {F : Type 0} (floats : Floats F) where
  abbrev pub AllClear : List (String × Option Bool) → Type 0
  AllClear gs = All (λ g. is_clear g.1 ≡ true) gs

  none_failed :
      (gs : List (String × Option Bool)) (lists : Lists)
      → is_empty (check_all floats gs lists).failed ≡ true
      → (is_empty lists.failed ≡ true) × AllClear gs
  unfolding check_all
  none_failed [] lists h = (h, tt)
  none_failed ((name, result) ∷ gs) lists h =
      let (first, rest) = none_failed gs (check name result lists) h in
      let both = sym (checked name result lists) ∙ first in
      (ground (arith, both), (ground (arith, both), rest))

  all_clear :
      (gs : List (String × Option Bool)) (lists : Lists)
      → is_empty lists.failed ≡ true
      → AllClear gs
      → is_empty (check_all floats gs lists).failed ≡ true
  unfolding check_all
  all_clear [] lists h clear = h
  all_clear ((name, result) ∷ gs) lists h clear =
      all_clear gs (check name result lists)
        (checked name result lists ∙ ground (arith, h, clear.0)) clear.1

  frequency :
      (inputs : GateInputs F) (lists : Lists)
      → is_empty (check_frequency floats inputs lists).failed
        ≡ is_empty lists.failed && not (high_freq floats inputs)
  unfolding check_frequency
  frequency inputs lists = ground (arith, is_empty-append lists.failed "G9_frequency_above_band")

  -- A condition on an input, where it is given.
  abbrev pub IfGiven : (F → Type 0) → Option F → Type 0
  IfGiven P none = Unit
  IfGiven P (some x) = P x

  -- n / 10 ^ k ≤ x
  abbrev pub IsAtLeast : ℕ → ℕ → F → Type 0
  IsAtLeast n k x = floats.le (floats.constant n k) x ≡ true

  -- 0 < x
  abbrev pub IsPositive : F → Type 0
  IsPositive x = floats.lt (floats.constant 0 0) x ≡ true

  -- What a PASS asks of the inputs: its trades, the eight gates and the band of trades.
  pub record IsPassing (inputs : GateInputs F) : Type 0 where
    pub traded : inputs.metrics.num_trades ≢ 0
    pub expectancy : IsPositive inputs.metrics.expectancy
    pub profit_factor : IsAtLeast 115 2 inputs.metrics.profit_factor
    pub sharpe : IsAtLeast 8 1 inputs.metrics.sharpe
    pub dsr : IfGiven (IsAtLeast 95 2) inputs.dsr_probability
    pub folds : IfGiven (IsAtLeast 60 2) inputs.positive_fold_fraction
    pub beats_random : IfGiven (IsAtLeast 95 2) inputs.random_entry_percentile
    pub cost_over_edge : floats.le inputs.metrics.cost_over_gross_edge (floats.constant 5 1) ≡ true
    pub plateau : IfGiven (IsAtLeast 70 2) inputs.plateau_ratio
    pub cost_sensitivity : IfGiven IsPositive inputs.expectancy_at_1p5x_cost
    pub not_above : floats.lt (floats.constant 5 0) inputs.metrics.trades_per_day ≡ false
    pub not_below : floats.lt inputs.metrics.trades_per_day (floats.constant 2 1) ≡ false

  given_clear :
      (test : F → Bool) (x : Option F)
      → (is_clear (test_of test x) ≡ true) ↔ IfGiven (λ y. test y ≡ true) x
  given_clear test none = (λ h. tt, λ h. refl)
  given_clear test (some x) = (λ h. ground (arith, h), λ h. ground (arith, h))

  clear-IsPassing :
      (inputs : GateInputs F)
      → inputs.metrics.num_trades == 0 ≡ false
      → AllClear (gates floats inputs)
      → high_freq floats inputs ≡ false
      → low_freq floats inputs ≡ false
      → IsPassing inputs
  clear-IsPassing inputs traded (g1, (g2, (g3, (g4, (g5, (g6, (g7, (g8, end)))))))) above below =
      record {
        traded = ground (arith, traded);
        expectancy = ground (arith, g1);
        profit_factor = ground (arith, g1);
        sharpe = ground (arith, g2);
        dsr = (given_clear (at_least floats 95 2) inputs.dsr_probability).0 g3;
        folds = (given_clear (at_least floats 60 2) inputs.positive_fold_fraction).0 g4;
        beats_random = (given_clear (at_least floats 95 2) inputs.random_entry_percentile).0 g5;
        cost_over_edge = ground (arith, g6);
        plateau = (given_clear (at_least floats 70 2) inputs.plateau_ratio).0 g7;
        cost_sensitivity = (given_clear (is_positive floats) inputs.expectancy_at_1p5x_cost).0 g8;
        not_above = above;
        not_below = below;
      }

  passing_clear : (inputs : GateInputs F) → IsPassing inputs → AllClear (gates floats inputs)
  passing_clear inputs h = (
    ground (arith, h.expectancy, h.profit_factor),
    (
      ground (arith, h.sharpe),
      (
        (given_clear (at_least floats 95 2) inputs.dsr_probability).1 h.dsr,
        (
          (given_clear (at_least floats 60 2) inputs.positive_fold_fraction).1 h.folds,
          (
            (given_clear (at_least floats 95 2) inputs.random_entry_percentile).1 h.beats_random,
            (
              ground (arith, h.cost_over_edge),
              (
                (given_clear (at_least floats 70 2) inputs.plateau_ratio).1 h.plateau,
                (
                  (given_clear (is_positive floats) inputs.expectancy_at_1p5x_cost).1
                      h.cost_sensitivity,
                  tt,
                ),
              ),
            ),
          ),
        ),
      ),
    ),
  )

  passing :
      (strategy_id venue_profile : String) (feasible : Bool) (inputs : GateInputs F)
      → (evaluate_gates floats strategy_id venue_profile feasible inputs).verdict ≡ Verdict.pass
      → IsPassing inputs × (feasible ≡ true)
  unfolding evaluate_gates verdict_of
  passing strategy_id venue_profile feasible inputs h =
      let lists = check_all floats (gates floats inputs) none_yet in
      let final = check_frequency floats inputs lists in
      elim (Bool-cases (inputs.metrics.num_trades == 0)) [
        | inl idle ↦ absurd (ground (arith, h, idle))
        | inr traded ↦ elim (Bool-cases (is_empty final.failed)) [
          | inr failed ↦ absurd (ground (arith, h, traded, failed))
          | inl clean ↦ elim (Bool-cases (low_freq floats inputs)) [
            | inl low ↦ absurd (ground (arith, h, traded, clean, low))
            | inr enough ↦
                let both = sym (frequency inputs lists) ∙ clean in
                (
                  clear-IsPassing inputs traded
                      (none_failed (gates floats inputs) none_yet (ground (arith, both))).1
                      (ground (arith, both)) enough,
                  ground (arith, h, traded, clean, enough),
                )
          ]
        ]
      ]

  passes :
      (strategy_id venue_profile : String) (feasible : Bool) (inputs : GateInputs F)
      → IsPassing inputs
      → feasible ≡ true
      → (evaluate_gates floats strategy_id venue_profile feasible inputs).verdict ≡ Verdict.pass
  unfolding evaluate_gates verdict_of
  passes strategy_id venue_profile feasible inputs h venue =
      let lists = check_all floats (gates floats inputs) none_yet in
      let clean : is_empty (check_frequency floats inputs lists).failed ≡ true =
        frequency inputs lists
        ∙ ground (
          arith,
          all_clear (gates floats inputs) none_yet refl (passing_clear inputs h),
          h.not_above,
        ) in
      let traded : inputs.metrics.num_trades == 0 ≡ false = ground (arith, h.traded) in
      ground (arith, traded, h.not_below, venue, clean)

  -- The verdict is PASS exactly if there were trades, the expectancy is positive, the profit factor is
  -- at least 1.15, the Sharpe ratio at least 0.8 and the cost at most 0.5 of the gross edge; where they
  -- are given, the deflated Sharpe probability and the random-entry percentile are at least 0.95, the
  -- positive folds at least 0.60, the plateau at least 0.70 and the expectancy at 1.5 times the cost
  -- positive; the trades per day are neither above 5 nor below 0.2; and the venue is feasible.
  pub evaluate_gates_pass :
      (strategy_id venue_profile : String) (feasible : Bool) (inputs : GateInputs F)
      → ((evaluate_gates floats strategy_id venue_profile feasible inputs).verdict ≡ Verdict.pass)
        ↔ (IsPassing inputs × (feasible ≡ true))
  evaluate_gates_pass strategy_id venue_profile feasible inputs = (
    passing strategy_id venue_profile feasible inputs,
    λ h. passes strategy_id venue_profile feasible inputs h.0 h.1,
  )
