-- ===== src/Backtest/Conditions.antt =====
-- shared/src/marketmind_shared/schemas/strategy_spec: the condition trees of conditions.py and
-- expressions.py, and the walks of introspection.py. F is the type of floats, I that of the indicators,
-- and L that of the conditions that hold no expression and no condition: candle patterns, days, hours
-- and the indicator conditions.
use Prim.Native.String.{String}
use marketmind_open.Common.{ℕ, Bool, true, false, ◌||◌, Option, List, [], ◌∷◌, ◌++◌}
use marketmind_open.Backtest.History.{TradePredicate, SignalPredicate}

pub data Extremum : Type 0 where
  max min : Extremum

pub data Reset : Type 0 where
  never per_trade : Reset

pub data Expression (F I : Type 0) : Type 0 where
  price : String → Expression F I
  constant : F → Expression F I
  indicator : I → Expression F I
  lagged : Expression F I → ℕ → Expression F I
  scaled : Expression F I → F → Expression F I
  percentile : Expression F I → ℕ → Expression F I
  ratchet : Expression F I → Extremum → Reset → Expression F I

pub data CompareOp : Type 0 where
  gt ge lt le eq : CompareOp

-- A timeframe is a text, and none is that of the strategy.
mutual
  pub data Condition (F I L : Type 0) : Type 0 where
    compare : Expression F I → CompareOp → Expression F I → Option String → Condition F I L
    crossover : Expression F I → Expression F I → Bool → Option String → Condition F I L
    within_last_n_bars : Condition F I L → ℕ → Condition F I L
    rising : Expression F I → ℕ → Bool → Option String → Condition F I L
    falling : Expression F I → ℕ → Bool → Option String → Condition F I L
    and_of : Conditions F I L → Condition F I L
    or_of : Conditions F I L → Condition F I L
    not_of : Condition F I L → Condition F I L
    regime_state : Condition F I L → Condition F I L → Bool → Condition F I L
    prior_trade : TradePredicate → ℕ → Condition F I L
    prior_signal : SignalPredicate → Condition F I L
    leaf : L → Condition F I L

  pub data Conditions (F I L : Type 0) : Type 0 where
    nil : Conditions F I L
    cons : Condition F I L → Conditions F I L → Conditions F I L

module _ {F I : Type 0} where
  unfoldable pub iter_expressions : Expression F I → List (Expression F I)
  iter_expressions (lagged e n) = lagged e n ∷ iter_expressions e
  iter_expressions (scaled e factor) = scaled e factor ∷ iter_expressions e
  iter_expressions (percentile e n) = percentile e n ∷ iter_expressions e
  iter_expressions (ratchet e extremum reset) = ratchet e extremum reset ∷ iter_expressions e
  iter_expressions (price field) = price field ∷ []
  iter_expressions (constant value) = constant value ∷ []
  iter_expressions (indicator i) = indicator i ∷ []

  -- Whether an expression is a ratchet with reset='per_trade'.
  abbrev pub is_per_trade : Expression F I → Bool
  is_per_trade (ratchet e extremum per_trade) = true
  is_per_trade (ratchet e extremum never) = false
  is_per_trade (price field) = false
  is_per_trade (constant value) = false
  is_per_trade (indicator i) = false
  is_per_trade (lagged e n) = false
  is_per_trade (scaled e factor) = false
  is_per_trade (percentile e n) = false

abbrev pub any {ℓ} : {A : Type ℓ} → (A → Bool) → List A → Bool
any p [] = false
any p (x ∷ xs) = p x || any p xs

abbrev pub flat_map {ℓ κ} : {A : Type ℓ} {B : Type κ} → (A → List B) → List A → List B
flat_map f [] = []
flat_map f (x ∷ xs) = f x ++ flat_map f xs

module _ {F I : Type 0} where
  unfoldable pub expr_uses_per_trade_ratchet : Expression F I → Bool
  unfolding iter_expressions
  expr_uses_per_trade_ratchet expr = any is_per_trade (iter_expressions expr)

module _ {F I L : Type 0} where
  unfoldable mutual
    pub iter_conditions : Condition F I L → List (Condition F I L)
    iter_conditions (and_of cs) = and_of cs ∷ iter_all cs
    iter_conditions (or_of cs) = or_of cs ∷ iter_all cs
    iter_conditions (not_of c) = not_of c ∷ iter_conditions c
    iter_conditions (within_last_n_bars c n) = within_last_n_bars c n ∷ iter_conditions c
    iter_conditions (regime_state enter_when exit_when initial) =
        regime_state enter_when exit_when initial
        ∷ (iter_conditions enter_when ++ iter_conditions exit_when)
    iter_conditions (compare l op r tf) = compare l op r tf ∷ []
    iter_conditions (crossover s t above tf) = crossover s t above tf ∷ []
    iter_conditions (rising s n strict tf) = rising s n strict tf ∷ []
    iter_conditions (falling s n strict tf) = falling s n strict tf ∷ []
    iter_conditions (prior_trade predicate n) = prior_trade predicate n ∷ []
    iter_conditions (prior_signal predicate) = prior_signal predicate ∷ []
    iter_conditions (leaf l) = leaf l ∷ []

    pub iter_all : Conditions F I L → List (Condition F I L)
    iter_all nil = []
    iter_all (cons c cs) = iter_conditions c ++ iter_all cs

  unfoldable pub condition_direct_expressions : Condition F I L → List (Expression F I)
  condition_direct_expressions (compare l op r tf) = l ∷ r ∷ []
  condition_direct_expressions (crossover s t above tf) = s ∷ t ∷ []
  condition_direct_expressions (rising s n strict tf) = s ∷ []
  condition_direct_expressions (falling s n strict tf) = s ∷ []
  condition_direct_expressions (within_last_n_bars c n) = []
  condition_direct_expressions (and_of cs) = []
  condition_direct_expressions (or_of cs) = []
  condition_direct_expressions (not_of c) = []
  condition_direct_expressions (regime_state enter_when exit_when initial) = []
  condition_direct_expressions (prior_trade predicate n) = []
  condition_direct_expressions (prior_signal predicate) = []
  condition_direct_expressions (leaf l) = []

  unfoldable pub iter_all_expressions : Condition F I L → List (Expression F I)
  unfolding iter_conditions condition_direct_expressions iter_expressions
  iter_all_expressions cond =
      flat_map
        (λ (sub : Condition F I L). flat_map iter_expressions (condition_direct_expressions sub))
        (iter_conditions cond)

  -- T3_CONDITION_TYPES
  abbrev pub is_prior : Condition F I L → Bool
  is_prior (prior_trade predicate n) = true
  is_prior (prior_signal predicate) = true
  is_prior (compare l op r tf) = false
  is_prior (crossover s t above tf) = false
  is_prior (within_last_n_bars c n) = false
  is_prior (rising s n strict tf) = false
  is_prior (falling s n strict tf) = false
  is_prior (and_of cs) = false
  is_prior (or_of cs) = false
  is_prior (not_of c) = false
  is_prior (regime_state enter_when exit_when initial) = false
  is_prior (leaf l) = false

  unfoldable pub condition_uses_tier3 : Condition F I L → Bool
  unfolding iter_conditions iter_all_expressions
  condition_uses_tier3 cond =
      any is_prior (iter_conditions cond) || any is_per_trade (iter_all_expressions cond)

  abbrev pub is_prior_signal : Condition F I L → Bool
  is_prior_signal (prior_signal predicate) = true
  is_prior_signal (prior_trade predicate n) = false
  is_prior_signal (compare l op r tf) = false
  is_prior_signal (crossover s t above tf) = false
  is_prior_signal (within_last_n_bars c n) = false
  is_prior_signal (rising s n strict tf) = false
  is_prior_signal (falling s n strict tf) = false
  is_prior_signal (and_of cs) = false
  is_prior_signal (or_of cs) = false
  is_prior_signal (not_of c) = false
  is_prior_signal (regime_state enter_when exit_when initial) = false
  is_prior_signal (leaf l) = false

  unfoldable pub condition_uses_prior_signal : Condition F I L → Bool
  unfolding iter_conditions
  condition_uses_prior_signal cond = any is_prior_signal (iter_conditions cond)
