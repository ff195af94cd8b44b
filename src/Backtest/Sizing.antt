-- ===== src/Backtest/Sizing.antt =====
-- workers/src/marketmind_workers/backtest/iterative.py: the size of an entry.
use marketmind_open.Common.{ℕ, Option, none, some, if◌then◌else◌}
use marketmind_open.Common.Result.{Result, ok, err, iterative_backtest_error, ◌>>=◌}
use marketmind_open.Backtest.Floats.{Floats, nought, one, is_nan, divide, fmin}
use marketmind_open.Backtest.Schema.{
  StopLossMethod, PositionSizing, fixed_percent_equity, risk_based, fixed_quantity, Series,
}

module _ {F : Type 0} (fl : Floats F) where
  open fl use {fadd, fmul, fabs, le, eq}

  -- `(size_pct * cash) / (entry_fill * (1.0 + commission))`
  abbrev pub share_size : F → F → F → F → Result F
  share_size size_pct cash entry_fill commission =
      divide fl (fmul size_pct cash) (fmul entry_fill (fadd (one fl) commission))

  -- The share of the cash that puts `risk_percent` at risk at a stop of `stop_pct`.
  abbrev pub risk_size : F → F → F → F → F → Result F
  risk_size risk_percent stop_pct cash entry_fill commission = do
    ratio ← divide fl risk_percent stop_pct
    share_size (fmin fl ratio (one fl)) cash entry_fill commission

  abbrev pub atr_risk_size : F → F → F → F → F → Option (Series F) → ℕ → Result F
  atr_risk_size risk_percent mult cash entry_fill commission none entry_bar =
      err iterative_backtest_error
  atr_risk_size risk_percent mult cash entry_fill commission (some atr) entry_bar =
      let stop_distance = fmul mult (atr entry_bar) in
      if is_nan fl (atr entry_bar)
      then ok (nought fl)
      else if le stop_distance (nought fl)
      then ok (nought fl)
      else divide fl stop_distance entry_fill >>= λ stop_pct.
          risk_size risk_percent stop_pct cash entry_fill commission

  abbrev pub risk_based_size :
      F → F → F → F → Option (StopLossMethod F) → Option (Series F) → ℕ → Result F
  risk_based_size risk_percent cash entry_fill commission none atr entry_bar =
      err iterative_backtest_error
  risk_based_size risk cash entry_fill commission (some (StopLossMethod.percent value)) atr bar =
      if eq (fabs value) (nought fl)
      then err iterative_backtest_error
      else risk_size risk (fabs value) cash entry_fill commission
  risk_based_size risk cash entry_fill commission (some (StopLossMethod.atr_multiple _ m)) atr bar =
      atr_risk_size risk m cash entry_fill commission atr bar
  risk_based_size risk cash entry_fill commission (some (StopLossMethod.trailing_atr _ m)) atr bar =
      atr_risk_size risk m cash entry_fill commission atr bar
  risk_based_size risk cash entry_fill commission (some (StopLossMethod.fixed_price _)) atr bar =
      err iterative_backtest_error
  risk_based_size risk cash entry_fill commission (some (StopLossMethod.trailing_percent _)) atr
        bar =
      err iterative_backtest_error

  unfoldable pub entry_size :
      PositionSizing F → F → F → F → Option (StopLossMethod F) → Option (Series F) → ℕ → Result F
  entry_size (fixed_quantity quantity) cash entry_fill commission stop_method atr entry_bar =
      ok quantity
  entry_size (fixed_percent_equity share) cash entry_fill commission stop_method atr entry_bar =
      share_size share cash entry_fill commission
  entry_size (risk_based risk_percent) cash entry_fill commission stop_method atr entry_bar =
      risk_based_size risk_percent cash entry_fill commission stop_method atr entry_bar
