-- ===== src/Backtest/Levels.antt =====
-- workers/src/marketmind_workers/backtest/iterative.py: the stop-loss and take-profit levels of a
-- position, their trailing, and the exits inside a bar.
pub mod Trailing
use marketmind_open.Common.{ℕ, not, Option, none, some, if◌then◌else◌}
use marketmind_open.Common.Result.{Result, ok, err, iterative_backtest_error}
use marketmind_open.Backtest.Floats.{Floats, nought, one, is_nan, fmax}
use marketmind_open.Backtest.Schema.{
  StopLossMethod, TakeProfitMethod, Position, ExitReason, stop_loss, take_profit, Series,
}

module _ {F : Type 0} (fl : Floats F) where
  open fl use {fadd, fsub, fmul, fabs, le, eq}

  -- The range at the entry: 0.0 where there is no series, or a NaN.
  abbrev pub atr_at_entry : Option (Series F) → ℕ → F
  atr_at_entry none entry_bar = nought fl
  atr_at_entry (some atr) entry_bar = if is_nan fl (atr entry_bar) then nought fl else atr entry_bar

  unfoldable pub stop_level_of : Option (StopLossMethod F) → F → Option (Series F) → ℕ → Option F
  stop_level_of none entry_fill atr entry_bar = none
  stop_level_of (some (StopLossMethod.percent value)) entry_fill atr entry_bar =
      some (fmul entry_fill (fsub (one fl) (fabs value)))
  stop_level_of (some (StopLossMethod.trailing_percent value)) entry_fill atr entry_bar =
      some (fmul entry_fill (fsub (one fl) (fabs value)))
  stop_level_of (some (StopLossMethod.atr_multiple period mult)) entry_fill atr entry_bar =
      some (fsub entry_fill (fmul mult (atr_at_entry atr entry_bar)))
  stop_level_of (some (StopLossMethod.trailing_atr period mult)) entry_fill atr entry_bar =
      some (fsub entry_fill (fmul mult (atr_at_entry atr entry_bar)))
  stop_level_of (some (StopLossMethod.fixed_price price)) entry_fill atr entry_bar = some price

  abbrev pub atr_target : F → F → Option (Series F) → ℕ → Result (Option F)
  atr_target mult entry_fill none entry_bar = err iterative_backtest_error
  atr_target mult entry_fill (some atr) entry_bar =
      ok (some (fadd entry_fill (fmul mult (atr_at_entry (some atr) entry_bar))))

  abbrev pub r_target : F → F → Option F → Result (Option F)
  r_target r entry_fill none = err iterative_backtest_error
  r_target r entry_fill (some stop_level) =
      ok (some (fadd entry_fill (fmul r (fsub entry_fill stop_level))))

  unfoldable pub tp_level_of :
      Option (TakeProfitMethod F) → F → Option F → Option (Series F) → ℕ → Result (Option F)
  tp_level_of none entry_fill stop_level atr entry_bar = ok none
  tp_level_of (some (TakeProfitMethod.percent value)) entry_fill stop_level atr entry_bar =
      ok (some (fmul entry_fill (fadd (one fl) value)))
  tp_level_of (some (TakeProfitMethod.fixed_price price)) entry_fill stop_level atr entry_bar =
      ok (some price)
  tp_level_of (some (TakeProfitMethod.atr_multiple period mult)) entry_fill stop_level atr
        entry_bar =
      atr_target mult entry_fill atr entry_bar
  tp_level_of (some (TakeProfitMethod.r_multiple r)) entry_fill stop_level atr entry_bar =
      r_target r entry_fill stop_level

  -- A trailing stop at a stop level, after a bar with the given high.
  abbrev pub trailed :
      Position F → F → Option (StopLossMethod F) → F → Option (Series F) → ℕ → Position F
  trailed pos stop (some (StopLossMethod.trailing_percent value)) high atr bar =
      let anchor = fmax fl pos.trail_anchor high in
      record pos {
        trail_anchor = anchor;
        stop_level = some (fmax fl stop (fmul anchor (fsub (one fl) (fabs value))));
      }
  trailed pos stop (some (StopLossMethod.trailing_atr period mult)) high atr bar =
      let anchor = fmax fl pos.trail_anchor high in
      let atr_now : F = elim atr [ none ↦ nought fl | some series ↦ series bar ] in
      record pos {
        trail_anchor = anchor;
        stop_level =
            some
              (if eq atr_now atr_now then fmax fl stop (fsub anchor (fmul mult atr_now)) else stop);
      }
  trailed pos stop (some (StopLossMethod.percent value)) high atr bar = pos
  trailed pos stop (some (StopLossMethod.atr_multiple period mult)) high atr bar = pos
  trailed pos stop (some (StopLossMethod.fixed_price price)) high atr bar = pos
  trailed pos stop none high atr bar = pos

  unfoldable pub update_trailing :
      Position F → Option (StopLossMethod F) → F → Option (Series F) → ℕ → Position F
  update_trailing pos stop_method high atr bar = elim pos.stop_level [
    | none ↦ pos
    | some stop ↦ trailed pos stop stop_method high atr bar
  ]

  -- The take-profit, which counts only where the stop is not hit.
  abbrev pub target_exit : Option F → F → F → Option (F × ExitReason)
  target_exit none high open_ = none
  target_exit (some level) high open_ =
      if le level high then some (if le level open_ then open_ else level, take_profit) else none

  abbrev pub range_exit : Option F → Option F → F → F → F → Option (F × ExitReason)
  range_exit none target low high open_ = target_exit target high open_
  range_exit (some level) target low high open_ =
      if le low level
      then some (if le open_ level then open_ else level, stop_loss)
      else target_exit target high open_

  unfoldable pub intrabar_exit : Position F → F → F → F → Option (F × ExitReason)
  intrabar_exit pos low high open_ = range_exit pos.stop_level pos.tp_level low high open_
