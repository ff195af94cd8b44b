-- ===== src/Backtest/Positions.antt =====
-- workers/src/marketmind_workers/backtest/iterative.py: how a position is opened and closed.
use marketmind_open.Common.{
  ℕ, ◌-◌, leb, Bool, false, not, ◌&&◌, ◌||◌, Option, none, some, List, [], ◌∷◌, if◌then◌else◌,
}
use marketmind_open.Common.Result.{validation_error, Result, ok, err, ◌>>=◌}
use marketmind_open.Backtest.Floats.{Floats, nought, one}
use marketmind_open.Backtest.History.{CompletedTrade, classify_outcome}
use marketmind_open.Backtest.Schema.{Position, ExitReason, Trade, Compiled}
use marketmind_open.Backtest.Levels.{stop_level_of, tp_level_of}
use marketmind_open.Backtest.Sizing.{entry_size}

module _ {F : Type 0} (fl : Floats F) where
  open fl use {fadd, fsub, fmul, fdiv, lt, le, eq}

  -- No position where the fill or the size is not positive.
  unfoldable pub open_position : Compiled F → ℕ → F → F → Result (Option (Position F))
  open_position c entry_bar raw_price cash =
      let entry_fill = fmul raw_price (fadd (one fl) c.slippage) in
      let stop_level = stop_level_of fl c.stop_method entry_fill c.atr entry_bar in
      if le entry_fill (nought fl)
      then ok none
      else tp_level_of fl c.tp_method entry_fill stop_level c.atr entry_bar >>= λ tp_level.
          entry_size fl c.sizing cash entry_fill c.commission c.stop_method c.atr entry_bar
          >>= λ size.
              if le size (nought fl)
              then ok none
              else ok (
                  some (record {
                    entry_bar = entry_bar;
                    entry_fill = entry_fill;
                    size = size;
                    stop_level = stop_level;
                    tp_level = tp_level;
                    trail_anchor = entry_fill;
                  }))

  -- The new cash and the fields of the trade.
  unfoldable pub closing : Compiled F → Position F → ℕ → F → ExitReason → F → F × Trade F
  closing c pos exit_bar raw_price reason cash =
      let exit_fill = fmul raw_price (fsub (one fl) c.slippage) in
      let entry_cost = fmul (fmul pos.size pos.entry_fill) (fadd (one fl) c.commission) in
      let exit_proceeds = fmul (fmul pos.size exit_fill) (fsub (one fl) c.commission) in
      let pnl = fsub exit_proceeds entry_cost in
      (
        fadd cash exit_proceeds,
        record {
          entry_time = pos.entry_bar;
          exit_time = exit_bar;
          entry_price = pos.entry_fill;
          exit_price = exit_fill;
          size = pos.size;
          pnl = pnl;
          return_pct = if not (eq entry_cost (nought fl)) then fdiv pnl entry_cost else nought fl;
          exit_reason = reason;
        },
      )

  -- The model of a trade refuses a price that is not positive, a NaN too. It also asks for time stamps
  -- in UTC, which those of the bars are taken to be.
  unfoldable pub passes_trade : Trade F → Bool
  passes_trade trade = lt (nought fl) trade.entry_price && lt (nought fl) trade.exit_price

  -- The new cash and the trade.
  unfoldable pub close_position :
      Compiled F → Position F → ℕ → F → ExitReason → F → Result (F × Trade F)
  close_position c pos exit_bar raw_price reason cash =
      let closed = closing c pos exit_bar raw_price reason cash in
      if passes_trade closed.1 then ok closed else err validation_error

  -- The number of the trade stands as its exit index.
  unfoldable pub completed : Trade F → Position F → ℕ → CompletedTrade F
  completed trade pos trade_id = record {
    trade_id = trade_id;
    entry_index = pos.entry_bar;
    exit_index = trade_id;
    entry_price = trade.entry_price;
    exit_price = trade.exit_price;
    pnl = trade.pnl;
    return_pct = trade.return_pct;
    outcome = classify_outcome fl trade.return_pct;
  }

  unfoldable pub phantom_return : F → F → F → F → F
  phantom_return entry_fill raw_exit_price commission slippage =
      let exit_fill = fmul raw_exit_price (fsub (one fl) slippage) in
      let entry_cost = fmul entry_fill (fadd (one fl) commission) in
      let exit_proceeds = fmul exit_fill (fsub (one fl) commission) in
      if eq entry_cost (nought fl)
      then nought fl
      else fdiv (fsub exit_proceeds entry_cost) entry_cost

abbrev pub time_hit : Option ℕ → ℕ → Bool
time_hit none bars_held = false
time_hit (some max_bars) bars_held = leb max_bars bars_held

abbrev pub any_hit : List (ℕ → ℕ → Bool) → ℕ → ℕ → Bool
any_hit [] bar entry_bar = false
any_hit (ev ∷ evs) bar entry_bar = ev bar entry_bar || any_hit evs bar entry_bar

-- Whether a signal exit or a time exit is decided at the close of a bar.
unfoldable pub exit_hit : {F : Type 0} → Compiled F → ℕ → ℕ → Bool
exit_hit c bar entry_bar =
    time_hit c.max_bars (bar - entry_bar) || any_hit c.cond_exits bar entry_bar
