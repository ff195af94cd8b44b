-- ===== src/Backtest/Phantom.antt =====
-- workers/src/marketmind_workers/backtest/iterative.py: the phantom trade of an entry that a gate skips.
use marketmind_open.Common.{
  ℕ, zero, suc, ◌-◌, ltb, Bool, true, ◌&&◌, Option, none, some, if◌then◌else◌,
}
use marketmind_open.Common.Result.{Result, ok, ◌>>=◌}
use marketmind_open.Backtest.Floats.{Floats, nought, one, is_nan}
use marketmind_open.Backtest.Schema.{Position, Compiled}
use marketmind_open.Backtest.Levels.{stop_level_of, tp_level_of, update_trailing, intrabar_exit}
use marketmind_open.Backtest.Positions.{phantom_return, exit_hit}

module _ {F : Type 0} (fl : Floats F) (c : Compiled F) where
  open fl use {fadd, fmul, le}

  -- The bars of `range(bar, bar + left)` for a phantom whose trade is open.
  unfoldable pub phantom_loop : ℕ → ℕ → ℕ → ℕ → Position F → Option ℕ → F × ℕ
  phantom_loop n signal_bar zero bar pos pending_exit_bar =
      (phantom_return fl pos.entry_fill (c.closes (n - 1)) c.commission c.slippage, n - 1)
  phantom_loop n signal_bar (suc left) bar pos (some exit_bar) =
      (phantom_return fl pos.entry_fill (c.opens bar) c.commission c.slippage, bar)
  phantom_loop n signal_bar (suc left) bar pos none =
      elim (intrabar_exit fl pos (c.lows bar) (c.highs bar) (c.opens bar)) [
        | some (hit_price, reason) ↦
            (phantom_return fl pos.entry_fill hit_price c.commission c.slippage, bar)
        | none ↦
            phantom_loop n signal_bar left (suc bar)
              (update_trailing fl pos c.stop_method (c.highs bar) c.atr bar)
              (if exit_hit c bar signal_bar && ltb bar (n - 1) then some bar else none)
      ]

  -- The position of a phantom, of size 1.0, filled at an open that is positive.
  abbrev pub phantom_position : ℕ → F → Result (Position F)
  phantom_position signal_bar raw_fill =
      let entry_fill = fmul raw_fill (fadd (one fl) c.slippage) in
      let stop_level = stop_level_of fl c.stop_method entry_fill c.atr signal_bar in
      tp_level_of fl c.tp_method entry_fill stop_level c.atr signal_bar >>= λ tp_level. ok (record {
        entry_bar = signal_bar;
        entry_fill = entry_fill;
        size = one fl;
        stop_level = stop_level;
        tp_level = tp_level;
        trail_anchor = entry_fill;
      })

  -- `x != x or x <= 0.0`
  abbrev pub no_fill : F → Bool
  no_fill raw_fill = if is_nan fl raw_fill then true else le raw_fill (nought fl)

  -- `_phantom`: the return of the trade that the entry would have made, and the bar of its close.
  unfoldable pub phantom : ℕ → ℕ → Result (F × ℕ)
  phantom n signal_bar =
      let fill_bar = suc signal_bar in
      if no_fill (c.opens fill_bar)
      then ok (nought fl, fill_bar)
      else phantom_position signal_bar (c.opens fill_bar) >>= λ pos.
          ok (phantom_loop n signal_bar (n - fill_bar) fill_bar pos none)
