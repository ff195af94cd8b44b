-- ===== src/Backtest/Iterative/Twin.antt =====
-- workers/src/marketmind_workers/backtest/iterative.py: a trade of the backtest and the phantom
-- trade of the same signal.
use marketmind_open.Common.{
  ℕ, suc, ◌-◌, ◌≡◌, refl, Bool, ◌&&◌, Option, none, some, ◌∷◌, ltb, if◌then◌else◌, arith,
}
use marketmind_open.Common.Result.{ok}
use marketmind_open.Backtest.Floats.{Floats, nought, one}
use marketmind_open.Backtest.Schema.{Position, Compiled, ExitReason, Trade}
use marketmind_open.Backtest.Levels.{intrabar_exit, update_trailing}
use marketmind_open.Backtest.Positions.{
  closing, close_position, passes_trade, phantom_return, exit_hit,
}
use marketmind_open.Backtest.Phantom.{phantom_loop}
use marketmind_open.Backtest.Iterative.{Walk, book_close}

-- The bar whose prices a trade is closed at: a decided exit is filled on the bar after.
abbrev pub resolved_at : ExitReason → ℕ → ℕ
resolved_at ExitReason.signal bar = suc bar
resolved_at ExitReason.stop_loss bar = bar
resolved_at ExitReason.take_profit bar = bar
resolved_at ExitReason.end_of_data bar = bar

-- An exit decision is one bar old.
abbrev pub DueNow : Option ℕ → ℕ → Type 0
DueNow none bar = Unit
DueNow (some due) bar = suc due ≡ bar

module _ {F : Type 0} (fl : Floats F) (c : Compiled F) where
  abbrev pub twin : Position F → Position F
  twin pos = record pos { size = one fl }

  update_trailing-twin :
      (pos : Position F) (high : F) (bar : ℕ)
      → update_trailing fl (twin pos) c.stop_method high c.atr bar
        ≡ twin (update_trailing fl pos c.stop_method high c.atr bar)
  unfolding update_trailing
  update_trailing-twin pos high bar = ground arith

  pub update_trailing-entry :
      (pos : Position F) (high : F) (bar : ℕ)
      → ((update_trailing fl pos c.stop_method high c.atr bar).entry_bar ≡ pos.entry_bar)
        × ((update_trailing fl pos c.stop_method high c.atr bar).entry_fill ≡ pos.entry_fill)
  unfolding update_trailing
  update_trailing-entry pos high bar = ground arith

  intrabar_exit-twin :
      (pos : Position F) (low high open_ : F)
      → intrabar_exit fl (twin pos) low high open_ ≡ intrabar_exit fl pos low high open_
  unfolding intrabar_exit
  intrabar_exit-twin pos low high open_ = refl

  -- An exit inside a bar is by the stop or by the target.
  pub intrabar_exit-resolved_at :
      (pos : Position F) (low high open_ price : F) (reason : ExitReason) (bar : ℕ)
      → intrabar_exit fl pos low high open_ ≡ some (price, reason)
      → resolved_at reason bar ≡ bar
  unfolding intrabar_exit
  intrabar_exit-resolved_at pos low high open_ price reason bar h = ground (arith, h)

  -- The return that one unit of a trade makes, from its prices after slippage.
  abbrev pub unit_return : Trade F → F
  unit_return trade =
      let cost = fl.fmul trade.entry_price (fl.fadd (one fl) c.commission) in
      if fl.eq cost (nought fl)
      then nought fl
      else fl.fdiv (fl.fsub (fl.fmul trade.exit_price (fl.fsub (one fl) c.commission)) cost) cost

  pub closing-unit_return :
      (pos : Position F) (exit_bar : ℕ) (raw_price : F) (reason : ExitReason) (cash : F)
      → phantom_return fl pos.entry_fill raw_price c.commission c.slippage
        ≡ unit_return (closing fl c pos exit_bar raw_price reason cash).1
  unfolding phantom_return close_position closing passes_trade
  closing-unit_return pos exit_bar raw_price reason cash = refl

  -- What a close leaves of the walk.
  pub book_close-closed :
      (pos : Position F) (exit_bar : ℕ) (raw_price : F) (reason : ExitReason) (bar : ℕ)
      (w w' : Walk F)
      → book_close fl c pos exit_bar raw_price reason bar w ≡ ok w'
      → (w'.trades ≡ (closing fl c pos exit_bar raw_price reason w.shadow.cash).1 ∷ w.trades)
        × (w'.shadow.position ≡ none)
        × (w'.shadow.pending_entry_bar ≡ w.shadow.pending_entry_bar)
        × (w'.shadow.pending_exit_bar ≡ w.shadow.pending_exit_bar)
  unfolding book_close close_position closing passes_trade
  book_close-closed pos exit_bar raw_price reason bar w w' h = ground (arith, h)

  pub DueNow-if : (b : Bool) (bar : ℕ) → DueNow (if b then some bar else none) (suc bar)
  DueNow-if b bar = ground arith

  module _ (n signal_bar left bar : ℕ) (pos : Position F) where
    pub phantom_loop-hit :
        (price : F) (reason : ExitReason)
        → intrabar_exit fl pos (c.lows bar) (c.highs bar) (c.opens bar) ≡ some (price, reason)
        → phantom_loop fl c n signal_bar (suc left) bar (twin pos) none
          ≡ (phantom_return fl pos.entry_fill price c.commission c.slippage, bar)
    unfolding phantom_loop
    phantom_loop-hit price reason hit =
        ground (arith, hit, intrabar_exit-twin pos (c.lows bar) (c.highs bar) (c.opens bar))

    pub phantom_loop-held :
        intrabar_exit fl pos (c.lows bar) (c.highs bar) (c.opens bar) ≡ none
        → phantom_loop fl c n signal_bar (suc left) bar (twin pos) none
          ≡ phantom_loop fl c n signal_bar left
              (suc bar)
              (twin (update_trailing fl pos c.stop_method (c.highs bar) c.atr bar))
              (if exit_hit c bar signal_bar && ltb bar (n - 1) then some bar else none)
    unfolding phantom_loop
    phantom_loop-held inside = ground (
      arith,
      inside,
      intrabar_exit-twin pos (c.lows bar) (c.highs bar) (c.opens bar),
      update_trailing-twin pos (c.highs bar) bar,
    )
