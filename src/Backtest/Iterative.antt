-- ===== src/Backtest/Iterative.antt =====
-- workers/src/marketmind_workers/backtest/iterative.py: the walk over the bars of a compiled
-- specification.
pub mod Order
pub mod Pending
pub mod Numbered
pub mod Twin
pub mod Promise
pub mod Agree
use marketmind_open.Common.{
  ℕ, zero, suc, ◌-◌, ltb, Bool, true, false, ◌&&◌, Option, none, some, List, [], ◌∷◌, if◌then◌else◌,
}
use marketmind_open.Common.Result.{Result, ok, ◌>>=◌}
use marketmind_open.Backtest.Floats.{Floats, nought, one, is_nan}
use marketmind_open.Backtest.History.{
  SignalHistory, record_skipped, record_fired, resolve_last_pending,
}
use marketmind_open.Backtest.Schema.{Position, ExitReason, signal, end_of_data, Trade, Compiled}
use marketmind_open.Backtest.Levels.{update_trailing, intrabar_exit}
use marketmind_open.Backtest.Positions.{close_position, completed, exit_hit}
use marketmind_open.Backtest.Shadow.{Shadow, cold_shadow, is_flat, fill_entry}
use marketmind_open.Backtest.Phantom.{phantom}

-- The state of the loop; the last trade, equity point and flag come first.
pub record Walk (F : Type 0) : Type 0 where
  pub shadow : Shadow F
  pub trades : List (Trade F)
  pub equity : List F
  pub entry_flags : List Bool

module _ {F : Type 0} (fl : Floats F) (c : Compiled F) where
  open fl use {fadd, fmul}

  -- A pending signal takes the outcome of its trade, where the entry gates on signals.
  abbrev pub settle_last : Option (ℕ → Bool) → F → ℕ → SignalHistory F → Result (SignalHistory F)
  settle_last none return_pct bar signals = ok signals
  settle_last (some raw) return_pct bar signals = resolve_last_pending fl return_pct bar signals

  -- The close of the open position and its entries in the trades and the histories.
  unfoldable pub book_close : Position F → ℕ → F → ExitReason → ℕ → Walk F → Result (Walk F)
  book_close pos exit_bar raw_price reason bar w =
      let trade_id = suc w.shadow.trade_id in
      close_position fl c pos exit_bar raw_price reason w.shadow.cash >>= λ (cash, trade).
      settle_last c.raw_signal trade.return_pct bar w.shadow.signal_history >>= λ signals.
      ok (record w {
        trades = trade ∷ w.trades;
        shadow = record w.shadow {
          history = completed fl trade pos trade_id ∷ w.shadow.history;
          signal_history = signals;
          position = none;
          trade_id = trade_id;
          cash = cash;
        };
      })

  abbrev pub drop_exit : Walk F → Walk F
  drop_exit w = record w { shadow = record w.shadow { pending_exit_bar = none } }

  -- The exit of step 1: an open that is a NaN fills nothing, and the decision is dropped.
  unfoldable pub fill_exit : ℕ → Walk F → Result (Walk F)
  fill_exit bar w = elim w.shadow.position [
    | none ↦ ok w
    | some pos ↦ elim w.shadow.pending_exit_bar [
      | none ↦ ok w
      | some exit_bar ↦
          if is_nan fl (c.opens bar)
          then ok (drop_exit w)
          else book_close pos exit_bar (c.opens bar) signal bar w >>= λ closed.
              ok (drop_exit closed)
    ]
  ]

  -- Step 2.
  unfoldable pub check_range : ℕ → Walk F → Result (Walk F)
  check_range bar w = elim w.shadow.position [
    | none ↦ ok w
    | some pos ↦ elim (intrabar_exit fl pos (c.lows bar) (c.highs bar) (c.opens bar)) [
      | some (hit_price, reason) ↦ book_close pos bar hit_price reason bar w
      | none ↦ ok (record w {
        shadow = record w.shadow {
          position = some (update_trailing fl pos c.stop_method (c.highs bar) c.atr bar);
        };
      })
    ]
  ]

  abbrev pub units : Option (Position F) → F
  units none = nought fl
  units (some pos) = pos.size

  -- Step 3. The time stamps of the points are those of the bars, taken to be in UTC.
  unfoldable pub mark_equity : ℕ → Walk F → Walk F
  mark_equity bar w = record w {
    equity = fadd w.shadow.cash (fmul (units w.shadow.position) (c.closes bar)) ∷ w.equity;
  }

  -- A raw signal while flat: a real entry, or a skipped one with its phantom outcome.
  abbrev pub take_signal : ℕ → ℕ → Bool → Shadow F → Result (Shadow F)
  take_signal n bar true s = ok (record s {
    pending_entry_bar = some bar;
    signal_history = record_fired bar s.signal_history;
  })
  take_signal n bar false s = phantom fl c n bar >>= λ result.
      ok (record s { signal_history = record_skipped fl bar result.0 result.1 s.signal_history })

  abbrev pub act : Option (ℕ → Bool) → ℕ → ℕ → Bool → Shadow F → Result (Shadow F)
  act none n bar fired s = ok (if fired then record s { pending_entry_bar = some bar } else s)
  act (some raw) n bar fired s = if raw bar then take_signal n bar fired s else ok s

  -- Step 4.
  unfoldable pub decide_entry : ℕ → ℕ → Walk F → Result (Walk F)
  decide_entry n bar w =
      let s = w.shadow in
      let fired = c.entry_eval bar s.history s.signal_history in
      let flags = fired ∷ w.entry_flags in
      if is_flat s.position s.pending_entry_bar && ltb bar (n - 1)
      then (act c.raw_signal n bar fired s >>= λ s'.
          ok (record w { shadow = s'; entry_flags = flags }))
      else ok (record w { entry_flags = flags })

  -- Step 5.
  unfoldable pub decide_exit : ℕ → ℕ → Walk F → Walk F
  decide_exit n bar w = elim w.shadow.position [
    | none ↦ w
    | some pos ↦ elim w.shadow.pending_exit_bar [
      | some exit_bar ↦ w
      | none ↦
          if exit_hit c bar pos.entry_bar && ltb bar (n - 1)
          then record w { shadow = record w.shadow { pending_exit_bar = some bar } }
          else w
    ]
  ]

  -- The body of the loop.
  unfoldable pub walk_bar : ℕ → ℕ → Walk F → Result (Walk F)
  walk_bar n bar w = fill_entry fl c bar w.shadow >>= λ entered.
      fill_exit bar (record w { shadow = entered }) >>= λ exited.
      check_range bar exited >>= λ ranged.
      decide_entry n bar (mark_equity bar ranged) >>= λ decided. ok (decide_exit n bar decided)

  -- `left` bars, from `bar` on.
  unfoldable pub walk_bars : ℕ → ℕ → ℕ → Walk F → Result (Walk F)
  walk_bars n zero bar w = ok w
  walk_bars n (suc left) bar w = walk_bar n bar w >>= walk_bars n left (suc bar)

  -- A position at the end is closed at the last close; the histories are no longer read.
  unfoldable pub close_last : ℕ → Walk F → Result (Walk F)
  close_last n w = elim w.shadow.position [
    | none ↦ ok w
    | some pos ↦
        close_position fl c pos (n - 1) (c.closes (n - 1)) end_of_data w.shadow.cash
        >>= λ (cash, trade). ok (record w {
          trades = trade ∷ w.trades;
          shadow = record w.shadow { trade_id = suc w.shadow.trade_id; cash = cash };
        })
  ]

  abbrev pub first_walk : F → Walk F
  first_walk initial_capital = record {
    shadow = cold_shadow initial_capital;
    trades = [];
    equity = [];
    entry_flags = [];
  }

  -- `run_iterative_backtest` over n bars.
  unfoldable pub run_iterative_backtest : ℕ → F → Result (Walk F)
  run_iterative_backtest n initial_capital =
      walk_bars n n 0 (first_walk initial_capital) >>= close_last n
