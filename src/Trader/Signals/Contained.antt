-- ===== src/Trader/Signals/Contained.antt =====
-- Which exceptions leave `evaluate_one_cycle`.
use Prim.Native.String.{String}
use marketmind_open.Common.{ℕ, ◌≡◌, Bool, false, Option, List, true}
use marketmind_open.Common.Result.{Result, ok}
use marketmind_open.Trader.Schema.{VersionRow, CandleRow, PositionRow}
use marketmind_open.Trader.Signals.Store.{Evaluation, Templates, Store, Pair}
use marketmind_open.Trader.Signals.Pair.{Pass}
use marketmind_open.Trader.Signals.Cycle.{timeframe_values, all_in}

module _ {T St : Type 0} (ops : Templates T St) (locked : ℕ → Bool)
    (evaluates : (template : T)
      → ops.is_stateful template ≡ false
      → (candles : List CandleRow) (position : Option PositionRow)
      → (e : Evaluation) × (ops.evaluate template candles position ≡ ok e)) where
  abbrev Ends : Result (Pass St) → Type 0
  Ends run = (pass : Pass St) × (run ≡ ok pass)

  -- Each timeframe of a version is a value of the enum.
  abbrev pub IsKnown : VersionRow → Type 0
  IsKnown v = all_in v.timeframes timeframe_values ≡ true
