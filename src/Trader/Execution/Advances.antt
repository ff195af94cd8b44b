-- ===== src/Trader/Execution/Advances.antt =====
-- How the counters and the tables go on from one point of an execution cycle to a later one, and the
-- stop scan.
use Prim.Native.String.{String}
use marketmind_open.Common.{
  ℕ, ◌+◌, ◌≤◌, ◌≡◌, refl, subst, inl, inr, List, [], ◌∷◌, length, arith, Option-cases,
}
use marketmind_open.Common.Result.{Result-cases, ok, ok-injective, after_bind}
use marketmind_open.Trader.Tables.{Db}
use marketmind_open.Trader.Execution.Fills.{
  PositionWithMeta, find_first_stop_breach, execute_stop_close,
}
use marketmind_open.Trader.Execution.Writes.{
  open_count, FillsAndCloses, FillsAndOpens, execute_stop_close-FillsAndCloses,
}
use marketmind_open.Trader.Execution.Cycle.{ExecutionResult, Pass, scan_stop, scan_stops}

-- No version holds two open positions in one symbol.
abbrev pub IsSingle : Db → Type 0
IsSingle db = (version : ℕ) (symbol : String) → open_count version symbol db ≤ 1

abbrev settled : ExecutionResult → ℕ
settled r = r.pending_orders_filled + r.pending_orders_waiting + r.pending_orders_rejected

-- From one point of the cycle to a later one.
pub record Advances (stops orders : ℕ) (a b : Pass) : Type 0 where
  pub single : IsSingle a.1 → IsSingle b.1
  pub fills :
      length b.1.fills + a.0.positions_closed_by_stop + a.0.pending_orders_filled
      ≡ length a.1.fills + b.0.positions_closed_by_stop + b.0.pending_orders_filled
  pub stopped : b.0.positions_closed_by_stop ≤ a.0.positions_closed_by_stop + stops
  pub counted : settled b.0 ≡ settled a.0 + orders
  pub split :
      b.0.pending_orders_filled + a.0.positions_opened + a.0.positions_closed_by_signal
      ≡ a.0.pending_orders_filled + b.0.positions_opened + b.0.positions_closed_by_signal
  pub scanned : b.0.open_positions_scanned ≡ a.0.open_positions_scanned
  pub loaded : b.0.pending_orders_loaded ≡ a.0.pending_orders_loaded

pub IsSingle-closes : {a b : Db} → FillsAndCloses a b → IsSingle a → IsSingle b
IsSingle-closes f single version symbol =
    omega (arith, f.no_opening version symbol, single version symbol)

pub IsSingle-opens :
    {version : ℕ} {symbol : String} {a b : Db}
    → FillsAndOpens version symbol a b
    → IsSingle a
    → IsSingle b
IsSingle-opens {version} {symbol} {a} {b} f single v s = elim (f.others v s) [
  | inl fewer ↦ omega (arith, single v s)
  | inr (same_version, same_symbol) ↦ rw (same_version, same_symbol) (omega (arith, f.one_after))
]

pub Advances-then :
    {m n k l stops orders : ℕ} {a b c : Pass}
    → m + n ≡ stops
    → k + l ≡ orders
    → Advances m k a b
    → Advances n l b c
    → Advances stops orders a c
Advances-then p q f g = record {
  single = λ s. g.single (f.single s);
  fills = omega (arith, f.fills, g.fills);
  stopped = omega (arith, f.stopped, g.stopped);
  counted = omega (arith, f.counted, g.counted);
  split = omega (arith, f.split, g.split);
  scanned = omega (arith, f.scanned, g.scanned);
  loaded = omega (arith, f.loaded, g.loaded);
}

pub Advances-none : (stops : ℕ) (pass : Pass) → Advances stops 0 pass pass
Advances-none stops pass = record {
  single = λ s. s;
  fills = refl;
  stopped = omega arith;
  counted = omega arith;
  split = refl;
  scanned = refl;
  loaded = refl;
}

scan_stop-Advances :
    (pos : PositionWithMeta) (r : ExecutionResult) (db : Db) {pass : Pass}
    → scan_stop pos (r, db) ≡ ok pass
    → Advances 1 0 (r, db) pass
unfolding scan_stop
scan_stop-Advances pos r db {pass} h = elim (Option-cases (find_first_stop_breach pos db)) [
  | inl calm ↦
      let same : ok (r, db) ≡ ok pass = ground arith in
      subst (Advances 1 0 (r, db)) (ok-injective same) (Advances-none 1 (r, db))
  | inr (c, breach) ↦ elim (Result-cases (execute_stop_close pos c.open_ts c.close_ts db)) [
    | inr (e, raised) ↦ absurd (ground arith)
    | inl (db', closed) ↦
        let same : ok (record r { positions_closed_by_stop = r.positions_closed_by_stop + 1 }, db')
            ≡ ok pass =
          ground arith in
        let step = execute_stop_close-FillsAndCloses pos c.open_ts c.close_ts db closed in
        subst (Advances 1 0 (r, db)) (ok-injective same) (record {
          single = IsSingle-closes step;
          fills = omega (arith, step.one_fill);
          stopped = omega arith;
          counted = omega arith;
          split = refl;
          scanned = refl;
          loaded = refl;
        })
  ]
]

pub scan_stops-Advances :
    (stops : List PositionWithMeta) (pass : Pass) {final : Pass}
    → scan_stops stops pass ≡ ok final
    → Advances (length stops) 0 pass final
unfolding scan_stops
scan_stops-Advances [] pass h = subst (Advances 0 0 pass) (ok-injective h) (Advances-none 0 pass)
scan_stops-Advances (pos ∷ rest) pass h = after_bind (scan_stop pos pass) _ h λ next first then.
    Advances-then (omega arith) (omega arith) (scan_stop-Advances pos pass.0 pass.1 first)
      (scan_stops-Advances rest next then)
