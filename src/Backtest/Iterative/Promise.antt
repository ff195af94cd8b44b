-- ===== src/Backtest/Iterative/Promise.antt =====
-- workers/src/marketmind_workers/backtest/iterative.py: the state of a walk whose trades, and whose
-- position, agree with the phantom trades of the same signals.
use marketmind_open.Common.{
  ℕ, suc, ◌+◌, ◌-◌, ◌≡◌, ◌∙◌, ap, sym, subst, true, false, Option, none, some, ltb, inl, inr, arith,
  All,
}
use marketmind_open.Common.Result.{Result-cases, ok}
use marketmind_open.Backtest.Floats.{Floats, one, is_nan}
use marketmind_open.Backtest.Schema.{Position, Compiled, ExitReason, Trade}
use marketmind_open.Backtest.Levels.{stop_level_of, tp_level_of}
use marketmind_open.Backtest.Sizing.{entry_size}
use marketmind_open.Backtest.Positions.{
  open_position, closing, close_position, passes_trade, phantom_return,
}
use marketmind_open.Backtest.Shadow.{Shadow}
use marketmind_open.Backtest.Phantom.{phantom_loop, no_fill, phantom}
use marketmind_open.Backtest.Iterative.{Walk}
use marketmind_open.Backtest.Iterative.Twin.{DueNow, resolved_at, twin, unit_return}

module _ {F : Type 0} (fl : Floats F) (c : Compiled F) (n : ℕ) where
  -- The phantom of the signal that a trade entered at has the return of the trade on one unit, and
  -- is resolved at the bar that the trade was closed at.
  abbrev pub Agrees : Trade F → Type 0
  Agrees trade =
      phantom fl c n trade.entry_time
      ≡ ok (unit_return fl c trade, resolved_at trade.exit_reason trade.exit_time)

  -- The bars that are left decide the phantom of the signal of an open position.
  abbrev pub Promise : ℕ → ℕ → Position F → Option ℕ → Type 0
  Promise left bar p due =
      phantom fl c n p.entry_bar ≡ ok (phantom_loop fl c n p.entry_bar left bar (twin fl c p) due)

  abbrev pub Promised : ℕ → ℕ → Option (Position F) → (Position F → Option ℕ) → Type 0
  Promised left bar none due = Unit
  Promised left bar (some p) due = Promise left bar p (due p)

  abbrev pub Held : ℕ → ℕ → Option (Position F) → Option ℕ → Option ℕ → Type 0
  Held left bar none entry due = (due ≡ none) × DueNow entry bar
  Held left bar (some p) entry due = (entry ≡ none) × DueNow due bar × Promise left bar p due

  abbrev pub HeldShadow : ℕ → ℕ → Shadow F → Type 0
  HeldShadow left bar s = Held left bar s.position s.pending_entry_bar s.pending_exit_bar

  abbrev pub OnBar : ℕ → ℕ → Walk F → Type 0
  OnBar left bar w = All Agrees w.trades × HeldShadow left bar w.shadow

  -- An entry is decided only while flat.
  abbrev pub NextEntry : Option (Position F) → Option ℕ → ℕ → Type 0
  NextEntry none entry bar = DueNow entry bar
  NextEntry (some p) entry bar = entry ≡ none

  pub closed-Agrees :
      (p : Position F) (exit_bar : ℕ) (raw_price : F) (reason : ExitReason) (cash : F) (bar : ℕ)
      → phantom fl c n p.entry_bar
        ≡ ok (phantom_return fl p.entry_fill raw_price c.commission c.slippage, bar)
      → resolved_at reason exit_bar ≡ bar
      → Agrees (closing fl c p exit_bar raw_price reason cash).1
  unfolding close_position closing passes_trade phantom_return
  closed-Agrees p exit_bar raw_price reason cash bar promised at_bar =
      promised
      ∙ ap (λ b. ok (phantom_return fl p.entry_fill raw_price c.commission c.slippage, b))
          (sym at_bar)

  abbrev filled_at : ℕ → F → Option F → Position F
  filled_at entry size tp_level =
      let entry_fill = fl.fmul (c.opens (suc entry)) (fl.fadd (one fl) c.slippage) in
      record {
        entry_bar = entry;
        entry_fill = entry_fill;
        size = size;
        stop_level = stop_level_of fl c.stop_method entry_fill c.atr entry;
        tp_level = tp_level;
        trail_anchor = entry_fill;
      }

  open_position-filled_at :
      (entry : ℕ) (cash : F) (p : Position F)
      → open_position fl c entry (c.opens (suc entry)) cash ≡ ok (some p)
      → (tp : Option F) × (size : F) × (tp_level_of fl c.tp_method
            (filled_at entry size tp).entry_fill
            (filled_at entry size tp).stop_level
            c.atr
            entry
          ≡ ok tp)
        × (p ≡ filled_at entry size tp)
  unfolding open_position
  open_position-filled_at entry cash p opened =
      let entry_fill = fl.fmul (c.opens (suc entry)) (fl.fadd (one fl) c.slippage) in
      let stop = stop_level_of fl c.stop_method entry_fill c.atr entry in
      let size_of = entry_size fl c.sizing cash entry_fill c.commission c.stop_method c.atr entry in
      elim (Result-cases (tp_level_of fl c.tp_method entry_fill stop c.atr entry)) [
        | inr (e, raised) ↦ absurd (ground (arith, opened, raised))
        | inl (tp, at_tp) ↦ elim (Result-cases size_of) [
          | inr (e, raised) ↦ absurd (ground (arith, opened, at_tp, raised))
          | inl (size, at_size) ↦ (tp, size, at_tp, ground (arith, opened, at_tp, at_size))
        ]
      ]

  module _ (fillable : (bar : ℕ) → ltb bar n ≡ true → no_fill fl c (c.opens bar) ≡ false) where
    open_position-Promise :
        (entry left : ℕ) (cash : F) (p : Position F)
        → suc entry + suc left ≡ n
        → open_position fl c entry (c.opens (suc entry)) cash ≡ ok (some p)
        → Promise (suc left) (suc entry) p none
    unfolding phantom
    open_position-Promise entry left cash p count opened =
        let known = fillable (suc entry) (ground (arith, count)) in
        let bars_left : n - suc entry ≡ suc left = omega (arith, count) in
        let (tp, size, at_tp, same) = open_position-filled_at entry cash p opened in
        let held : Promise (suc left) (suc entry) (filled_at entry size tp) none =
          ground (arith, known, at_tp, bars_left) in
        subst (λ x. Promise (suc left) (suc entry) x none) (sym same) held

    pub open_known : (bar : ℕ) → ltb bar n ≡ true → is_nan fl (c.opens bar) ≡ false
    open_known bar h = ground (arith, fillable bar h)

    pub open_position-due :
        (entry bar left : ℕ) (cash : F) (p : Position F)
        → suc entry ≡ bar
        → bar + suc left ≡ n
        → open_position fl c entry (c.opens bar) cash ≡ ok (some p)
        → Promise (suc left) bar p none
    open_position-due entry bar left cash p at_bar =
        subst
          (λ b.
            b + suc left ≡ n
            → open_position fl c entry (c.opens b) cash ≡ ok (some p)
            → Promise (suc left) b p none)
          at_bar (open_position-Promise entry left cash p)
