-- ===== src/Backtest/Iterative/Pending.antt =====
-- The pending signals of a backtest: a trade that closes finds one.
use marketmind_open.Common.{
  ℕ, zero, suc, ◌≡◌, ◌≢◌, refl, subst, Bool, true, false, ◌||◌, Option, none, some, [], ◌∷◌, inl,
  inr, Option-cases, arith,
}
use marketmind_open.Common.Result.{value_error, Result, ok, err, ◌>>=◌}
use marketmind_open.Backtest.Floats.{Floats, one}
use marketmind_open.Backtest.History.{SignalHistory, is_pending, record_fired, resolve_last_pending}
use marketmind_open.Backtest.Schema.{Position, Compiled, ExitReason}
use marketmind_open.Backtest.Levels.{intrabar_exit, stop_level_of, tp_level_of}
use marketmind_open.Backtest.Sizing.{entry_size}
use marketmind_open.Backtest.Positions.{open_position, closing, close_position, passes_trade}
use marketmind_open.Backtest.Phantom.{phantom}
use marketmind_open.Backtest.Shadow.{Shadow, fill_entry}
use marketmind_open.Backtest.Iterative.{
  Walk, settle_last, book_close, fill_exit, check_range, mark_equity, decide_entry, decide_exit,
  walk_bar, walk_bars, close_last, first_walk, run_iterative_backtest,
}

-- A result that satisfies a predicate, or an exception other than `value_error`.
abbrev Fine : {A : Type 0} → (A → Type 0) → Result A → Type 0
Fine P (err e) = e ≢ value_error
Fine P (ok a) = P a

abbrev AnyValue : {A : Type 0} → A → Type 0
AnyValue a = Unit {0}

Fine-bind :
    {A B : Type 0} (P : A → Type 0) (Q : B → Type 0) (r : Result A) (f : A → Result B)
    → Fine P r
    → ((a : A) → P a → Fine Q (f a))
    → Fine Q (r >>= f)
Fine-bind P Q (err e) f h next = h
Fine-bind P Q (ok a) f h next = next a h

abbrev has_pending : {F : Type 0} → SignalHistory F → Bool
has_pending [] = false
has_pending (rec ∷ signals) = is_pending rec.outcome || has_pending signals

-- Whether a close can settle its signal.
abbrev settles : {F : Type 0} → Option (ℕ → Bool) → SignalHistory F → Bool
settles none signals = true
settles (some raw) signals = has_pending signals

abbrev Covers :
    {F : Type 0} → Option (ℕ → Bool) → Option (Position F) → Option ℕ → SignalHistory F → Type 0
Covers raw none none signals = Unit
Covers raw none (some entry) signals = settles raw signals ≡ true
Covers raw (some pos) entry signals = (entry ≡ none) × (settles raw signals ≡ true)

module _ {F : Type 0} (fl : Floats F) where
  resolve_last_pending-Fine :
      (return_pct : F) (bar : ℕ) (signals : SignalHistory F)
      → has_pending signals ≡ true
      → Fine (AnyValue {A = SignalHistory F}) (resolve_last_pending fl return_pct bar signals)
  unfolding resolve_last_pending
  resolve_last_pending-Fine r bar [] h = cc
  resolve_last_pending-Fine r bar (rec ∷ signals) h =
      ground (arith, h, resolve_last_pending-Fine r bar signals)

  tp_level_of-Fine :
      (c : Compiled F) (entry_fill : F) (stop : Option F) (bar : ℕ)
      → Fine (AnyValue {A = Option F}) (tp_level_of fl c.tp_method entry_fill stop c.atr bar)
  unfolding tp_level_of
  tp_level_of-Fine c entry_fill stop bar = ground arith

  entry_size-Fine :
      (c : Compiled F) (cash entry_fill : F) (bar : ℕ)
      → Fine
          (AnyValue {A = F})
          (entry_size fl c.sizing cash entry_fill c.commission c.stop_method c.atr bar)
  unfolding entry_size
  entry_size-Fine c cash entry_fill bar = ground arith

  module _ (c : Compiled F) where
    open_position-Fine :
        (entry_bar : ℕ) (raw_price cash : F)
        → Fine (AnyValue {A = Option (Position F)}) (open_position fl c entry_bar raw_price cash)
    unfolding open_position
    open_position-Fine entry_bar raw_price cash =
        let entry_fill = fl.fmul raw_price (fl.fadd (one fl) c.slippage) in
        let stop = stop_level_of fl c.stop_method entry_fill c.atr entry_bar in
        ground (
          arith,
          tp_level_of-Fine c entry_fill stop entry_bar,
          entry_size-Fine c cash entry_fill entry_bar,
        )

    phantom-Fine : (n bar : ℕ) → Fine (AnyValue {A = F × ℕ}) (phantom fl c n bar)
    unfolding phantom
    phantom-Fine n bar =
        let entry_fill = fl.fmul (c.opens (suc bar)) (fl.fadd (one fl) c.slippage) in
        let stop = stop_level_of fl c.stop_method entry_fill c.atr bar in
        ground (arith, tp_level_of-Fine c entry_fill stop bar)

    settle_last-Fine :
        (return_pct : F) (bar : ℕ) (signals : SignalHistory F)
        → settles c.raw_signal signals ≡ true
        → Fine
            (AnyValue {A = SignalHistory F})
            (settle_last fl c c.raw_signal return_pct bar signals)
    settle_last-Fine return_pct bar signals h = elim (Option-cases c.raw_signal) [
      | inl ungated ↦ ground (arith, ungated)
      | inr (raw, gated) ↦
          ground (arith, gated, h, resolve_last_pending-Fine return_pct bar signals)
    ]

    -- A walk whose position, or whose decided entry, has a signal that its close can settle.
    abbrev Ready : Walk F → Type 0
    Ready w =
        Covers c.raw_signal w.shadow.position w.shadow.pending_entry_bar w.shadow.signal_history

    abbrev ReadyShadow : Shadow F → Type 0
    ReadyShadow s = Covers c.raw_signal s.position s.pending_entry_bar s.signal_history

    fill_entry-Ready :
        (bar : ℕ) (s : Shadow F) → ReadyShadow s → Fine ReadyShadow (fill_entry fl c bar s)
    unfolding fill_entry
    fill_entry-Ready bar s h = elim (Option-cases s.position) [
      | inr (pos, at_pos) ↦ ground (arith, at_pos, h)
      | inl flat ↦ elim (Option-cases s.pending_entry_bar) [
        | inl idle ↦ ground (arith, flat, idle, h)
        | inr (entry, at_entry) ↦
            ground (arith, flat, at_entry, h, open_position-Fine entry (c.opens bar) s.cash)
      ]
    ]

    book_close-Ready :
        (pos : Position F) (exit_bar : ℕ) (raw_price : F) (reason : ExitReason) (bar : ℕ)
        (w : Walk F)
        → w.shadow.pending_entry_bar ≡ none
        → settles c.raw_signal w.shadow.signal_history ≡ true
        → Fine Ready (book_close fl c pos exit_bar raw_price reason bar w)
    unfolding book_close close_position closing passes_trade
    book_close-Ready pos exit_bar raw_price reason bar w h k =
        let trade = (closing fl c pos exit_bar raw_price reason w.shadow.cash).1 in
        let settled = settle_last-Fine trade.return_pct bar w.shadow.signal_history k in
        ground (arith, h, settled)

    fill_exit-Ready : (bar : ℕ) (w : Walk F) → Ready w → Fine Ready (fill_exit fl c bar w)
    unfolding fill_exit
    fill_exit-Ready bar w h = elim (Option-cases w.shadow.position) [
      | inl flat ↦ ground (arith, flat, h)
      | inr (pos, at_pos) ↦ elim (Option-cases w.shadow.pending_exit_bar) [
        | inl none_due ↦ ground (arith, at_pos, none_due, h)
        | inr (due, at_due) ↦ ground (
          arith,
          at_pos,
          at_due,
          h,
          book_close-Ready pos due (c.opens bar) ExitReason.signal bar w,
        )
      ]
    ]

    check_range-Ready : (bar : ℕ) (w : Walk F) → Ready w → Fine Ready (check_range fl c bar w)
    unfolding check_range
    check_range-Ready bar w h = elim (Option-cases w.shadow.position) [
      | inl flat ↦ ground (arith, flat, h)
      | inr (pos, at_pos) ↦
          elim (Option-cases (intrabar_exit fl pos (c.lows bar) (c.highs bar) (c.opens bar))) [
            | inl inside ↦ ground (arith, at_pos, inside, h)
            | inr ((price, reason), hit) ↦
                ground (arith, at_pos, hit, h, book_close-Ready pos bar price reason bar w)
          ]
    ]

    decide_entry-Ready : (n bar : ℕ) (w : Walk F) → Ready w → Fine Ready (decide_entry fl c n bar w)
    unfolding decide_entry record_fired
    decide_entry-Ready n bar w h = ground (arith, h, phantom-Fine n bar)

    decide_exit-Ready : (n bar : ℕ) (w : Walk F) → Ready w → Ready (decide_exit fl c n bar w)
    unfolding decide_exit
    decide_exit-Ready n bar w h = ground arith

    walk_bar-Ready : (n bar : ℕ) (w : Walk F) → Ready w → Fine Ready (walk_bar fl c n bar w)
    unfolding walk_bar mark_equity
    walk_bar-Ready n bar w h =
        Fine-bind ReadyShadow Ready (fill_entry fl c bar w.shadow) _
          (fill_entry-Ready bar w.shadow h)
          λ s ready.
            let w₁ : Walk F = record w { shadow = s } in
            Fine-bind Ready Ready (fill_exit fl c bar w₁) _ (fill_exit-Ready bar w₁ ready)
              λ w₂ ready₂.
                Fine-bind Ready Ready (check_range fl c bar w₂) _ (check_range-Ready bar w₂ ready₂)
                  λ w₃ ready₃.
                    let w₄ = mark_equity fl c bar w₃ in
                    Fine-bind Ready Ready (decide_entry fl c n bar w₄) _
                      (decide_entry-Ready n bar w₄ ready₃)
                      λ w₅ ready₅. decide_exit-Ready n bar w₅ ready₅

    walk_bars-Ready :
        (n left bar : ℕ) (w : Walk F) → Ready w → Fine Ready (walk_bars fl c n left bar w)
    unfolding walk_bars
    walk_bars-Ready n zero bar w h = h
    walk_bars-Ready n (suc left) bar w h =
        Fine-bind Ready Ready (walk_bar fl c n bar w) _ (walk_bar-Ready n bar w h)
          λ w' ready. walk_bars-Ready n left (suc bar) w' ready

    close_last-Fine : (n : ℕ) (w : Walk F) → Fine (AnyValue {A = Walk F}) (close_last fl c n w)
    unfolding close_last close_position
    close_last-Fine n w = ground arith

    run_iterative_backtest-Fine :
        (n : ℕ) (initial_capital : F)
        → Fine (AnyValue {A = Walk F}) (run_iterative_backtest fl c n initial_capital)
    unfolding run_iterative_backtest
    run_iterative_backtest-Fine n initial_capital =
        Fine-bind Ready (AnyValue {A = Walk F})
          (walk_bars fl c n n 0 (first_walk fl c initial_capital)) _
          (walk_bars-Ready n n 0 (first_walk fl c initial_capital) tt)
          λ w ready. close_last-Fine n w

    -- A backtest never raises the ValueError of resolve_last_pending: a trade that closes finds a
    -- pending signal. The ValidationError of a trade whose price is not positive, which Python counts
    -- as a ValueError too, is an exception of its own here, of which this says nothing.
    pub run_iterative_backtest_settles :
        (n : ℕ) (initial_capital : F)
        → run_iterative_backtest fl c n initial_capital ≢ err value_error
    run_iterative_backtest_settles n initial_capital h =
        subst (Fine (AnyValue {A = Walk F})) h (run_iterative_backtest-Fine n initial_capital) refl
