-- ===== src/Trader/Signals/Counted.antt =====
-- The counters of a cycle against what it wrote.
use text.Mathlib.TextEquality.{eq_iff}
use marketmind_open.Common.{
  ℕ, suc, ◌+◌, ◌≡◌, refl, ap, subst, Bool, true, false, Option, none, some, List, [], ◌∷◌, length,
  length-append, find, leb, ltb, inl, inr, Bool-cases, Option-cases, arith,
}
use marketmind_open.Common.Result.{Result, Result-cases, ok, ok-injective}
use marketmind_open.Clock.{Instant}
use marketmind_open.Trader.Schema.{CandleRow, PositionRow, SignalRow}
use marketmind_open.Trader.Tables.{Db, is_some, same_signal_key}
use marketmind_open.Trader.Signals.Store.{
  Evaluation, Templates, Store, Pair, Loaded, cold, warm, corrupt, latest_closed_candle, signal_at,
  audit_row, corrupt_alert, new_signal, signal_exists, load_candles_df, open_position,
  persist_signal, audit_hold, load_strategy_state, handle_corrupt_state, persist_strategy_state,
}
use marketmind_open.Trader.Signals.Pair.{
  SignalEngineResult, Pass, no_stop, is_hold, persist, record_evaluation, disable, locked_out,
  no_data, insufficient_history, duplicate_signal, advance, evaluate_stateful_pair,
  evaluate_stateless_pair, evaluate_candle, evaluate_pair,
}
use marketmind_open.Trader.Signals.States.{untouched-persist}

-- How the pairs ended, each in one way.
abbrev pub outcomes : SignalEngineResult → ℕ
outcomes n =
    n.pair_locked_out + n.pair_no_data + n.pair_insufficient_history + n.pair_duplicate_signal
    + n.pair_state_guarded + n.pair_state_disabled + n.evaluations

signal_at-eq :
    (p : Pair) (t : Instant) (e : Evaluation) (db : Db) (x : SignalRow)
    → same_signal_key (new_signal p t e db) x ≡ signal_at p t x
signal_at-eq p t e db x = ground (
  arith,
  eq_iff p.symbol x.symbol,
  eq_iff x.symbol p.symbol,
  eq_iff p.timeframe x.timeframe,
  eq_iff x.timeframe p.timeframe,
)

find-same :
    (q r : SignalRow → Bool) (xs : List SignalRow)
    → ((x : SignalRow) → q x ≡ r x)
    → find q xs ≡ find r xs
find-same q r [] same = refl
find-same q r (x ∷ xs) same = rw (same x, find-same q r xs same) refl

-- A pair without a signal at the candle can store one.
persists :
    (p : Pair) (t : Instant) (e : Evaluation) (db : Db)
    → signal_exists p t db ≡ false
    → ((persist_signal p t e db).0 ≡ true)
      × (length (persist_signal p t e db).1.signals ≡ suc (length db.signals))
unfolding persist_signal signal_exists
persists p t e db new =
    let same =
      find-same (same_signal_key (new_signal p t e db)) (signal_at p t) db.signals
        (signal_at-eq p t e db) in
    let absent : is_some (find (same_signal_key (new_signal p t e db)) db.signals) ≡ false =
      rw same (ground (arith, new)) in
    (
      rw (persist_signal, absent) refl,
      rw (persist_signal, absent)
          (omega (arith, length-append db.signals (new_signal p t e db ∷ []))),
    )

module _ {St : Type 0} where
  -- From one pass to a later one, with k outcomes more than attempts: a signal for each signal
  -- persisted, an audit log for each hold and an alert for each version disabled.
  abbrev pub Balances : ℕ → Pass St → Pass St → Type 0
  Balances k (n, s) (n', s') =
      (outcomes n' + n.pair_attempts ≡ k + outcomes n + n'.pair_attempts)
      × (length s'.book.signals + n.signals_persisted
          ≡ length s.book.signals + n'.signals_persisted)
      × (length s'.audit_logs + n.holds ≡ length s.audit_logs + n'.holds)
      × (length s'.alerts + n.pair_state_disabled ≡ length s.alerts + n'.pair_state_disabled)
      × (n'.versions_loaded ≡ n.versions_loaded)

  recorded-Balances :
      (p : Pair) (t : Instant) (e : Evaluation) (n : SignalEngineResult) (s : Store St)
      → signal_exists p t s.book ≡ false
      → Balances 1 (n, s) (record_evaluation p t e (n, s))
  unfolding record_evaluation persist audit_hold
  recorded-Balances p t e n s new = elim (Bool-cases (is_hold e.kind)) [
    | inl hold ↦
        rw (record_evaluation, hold, audit_hold)
          (
            omega arith,
            refl,
            omega (arith, length-append s.audit_logs (audit_row p t e ∷ [])),
            refl,
            refl,
          )
    | inr signal ↦ elim (Bool-cases (no_stop e)) [
      | inl bad ↦ rw (record_evaluation, signal, persist, bad) (omega arith, refl, refl, refl, refl)
      | inr good ↦
          let (inserted, more) = persists p t e s.book new in
          rw (record_evaluation, signal, persist, good, inserted)
            (omega arith, omega (arith, more), refl, refl, refl)
    ]
  ]

  disabled-Balances :
      (p : Pair) (at : Option Instant) (n : SignalEngineResult) (s : Store St)
      → Balances 1 (n, s) (disable p at (n, s))
  unfolding disable handle_corrupt_state
  disabled-Balances p at n s = (
    omega arith,
    refl,
    refl,
    omega (arith, length-append s.alerts (corrupt_alert p at ∷ [])),
    refl,
  )

  module _ {T : Type 0} (ops : Templates T St) (locked : ℕ → Bool) where
    advance-Balances :
        (p : Pair) (template : T) (t : Instant) (candles : List CandleRow)
        (position : Option PositionRow) (prior : Option St) (n : SignalEngineResult) (s : Store St)
        → signal_exists p t s.book ≡ false
        → Balances 1 (n, s) (advance ops p template t candles position prior (n, s))
    unfolding advance
    advance-Balances p template t candles position prior n s new =
        elim (Result-cases (ops.evaluate_stateful template candles position prior)) [
          | inr (e, raised) ↦ rw (advance, raised) (disabled-Balances p (some t) n s)
          | inl ((e, next), returned) ↦
              let s₁ = persist_strategy_state ops p t next s in
              let (same, logs, alerts) = untouched-persist ops p t next s in
              let signals = ap (λ (book : Db). length book.signals) same in
              let balanced = recorded-Balances p t e n s₁ (rw same new) in
              rw (advance, returned)
                (
                  balanced.0,
                  omega (arith, balanced.1, signals),
                  omega (arith, balanced.2, ap length logs),
                  omega (arith, balanced.3, ap length alerts),
                  balanced.4,
                )
        ]

    stateful-Balances :
        (p : Pair) (template : T) (t : Instant) (candles : List CandleRow)
        (position : Option PositionRow) (n : SignalEngineResult) (s : Store St)
        → signal_exists p t s.book ≡ false
        → Balances 1 (n, s) (evaluate_stateful_pair ops p template t candles position (n, s))
    unfolding evaluate_stateful_pair
    stateful-Balances p template t candles position n s new = go (load_strategy_state p s) refl
      where
        go :
            (loaded : Loaded St)
            → load_strategy_state p s ≡ loaded
            → Balances 1 (n, s) (evaluate_stateful_pair ops p template t candles position (n, s))
        go (corrupt at) h = rw (evaluate_stateful_pair, h) (disabled-Balances p (some at) n s)
        go cold h =
            rw (evaluate_stateful_pair, h)
              (advance-Balances p template t candles position none n s new)
        go (warm prior prev) h = elim (Bool-cases (leb t prev)) [
          | inl guard ↦ rw (evaluate_stateful_pair, h, guard) (omega arith, refl, refl, refl, refl)
          | inr later ↦
              rw (evaluate_stateful_pair, h, later)
                (advance-Balances p template t candles position (some prior) n s new)
        ]

    -- A run that ends balances.
    abbrev pub RunBalances : ℕ → Pass St → Result (Pass St) → Type 0
    RunBalances k pass run = (pass' : Pass St) → run ≡ ok pass' → Balances k pass pass'

    pub ended :
        (k : ℕ) (pass pass' : Pass St) → Balances k pass pass' → RunBalances k pass (ok pass')
    ended k pass pass' balanced pass'' same = subst (Balances k pass) (ok-injective same) balanced

    candle_balances :
        (p : Pair) (template : T) (min_bars fetch : ℕ) (t : Instant) (n : SignalEngineResult)
        (s : Store St)
        → RunBalances 1 (n, s) (evaluate_candle ops p template min_bars fetch t (n, s))
    unfolding evaluate_candle evaluate_stateless_pair
    candle_balances p template min_bars fetch t n s = elim (Bool-cases (signal_exists p t s.book)) [
      | inl exists ↦
          rw (evaluate_candle, exists)
            (ended 1 (n, s) (duplicate_signal n, s) (omega arith, refl, refl, refl, refl))
      | inr new ↦ elim (Bool-cases (ltb (length (load_candles_df p fetch s.book)) min_bars)) [
        | inl short ↦
            rw (evaluate_candle, new, short)
              (ended 1 (n, s) (insufficient_history n, s) (omega arith, refl, refl, refl, refl))
        | inr long ↦ elim (Bool-cases (ops.is_stateful template)) [
          | inl stateful ↦
              let candles = load_candles_df p fetch s.book in
              let position = open_position p s.book in
              rw (evaluate_candle, new, long, stateful)
                (ended 1 (n, s) (evaluate_stateful_pair ops p template t candles position (n, s))
                  (stateful-Balances p template t candles position n s new))
          | inr stateless ↦
              let candles = load_candles_df p fetch s.book in
              let position = open_position p s.book in
              elim (Result-cases (ops.evaluate template candles position)) [
                | inr (e, raised) ↦
                    rw (evaluate_candle, new, long, stateless, evaluate_stateless_pair, raised)
                      (λ pass' same. absurd (cc))
                | inl (e, returned) ↦
                    rw (evaluate_candle, new, long, stateless, evaluate_stateless_pair, returned)
                      (ended 1 (n, s) (record_evaluation p t e (n, s))
                        (recorded-Balances p t e n s new))
              ]
        ]
      ]
    ]

    pub pair_balances :
        (p : Pair) (template : T) (min_bars fetch : ℕ) (n : SignalEngineResult) (s : Store St)
        → RunBalances 1 (n, s) (evaluate_pair ops locked p template min_bars fetch (n, s))
    unfolding evaluate_pair
    pair_balances p template min_bars fetch n s = elim (Bool-cases (locked p.version_id)) [
      | inl out ↦
          rw (evaluate_pair, out)
            (ended 1 (n, s) (locked_out n, s) (omega arith, refl, refl, refl, refl))
      | inr free ↦ elim (Option-cases (latest_closed_candle p s.book)) [
        | inl empty ↦
            rw (evaluate_pair, free, empty)
              (ended 1 (n, s) (no_data n, s) (omega arith, refl, refl, refl, refl))
        | inr (t, at_close) ↦
            rw (evaluate_pair, free, at_close) (candle_balances p template min_bars fetch t n s)
      ]
    ]
