-- ===== src/Trader/Signals/Repeated.antt =====
-- `_evaluate_pair` of a stateful template run again on the same candles, as the tick of every minute
-- does.
use marketmind_open.Common.{
  ℕ, ◌≡◌, refl, ◌∙◌, ap, subst, Bool, true, false, Option, none, some, length, leb, ltb, inl, inr,
  Bool-cases, Option-cases, arith,
}
use marketmind_open.Common.Result.{Result, Result-cases, ok, ok-injective}
use marketmind_open.Clock.{Instant}
use marketmind_open.Trader.Tables.{Db}
use marketmind_open.Trader.Signals.Store.{
  Evaluation, Templates, Store, Pair, Loaded, cold, warm, corrupt, latest_closed_candle,
  signal_exists, load_candles_df, open_position, persist_signal, audit_hold, load_strategy_state,
  persist_strategy_state,
}
use marketmind_open.Trader.Signals.Pair.{
  SignalEngineResult, Pass, is_hold, persist, record_evaluation, disable, locked_out, no_data,
  insufficient_history, duplicate_signal, state_guarded, advance, evaluate_stateful_pair,
  evaluate_candle, evaluate_pair,
}
use marketmind_open.Trader.Signals.States.{
  load-persist, book-persist, load-same, cold-Older, warm-Older,
}

module _ {T St : Type 0} (ops : Templates T St) (locked : ℕ → Bool) (p : Pair) (template : T)
    (min_bars fetch : ℕ) (stateful : ops.is_stateful template ≡ true) where
  -- Another run changes no table and evaluates nothing.
  abbrev Settled : Store St → Type 0
  Settled s =
      (m : SignalEngineResult)
      → (m' : SignalEngineResult) × (evaluate_pair ops locked p template min_bars fetch (m, s)
          ≡ ok (m', s))
        × (m'.evaluations ≡ m.evaluations)

  locked-Settled : (s : Store St) → locked p.version_id ≡ true → Settled s
  unfolding evaluate_pair
  locked-Settled s h m = (locked_out m, rw (evaluate_pair, h) refl, refl)

  no_data-Settled :
      (s : Store St)
      → locked p.version_id ≡ false
      → latest_closed_candle p s.book ≡ none
      → Settled s
  unfolding evaluate_pair
  no_data-Settled s h empty m = (no_data m, rw (evaluate_pair, h, empty) refl, refl)

  module _ (close_ts : Instant) (free : locked p.version_id ≡ false) where
    duplicate-Settled :
        (s : Store St)
        → latest_closed_candle p s.book ≡ some close_ts
        → signal_exists p close_ts s.book ≡ true
        → Settled s
    unfolding evaluate_pair evaluate_candle
    duplicate-Settled s at_close exists m =
        (duplicate_signal m, rw (evaluate_pair, free, at_close, evaluate_candle, exists) refl, refl)

    short-Settled :
        (s : Store St)
        → latest_closed_candle p s.book ≡ some close_ts
        → signal_exists p close_ts s.book ≡ false
        → ltb (length (load_candles_df p fetch s.book)) min_bars ≡ true
        → Settled s
    unfolding evaluate_pair evaluate_candle
    short-Settled s at_close exists short m = (
      insufficient_history m,
      rw (evaluate_pair, free, at_close, evaluate_candle, exists, short) refl,
      refl,
    )

    guarded-Settled :
        (s : Store St) (prior : St) (prev : Instant)
        → latest_closed_candle p s.book ≡ some close_ts
        → load_strategy_state p s ≡ warm prior prev
        → leb close_ts prev ≡ true
        → Settled s
    unfolding evaluate_pair evaluate_candle evaluate_stateful_pair
    guarded-Settled s prior prev at_close loaded guard m =
        elim (Bool-cases (signal_exists p close_ts s.book)) [
          | inl exists ↦ duplicate-Settled s at_close exists m
          | inr new ↦ elim (Bool-cases (ltb (length (load_candles_df p fetch s.book)) min_bars)) [
            | inl short ↦ short-Settled s at_close new short m
            | inr long ↦ (
              state_guarded m,
              rw
                  (
                    evaluate_pair, free, at_close, evaluate_candle, new, long, stateful,
                    evaluate_stateful_pair, loaded, guard,
                  )
                  refl,
              refl,
            )
          ]
        ]

    -- The rows that the pair reads, and its latest state.
    stored-Settled :
        (s s' : Store St) (next : St)
        → latest_closed_candle p s.book ≡ some close_ts
        → s'.book.candles ≡ s.book.candles
        → load_strategy_state p s' ≡ warm next close_ts
        → Settled s'
    unfolding latest_closed_candle
    stored-Settled s s' next at_close same loaded =
        guarded-Settled s' next close_ts (rw same at_close) loaded (ground arith)

  recorded_states :
      (close_ts : Instant) (e : Evaluation) (n : SignalEngineResult) (s : Store St)
      → ((record_evaluation p close_ts e (n, s)).1.states ≡ s.states)
        × ((record_evaluation p close_ts e (n, s)).1.book.candles ≡ s.book.candles)
  unfolding record_evaluation persist persist_signal audit_hold
  recorded_states close_ts e n s = elim (Bool-cases (is_hold e.kind)) [
    | inl hold ↦ (
      rw (record_evaluation, hold, audit_hold) refl,
      rw (record_evaluation, hold, audit_hold) refl,
    )
    | inr signal ↦ (ground (arith, signal), ground (arith, signal))
  ]

  -- What a run that disables nothing leaves behind.
  abbrev Leaves : SignalEngineResult → Result (Pass St) → Type 0
  Leaves n run =
      (n' : SignalEngineResult) (s' : Store St)
      → run ≡ ok (n', s')
      → n'.pair_state_disabled ≡ n.pair_state_disabled
      → Settled s'

  Leaves-Settled : (n m : SignalEngineResult) (s : Store St) → Settled s → Leaves n (ok (m, s))
  Leaves-Settled n m s settled n' s' same kept =
      subst (λ (pass : Pass St). Settled pass.1) (ok-injective same) settled

  disabled-Leaves :
      (n : SignalEngineResult) (s : Store St) (at : Option Instant)
      → Leaves n (ok (disable p at (n, s)))
  unfolding disable
  disabled-Leaves n s at n' s' same kept =
      let counts = ap (λ (pass : Pass St). pass.0.pair_state_disabled) (ok-injective same) in
      absurd (omega (arith, counts, kept))

  advanced-Leaves :
      (close_ts : Instant) (prior : Option St) (n : SignalEngineResult) (s : Store St)
      → locked p.version_id ≡ false
      → latest_closed_candle p s.book ≡ some close_ts
      → ((next : St)
          → load_strategy_state p (persist_strategy_state ops p close_ts next s)
            ≡ warm next close_ts)
      → Leaves n (
          ok (
            advance ops p template close_ts
              (load_candles_df p fetch s.book)
              (open_position p s.book)
              prior
              (n, s)))
  unfolding advance
  advanced-Leaves close_ts prior n s free at_close stored =
      let candles = load_candles_df p fetch s.book in
      let position = open_position p s.book in
      elim (Result-cases (ops.evaluate_stateful template candles position prior)) [
        | inr (e, raised) ↦ rw (advance, raised) (disabled-Leaves n s (some close_ts))
        | inl ((e, next), returned) ↦
            let s₁ = persist_strategy_state ops p close_ts next s in
            let s₂ = (record_evaluation p close_ts e (n, s₁)).1 in
            let (states, candles') = recorded_states close_ts e n s₁ in
            rw (advance, returned)
              (Leaves-Settled n (record_evaluation p close_ts e (n, s₁)).0 s₂ (
                stored-Settled close_ts free s s₂ next at_close
                  (candles' ∙ ap (λ (book : Db). book.candles) (book-persist ops p close_ts next s))
                  (load-same p s₁ s₂ states ∙ stored next)))
      ]

  stateful-Leaves :
      (close_ts : Instant) (n : SignalEngineResult) (s : Store St)
      → locked p.version_id ≡ false
      → latest_closed_candle p s.book ≡ some close_ts
      → Leaves n (
          ok (
            evaluate_stateful_pair ops p template close_ts
              (load_candles_df p fetch s.book)
              (open_position p s.book)
              (n, s)))
  unfolding evaluate_stateful_pair
  stateful-Leaves close_ts n s free at_close = go (load_strategy_state p s) refl
    where
      go :
          (loaded : Loaded St)
          → load_strategy_state p s ≡ loaded
          → Leaves n (
              ok (
                evaluate_stateful_pair ops p template close_ts
                  (load_candles_df p fetch s.book)
                  (open_position p s.book)
                  (n, s)))
      go (corrupt as_of_candle) h =
          rw (evaluate_stateful_pair, h) (disabled-Leaves n s (some as_of_candle))
      go cold h =
          rw (evaluate_stateful_pair, h)
            (advanced-Leaves close_ts none n s free at_close
              (λ next. load-persist ops p close_ts next s (cold-Older ops p close_ts s h)))
      go (warm prior prev) h = elim (Bool-cases (leb close_ts prev)) [
        | inl guard ↦
            rw (evaluate_stateful_pair, h, guard)
              (Leaves-Settled n (state_guarded n) s
                (guarded-Settled close_ts free s prior prev at_close h guard))
        | inr later ↦
            rw (evaluate_stateful_pair, h, later)
              (advanced-Leaves close_ts (some prior) n s free at_close (λ next.
                load-persist ops p close_ts next s
                  (warm-Older ops p close_ts s prior prev h (ground (arith, later)))))
      ]

  pair-Leaves :
      (n : SignalEngineResult) (s : Store St)
      → Leaves n (evaluate_pair ops locked p template min_bars fetch (n, s))
  unfolding evaluate_pair evaluate_candle
  pair-Leaves n s n' s' ran kept = elim (Bool-cases (locked p.version_id)) [
    | inl out ↦
        Leaves-Settled n (locked_out n) s (locked-Settled s out) n' s'
          (rw (evaluate_pair, out) at ran) kept
    | inr free ↦ elim (Option-cases (latest_closed_candle p s.book)) [
      | inl empty ↦
          Leaves-Settled n (no_data n) s (no_data-Settled s free empty) n' s'
            (rw (evaluate_pair, free, empty) at ran) kept
      | inr (close_ts, at_close) ↦ elim (Bool-cases (signal_exists p close_ts s.book)) [
        | inl exists ↦
            Leaves-Settled n (duplicate_signal n) s
              (duplicate-Settled close_ts free s at_close exists) n' s'
              (rw (evaluate_pair, free, at_close, evaluate_candle, exists) at ran) kept
        | inr new ↦ elim (Bool-cases (ltb (length (load_candles_df p fetch s.book)) min_bars)) [
          | inl short ↦
              Leaves-Settled n (insufficient_history n) s
                (short-Settled close_ts free s at_close new short) n' s'
                (rw (evaluate_pair, free, at_close, evaluate_candle, new, short) at ran) kept
          | inr long ↦
              stateful-Leaves close_ts n s free at_close n' s'
                (rw (evaluate_pair, free, at_close, evaluate_candle, new, long, stateful) at ran)
                kept
        ]
      ]
    ]
  ]

  -- When a run on a stateful template disables no version, then another run on the same candles, with
  -- any counters, changes no table and evaluates nothing.
  pub evaluate_pair_idempotent :
      (n n' m : SignalEngineResult) (s s' : Store St)
      → evaluate_pair ops locked p template min_bars fetch (n, s) ≡ ok (n', s')
      → n'.pair_state_disabled ≡ n.pair_state_disabled
      → (m' : SignalEngineResult) × (evaluate_pair ops locked p template min_bars fetch (m, s')
          ≡ ok (m', s'))
        × (m'.evaluations ≡ m.evaluations)
  evaluate_pair_idempotent n n' m s s' ran kept = pair-Leaves n s n' s' ran kept m
