-- ===== src/Backtest/Iterative/Order.antt =====
-- The trades of a backtest in time.
use marketmind_open.Common.{
  ℕ, zero, suc, ◌+◌, ◌-◌, ◌≤◌, ◌<◌, ◌≡◌, refl, subst, Option, none, some, List, [], ◌∷◌, inl, inr,
  Bool-cases, Option-cases, arith,
}
use marketmind_open.Common.Result.{Result-cases, ok, ok-injective, after_bind}
use marketmind_open.Backtest.Floats.{Floats, is_nan}
use marketmind_open.Backtest.Schema.{Position, Compiled, ExitReason, Trade}
use marketmind_open.Backtest.Levels.{intrabar_exit, update_trailing}
use marketmind_open.Backtest.Positions.{open_position, closing, close_position, passes_trade}
use marketmind_open.Backtest.Shadow.{Shadow, fill_entry}
use marketmind_open.Backtest.Iterative.{
  Walk, book_close, fill_exit, check_range, mark_equity, decide_entry, decide_exit, walk_bar,
  walk_bars, close_last, first_walk, run_iterative_backtest,
}

-- Each trade ends after it begins, by `last`, and a later trade begins no earlier than the one before
-- it ends. The last trade comes first.
abbrev pub EndBy : {F : Type 0} → ℕ → List (Trade F) → Type 0
EndBy last [] = Unit
EndBy last (t ∷ trades) =
    (t.entry_time < t.exit_time) × (t.exit_time ≤ last) × EndBy t.entry_time trades

EndBy-le :
    {F : Type 0} (trades : List (Trade F)) (last last' : ℕ)
    → EndBy last trades
    → last ≤ last'
    → EndBy last' trades
EndBy-le [] last last' h le = tt
EndBy-le (t ∷ trades) last last' h le = (h.0, omega (arith, h.1, le), h.2)

abbrev DueIn : ℕ → ℕ → Option ℕ → Type 0
DueIn entry_bar bar none = Unit
DueIn entry_bar bar (some due) = (entry_bar < due) × (due < bar)

-- Where the walk over n bars stands before `bar`, when no trade ends after `last`.
abbrev Standing :
    {F : Type 0} → ℕ → ℕ → ℕ → Option (Position F) → Option ℕ → Option ℕ → List (Trade F) → Type 0
Standing n last bar none none due trades = (due ≡ none) × EndBy last trades
Standing n last bar none (some entry) due trades =
    (due ≡ none) × (entry < bar) × (suc entry < n) × EndBy entry trades
Standing n last bar (some pos) entry due trades =
    (entry ≡ none)
    × (pos.entry_bar < bar)
    × (suc pos.entry_bar < n)
    × EndBy pos.entry_bar trades
    × DueIn pos.entry_bar bar due

abbrev HeldBefore : {F : Type 0} → ℕ → Option (Position F) → Type 0
HeldBefore bar none = Unit
HeldBefore bar (some pos) = pos.entry_bar < bar

abbrev Stands : {F : Type 0} → ℕ → ℕ → ℕ → Walk F → Type 0
Stands n last bar w =
    Standing n last bar w.shadow.position w.shadow.pending_entry_bar w.shadow.pending_exit_bar
      w.trades

module _ {F : Type 0} (fl : Floats F) (c : Compiled F) where
  open_position_entry :
      (entry_bar : ℕ) (raw_price cash : F) (p : Position F)
      → open_position fl c entry_bar raw_price cash ≡ ok (some p)
      → p.entry_bar ≡ entry_bar
  unfolding open_position
  open_position_entry entry_bar raw_price cash p h = ground arith

  update_trailing_entry :
      (bar : ℕ) (p : Position F)
      → (update_trailing fl p c.stop_method (c.highs bar) c.atr bar).entry_bar ≡ p.entry_bar
  unfolding update_trailing
  update_trailing_entry bar p = ground arith

  -- What a close does to the trades and to the open decisions.
  book_close_lem :
      (pos : Position F) (exit_bar : ℕ) (raw_price : F) (reason : ExitReason) (bar : ℕ)
      (w w' : Walk F)
      → book_close fl c pos exit_bar raw_price reason bar w ≡ ok w'
      → (t : Trade F) × (w'.trades ≡ t ∷ w.trades)
        × (t.entry_time ≡ pos.entry_bar)
        × (t.exit_time ≡ exit_bar)
        × (w'.shadow.position ≡ none)
        × (w'.shadow.pending_entry_bar ≡ w.shadow.pending_entry_bar)
        × (w'.shadow.pending_exit_bar ≡ w.shadow.pending_exit_bar)
  unfolding book_close close_position closing passes_trade
  book_close_lem pos exit_bar raw_price reason bar w w' h = (
    (closing fl c pos exit_bar raw_price reason w.shadow.cash).1,
    ground (arith, h),
    refl,
    refl,
    ground (arith, h),
    ground (arith, h),
    ground (arith, h),
  )

  module _ (n bar : ℕ) (w w' : Walk F) where
    fill_entry-Stands :
        (s : Shadow F)
        → fill_entry fl c bar w.shadow ≡ ok s
        → Stands n (bar - 1) bar w
        → Stands n bar bar (record w { shadow = s }) × (s.pending_entry_bar ≡ none)
    unfolding fill_entry
    fill_entry-Stands s h st = elim (Option-cases w.shadow.position) [
      | inr (pos, at_pos) ↦ (ground (arith, at_pos, h, st), ground (arith, at_pos, h, st))
      | inl flat ↦ elim (Option-cases w.shadow.pending_entry_bar) [
        | inl idle ↦ (
          ground (arith, flat, idle, h, st, EndBy-le w.trades (bar - 1) bar),
          ground (arith, flat, idle, h, st),
        )
        | inr (entry, at_entry) ↦ elim (Bool-cases (is_nan fl (c.opens bar))) [
          | inl nan ↦ (
            ground (arith, flat, at_entry, nan, h, st, EndBy-le w.trades entry bar),
            ground (arith, flat, at_entry, nan, h, st),
          )
          | inr opens ↦ elim (Result-cases (open_position fl c entry (c.opens bar) w.shadow.cash)) [
            | inr (e, raised) ↦ absurd (ground (arith, flat, at_entry, opens, raised, h))
            | inl (none, sized) ↦ (
              ground (arith, flat, at_entry, opens, sized, h, st, EndBy-le w.trades entry bar),
              ground (arith, flat, at_entry, opens, sized, h),
            )
            | inl (some p, sized) ↦ (
              ground (
                arith,
                flat,
                at_entry,
                opens,
                sized,
                h,
                st,
                open_position_entry entry (c.opens bar) w.shadow.cash p sized,
              ),
              ground (arith, flat, at_entry, opens, sized, h),
            )
          ]
        ]
      ]
    ]

    fill_exit-Stands :
        fill_exit fl c bar w ≡ ok w'
        → Stands n bar bar w
        → w.shadow.pending_entry_bar ≡ none
        → Stands n bar bar w'
          × (w'.shadow.pending_entry_bar ≡ none)
          × (w'.shadow.pending_exit_bar ≡ none)
    unfolding fill_exit
    fill_exit-Stands h st e = elim (Option-cases w.shadow.position) [
      | inl flat ↦ ground (arith, flat, h, st, e)
      | inr (pos, at_pos) ↦ elim (Option-cases w.shadow.pending_exit_bar) [
        | inl none_due ↦ ground (arith, at_pos, none_due, h, st, e)
        | inr (due, at_due) ↦ elim (Bool-cases (is_nan fl (c.opens bar))) [
          | inl nan ↦ ground (arith, at_pos, at_due, nan, h, st, e)
          | inr opens ↦
              elim (Result-cases (book_close fl c pos due (c.opens bar) ExitReason.signal bar w)) [
                | inr (e', raised) ↦ absurd (ground (arith, at_pos, at_due, opens, raised, h))
                | inl (w₁, closed) ↦
                    let eqs =
                      book_close_lem pos due (c.opens bar) ExitReason.signal bar w w₁ closed in
                    ground (arith, at_pos, at_due, opens, closed, eqs, h, st, e)
              ]
        ]
      ]
    ]

    check_range-Stands :
        check_range fl c bar w ≡ ok w'
        → Stands n bar bar w
        → w.shadow.pending_entry_bar ≡ none
        → w.shadow.pending_exit_bar ≡ none
        → Stands n bar bar w' × (w'.shadow.pending_entry_bar ≡ none)
    unfolding check_range
    check_range-Stands h st e x = elim (Option-cases w.shadow.position) [
      | inl flat ↦ ground (arith, flat, h, st, e, x)
      | inr (pos, at_pos) ↦
          elim (Option-cases (intrabar_exit fl pos (c.lows bar) (c.highs bar) (c.opens bar))) [
            | inl inside ↦
                ground (arith, at_pos, inside, h, st, e, x, update_trailing_entry bar pos)
            | inr ((price, reason), hit) ↦
                let closed : book_close fl c pos bar price reason bar w ≡ ok w' =
                  ground (arith, at_pos, hit, h) in
                let eqs = book_close_lem pos bar price reason bar w w' closed in
                ground (arith, eqs, st, e, x, at_pos)
          ]
    ]

    decide_entry-Stands :
        decide_entry fl c n bar w ≡ ok w'
        → Stands n bar bar w
        → w.shadow.pending_entry_bar ≡ none
        → Stands n bar (suc bar) w' × HeldBefore bar w'.shadow.position
    unfolding decide_entry
    decide_entry-Stands h st e = ground (arith, h, st, e)

    decide_exit-Stands :
        Stands n bar (suc bar) w
        → HeldBefore bar w.shadow.position
        → Stands n bar (suc bar) (decide_exit fl c n bar w)
    unfolding decide_exit
    decide_exit-Stands st held = ground arith

  walk_bar-Stands :
      (n bar : ℕ) (w w' : Walk F)
      → walk_bar fl c n bar w ≡ ok w'
      → Stands n (bar - 1) bar w
      → Stands n bar (suc bar) w'
  unfolding walk_bar mark_equity
  walk_bar-Stands n bar w w' h st = after_bind (fill_entry fl c bar w.shadow) _ h λ s entered rest.
      let w₁ : Walk F = record w { shadow = s } in
      let st₁ = fill_entry-Stands n bar w w s entered st in
      after_bind (fill_exit fl c bar w₁) _ rest λ w₂ exited rest₂.
        let st₂ = fill_exit-Stands n bar w₁ w₂ exited st₁.0 st₁.1 in
        after_bind (check_range fl c bar w₂) _ rest₂ λ w₃ ranged rest₃.
          let st₃ = check_range-Stands n bar w₂ w₃ ranged st₂.0 st₂.1 st₂.2 in
          after_bind (decide_entry fl c n bar (mark_equity fl c bar w₃)) _ rest₃ λ w₄ decided rest₄.
            let st₄ = decide_entry-Stands n bar (mark_equity fl c bar w₃) w₄ decided st₃.0 st₃.1 in
            subst (λ (x : Walk F). Stands n bar (suc bar) x) (ok-injective rest₄)
              (decide_exit-Stands n bar w₄ w₄ st₄.0 st₄.1)

  walk_bars-Stands :
      (n left bar end : ℕ) (w w' : Walk F)
      → walk_bars fl c n left bar w ≡ ok w'
      → bar + left ≡ end
      → Stands n (bar - 1) bar w
      → Stands n (end - 1) end w'
  unfolding walk_bars
  walk_bars-Stands n zero bar end w w' h ends st =
      let same : bar ≡ end = omega (arith, ends) in
      subst (λ (k : ℕ). Stands n (k - 1) k w') same
        (subst (λ (x : Walk F). Stands n (bar - 1) bar x) (ok-injective h) st)
  walk_bars-Stands n (suc left) bar end w w' h ends st =
      after_bind (walk_bar fl c n bar w) _ h λ w₁ step rest.
        let before : bar ≡ suc bar - 1 = omega arith in
        walk_bars-Stands n left (suc bar) end w₁ w' rest (omega (arith, ends))
          (subst (λ (k : ℕ). Stands n k (suc bar) w₁) before (walk_bar-Stands n bar w w₁ step st))

  close_last-EndBy :
      (n : ℕ) (w w' : Walk F)
      → Stands n (n - 1) n w
      → close_last fl c n w ≡ ok w'
      → EndBy (n - 1) w'.trades
  unfolding close_last close_position closing passes_trade
  close_last-EndBy n w w' st ended = elim (Option-cases w.shadow.position) [
    | inr (pos, at_pos) ↦ ground (arith, at_pos, st, ended)
    | inl flat ↦ elim (Option-cases w.shadow.pending_entry_bar) [
      | inl idle ↦ ground (arith, flat, idle, st, ended)
      | inr (entry, at_entry) ↦
          ground (arith, flat, at_entry, st, ended, EndBy-le w.trades entry (n - 1))
    ]
  ]

  -- Over n bars, every trade of a backtest that returns begins before it ends and ends by the last bar,
  -- and none begins before the one before it has ended.
  pub run_iterative_backtest-EndBy :
      (n : ℕ) (initial_capital : F) (w : Walk F)
      → run_iterative_backtest fl c n initial_capital ≡ ok w
      → EndBy (n - 1) w.trades
  unfolding run_iterative_backtest
  run_iterative_backtest-EndBy n initial_capital w h =
      after_bind (walk_bars fl c n n 0 (first_walk fl c initial_capital)) _ h λ w₁ walked rest.
        close_last-EndBy n w₁ w
          (walk_bars-Stands n n 0 n (first_walk fl c initial_capital) w₁ walked (omega arith)
            (refl, tt))
          rest
