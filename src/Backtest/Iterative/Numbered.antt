-- ===== src/Backtest/Iterative/Numbered.antt =====
-- The numbers of the trades of a backtest, which stand as their exit indices.
use marketmind_open.Common.{
  ℕ, zero, suc, ◌+◌, ◌≡◌, refl, subst, ◌&&◌, [], ◌∷◌, length, leb, ltb, inl, inr, Bool-cases,
  Option-cases, arith,
}
use marketmind_open.Common.Result.{Result-cases, ok, ok-injective, after_bind}
use marketmind_open.Backtest.Floats.{Floats, is_nan}
use marketmind_open.Backtest.History.{TradeHistory, evaluate_trades, bars_since_last_at_least}
use marketmind_open.Backtest.Schema.{Position, Compiled, ExitReason}
use marketmind_open.Backtest.Levels.{intrabar_exit}
use marketmind_open.Backtest.Positions.{closing, close_position, passes_trade, completed}
use marketmind_open.Backtest.Shadow.{Shadow, fill_entry}
use marketmind_open.Backtest.Iterative.{
  Walk, book_close, fill_exit, check_range, mark_equity, decide_entry, decide_exit, walk_bar,
  walk_bars, first_walk,
}

-- Each trade's exit index is its number from the oldest on.
abbrev Numbered : {F : Type 0} → TradeHistory F → Type 0
Numbered [] = Unit
Numbered (t ∷ trades) = (t.exit_index ≡ suc (length trades)) × Numbered trades

abbrev IsNumbered : {F : Type 0} → Shadow F → Type 0
IsNumbered s = Numbered s.history × (s.trade_id ≡ length s.history)

module _ {F : Type 0} (fl : Floats F) (c : Compiled F) where
  book_close-IsNumbered :
      (bar : ℕ) (w w' : Walk F) (pos : Position F) (exit_bar : ℕ) (raw_price : F)
      (reason : ExitReason)
      → book_close fl c pos exit_bar raw_price reason bar w ≡ ok w'
      → IsNumbered w.shadow
      → IsNumbered w'.shadow
  unfolding book_close close_position closing passes_trade completed
  book_close-IsNumbered bar w w' pos exit_bar raw_price reason h num = ground (arith, h, num)

  module _ (bar : ℕ) (w w' : Walk F) where
    fill_entry-IsNumbered :
        (s : Shadow F) → fill_entry fl c bar w.shadow ≡ ok s → IsNumbered w.shadow → IsNumbered s
    unfolding fill_entry
    fill_entry-IsNumbered s h num = ground (arith, h, num)

    fill_exit-IsNumbered : fill_exit fl c bar w ≡ ok w' → IsNumbered w.shadow → IsNumbered w'.shadow
    unfolding fill_exit
    fill_exit-IsNumbered h num = elim (Option-cases w.shadow.position) [
      | inl flat ↦ ground (arith, flat, h, num)
      | inr (pos, at_pos) ↦ elim (Option-cases w.shadow.pending_exit_bar) [
        | inl none_due ↦ ground (arith, at_pos, none_due, h, num)
        | inr (due, at_due) ↦ elim (Bool-cases (is_nan fl (c.opens bar))) [
          | inl nan ↦ ground (arith, at_pos, at_due, nan, h, num)
          | inr opens ↦
              elim (Result-cases (book_close fl c pos due (c.opens bar) ExitReason.signal bar w)) [
                | inr (e, raised) ↦ absurd (ground (arith, at_pos, at_due, opens, raised, h))
                | inl (w₁, closed) ↦
                    let num' : IsNumbered w₁.shadow =
                      book_close-IsNumbered bar w w₁ pos due (c.opens bar) ExitReason.signal closed
                        num in
                    ground (arith, at_pos, at_due, opens, closed, h, num')
              ]
        ]
      ]
    ]

    check_range-IsNumbered :
        check_range fl c bar w ≡ ok w' → IsNumbered w.shadow → IsNumbered w'.shadow
    unfolding check_range
    check_range-IsNumbered h num = elim (Option-cases w.shadow.position) [
      | inl flat ↦ ground (arith, flat, h, num)
      | inr (pos, at_pos) ↦
          elim (Option-cases (intrabar_exit fl pos (c.lows bar) (c.highs bar) (c.opens bar))) [
            | inl inside ↦ ground (arith, at_pos, inside, h, num)
            | inr ((price, reason), hit) ↦
                book_close-IsNumbered bar w w' pos bar price reason (ground (arith, at_pos, hit, h))
                  num
          ]
    ]

    decide_entry-IsNumbered :
        (n : ℕ) → decide_entry fl c n bar w ≡ ok w' → IsNumbered w.shadow → IsNumbered w'.shadow
    unfolding decide_entry
    decide_entry-IsNumbered n h num = ground (arith, h, num)

    decide_exit-IsNumbered :
        (n : ℕ) → IsNumbered w.shadow → IsNumbered (decide_exit fl c n bar w).shadow
    unfolding decide_exit
    decide_exit-IsNumbered n num = ground (arith, num)

  walk_bars-IsNumbered :
      (n left bar : ℕ) (w w' : Walk F)
      → walk_bars fl c n left bar w ≡ ok w'
      → IsNumbered w.shadow
      → IsNumbered w'.shadow
  unfolding walk_bars walk_bar mark_equity
  walk_bars-IsNumbered n zero bar w w' h num =
      subst (λ (x : Walk F). IsNumbered x.shadow) (ok-injective h) num
  walk_bars-IsNumbered n (suc left) bar w w' h num =
      after_bind (walk_bar fl c n bar w) _ h λ w₅ stepped rest.
        after_bind (fill_entry fl c bar w.shadow) _ stepped λ s entered rest₁.
          let w₁ : Walk F = record w { shadow = s } in
          let num₁ = fill_entry-IsNumbered bar w w s entered num in
          after_bind (fill_exit fl c bar w₁) _ rest₁ λ w₂ exited rest₂.
            let num₂ = fill_exit-IsNumbered bar w₁ w₂ exited num₁ in
            after_bind (check_range fl c bar w₂) _ rest₂ λ w₃ ranged rest₃.
              let num₃ = check_range-IsNumbered bar w₂ w₃ ranged num₂ in
              after_bind (decide_entry fl c n bar (mark_equity fl c bar w₃)) _ rest₃
                λ w₄ decided made.
                  let num₄ =
                    decide_entry-IsNumbered bar (mark_equity fl c bar w₃) w₄ n decided num₃ in
                  walk_bars-IsNumbered n left (suc bar) w₅ w' rest (
                    subst (λ (x : Walk F). IsNumbered x.shadow) (ok-injective made)
                      (decide_exit-IsNumbered bar w₄ w₄ n num₄))

  counts_lem :
      (k bar : ℕ) (trades : TradeHistory F)
      → Numbered trades
      → evaluate_trades bars_since_last_at_least k bar trades
        ≡ (ltb 0 (length trades) && leb (length trades + k) bar)
  unfolding evaluate_trades
  counts_lem k bar [] num = refl
  counts_lem k bar (t ∷ trades) num = ground (arith, num)

  -- After any number of bars of a backtest, bars_since_last_at_least with k compares the bar with the
  -- number of completed trades plus k, and is false without a trade; it reads no bar of an exit.
  pub walk_bars_counts :
      (n left : ℕ) (initial_capital : F) (w : Walk F) (k bar : ℕ)
      → walk_bars fl c n left 0 (first_walk fl c initial_capital) ≡ ok w
      → evaluate_trades bars_since_last_at_least k bar w.shadow.history
        ≡ (ltb 0 (length w.shadow.history) && leb (length w.shadow.history + k) bar)
  walk_bars_counts n left initial_capital w k bar h =
      counts_lem k bar w.shadow.history
        (walk_bars-IsNumbered n left 0 (first_walk fl c initial_capital) w h (tt, refl)).0
