-- ===== src/Backtest/Iterative/Agree.antt =====
-- workers/src/marketmind_workers/backtest/iterative.py: the trades of a run against the phantom trades
-- of the same signals.
use marketmind_open.Common.{
  ℕ, zero, suc, ◌+◌, ◌-◌, ◌≡◌, refl, ◌∙◌, ap, subst, true, false, ◌&&◌, Option, none, some, ltb,
  inl, inr, Option-cases, if◌then◌else◌, arith, All,
}
use marketmind_open.Common.Result.{Result-cases, ok, ok-injective, after_bind, ◌>>=◌}
use marketmind_open.Backtest.Floats.{Floats}
use marketmind_open.Backtest.Schema.{Position, Compiled, ExitReason}
use marketmind_open.Backtest.Levels.{intrabar_exit}
use marketmind_open.Backtest.Positions.{open_position, closing, close_position, exit_hit}
use marketmind_open.Backtest.Shadow.{Shadow, fill_entry}
use marketmind_open.Backtest.Phantom.{phantom_loop, no_fill}
use marketmind_open.Backtest.Iterative.{
  Walk, book_close, fill_exit, check_range, mark_equity, decide_entry, decide_exit, walk_bar,
  walk_bars, close_last, first_walk, run_iterative_backtest,
}
use marketmind_open.Backtest.Iterative.Twin.{
  update_trailing-entry, book_close-closed, intrabar_exit-resolved_at, phantom_loop-hit,
  phantom_loop-held,
}
use marketmind_open.Backtest.Iterative.Promise.{
  Agrees, Promised, Held, HeldShadow, OnBar, NextEntry, closed-Agrees, open_known,
  open_position-due,
}

module _ {F : Type 0} (fl : Floats F) (c : Compiled F) (n : ℕ) where
  module _ (fillable : (bar : ℕ) → ltb bar n ≡ true → no_fill fl c (c.opens bar) ≡ false) where
    module _ (left bar : ℕ) (count : bar + suc left ≡ n) where
      in_range : ltb bar n ≡ true
      in_range = ground (arith, count)

      fill_entry-Held :
          (s s' : Shadow F)
          → HeldShadow fl c n (suc left) bar s
          → fill_entry fl c bar s ≡ ok s'
          → (s'.pending_entry_bar ≡ none) × HeldShadow fl c n (suc left) bar s'
      unfolding fill_entry
      fill_entry-Held s s' held filled = elim (Option-cases s.position) [
        | inr (p, at_pos) ↦ ground (arith, at_pos, held, filled)
        | inl flat ↦ elim (Option-cases s.pending_entry_bar) [
          | inl idle ↦ ground (arith, flat, idle, held, filled)
          | inr (entry, at_entry) ↦
              let held' : Held fl c n (suc left) bar none (some entry) s.pending_exit_bar =
                ground (arith, held, flat, at_entry) in
              let (no_due, at_bar) = held' in
              elim (Result-cases (open_position fl c entry (c.opens bar) s.cash)) [
                | inr (e, raised) ↦ absurd (
                    ground (
                      arith,
                      flat,
                      at_entry,
                      open_known fl c n fillable bar in_range,
                      raised,
                      filled,
                    ))
                | inl (none, opened) ↦ ground (
                  arith,
                  flat,
                  at_entry,
                  no_due,
                  open_known fl c n fillable bar in_range,
                  opened,
                  filled,
                )
                | inl (some p, opened) ↦
                    let promise =
                      open_position-due fl c n fillable entry bar left s.cash p at_bar count
                        opened in
                    ground (
                      arith,
                      flat,
                      at_entry,
                      no_due,
                      open_known fl c n fillable bar in_range,
                      opened,
                      filled,
                      promise,
                    )
              ]
        ]
      ]

      -- The decision of step 5 for a position.
      abbrev next_due : Position F → Option ℕ
      next_due p = if exit_hit c bar p.entry_bar && ltb bar (n - 1) then some bar else none

      abbrev Exited : Walk F → Type 0
      Exited w =
          All (Agrees fl c n) w.trades
          × (w.shadow.pending_entry_bar ≡ none)
          × (w.shadow.pending_exit_bar ≡ none)
          × Promised fl c n (suc left) bar w.shadow.position (λ p. none)

      abbrev Ranged : Walk F → Type 0
      Ranged w =
          All (Agrees fl c n) w.trades
          × (w.shadow.pending_entry_bar ≡ none)
          × (w.shadow.pending_exit_bar ≡ none)
          × Promised fl c n left (suc bar) w.shadow.position next_due

      fill_exit-Exited :
          (w w' : Walk F)
          → All (Agrees fl c n) w.trades
          → w.shadow.pending_entry_bar ≡ none
          → HeldShadow fl c n (suc left) bar w.shadow
          → fill_exit fl c bar w ≡ ok w'
          → Exited w'
      unfolding fill_exit phantom_loop
      fill_exit-Exited w w' agree idle held filled = elim (Option-cases w.shadow.position) [
        | inl flat ↦ ground (arith, flat, agree, idle, held, filled)
        | inr (p, at_pos) ↦ elim (Option-cases w.shadow.pending_exit_bar) [
          | inl none_due ↦ ground (arith, at_pos, none_due, agree, idle, held, filled)
          | inr (due, at_due) ↦
              let held' : Held fl c n (suc left) bar (some p) w.shadow.pending_entry_bar
                  (some due) =
                ground (arith, held, at_pos, at_due) in
              let (no_entry, at_bar, promise) = held' in
              let booked : (book_close fl c p due (c.opens bar) ExitReason.signal bar w
                    >>= λ closed. ok (record closed {
                      shadow = record closed.shadow { pending_exit_bar = none };
                    }))
                  ≡ ok w' =
                ground (arith, filled, at_pos, at_due, open_known fl c n fillable bar in_range) in
              after_bind (book_close fl c p due (c.opens bar) ExitReason.signal bar w) _ booked
                λ closed at_close made.
                  let agrees =
                    closed-Agrees fl c n p due (c.opens bar) ExitReason.signal w.shadow.cash bar
                      promise at_bar in
                  let after =
                    book_close-closed fl c p due (c.opens bar) ExitReason.signal bar w closed
                      at_close in
                  ground (arith, made, after, agrees, agree, idle)
        ]
      ]

      check_range-Ranged : (w w' : Walk F) → Exited w → check_range fl c bar w ≡ ok w' → Ranged w'
      unfolding check_range
      check_range-Ranged w w' held ranged = elim (Option-cases w.shadow.position) [
        | inl flat ↦ ground (arith, flat, held, ranged)
        | inr (p, at_pos) ↦
            elim (Option-cases (intrabar_exit fl p (c.lows bar) (c.highs bar) (c.opens bar))) [
              | inl inside ↦
                  let held' : Exited (record w { shadow = record w.shadow { position = some p } }) =
                    ground (arith, held, at_pos) in
                  let (agree, idle, no_due, promise) = held' in
                  let kept =
                    promise
                    ∙ ap (λ r. ok r) (phantom_loop-held fl c n p.entry_bar left bar p inside) in
                  ground (
                    arith,
                    at_pos,
                    inside,
                    ranged,
                    agree,
                    idle,
                    no_due,
                    kept,
                    update_trailing-entry fl c p (c.highs bar) bar,
                  )
              | inr ((price, reason), hit) ↦
                  let held' : Exited (record w { shadow = record w.shadow { position = some p } }) =
                    ground (arith, held, at_pos) in
                  let (agree, idle, no_due, promise) = held' in
                  let agrees =
                    closed-Agrees fl c n p bar price reason w.shadow.cash bar
                      (promise
                        ∙ ap (λ r. ok r)
                            (phantom_loop-hit fl c n p.entry_bar left bar p price reason hit))
                      (intrabar_exit-resolved_at fl c p (c.lows bar) (c.highs bar) (c.opens bar)
                        price reason bar hit) in
                  let booked : book_close fl c p bar price reason bar w ≡ ok w' =
                    ground (arith, ranged, at_pos, hit) in
                  ground (
                    arith,
                    agree,
                    idle,
                    no_due,
                    agrees,
                    book_close-closed fl c p bar price reason bar w w' booked,
                  )
            ]
      ]

      abbrev Decided : Walk F → Type 0
      Decided w =
          All (Agrees fl c n) w.trades
          × (w.shadow.pending_exit_bar ≡ none)
          × NextEntry fl c n w.shadow.position w.shadow.pending_entry_bar (suc bar)
          × Promised fl c n left (suc bar) w.shadow.position next_due

      decide_entry-Decided :
          (w w' : Walk F) → Ranged w → decide_entry fl c n bar w ≡ ok w' → Decided w'
      unfolding decide_entry
      decide_entry-Decided w w' held decided = elim (Option-cases w.shadow.position) [
        | inl flat ↦ ground (arith, flat, held, decided)
        | inr (p, at_pos) ↦ ground (arith, at_pos, held, decided)
      ]

      decide_exit-OnBar :
          (w : Walk F) → Decided w → OnBar fl c n left (suc bar) (decide_exit fl c n bar w)
      unfolding decide_exit
      decide_exit-OnBar w held = elim (Option-cases w.shadow.position) [
        | inl flat ↦ ground (arith, flat, held)
        | inr (p, at_pos) ↦ ground (arith, at_pos, held)
      ]

      walk_bar-OnBar :
          (w w' : Walk F)
          → OnBar fl c n (suc left) bar w
          → walk_bar fl c n bar w ≡ ok w'
          → OnBar fl c n left (suc bar) w'
      unfolding walk_bar mark_equity
      walk_bar-OnBar w w' (agree, held) walked =
          after_bind (fill_entry fl c bar w.shadow) _ walked λ s entered rest₁.
            let (idle, held₁) = fill_entry-Held w.shadow s held entered in
            let w₁ : Walk F = record w { shadow = s } in
            after_bind (fill_exit fl c bar w₁) _ rest₁ λ w₂ exited rest₂.
              after_bind (check_range fl c bar w₂) _ rest₂ λ w₃ ranged rest₃.
                let held₃ =
                  check_range-Ranged w₂ w₃ (fill_exit-Exited w₁ w₂ agree idle held₁ exited)
                    ranged in
                let w₄ = mark_equity fl c bar w₃ in
                after_bind (decide_entry fl c n bar w₄) _ rest₃ λ w₅ decided made.
                  subst (OnBar fl c n left (suc bar)) (ok-injective made)
                    (decide_exit-OnBar w₅ (decide_entry-Decided w₄ w₅ held₃ decided))

    walk_bars-OnBar :
        (left bar : ℕ) (w w' : Walk F)
        → bar + left ≡ n
        → OnBar fl c n left bar w
        → walk_bars fl c n left bar w ≡ ok w'
        → OnBar fl c n zero n w'
    unfolding walk_bars
    walk_bars-OnBar zero bar w w' count held walked =
        subst (λ x. OnBar fl c n zero n x) (ok-injective walked)
          (subst (λ b. OnBar fl c n zero b w) (omega (arith, count)) held)
    walk_bars-OnBar (suc left) bar w w' count held walked =
        after_bind (walk_bar fl c n bar w) _ walked λ w₁ stepped rest.
          walk_bars-OnBar left (suc bar) w₁ w' (omega (arith, count))
            (walk_bar-OnBar left bar count w w₁ held stepped) rest

    close_last-AllAgree :
        (w w' : Walk F)
        → OnBar fl c n zero n w
        → close_last fl c n w ≡ ok w'
        → All (Agrees fl c n) w'.trades
    unfolding close_last close_position phantom_loop
    close_last-AllAgree w w' (agree, held) ended = elim (Option-cases w.shadow.position) [
      | inl flat ↦ ground (arith, flat, agree, ended)
      | inr (p, at_pos) ↦
          let held' : Held fl c n zero n (some p) w.shadow.pending_entry_bar
              w.shadow.pending_exit_bar =
            ground (arith, held, at_pos) in
          let (idle, at_bar, promise) = held' in
          let agrees : Agrees fl c n
              (closing fl c p (n - 1) (c.closes (n - 1)) ExitReason.end_of_data w.shadow.cash).1 =
            closed-Agrees fl c n p (n - 1) (c.closes (n - 1)) ExitReason.end_of_data w.shadow.cash
              (n - 1) promise refl in
          ground (arith, at_pos, agree, agrees, ended)
    ]

    -- Where the open of each of the n bars is positive and not a NaN, each trade of a run of the
    -- backtest that raises no exception agrees with the phantom trade of the signal that it was entered at: the
    -- phantom is resolved at the bar whose prices close the trade, and its return is the return of
    -- the trade on one unit. So it is for an exit by a stop, a target, a signal, the time and the end
    -- of the data.
    pub run_iterative_backtest-Agrees :
        (initial_capital : F) (w : Walk F)
        → run_iterative_backtest fl c n initial_capital ≡ ok w
        → All (Agrees fl c n) w.trades
    unfolding run_iterative_backtest
    run_iterative_backtest-Agrees initial_capital w ran =
        after_bind (walk_bars fl c n n 0 (first_walk fl c initial_capital)) _ ran λ w₁ walked made.
          close_last-AllAgree w₁ w
            (walk_bars-OnBar n 0 (first_walk fl c initial_capital) w₁ (omega arith) (tt, (refl, tt))
              walked)
            made
