-- ===== src/Backtest/Live/Parity.antt =====
-- The stepper of the live trader against the loop of the backtest, for entries that gate on no signals.
use marketmind_open.Common.{
  ℕ, zero, suc, ◌+◌, ◌<◌, ◌≡◌, refl, none, [], inl, inr, Option-cases, arith,
}
use marketmind_open.Common.Result.{Result, Result-cases, ok, ◌>>=◌}
use marketmind_open.Backtest.Floats.{Floats}
use marketmind_open.Backtest.Schema.{Position, Compiled, ExitReason}
use marketmind_open.Backtest.Levels.{intrabar_exit}
use marketmind_open.Backtest.Shadow.{Shadow, fill_entry}
use marketmind_open.Backtest.Iterative.{
  Walk, book_close, fill_exit, check_range, mark_equity, decide_entry, decide_exit, walk_bar,
  walk_bars,
}
use marketmind_open.Backtest.Live.Checkpoint.{LiveSim}
use marketmind_open.Backtest.Live.{
  live_close, live_fill_exit, live_check_range, advance_phantoms, live_decide_entry,
  live_decide_exit, live_step, live_steps,
}

-- The stepper's view of the loop's state.
abbrev pub live_of : {F : Type 0} → Walk F → LiveSim F
live_of w = record { shadow = w.shadow; phantoms = [] }

abbrev shadow_of : {F : Type 0} → Result (Walk F) → Result (Shadow F)
shadow_of r = r >>= λ w. ok w.shadow

module _ {F : Type 0} (fl : Floats F) (c : Compiled F) (ungated : c.raw_signal ≡ none) where
  live_close-book_close :
      (pos : Position F) (exit_bar : ℕ) (raw_price : F) (reason : ExitReason) (bar : ℕ) (w : Walk F)
      → live_close fl c pos exit_bar raw_price reason bar w.shadow
        ≡ shadow_of (book_close fl c pos exit_bar raw_price reason bar w)
  unfolding live_close book_close
  live_close-book_close pos exit_bar raw_price reason bar w = ground (arith, ungated)

  live_fill_exit-fill_exit :
      (bar : ℕ) (w : Walk F) → live_fill_exit fl c bar w.shadow ≡ shadow_of (fill_exit fl c bar w)
  unfolding live_fill_exit fill_exit
  live_fill_exit-fill_exit bar w = elim (Option-cases w.shadow.position) [
    | inl flat ↦ ground (arith, flat)
    | inr (pos, at_pos) ↦ elim (Option-cases w.shadow.pending_exit_bar) [
      | inl none_due ↦ ground (arith, at_pos, none_due)
      | inr (exit_bar, due) ↦ ground (
        arith,
        at_pos,
        due,
        live_close-book_close pos exit_bar (c.opens bar) ExitReason.signal bar w,
      )
    ]
  ]

  live_check_range-check_range :
      (bar : ℕ) (w : Walk F)
      → live_check_range fl c bar w.shadow ≡ shadow_of (check_range fl c bar w)
  unfolding live_check_range check_range
  live_check_range-check_range bar w = elim (Option-cases w.shadow.position) [
    | inl flat ↦ ground (arith, flat)
    | inr (pos, at_pos) ↦
        elim (Option-cases (intrabar_exit fl pos (c.lows bar) (c.highs bar) (c.opens bar))) [
          | inl inside ↦ ground (arith, at_pos, inside)
          | inr ((price, reason), hit) ↦
              ground (arith, at_pos, hit, live_close-book_close pos bar price reason bar w)
        ]
  ]

  live_decide_entry-decide_entry :
      (n bar : ℕ) (w : Walk F)
      → suc bar < n
      → ok (live_decide_entry fl c bar (live_of w))
        ≡ (decide_entry fl c n bar (mark_equity fl c bar w) >>= λ w'. ok (live_of w'))
  unfolding live_decide_entry decide_entry mark_equity
  live_decide_entry-decide_entry n bar w h = ground (arith, ungated)

  live_decide_exit-decide_exit :
      (n bar : ℕ) (w : Walk F)
      → suc bar < n
      → live_decide_exit fl c bar w.shadow ≡ (decide_exit fl c n bar w).shadow
  unfolding live_decide_exit decide_exit
  live_decide_exit-decide_exit n bar w h = ground arith

  live_step-walk_bar :
      (n bar : ℕ) (w : Walk F)
      → suc bar < n
      → live_step fl c bar (live_of w) ≡ (walk_bar fl c n bar w >>= λ w'. ok (live_of w'))
  unfolding live_step walk_bar advance_phantoms
  live_step-walk_bar n bar w h = elim (Result-cases (fill_entry fl c bar w.shadow)) [
    | inr (e, r) ↦ ground (arith, r)
    | inl (entered, r) ↦
        let w₁ = record w { shadow = entered } in
        let exits = live_fill_exit-fill_exit bar w₁ in
        elim (Result-cases (fill_exit fl c bar w₁)) [
          | inr (e, r₂) ↦ ground (arith, r, r₂, exits)
          | inl (w₂, r₂) ↦
              let ranges = live_check_range-check_range bar w₂ in
              elim (Result-cases (check_range fl c bar w₂)) [
                | inr (e, r₃) ↦ ground (arith, r, r₂, r₃, exits, ranges)
                | inl (w₃, r₃) ↦
                    let entries = live_decide_entry-decide_entry n bar w₃ h in
                    elim (Result-cases (decide_entry fl c n bar (mark_equity fl c bar w₃))) [
                      | inr (e, r₄) ↦ ground (arith, r₄, entries)
                      | inl (w₄, r₄) ↦ ground (
                        arith,
                        r,
                        r₂,
                        r₃,
                        r₄,
                        exits,
                        ranges,
                        entries,
                        live_decide_exit-decide_exit n bar w₄ h,
                      )
                    ]
              ]
        ]
  ]

  -- For an entry that gates on no signals, the stepper of the live trader over bars before the last one
  -- does what the loop of the backtest does over them: both raise the same error, or both end, with the
  -- same histories, position, decisions, number of trades and cash, and the stepper has no phantoms.
  pub live_steps-walk_bars :
      (n left bar : ℕ) (w : Walk F)
      → bar + left < n
      → live_steps fl c left bar (live_of w)
        ≡ (walk_bars fl c n left bar w >>= λ w'. ok (live_of w'))
  unfolding live_steps walk_bars
  live_steps-walk_bars n zero bar w h = refl
  live_steps-walk_bars n (suc left) bar w h =
      let step = live_step-walk_bar n bar w (omega arith) in
      elim (Result-cases (walk_bar fl c n bar w)) [
        | inr (e, r) ↦ ground (arith, step, r)
        | inl (w', r) ↦
            ground (arith, step, r, live_steps-walk_bars n left (suc bar) w' (omega arith))
      ]
