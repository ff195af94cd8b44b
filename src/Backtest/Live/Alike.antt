-- ===== src/Backtest/Live/Alike.antt =====
-- Steps of the live trader from two states of which a checkpoint keeps the same.
use marketmind_open.Common.{ℕ, ◌≡◌, inl, inr, Option-cases, arith}
use marketmind_open.Common.Result.{Result, ok, err, ok-injective, ◌>>=◌}
use marketmind_open.Backtest.Floats.{Floats}
use marketmind_open.Backtest.Schema.{Position, Compiled, ExitReason}
use marketmind_open.Backtest.Levels.{intrabar_exit}
use marketmind_open.Backtest.Positions.{closing, passes_trade, close_position}
use marketmind_open.Backtest.Shadow.{Shadow, fill_entry}
use marketmind_open.Backtest.Live.Checkpoint.{LiveSim, keep_trades}
use marketmind_open.Backtest.Live.{
  live_close, live_fill_exit, live_check_range, live_decide_entry, live_decide_exit,
}
use marketmind_open.Backtest.Live.Kept.{ReadsKept}

module _ {F : Type 0} where
  -- Two states that differ at most in what a checkpoint leaves out of the trades.
  abbrev pub Same : Shadow F → Shadow F → Type 0
  Same a b =
      (keep_trades a.history ≡ keep_trades b.history)
      × (a.signal_history ≡ b.signal_history)
      × (a.position ≡ b.position)
      × (a.pending_entry_bar ≡ b.pending_entry_bar)
      × (a.pending_exit_bar ≡ b.pending_exit_bar)
      × (a.trade_id ≡ b.trade_id)
      × (a.cash ≡ b.cash)

  abbrev pub SameSim : LiveSim F → LiveSim F → Type 0
  SameSim a b = Same a.shadow b.shadow × (a.phantoms ≡ b.phantoms)

-- Both raise the same exception, or both return and the results are related.
abbrev pub Alike : {A : Type 0} → (A → A → Type 0) → Result A → Result A → Type 0
Alike R (err e) (err e') = e ≡ e'
Alike R (ok a) (ok b) = R a b
Alike R (err e) (ok b) = ⊥
Alike R (ok a) (err e) = ⊥

pub Alike-bind :
    {A B : Type 0} (R : A → A → Type 0) (S : B → B → Type 0) (r r' : Result A) (f f' : A → Result B)
    → Alike R r r'
    → ((a b : A) → R a b → Alike S (f a) (f' b))
    → Alike S (r >>= f) (r' >>= f')
Alike-bind R S (err e) (err e') f f' h next = h
Alike-bind R S (ok a) (ok b) f f' h next = next a b h
Alike-bind R S (err e) (ok b) f f' h next = absurd h
Alike-bind R S (ok a) (err e) f f' h next = absurd h

module _ {F : Type 0} (fl : Floats F) (c : Compiled F) (bar : ℕ) where
  module _ (a b : Shadow F) (same : Same a b) where
    pub fill_entry-Same : Alike Same (fill_entry fl c bar a) (fill_entry fl c bar b)
    unfolding fill_entry
    fill_entry-Same = ground (arith, same)

    live_close-Same :
        (pos : Position F) (exit_bar : ℕ) (raw_price : F) (reason : ExitReason)
        → Alike Same
            (live_close fl c pos exit_bar raw_price reason bar a)
            (live_close fl c pos exit_bar raw_price reason bar b)
    unfolding live_close close_position closing passes_trade keep_trades
    live_close-Same pos exit_bar raw_price reason = ground (arith, same)

    pub live_fill_exit-Same : Alike Same (live_fill_exit fl c bar a) (live_fill_exit fl c bar b)
    unfolding live_fill_exit
    live_fill_exit-Same = elim (Option-cases a.position) [
      | inl flat ↦ ground (arith, flat, same)
      | inr (pos, at_pos) ↦ elim (Option-cases a.pending_exit_bar) [
        | inl none_due ↦ ground (arith, at_pos, none_due, same)
        | inr (due, at_due) ↦
            ground
              (arith, at_pos, at_due, same, live_close-Same pos due (c.opens bar) ExitReason.signal)
      ]
    ]

    pub live_check_range-Same :
        Alike Same (live_check_range fl c bar a) (live_check_range fl c bar b)
    unfolding live_check_range
    live_check_range-Same = elim (Option-cases a.position) [
      | inl flat ↦ ground (arith, flat, same)
      | inr (pos, at_pos) ↦
          elim (Option-cases (intrabar_exit fl pos (c.lows bar) (c.highs bar) (c.opens bar))) [
            | inl inside ↦ ground (arith, at_pos, inside, same)
            | inr ((price, reason), hit) ↦
                ground (arith, at_pos, hit, same, live_close-Same pos bar price reason)
          ]
    ]

    pub live_decide_exit-Same : Same (live_decide_exit fl c bar a) (live_decide_exit fl c bar b)
    unfolding live_decide_exit
    live_decide_exit-Same = ground (arith, same)

  pub live_decide_entry-Same :
      ReadsKept c.entry_eval
      → (a b : LiveSim F) → SameSim a b
      → SameSim (live_decide_entry fl c bar a) (live_decide_entry fl c bar b)
  unfolding live_decide_entry
  live_decide_entry-Same blind a b same =
      ground
        (arith, same, blind bar a.shadow.history b.shadow.history a.shadow.signal_history same.0.0)

pub Alike-refl : {A : Type 0} (r r' : Result A) → r ≡ r' → Alike (λ (a b : A). a ≡ b) r r'
Alike-refl (err e) (err e') h = cc
Alike-refl (ok a) (ok b) h = ok-injective h
Alike-refl (err e) (ok b) h = absurd (cc)
Alike-refl (ok a) (err e) h = absurd (cc)
