-- ===== src/Ftr/Guards/Conditions.antt =====
-- The conditions under which `check_entry` allows an entry, and the tests of the code for them.
use marketmind_open.Common.{
  ◌≡◌, ◌↔◌, ◌⊎◌, refl, ◌<◌, Bool, false, some, inl, inr, Bool-cases, Option-cases, arith,
}
use marketmind_open.Common.Int.{◌≤ℤ◌, ◌<ℤ◌, ltb_ℤ, sub_ℕ}
use marketmind_open.Common.Result.{Result-cases, ok, ok-injective, after_bind}
use marketmind_open.Clock.{Instant}
use marketmind_open.Decimal
use marketmind_open.Decimal.{Decimal, nought}
use marketmind_open.Ftr.Floats.{Floats}
use marketmind_open.Ftr.Guards.{
  FtrSettings, GuardState, EntryRequest, is_loss, drawdown_trips, daily_loss_trips, position_pct,
  exceeds_position, exceeds_gross, in_cooldown,
}

module _ {F : Type 0} (floats : Floats F) (s : FtrSettings F) where
  -- (equity - base) / base, as a float, is above the negative limit.
  abbrev pub WithinLoss : Decimal → Decimal → F → Type 0
  WithinLoss equity base limit =
      (change : Decimal) × (Decimal.div (Decimal.sub equity base) base ≡ ok change)
      × (floats.le (floats.float change) (floats.fneg limit) ≡ false)

  -- The share of the equity that the position would be, or 0 without equity.
  abbrev pub IsShare : EntryRequest F → F → Type 0
  IsShare e share =
      ((nought <ℤ e.equity)
        × ((q : Decimal) × (Decimal.div e.target_notional e.equity ≡ ok q)
            × (share ≡ floats.float q)))
      ⊎ ((e.equity ≤ℤ nought) × (share ≡ floats.constant 0 0))

  -- What has to hold for an entry.
  pub record IsPermitted (db_kill_flag file_exists : Bool) (e : EntryRequest F) (st : GuardState)
      : Type 0 where
    pub no_flag : db_kill_flag ≡ false
    pub no_file : file_exists ≡ false
    pub not_killed : st.drawdown_killed ≡ false
    pub not_halted : st.daily_halt ≡ false
    pub no_drawdown :
        (st.peak_equity ≤ℤ nought) ⊎ WithinLoss e.equity st.peak_equity s.max_drawdown_stop_pct
    pub no_daily_loss :
        ((e.equity ≤ℤ nought) ⊎ (st.day_start_equity ≤ℤ nought))
        ⊎ WithinLoss e.equity st.day_start_equity s.daily_loss_stop_pct
    pub share : F
    pub share_eq : IsShare e share
    pub within_position : (e.equity ≤ℤ nought) ⊎ (floats.lt s.max_position_pct share ≡ false)
    pub within_gross :
        floats.lt
          (floats.fadd s.max_gross_exposure_pct (floats.constant 1 9))
          (floats.fadd e.gross_exposure_pct share)
        ≡ false
    pub below_cap : st.trades_today_global < s.max_trades_per_day_global
    pub cooled_down :
        (last : Instant)
        → st.last_trade_ts_by_symbol e.symbol ≡ some last
        → floats.lt_int
            (floats.fdiv (floats.int_div (sub_ℕ e.now last) 1000000) (floats.constant 3600 0))
            s.per_symbol_cooldown_hours
          ≡ false

  loss_within :
      (equity base : Decimal) (limit : F)
      → (is_loss floats s equity base limit ≡ ok false) ↔ WithinLoss equity base limit
  loss_within equity base limit = (
    λ h.
        after_bind (Decimal.div (Decimal.sub equity base) base) _ h
          λ change divided rest. (change, divided, ok-injective rest),
    λ (change, divided, above). rw (divided, above) refl,
  )

  pub drawdown_within :
      (e : EntryRequest F) (st : GuardState)
      → (drawdown_trips floats s e st ≡ ok false)
        ↔ ((st.peak_equity ≤ℤ nought) ⊎ WithinLoss e.equity st.peak_equity s.max_drawdown_stop_pct)
  unfolding drawdown_trips
  drawdown_within e st = (
    λ h. elim (Bool-cases (ltb_ℤ nought st.peak_equity)) [
      | inr none_yet ↦ inl (ground (arith, none_yet))
      | inl peaked ↦ inr (
          (loss_within e.equity st.peak_equity s.max_drawdown_stop_pct).0
            (ground (arith, peaked, h)))
    ],
    λ h. elim (Bool-cases (ltb_ℤ nought st.peak_equity)) [
      | inr none_yet ↦ ground (arith, none_yet)
      | inl peaked ↦ elim h [
        | inl none_yet ↦ absurd (ground (arith, peaked, none_yet))
        | inr within ↦
            let steady = (loss_within e.equity st.peak_equity s.max_drawdown_stop_pct).1 within in
            ground (arith, peaked, steady)
      ]
    ],
  )

  pub daily_within :
      (e : EntryRequest F) (st : GuardState)
      → (daily_loss_trips floats s e st ≡ ok false) ↔ (
          ((e.equity ≤ℤ nought) ⊎ (st.day_start_equity ≤ℤ nought))
          ⊎ WithinLoss e.equity st.day_start_equity s.daily_loss_stop_pct)
  unfolding daily_loss_trips
  daily_within e st = (
    λ h. elim (Bool-cases (ltb_ℤ nought e.equity)) [
      | inr broke ↦ inl (inl (ground (arith, broke)))
      | inl funded ↦ elim (Bool-cases (ltb_ℤ nought st.day_start_equity)) [
        | inr none_yet ↦ inl (inr (ground (arith, none_yet)))
        | inl started ↦ inr (
            (loss_within e.equity st.day_start_equity s.daily_loss_stop_pct).0
              (ground (arith, funded, started, h)))
      ]
    ],
    λ h. elim (Bool-cases (ltb_ℤ nought e.equity)) [
      | inr broke ↦ ground (arith, broke)
      | inl funded ↦ elim (Bool-cases (ltb_ℤ nought st.day_start_equity)) [
        | inr none_yet ↦ ground (arith, funded, none_yet)
        | inl started ↦ elim h [
          | inl (inl broke) ↦ absurd (ground (arith, funded, broke))
          | inl (inr none_yet) ↦ absurd (ground (arith, started, none_yet))
          | inr within ↦
              let steady =
                (loss_within e.equity st.day_start_equity s.daily_loss_stop_pct).1 within in
              ground (arith, funded, started, steady)
        ]
      ]
    ],
  )

  pub position-IsShare :
      (e : EntryRequest F) (share : F) → (position_pct floats s e ≡ ok share) ↔ IsShare e share
  unfolding position_pct
  position-IsShare e share = (
    λ h. elim (Bool-cases (ltb_ℤ nought e.equity)) [
      | inr broke ↦ inr (ground (arith, broke), ground (arith, broke, h))
      | inl funded ↦ elim (Result-cases (Decimal.div e.target_notional e.equity)) [
        | inr (x, raised) ↦ absurd (ground (arith, funded, raised, h))
        | inl (q, divided) ↦
            inl (ground (arith, funded), (q, divided, ground (arith, funded, divided, h)))
      ]
    ],
    λ h. elim h [
      | inl (funded, (q, divided, same)) ↦ ground (arith, funded, divided, same)
      | inr (broke, same) ↦ ground (arith, broke, same)
    ],
  )

  pub position_within :
      (e : EntryRequest F) (share : F)
      → (exceeds_position floats s e share ≡ false)
        ↔ ((e.equity ≤ℤ nought) ⊎ (floats.lt s.max_position_pct share ≡ false))
  unfolding exceeds_position
  position_within e share = (
    λ h. elim (Bool-cases (ltb_ℤ nought e.equity)) [
      | inr broke ↦ inl (ground (arith, broke))
      | inl funded ↦ inr (ground (arith, funded, h))
    ],
    λ h. elim h [ inl broke ↦ ground (arith, broke) | inr within ↦ ground (arith, within) ],
  )

  pub gross_within :
      (e : EntryRequest F) (share : F)
      → (exceeds_gross floats s e share ≡ false) ↔ (
          floats.lt
            (floats.fadd s.max_gross_exposure_pct (floats.constant 1 9))
            (floats.fadd e.gross_exposure_pct share)
          ≡ false)
  unfolding exceeds_gross
  gross_within e share = (λ h. h, λ h. h)

  pub cooldown_over :
      (e : EntryRequest F) (st : GuardState)
      → (in_cooldown floats s e st ≡ false) ↔ (
          (last : Instant)
          → st.last_trade_ts_by_symbol e.symbol ≡ some last
          → floats.lt_int
              (floats.fdiv (floats.int_div (sub_ℕ e.now last) 1000000) (floats.constant 3600 0))
              s.per_symbol_cooldown_hours
            ≡ false)
  unfolding in_cooldown
  cooldown_over e st = (
    λ h last traded. ground (arith, h, traded),
    λ over. elim (Option-cases (st.last_trade_ts_by_symbol e.symbol)) [
      | inl untraded ↦ ground (arith, untraded)
      | inr (last, traded) ↦ ground (arith, traded, over last traded)
    ],
  )
