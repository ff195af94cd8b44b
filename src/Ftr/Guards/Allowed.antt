-- ===== src/Ftr/Guards/Allowed.antt =====
-- When `check_entry` allows an entry.
use marketmind_open.Common.{
  ◌≡◌, ◌↔◌, refl, ap, sym, ◌∙◌, ◌<◌, Bool, true, false, inl, inr, Bool-cases, arith,
}
use marketmind_open.Common.Result.{ok, ok-injective, after_bind}
use marketmind_open.Ftr.Floats.{Floats}
use marketmind_open.Ftr.Guards.{
  FtrSettings, GuardState, EntryRequest, allow, drawdown_trips, daily_loss_trips, position_pct,
  exceeds_position, exceeds_gross, in_cooldown, check_limits, check_day, check_drawdown,
  check_entry,
}
use marketmind_open.Ftr.Guards.Conditions.{
  IsPermitted, drawdown_within, daily_within, position-IsShare, position_within, gross_within,
  cooldown_over,
}

module _ {F : Type 0} (floats : Floats F) (s : FtrSettings F) where
  -- The tests of the guards, as they stand in the code.
  record HasCleared (db_kill_flag file_exists : Bool) (e : EntryRequest F) (st : GuardState)
      : Type 0 where
    no_flag : db_kill_flag ≡ false
    no_file : file_exists ≡ false
    not_killed : st.drawdown_killed ≡ false
    not_halted : st.daily_halt ≡ false
    no_drawdown : drawdown_trips floats s e st ≡ ok false
    no_daily_loss : daily_loss_trips floats s e st ≡ ok false
    share : F
    share_eq : position_pct floats s e ≡ ok share
    within_position : exceeds_position floats s e share ≡ false
    within_gross : exceeds_gross floats s e share ≡ false
    below_cap : st.trades_today_global < s.max_trades_per_day_global
    cooled_down : in_cooldown floats s e st ≡ false

  limits_allow :
      (e : EntryRequest F) (st : GuardState) (pct : F)
      → check_limits floats s e st pct ≡ allow
      → (exceeds_position floats s e pct ≡ false)
        × (exceeds_gross floats s e pct ≡ false)
        × (st.trades_today_global < s.max_trades_per_day_global)
        × (in_cooldown floats s e st ≡ false)
  unfolding check_limits
  limits_allow e st pct h = elim (Bool-cases (exceeds_position floats s e pct)) [
    | inl over ↦ absurd (ground (arith, h, over))
    | inr within ↦ elim (Bool-cases (exceeds_gross floats s e pct)) [
      | inl above ↦ absurd (ground (arith, h, within, above))
      | inr below ↦ elim (Bool-cases (in_cooldown floats s e st)) [
        | inl early ↦ absurd (ground (arith, h, within, below, early))
        | inr cooled ↦ (within, below, ground (arith, h, within, below, cooled), cooled)
      ]
    ]
  ]

  day_allows :
      (flag file : Bool) (e : EntryRequest F) (st st' : GuardState)
      → flag ≡ false
      → file ≡ false
      → st.drawdown_killed ≡ false
      → st.daily_halt ≡ false
      → drawdown_trips floats s e st ≡ ok false
      → check_day floats s e st ≡ ok (allow, st')
      → HasCleared flag file e st × (st' ≡ st)
  unfolding check_day
  day_allows flag file e st st' no_flag no_file alive running no_drawdown h =
      after_bind (daily_loss_trips floats s e st) _ h λ lost lost_eq rest. elim (Bool-cases lost) [
        | inl halt ↦ absurd (ground (arith, rest, halt))
        | inr steady ↦ after_bind (position_pct floats s e) _ (rw steady at rest) λ pct pct_eq end.
            let pair = ok-injective end in
            let (position, gross, cap, cooled) = limits_allow e st pct (ap (λ x. x.0) pair) in
            (
              record {
                no_flag = no_flag;
                no_file = no_file;
                not_killed = alive;
                not_halted = running;
                no_drawdown = no_drawdown;
                no_daily_loss = rw steady at lost_eq;
                share = pct;
                share_eq = pct_eq;
                within_position = position;
                within_gross = gross;
                below_cap = cap;
                cooled_down = cooled;
              },
              sym (ap (λ x. x.1) pair),
            )
      ]

  allowed :
      (flag file : Bool) (e : EntryRequest F) (st st' : GuardState)
      → check_entry floats s flag file e st ≡ ok (allow, st')
      → HasCleared flag file e st × (st' ≡ st)
  unfolding check_entry check_drawdown
  allowed true file e st st' h = absurd (cc)
  allowed false true e st st' h = absurd (cc)
  allowed false false e st st' h = elim (Bool-cases st.drawdown_killed) [
    | inl killed ↦ absurd (ground (arith, h, killed))
    | inr alive ↦ elim (Bool-cases st.daily_halt) [
      | inl halted ↦ absurd (ground (arith, h, alive, halted))
      | inr running ↦
          let later : check_drawdown floats s e st ≡ ok (allow, st') =
            ground (arith, h, alive, running) in
          after_bind (drawdown_trips floats s e st) _ later λ trips trips_eq rest.
            elim (Bool-cases trips) [
              | inl kill ↦ absurd (ground (arith, rest, kill))
              | inr steady ↦
                  day_allows false false e st st' refl refl alive running (rw steady at trips_eq)
                    (rw steady at rest)
            ]
    ]
  ]

  permitted :
      (flag file : Bool) (e : EntryRequest F) (st : GuardState)
      → HasCleared flag file e st
      → check_entry floats s flag file e st ≡ ok (allow, st)
  unfolding check_entry check_drawdown check_day check_limits
  permitted flag file e st h =
      let limits : check_limits floats s e st h.share ≡ allow =
        ground (arith, h.within_position, h.within_gross, h.below_cap, h.cooled_down) in
      let day : check_day floats s e st ≡ ok (allow, st) =
        rw (check_day, h.no_daily_loss, h.share_eq, limits) refl in
      let drawdown : check_drawdown floats s e st ≡ ok (allow, st) =
        rw (check_drawdown, h.no_drawdown) day in
      ground (arith, h.no_flag, h.no_file, h.not_killed, h.not_halted, drawdown)

  cleared-IsPermitted :
      (flag file : Bool) (e : EntryRequest F) (st : GuardState)
      → HasCleared flag file e st
      → IsPermitted floats s flag file e st
  cleared-IsPermitted flag file e st h = record {
    no_flag = h.no_flag;
    no_file = h.no_file;
    not_killed = h.not_killed;
    not_halted = h.not_halted;
    no_drawdown = (drawdown_within floats s e st).0 h.no_drawdown;
    no_daily_loss = (daily_within floats s e st).0 h.no_daily_loss;
    share = h.share;
    share_eq = (position-IsShare floats s e h.share).0 h.share_eq;
    within_position = (position_within floats s e h.share).0 h.within_position;
    within_gross = (gross_within floats s e h.share).0 h.within_gross;
    below_cap = h.below_cap;
    cooled_down = (cooldown_over floats s e st).0 h.cooled_down;
  }

  permitted-cleared :
      (flag file : Bool) (e : EntryRequest F) (st : GuardState)
      → IsPermitted floats s flag file e st
      → HasCleared flag file e st
  permitted-cleared flag file e st h = record {
    no_flag = h.no_flag;
    no_file = h.no_file;
    not_killed = h.not_killed;
    not_halted = h.not_halted;
    no_drawdown = (drawdown_within floats s e st).1 h.no_drawdown;
    no_daily_loss = (daily_within floats s e st).1 h.no_daily_loss;
    share = h.share;
    share_eq = (position-IsShare floats s e h.share).1 h.share_eq;
    within_position = (position_within floats s e h.share).1 h.within_position;
    within_gross = (gross_within floats s e h.share).1 h.within_gross;
    below_cap = h.below_cap;
    cooled_down = (cooldown_over floats s e st).1 h.cooled_down;
  }

  -- `check_entry` allows an entry, and leaves a state behind, exactly if this is the state before it, no
  -- kill switch is on, no stop is active, no loss against the peak or the start of the day reaches its
  -- limit where these are positive, the position and the gross exposure are within their caps, fewer
  -- trades than the cap were recorded today and the cooldown of the symbol is over.
  pub check_entry_allows :
      (db_kill_flag file_exists : Bool) (e : EntryRequest F) (st st' : GuardState)
      → (check_entry floats s db_kill_flag file_exists e st ≡ ok (allow, st'))
        ↔ (IsPermitted floats s db_kill_flag file_exists e st × (st' ≡ st))
  check_entry_allows db_kill_flag file_exists e st st' = (
    λ run.
        let (clear, same) = allowed db_kill_flag file_exists e st st' run in
        (cleared-IsPermitted db_kill_flag file_exists e st clear, same),
    λ (permit, same).
        permitted db_kill_flag file_exists e st
          (permitted-cleared db_kill_flag file_exists e st permit)
        ∙ ap (λ x. ok (allow, x)) (sym same),
  )
