-- ===== src/Ftr/Guards/Stops.antt =====
-- How long the stops of the guards last, over any sequence of calls.
use Prim.Native.String.{String}
use marketmind_open.Common.{
  ℕ, ◌/◌, ◌≡◌, refl, Bool, true, false, some, List, [], ◌∷◌, ◌++◌, All, arith,
}
use marketmind_open.Common.Result.{Result, ok, ◌>>=◌}
use marketmind_open.Clock.{Instant, day}
use marketmind_open.Decimal.{Decimal}
use marketmind_open.Ftr.Floats.{Floats}
use marketmind_open.Ftr.Guards.{
  FtrSettings, GuardState, GuardDecision, EntryRequest, ReasonCode, block, roll_day, update_equity,
  record_trade, check_entry,
}

-- The calls of the guards.
pub data Call (F : Type 0) : Type 0 where
  rolled : Instant → Decimal → Call F
  marked : Decimal → Call F
  requested : Bool → Bool → EntryRequest F → Call F
  traded : String → String → Instant → Call F

abbrev pub IsBlocked : GuardDecision → Type 0
IsBlocked d = d.0 ≡ false

-- The calls that start a day are of this one.
abbrev pub WithinDay : {F : Type 0} → ℕ → List (Call F) → Type 0
WithinDay d [] = Unit
WithinDay d (rolled now equity ∷ calls) = (now / day ≡ d) × WithinDay d calls
WithinDay d (marked equity ∷ calls) = WithinDay d calls
WithinDay d (requested flag file e ∷ calls) = WithinDay d calls
WithinDay d (traded strategy_id symbol now ∷ calls) = WithinDay d calls

module _ {F : Type 0} (floats : Floats F) (s : FtrSettings F) where
  -- The decisions of a call, and the state after it.
  unfoldable pub call : Call F → GuardState → Result (List GuardDecision × GuardState)
  call (rolled now equity) st = ok ([], roll_day now equity st)
  call (marked equity) st = ok ([], update_equity equity st)
  call (requested flag file e) st =
      check_entry floats s flag file e st >>= λ result. ok (result.0 ∷ [], result.1)
  call (traded strategy_id symbol now) st = ok ([], record_trade strategy_id symbol now st)

  unfoldable pub calls : List (Call F) → GuardState → Result (List GuardDecision × GuardState)
  calls [] st = ok ([], st)
  calls (c ∷ rest) st =
      call c st >>= λ first. calls rest first.1 >>= λ later. ok (first.0 ++ later.0, later.1)

  abbrev Blocks : (GuardState → Type 0) → Result (List GuardDecision × GuardState) → Type 0
  Blocks P run =
      (ds : List GuardDecision) × (st' : GuardState) × (run ≡ ok (ds, st'))
      × All IsBlocked ds
      × P st'

  All-append :
      (ds ds' : List GuardDecision)
      → All IsBlocked ds
      → All IsBlocked ds'
      → All IsBlocked (ds ++ ds')
  All-append [] ds' h h' = h'
  All-append (d ∷ ds) ds' h h' = (h.0, All-append ds ds' h.1 h')

  then_blocks :
      (P : GuardState → Type 0) (c : Call F) (rest : List (Call F)) (st : GuardState)
      → Blocks P (call c st)
      → ((st' : GuardState) → P st' → Blocks P (calls rest st'))
      → Blocks P (calls (c ∷ rest) st)
  unfolding calls
  then_blocks P c rest st (ds, st₁, ran, blocked, p) later =
      let (ds', st₂, ran', blocked', p') = later st₁ p in
      (ds ++ ds', st₂, rw (calls, ran, ran') refl, All-append ds ds' blocked blocked', p')

  abbrev Killed : GuardState → Type 0
  Killed st = st.drawdown_killed ≡ true

  refused :
      (P : GuardState → Type 0) (flag file : Bool) (e : EntryRequest F) (st : GuardState)
      → check_entry floats s flag file e st ≡ ok (block ReasonCode.skip_guardrail, st)
      → P st
      → Blocks P (call (requested flag file e) st)
  unfolding call
  refused P flag file e st same p =
      (block ReasonCode.skip_guardrail ∷ [], st, rw (call, same) refl, (refl, tt), p)

  call-Killed : (c : Call F) (st : GuardState) → Killed st → Blocks Killed (call c st)
  unfolding call check_entry roll_day update_equity record_trade
  call-Killed (rolled now equity) st h = (_, _, refl, tt, ground (arith, h))
  call-Killed (marked equity) st h = (_, _, refl, tt, ground (arith, h))
  call-Killed (requested flag file e) st h = refused Killed flag file e st (ground (arith, h)) h
  call-Killed (traded strategy_id symbol now) st h = (_, _, refl, tt, h)

  -- After the max-drawdown kill no sequence of calls raises, allows an entry or takes the kill back.
  pub drawdown_kill_lasts :
      (cs : List (Call F)) (st : GuardState)
      → st.drawdown_killed ≡ true
      → (ds : List GuardDecision) × (st' : GuardState) × (calls cs st ≡ ok (ds, st'))
        × All IsBlocked ds
        × (st'.drawdown_killed ≡ true)
  unfolding calls
  drawdown_kill_lasts [] st h = ([], st, refl, tt, h)
  drawdown_kill_lasts (c ∷ rest) st h =
      then_blocks Killed c rest st (call-Killed c st h) (drawdown_kill_lasts rest)

  abbrev Halted : ℕ → GuardState → Type 0
  Halted d st = (st.daily_halt ≡ true) × (st.current_day ≡ some d)

  call-Halted :
      (d : ℕ) (c : Call F) (rest : List (Call F)) (st : GuardState)
      → WithinDay d (c ∷ rest)
      → Halted d st
      → Blocks (Halted d) (call c st)
  unfolding call check_entry roll_day update_equity record_trade
  call-Halted d (rolled now equity) rest st within h =
      (_, _, refl, tt, (ground (arith, h.0, h.1, within.0), ground (arith, h.0, h.1, within.0)))
  call-Halted d (marked equity) rest st within h =
      (_, _, refl, tt, (ground (arith, h.0), ground (arith, h.1)))
  call-Halted d (requested flag file e) rest st within h =
      refused (Halted d) flag file e st (ground (arith, h.0)) h
  call-Halted d (traded strategy_id symbol now) rest st within h = (_, _, refl, tt, h)

  within_rest :
      (d : ℕ) (c : Call F) (rest : List (Call F)) → WithinDay d (c ∷ rest) → WithinDay d rest
  within_rest d (rolled now equity) rest h = h.1
  within_rest d (marked equity) rest h = h
  within_rest d (requested flag file e) rest h = h
  within_rest d (traded strategy_id symbol now) rest h = h

  halt_blocks :
      (d : ℕ) (cs : List (Call F)) (st : GuardState)
      → WithinDay d cs
      → Halted d st
      → Blocks (Halted d) (calls cs st)
  unfolding calls
  halt_blocks d [] st within h = ([], st, refl, tt, h)
  halt_blocks d (c ∷ rest) st within h =
      then_blocks (Halted d) c rest st (call-Halted d c rest st within h)
        (λ st' p. halt_blocks d rest st' (within_rest d c rest within) p)

  -- After the daily-loss stop no sequence of calls within the same UTC day raises or allows an entry.
  pub daily_halt_lasts :
      (d : ℕ) (cs : List (Call F)) (st : GuardState)
      → WithinDay d cs
      → st.daily_halt ≡ true
      → st.current_day ≡ some d
      → (ds : List GuardDecision) × (st' : GuardState) × (calls cs st ≡ ok (ds, st'))
        × All IsBlocked ds
        × (st'.daily_halt ≡ true)
        × (st'.current_day ≡ some d)
  daily_halt_lasts d cs st within h today =
      let (ds, st', ran, blocked, (halted, still)) = halt_blocks d cs st within (h, today) in
      (ds, st', ran, blocked, halted, still)
