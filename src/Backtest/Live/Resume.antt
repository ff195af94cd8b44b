-- ===== src/Backtest/Live/Resume.antt =====
-- A live cycle that goes on from a checkpoint, against one that never stopped.
use marketmind_open.Common.{
  ℕ, zero, suc, ◌+◌, ◌-◌, ◌≤◌, ◌≡◌, refl, sym, ◌∙◌, ap, subst, if◌then◌else◌, Option, some, List,
  [], ◌∷◌, inl, inr, arith,
}
use marketmind_open.Common.Result.{
  validation_error, Result, Result-cases, ok, err, ok-injective, after_bind, ◌>>=◌,
}
use marketmind_open.Trader.Schema.{SignalKind}
use marketmind_open.Backtest.Floats.{Floats, nought}
use marketmind_open.Backtest.History.{SignalHistory}
use marketmind_open.Backtest.Schema.{Compiled}
use marketmind_open.Backtest.Shadow.{fill_entry}
use marketmind_open.Backtest.Live.Checkpoint.{
  LiveSim, LivePhantom, Tier3State, Tier3CompletedTrade, checkpoint, keep_trades, restore_trades,
  to_sim, to_tier3, passes_models,
}
use marketmind_open.Backtest.Live.{
  live_fill_exit, live_check_range, advance_phantoms, live_decide_entry, live_step, live_steps,
  run_live_cycle, after, before, decision_of,
}
use marketmind_open.Backtest.Live.Kept.{ReadsKept}
use marketmind_open.Backtest.Live.Alike.{
  Same, SameSim, Alike, Alike-bind, Alike-refl, fill_entry-Same, live_fill_exit-Same,
  live_check_range-Same, live_decide_exit-Same, live_decide_entry-Same,
}

module _ {F : Type 0} where
  keep_trades-restore_trades :
      (missing : F) (ts : List (Tier3CompletedTrade F))
      → keep_trades (restore_trades missing ts) ≡ ts
  unfolding keep_trades restore_trades
  keep_trades-restore_trades missing [] = refl
  keep_trades-restore_trades missing (t ∷ ts) =
      ap (λ rest. t ∷ rest) (keep_trades-restore_trades missing ts)

module _ {F : Type 0} (fl : Floats F) (c : Compiled F) (blind : ReadsKept c.entry_eval) where
  live_step-Same :
      (bar : ℕ) (a b : LiveSim F)
      → SameSim a b
      → Alike SameSim (live_step fl c bar a) (live_step fl c bar b)
  unfolding live_step
  live_step-Same bar a b same =
      Alike-bind Same SameSim (fill_entry fl c bar a.shadow) (fill_entry fl c bar b.shadow) _ _
        (fill_entry-Same fl c bar a.shadow b.shadow same.0)
        λ a₁ b₁ same₁.
          Alike-bind Same SameSim (live_fill_exit fl c bar a₁) (live_fill_exit fl c bar b₁) _ _
            (live_fill_exit-Same fl c bar a₁ b₁ same₁)
            λ a₂ b₂ same₂.
              Alike-bind Same SameSim (live_check_range fl c bar a₂) (live_check_range fl c bar b₂)
                _ _ (live_check_range-Same fl c bar a₂ b₂ same₂)
                λ a₃ b₃ same₃.
                  let phantoms_same =
                    Alike-refl (advance_phantoms fl c bar a.phantoms a₃.signal_history)
                      (advance_phantoms fl c bar b.phantoms b₃.signal_history)
                      (ground (arith, same.1, same₃)) in
                  Alike-bind (λ (x y : SignalHistory F × List (LivePhantom F)). x ≡ y) SameSim
                    (advance_phantoms fl c bar a.phantoms a₃.signal_history)
                    (advance_phantoms fl c bar b.phantoms b₃.signal_history) _ _ phantoms_same
                    λ x y settled.
                      let a₄ : LiveSim F = record {
                        shadow = record a₃ { signal_history = x.0 };
                        phantoms = x.1;
                      } in
                      let b₄ : LiveSim F = record {
                        shadow = record b₃ { signal_history = y.0 };
                        phantoms = y.1;
                      } in
                      let same₄ : SameSim a₄ b₄ = ground (arith, same₃, settled) in
                      let same₅ = live_decide_entry-Same fl c bar blind a₄ b₄ same₄ in
                      (
                        live_decide_exit-Same fl c bar (live_decide_entry fl c bar a₄).shadow
                            (live_decide_entry fl c bar b₄).shadow same₅.0,
                        same₅.1,
                      )

  live_steps-Same :
      (left bar : ℕ) (a b : LiveSim F)
      → SameSim a b
      → Alike SameSim (live_steps fl c left bar a) (live_steps fl c left bar b)
  unfolding live_steps
  live_steps-Same zero bar a b same = same
  live_steps-Same (suc left) bar a b same =
      Alike-bind SameSim SameSim (live_step fl c bar a) (live_step fl c bar b) _ _
        (live_step-Same bar a b same) λ a' b' same'. live_steps-Same left (suc bar) a' b' same'

  live_steps-append :
      (left more total bar mid : ℕ) (sim : LiveSim F)
      → left + more ≡ total
      → bar + left ≡ mid
      → live_steps fl c total bar sim ≡ (live_steps fl c left bar sim >>= live_steps fl c more mid)
  unfolding live_steps
  live_steps-append zero more total bar mid sim h k =
      let same_count : total ≡ more = omega (arith, h) in
      let same_bar : mid ≡ bar = omega (arith, k) in rw same_count (rw same_bar refl)
  live_steps-append (suc left) more zero bar mid sim h k = absurd (omega (arith, h))
  live_steps-append (suc left) more (suc total) bar mid sim h k =
      elim (Result-cases (live_step fl c bar sim)) [
        | inr (e, raised) ↦ ground (arith, raised)
        | inl (sim', stepped) ↦ ground (
          arith,
          stepped,
          live_steps-append left more total (suc bar) mid sim' (omega (arith, h))
              (omega (arith, k)),
        )
      ]

  -- The end of a cycle over n bars.
  abbrev finish : ℕ → LiveSim F → Result (Tier3State F × SignalKind)
  finish n sim =
      to_tier3 fl sim (before n) >>= λ state. ok (state, decision_of sim.shadow (before n))

  module _ (a b : LiveSim F) (same : SameSim a b) (last : Option ℕ) where
    checkpoint-Same : checkpoint fl a last ≡ checkpoint fl b last
    checkpoint-Same = ground (arith, same)

    to_tier3-Same : to_tier3 fl a last ≡ to_tier3 fl b last
    unfolding to_tier3
    to_tier3-Same =
        ap
          (λ (state : Tier3State F).
            if passes_models fl state then ok state else err validation_error)
          checkpoint-Same

    decision_of-Same : decision_of a.shadow last ≡ decision_of b.shadow last
    unfolding decision_of
    decision_of-Same = ground (arith, same)

  finish_lem :
      (n : ℕ) (r r' : Result (LiveSim F))
      → Alike SameSim r r'
      → (r >>= finish n) ≡ (r' >>= finish n)
  finish_lem n (err e) (err e') h = cc
  finish_lem n (ok a) (ok b) h =
      ground (arith, to_tier3-Same a b h (before n), decision_of-Same a b h (before n))
  finish_lem n (err e) (ok b) h = absurd h
  finish_lem n (ok a) (err e) h = absurd h

  to_tier3_inv :
      (sim : LiveSim F) (last : Option ℕ) (state : Tier3State F)
      → to_tier3 fl sim last ≡ ok state
      → checkpoint fl sim last ≡ state
  unfolding to_tier3
  to_tier3_inv sim last state h = ground (arith, h)

  to_sim-Same :
      (sim : LiveSim F) (last : Option ℕ) → SameSim (to_sim fl (some (checkpoint fl sim last))) sim
  unfolding to_sim
  to_sim-Same sim last =
      ground (arith, keep_trades-restore_trades (nought fl) (keep_trades sim.shadow.history))

  after-before : (n : ℕ) → after (before n) ≡ n
  after-before zero = refl
  after-before (suc n) = refl

  -- A cycle over n bars that goes on from the checkpoint of a cycle over the first m of them ends as one
  -- cycle over n bars from where that one began: with the same checkpoint and decision, or the same
  -- exception.
  pub run_live_cycle_resumes :
      (m n : ℕ) (prior : Option (Tier3State F)) (last_bar : Option ℕ) (state : Tier3State F)
      (kind : SignalKind)
      → run_live_cycle fl c m prior last_bar ≡ ok (state, kind)
      → after last_bar ≤ m
      → m ≤ n
      → run_live_cycle fl c n (some state) (before m) ≡ run_live_cycle fl c n prior last_bar
  unfolding run_live_cycle
  run_live_cycle_resumes m n prior last_bar state kind h le le' =
      let first = after last_bar in
      after_bind (live_steps fl c (m - first) first (to_sim fl prior)) _ h λ sim stepped rest.
        after_bind (to_tier3 fl sim (before m)) _ rest λ state' kept made.
          let same_state : state' ≡ state =
            ap (λ (r : Tier3State F × SignalKind). r.0) (ok-injective made) in
          let same_sim : SameSim (to_sim fl (some state)) sim =
            subst (λ (x : Tier3State F). SameSim (to_sim fl (some x)) sim)
              (to_tier3_inv sim (before m) state' kept ∙ same_state) (to_sim-Same sim (before m)) in
          let split =
            live_steps-append (m - first) (n - m) (n - first) first m (to_sim fl prior)
              (omega (arith, le, le')) (omega (arith, le)) in
          let resumed =
            finish_lem n (live_steps fl c (n - m) m (to_sim fl (some state)))
              (live_steps fl c (n - m) m sim)
              (live_steps-Same (n - m) m (to_sim fl (some state)) sim same_sim) in
          let whole : live_steps fl c (n - first) first (to_sim fl prior)
              ≡ live_steps fl c (n - m) m sim =
            split ∙ ap (λ (r : Result (LiveSim F)). r >>= live_steps fl c (n - m) m) stepped in
          rw (after-before m)
            (resumed ∙ ap (λ (r : Result (LiveSim F)). r >>= finish n) (sym whole))
