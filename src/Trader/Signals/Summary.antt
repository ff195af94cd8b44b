-- ===== src/Trader/Signals/Summary.antt =====
-- `evaluate_one_cycle`: its counters against the rows that it leaves.
use Prim.Native.String.{String}
use marketmind_open.Common.{
  ℕ, suc, ◌+◌, ◌≡◌, refl, Bool, ◌||◌, List, [], ◌∷◌, length, inl, inr, Bool-cases, arith, ◌∙◌, ap,
}
use marketmind_open.Common.Result.{Result, Result-cases, ok, ◌>>=◌, after_bind}
use marketmind_open.Trader.Schema.{VersionRow}
use marketmind_open.Trader.Signals.Store.{Templates, Store}
use marketmind_open.Trader.Signals.Pair.{SignalEngineResult, Pass}
use marketmind_open.Trader.Signals.Cycle.{
  Settings, active_versions, convert_versions-same, load_active_versions, intersection, is_empty,
  fetch_bars, attempt, over_timeframes, over_symbols, misconfigured, evaluate_version,
  over_versions, started, evaluate_one_cycle,
}
use marketmind_open.Trader.Signals.Counted.{outcomes, Balances, RunBalances, ended, pair_balances}

module _ {T St : Type 0} (ops : Templates T St) (locked : ℕ → Bool) where
  abbrev Keeps : Pass St → Result (Pass St) → Type 0
  Keeps = RunBalances ops locked 0

  Balances-trans : (a b c : Pass St) → Balances 0 a b → Balances 0 b c → Balances 0 a c
  Balances-trans a b c h k = (
    omega (arith, h.0, k.0),
    omega (arith, h.1, k.1),
    omega (arith, h.2, k.2),
    omega (arith, h.3, k.3),
    omega (arith, h.4, k.4),
  )

  then-Keeps :
      (pass : Pass St) (first : Result (Pass St)) (next : Pass St → Result (Pass St))
      → Keeps pass first
      → ((pass' : Pass St) → Keeps pass' (next pass'))
      → Keeps pass (first >>= next)
  then-Keeps pass first next now later pass' whole =
      after_bind first next whole
        λ mid here there. Balances-trans pass mid pass' (now mid here) (later mid pass' there)

  attempt-Keeps :
      (version : VersionRow) (template : T) (symbol timeframe : String) (pass : Pass St)
      → Keeps pass (attempt ops locked version template symbol timeframe pass)
  unfolding attempt
  attempt-Keeps version template symbol timeframe (n, s) pass' ran =
      let counted =
        pair_balances ops locked
          (record { version_id = version.id; symbol = symbol; timeframe = timeframe }) template
          (ops.min_bars_needed template) (fetch_bars ops locked template)
          (record n { pair_attempts = suc n.pair_attempts }) s pass' ran in
      (omega (arith, counted.0), counted.1, counted.2, counted.3, counted.4)

  over_timeframes-Keeps :
      (version : VersionRow) (template : T) (symbol : String) (timeframes : List String)
      (pass : Pass St)
      → Keeps pass (over_timeframes ops locked version template symbol timeframes pass)
  unfolding over_timeframes
  over_timeframes-Keeps version template symbol [] pass =
      ended ops locked 0 pass pass (omega arith, refl, refl, refl, refl)
  over_timeframes-Keeps version template symbol (timeframe ∷ timeframes) pass =
      then-Keeps pass (attempt ops locked version template symbol timeframe pass) _
        (attempt-Keeps version template symbol timeframe pass)
        (over_timeframes-Keeps version template symbol timeframes)

  over_symbols-Keeps :
      (version : VersionRow) (template : T) (symbols timeframes : List String) (pass : Pass St)
      → Keeps pass (over_symbols ops locked version template symbols timeframes pass)
  unfolding over_symbols
  over_symbols-Keeps version template [] timeframes pass =
      ended ops locked 0 pass pass (omega arith, refl, refl, refl, refl)
  over_symbols-Keeps version template (symbol ∷ symbols) timeframes pass =
      then-Keeps pass (over_timeframes ops locked version template symbol timeframes pass) _
        (over_timeframes-Keeps version template symbol timeframes pass)
        (over_symbols-Keeps version template symbols timeframes)

  version-Keeps :
      (settings : Settings) (version : VersionRow) (pass : Pass St)
      → Keeps pass (evaluate_version ops locked settings version pass)
  unfolding evaluate_version
  version-Keeps settings version pass =
      let symbols = intersection version.symbols settings.symbols_list in
      let timeframes = intersection version.timeframes settings.timeframes_list in
      let skipped =
        ended ops locked 0 pass (misconfigured ops locked pass)
          (omega arith, refl, refl, refl, refl) in
      elim (Bool-cases (is_empty symbols || is_empty timeframes)) [
        | inl outside ↦ rw (evaluate_version, outside) skipped
        | inr inside ↦ elim (Result-cases (ops.build version.template version.parameters)) [
          | inr (e, raised) ↦ rw (evaluate_version, inside, raised) skipped
          | inl (template, built) ↦
              rw (evaluate_version, inside, built)
                (over_symbols-Keeps version template symbols timeframes pass)
        ]
      ]

  over_versions-Keeps :
      (settings : Settings) (versions : List VersionRow) (pass : Pass St)
      → Keeps pass (over_versions ops locked settings versions pass)
  unfolding over_versions
  over_versions-Keeps settings [] pass =
      ended ops locked 0 pass pass (omega arith, refl, refl, refl, refl)
  over_versions-Keeps settings (version ∷ versions) pass =
      then-Keeps pass (evaluate_version ops locked settings version pass) _
        (version-Keeps settings version pass) (over_versions-Keeps settings versions)

  -- In the result of a cycle that ends, the active versions are counted, each pair attempted is
  -- counted under exactly one outcome, and the signals, the audit logs and the alerts that the cycle
  -- added are as many as the signals persisted, the holds and the pairs disabled.
  pub evaluate_one_cycle_accounts :
      (settings : Settings) (s s' : Store St) (n : SignalEngineResult)
      → evaluate_one_cycle ops locked settings s ≡ ok (n, s')
      → (n.versions_loaded ≡ length (active_versions s.book))
        × (outcomes n ≡ n.pair_attempts)
        × (length s'.book.signals ≡ length s.book.signals + n.signals_persisted)
        × (length s'.audit_logs ≡ length s.audit_logs + n.holds)
        × (length s'.alerts ≡ length s.alerts + n.pair_state_disabled)
  unfolding evaluate_one_cycle load_active_versions
  evaluate_one_cycle_accounts settings s s' n ran =
      after_bind (load_active_versions s.book) _ ran λ versions loaded rest.
        let balanced =
          over_versions-Keeps settings versions (started (length versions), s) (n, s') rest in
        (
          balanced.4 ∙ ap length (convert_versions-same (active_versions s.book) versions loaded),
          omega (arith, balanced.0),
          omega (arith, balanced.1),
          omega (arith, balanced.2),
          omega (arith, balanced.3),
        )
