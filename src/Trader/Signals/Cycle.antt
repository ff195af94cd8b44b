-- ===== src/Trader/Signals/Cycle.antt =====
-- `evaluate_one_cycle`: the active versions in their order, their symbols and timeframes within the
-- configured ones, and a pass over the pairs. The heartbeat and the log lines are left out.
use Prim.Native.Nat.{Ordering}
use Prim.Native.String.{String, compare}
use text.Mathlib.Text.{◌==◌ as str_eq}
use marketmind_open.Common.{
  ℕ, suc, ◌+◌, Bool, true, false, ◌&&◌, ◌||◌, List, [], ◌∷◌, length, leb, ltb, ◌==◌, if◌then◌else◌,
  find, select, ◌≡◌, sym, inl, inr, arith,
}
use marketmind_open.Common.Result.{value_error, Result, Result-cases, ok, ok-injective, err, ◌>>=◌}
use marketmind_open.Trader.Schema.{VersionRow}
use marketmind_open.Trader.Tables.{Db, insert_by, is_some}
use marketmind_open.Trader.Signals.Store.{Templates, Store}
use marketmind_open.Trader.Signals.Pair.{SignalEngineResult, Pass, evaluate_pair}

abbrev pub safety_margin_bars : ℕ
safety_margin_bars = 5

abbrev pub tier3_fetch_bars : ℕ
tier3_fetch_bars = 200000

-- `settings.symbols_list()` and `settings.timeframes_list()`
pub record Settings : Type 0 where
  pub symbols_list : List String
  pub timeframes_list : List String

abbrev pub is_active : VersionRow → Bool
is_active v = v.approved_for_paper && v.enabled

-- ORDER BY strategy_id, version DESC, id
abbrev pub version_before : VersionRow → VersionRow → Bool
version_before v w =
    if v.strategy_id == w.strategy_id
    then (if v.version == w.version then leb v.id w.id else ltb w.version v.version)
    else ltb v.strategy_id w.strategy_id

abbrev pub order_versions : List VersionRow → List VersionRow
order_versions [] = []
order_versions (v ∷ vs) = insert_by version_before v (order_versions vs)

-- The rows that the query returns.
abbrev pub active_versions : Db → List VersionRow
active_versions db = order_versions (select is_active db.versions)

-- The values of the enum Timeframe.
abbrev pub timeframe_values : List String
timeframe_values = "1m" ∷ "5m" ∷ "15m" ∷ "30m" ∷ "1h" ∷ "4h" ∷ "1d" ∷ []

abbrev pub is_in : String → List String → Bool
is_in name [] = false
is_in name (x ∷ xs) = str_eq name x || is_in name xs

abbrev pub all_in : List String → List String → Bool
all_in [] ys = true
all_in (x ∷ xs) ys = is_in x ys && all_in xs ys

-- `Timeframe(tf)` raises a ValueError at a text that is no value of the enum. The template is a value
-- of its enum by a CHECK of the table.
unfoldable pub convert_versions : List VersionRow → Result (List VersionRow)
convert_versions [] = ok []
convert_versions (v ∷ vs) =
    let rest = convert_versions vs in
    if all_in v.timeframes timeframe_values
    then (rest >>= λ versions. ok (v ∷ versions))
    else err value_error

pub convert_versions-same :
    (vs versions : List VersionRow) → convert_versions vs ≡ ok versions → versions ≡ vs
unfolding convert_versions
convert_versions-same [] versions h = sym (ok-injective h)
convert_versions-same (v ∷ vs) versions h = elim (Result-cases (convert_versions vs)) [
  | inr (e, raised) ↦ absurd (ground (arith, h, raised))
  | inl (rest, done) ↦ ground (arith, h, done, convert_versions-same vs rest done)
]

unfoldable pub load_active_versions : Db → Result (List VersionRow)
load_active_versions db = convert_versions (active_versions db)

-- A sorted list without repetitions, with one more name.
abbrev pub insert_name : String → List String → List String
insert_name name [] = name ∷ []
insert_name name (x ∷ xs) =
    let rest = insert_name name xs in
    elim (compare name x) [
      | Ordering.lt ↦ name ∷ x ∷ xs
      | Ordering.eq ↦ x ∷ xs
      | Ordering.gt ↦ x ∷ rest
    ]

abbrev pub is_name : String → String → Bool
is_name x y = elim (compare x y) [ Ordering.lt ↦ false | Ordering.eq ↦ true | Ordering.gt ↦ false ]

-- sorted(set(xs) & set(ys))
unfoldable pub intersection : List String → List String → List String
intersection [] ys = []
intersection (x ∷ xs) ys =
    let rest = intersection xs ys in
    if is_some (find (is_name x) ys) then insert_name x rest else rest

abbrev pub is_empty : List String → Bool
is_empty [] = true
is_empty (x ∷ xs) = false

abbrev pub started : ℕ → SignalEngineResult
started loaded = record {
  versions_loaded = loaded;
  versions_misconfigured = 0;
  pair_attempts = 0;
  pair_locked_out = 0;
  pair_no_data = 0;
  pair_insufficient_history = 0;
  pair_duplicate_signal = 0;
  pair_state_guarded = 0;
  pair_state_disabled = 0;
  evaluations = 0;
  holds = 0;
  signals_persisted = 0;
}

module _ {T St : Type 0} (ops : Templates T St) (locked : ℕ → Bool) where
  unfoldable pub fetch_bars : T → ℕ
  fetch_bars template =
      if ops.is_tier3 template
      then tier3_fetch_bars
      else ops.min_bars_needed template + safety_margin_bars

  -- One round of the inner loop.
  unfoldable pub attempt : VersionRow → T → String → String → Pass St → Result (Pass St)
  attempt version template symbol timeframe (n, s) =
      evaluate_pair ops locked
        (record { version_id = version.id; symbol = symbol; timeframe = timeframe }) template
        (ops.min_bars_needed template) (fetch_bars template)
        (record n { pair_attempts = suc n.pair_attempts }, s)

  unfoldable pub over_timeframes :
      VersionRow → T → String → List String → Pass St → Result (Pass St)
  over_timeframes version template symbol [] pass = ok pass
  over_timeframes version template symbol (timeframe ∷ timeframes) pass = do
    pass' ← attempt version template symbol timeframe pass
    over_timeframes version template symbol timeframes pass'

  unfoldable pub over_symbols :
      VersionRow → T → List String → List String → Pass St → Result (Pass St)
  over_symbols version template [] timeframes pass = ok pass
  over_symbols version template (symbol ∷ symbols) timeframes pass = do
    pass' ← over_timeframes version template symbol timeframes pass
    over_symbols version template symbols timeframes pass'

  abbrev pub misconfigured : Pass St → Pass St
  misconfigured (n, s) = (record n { versions_misconfigured = suc n.versions_misconfigured }, s)

  -- The body of the loop over the versions.
  unfoldable pub evaluate_version : Settings → VersionRow → Pass St → Result (Pass St)
  evaluate_version settings version pass =
      let version_symbols = intersection version.symbols settings.symbols_list in
      let version_timeframes = intersection version.timeframes settings.timeframes_list in
      if is_empty version_symbols || is_empty version_timeframes
      then ok (misconfigured pass)
      else (elim (ops.build version.template version.parameters) [
        | err e ↦ ok (misconfigured pass)
        | ok template ↦ over_symbols version template version_symbols version_timeframes pass
      ])

  unfoldable pub over_versions : Settings → List VersionRow → Pass St → Result (Pass St)
  over_versions settings [] pass = ok pass
  over_versions settings (version ∷ versions) pass = do
    pass' ← evaluate_version settings version pass
    over_versions settings versions pass'

  unfoldable pub evaluate_one_cycle : Settings → Store St → Result (Pass St)
  evaluate_one_cycle settings s = load_active_versions s.book >>= λ versions.
      over_versions settings versions (started (length versions), s)
