-- ===== src/Trader/Portfolio/Breakdown.antt =====
-- What the breakdowns hold under each key: the totals of the positions that have the key.
use Prim.Native.String.{String}
use text.Mathlib.Text.{◌==◌ as str_eq}
use text.Mathlib.TextEquality.{eq_iff}
use marketmind_open.Common.{
  ℕ, ◌+◌, ◌≡◌, refl, Bool, true, none, some, List, [], ◌∷◌, map, length, find, select, ◌==◌,
  if◌then◌else◌, arith,
}
use marketmind_open.Decimal
use marketmind_open.Decimal.{Decimal, nought}
use marketmind_open.Trader.Schema.{PositionRow, BreakdownEntry}
use marketmind_open.Trader.Portfolio.{
  realised, unrealised_of, no_entry, change_entry, add_open, add_closed, aggregate_breakdowns,
  total_from,
}

-- The totals of some open and some closed positions.
abbrev pub totals_of :
    List (String × Decimal) → List PositionRow → List PositionRow → BreakdownEntry
totals_of latest_close opened closed = record {
  realised_pnl = total_from nought (map realised closed);
  unrealised_pnl = total_from nought (map (unrealised_of latest_close) opened);
  open_positions = length opened;
}

module _ {K : Type 0} (same : K → K → Bool) where
  -- The entry of a key; an absent one is empty.
  abbrev pub entry_of : K → List (K × BreakdownEntry) → BreakdownEntry
  entry_of key entries = elim (find (λ e. same key e.0) entries) [ none ↦ no_entry | some e ↦ e.1 ]

module _ {K : Type 0} (same : K → K → Bool) (sound : (a b : K) → same a b ≡ true → a ≡ b)
    (reflexive : (a : K) → same a a ≡ true) where
  entry_of-change_entry :
      (k key : K) (change : BreakdownEntry → BreakdownEntry) (entries : List (K × BreakdownEntry))
      → entry_of same k (change_entry same key change entries)
        ≡ (if same k key then change (entry_of same k entries) else entry_of same k entries)
  unfolding change_entry
  entry_of-change_entry k key change [] = ground arith
  entry_of-change_entry k key change ((x, e) ∷ rest) = ground (
    arith,
    entry_of-change_entry k key change rest,
    sound k x,
    sound key x,
    sound k key,
    reflexive k,
  )

  entry_of-add_open :
      (k : K) (key : PositionRow → K) (latest_close : List (String × Decimal))
      (rows : List PositionRow) (entries : List (K × BreakdownEntry))
      → entry_of same k (add_open same key latest_close rows entries)
        ≡ record (entry_of same k entries) {
          unrealised_pnl =
              total_from
                (entry_of same k entries).unrealised_pnl
                (map (unrealised_of latest_close) (select (λ p. same k (key p)) rows));
          open_positions =
              (entry_of same k entries).open_positions + length (select (λ p. same k (key p)) rows);
        }
  unfolding add_open total_from
  entry_of-add_open k key latest_close [] entries = ground arith
  entry_of-add_open k key latest_close (p ∷ rows) entries = ground (
    arith,
    entry_of-add_open k key latest_close rows (
        change_entry same (key p)
          (λ e. record e {
            unrealised_pnl = Decimal.add e.unrealised_pnl (unrealised_of latest_close p);
            open_positions = e.open_positions + 1;
          })
          entries),
    entry_of-change_entry k (key p)
        (λ e. record e {
          unrealised_pnl = Decimal.add e.unrealised_pnl (unrealised_of latest_close p);
          open_positions = e.open_positions + 1;
        })
        entries,
  )

  entry_of-add_closed :
      (k : K) (key : PositionRow → K) (rows : List PositionRow)
      (entries : List (K × BreakdownEntry))
      → entry_of same k (add_closed same key rows entries) ≡ record (entry_of same k entries) {
        realised_pnl =
            total_from
              (entry_of same k entries).realised_pnl
              (map realised (select (λ p. same k (key p)) rows));
      }
  unfolding add_closed total_from
  entry_of-add_closed k key [] entries = refl
  entry_of-add_closed k key (p ∷ rows) entries = ground (
    arith,
    entry_of-add_closed k key rows (
        change_entry same (key p)
          (λ e. record e { realised_pnl = Decimal.add e.realised_pnl (realised p) }) entries),
    entry_of-change_entry k (key p)
        (λ e. record e { realised_pnl = Decimal.add e.realised_pnl (realised p) }) entries,
  )

  entry_of-totals :
      (k : K) (key : PositionRow → K) (latest_close : List (String × Decimal))
      (opened closed : List PositionRow)
      → entry_of same k (add_closed same key closed (add_open same key latest_close opened []))
        ≡ totals_of latest_close
            (select (λ p. same k (key p)) opened)
            (select (λ p. same k (key p)) closed)
  entry_of-totals k key latest_close opened closed = ground (
    arith,
    entry_of-add_closed k key closed (add_open same key latest_close opened []),
    entry_of-add_open k key latest_close opened [],
  )

-- For every strategy version and every symbol, the breakdown holds the totals of exactly the open
-- and the closed positions of that version, or of that symbol; a missing entry counts as
-- an empty one.
pub aggregate_breakdowns_entries :
    (latest_close : List (String × Decimal)) (opened closed : List PositionRow)
    → ((version : ℕ)
        → entry_of ◌==◌ version (aggregate_breakdowns opened closed latest_close).0
          ≡ totals_of latest_close
              (select (λ p. version == p.strategy_version_id) opened)
              (select (λ p. version == p.strategy_version_id) closed))
      × ((symbol : String)
          → entry_of str_eq symbol (aggregate_breakdowns opened closed latest_close).1
            ≡ totals_of latest_close
                (select (λ p. str_eq symbol p.symbol) opened)
                (select (λ p. str_eq symbol p.symbol) closed))
unfolding aggregate_breakdowns
aggregate_breakdowns_entries latest_close opened closed = (
  λ version.
      entry_of-totals ◌==◌ (λ a b h. ground arith) (λ a. ground arith) version
        (λ p. p.strategy_version_id) latest_close opened closed,
  λ symbol.
      entry_of-totals str_eq (λ a b h. ground (arith, eq_iff a b)) (λ a. ground (arith, eq_iff a a))
        symbol (λ p. p.symbol) latest_close opened closed,
)
