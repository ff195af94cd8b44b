-- ===== src/Trader/Portfolio/Peak.antt =====
-- The peak and the drawdown of a snapshot, and who reads the snapshot next.
use marketmind_open.Common.{
  ℕ, ◌<◌, ◌≡◌, refl, subst, ◌⊎◌, inl, inr, some, List, [], ◌∷◌, ◌++◌, All, arith,
}
use marketmind_open.Common.Int.{pos, abs, ◌≤ℤ◌, ◌-ℤ◌}
use marketmind_open.Common.Result.{Result-cases, ok, ok-injective, after_bind}
use marketmind_open.Clock.{Instant}
use marketmind_open.Decimal
use marketmind_open.Decimal.{Decimal, nought, rounded, fix, scale}
use marketmind_open.Decimal.Laws.{rounded-le}
use marketmind_open.Trader.Schema.{TraderSettings, SnapshotRow}
use marketmind_open.Trader.Tables.{Db, latest}
use marketmind_open.Trader.Risk.State.{snapshot_ts, compute_portfolio_state}
use marketmind_open.Trader.Portfolio.{
  previous_peak_equity, drawdown_pct_of, equity_of, compute_and_persist_snapshot,
  fetch_latest_snapshot,
}

sub_parts : (a b : Decimal) → b ≤ℤ a → (n : ℕ) × (a -ℤ b ≡ pos n)
unfolding ◌-ℤ◌
sub_parts a b h = (abs (a -ℤ b), ground arith)

sub_nonneg : (a b : Decimal) → b ≤ℤ a → (n : ℕ) × (Decimal.sub a b ≡ pos n)
unfolding Decimal.sub fix
sub_nonneg a b h = let (n, e) = sub_parts a b h in (rounded n 1, rw e refl)

rounded_zero : rounded 0 1 ≡ 0
rounded_zero = omega (arith, rounded-le 0 1 0 0 (omega arith) (omega arith) (omega arith))

-ℤ_same : (a : Decimal) → a -ℤ a ≡ nought
unfolding ◌-ℤ◌
-ℤ_same a = ground arith

sub_same : (a : Decimal) → Decimal.sub a a ≡ nought
unfolding Decimal.sub fix
sub_same a = rw (-ℤ_same a, rounded_zero) refl

-- The peak of a snapshot goes on from the previous peak.
pub record TracksPeak (previous : Decimal) (s : SnapshotRow) : Type 0 where
  pub above_previous : previous ≤ℤ s.peak_equity
  pub above_equity : s.equity ≤ℤ s.peak_equity
  pub attained : (s.peak_equity ≡ previous) ⊎ ((s.peak_equity ≡ s.equity) × (s.drawdown ≡ nought))
  pub drawdown : nought ≤ℤ s.drawdown
  pub drawdown_pct : nought ≤ℤ s.drawdown_pct

max_cases : (a b : Decimal) → (Decimal.max a b ≡ a) ⊎ (Decimal.max a b ≡ b)
max_cases a b = ground arith

max_bounds : (a b : Decimal) → (a ≤ℤ Decimal.max a b) × (b ≤ℤ Decimal.max a b)
max_bounds a b = (ground arith, ground arith)

drawdown_pct_nonneg :
    (peak drawdown : Decimal) {pct : Decimal} (n : ℕ)
    → drawdown ≡ pos n
    → drawdown_pct_of peak drawdown ≡ ok pct
    → nought ≤ℤ pct
unfolding drawdown_pct_of Decimal.div
drawdown_pct_nonneg peak drawdown n e h = ground arith

-- A snapshot's peak is the larger of the previous peak and the equity, its drawdown and drawdown
-- percentage are not negative, and the drawdown is zero when the equity is the new peak.
pub compute_and_persist_snapshot_peak :
    (settings : TraderSettings) (db : Db) {s : SnapshotRow} {db' : Db}
    → compute_and_persist_snapshot settings db ≡ ok (s, db')
    → TracksPeak (previous_peak_equity settings.trader_starting_cash_gbp db) s
unfolding compute_and_persist_snapshot
compute_and_persist_snapshot_peak settings db {s} {db'} h =
    let previous = previous_peak_equity settings.trader_starting_cash_gbp db in
    let equity = equity_of settings db in
    let peak = Decimal.max previous equity in
    let (above_previous, above_equity) = max_bounds previous equity in
    let (n, down) = sub_nonneg peak equity above_equity in
    after_bind (drawdown_pct_of peak (Decimal.sub peak equity)) _ h λ pct divided h'.
      subst (λ (x : SnapshotRow × Db). TracksPeak previous x.0) (ok-injective h')
        (record {
          above_previous = above_previous;
          above_equity = above_equity;
          attained = elim (max_cases previous equity) [
            | inl old ↦ inl old
            | inr new ↦
                inr (new, subst (λ (x : Decimal). Decimal.sub peak x ≡ nought) new (sub_same peak))
          ];
          drawdown = rw down (omega arith);
          drawdown_pct = drawdown_pct_nonneg peak _ n down divided;
        })

drawdown_pct_of_total :
    (peak drawdown : Decimal) → (pct : Decimal) × (drawdown_pct_of peak drawdown ≡ ok pct)
unfolding drawdown_pct_of Decimal.div
drawdown_pct_of_total peak drawdown = elim (Result-cases (drawdown_pct_of peak drawdown)) [
  | inl returned ↦ returned
  | inr (e, raised) ↦ absurd (ground arith)
]

-- The snapshot is always computed: no division raises, whatever the tables hold.
pub compute_and_persist_snapshot_total :
    (settings : TraderSettings) (db : Db)
    → (s : SnapshotRow) × (db' : Db) × (compute_and_persist_snapshot settings db ≡ ok (s, db'))
unfolding compute_and_persist_snapshot
compute_and_persist_snapshot_total settings db =
    let previous = previous_peak_equity settings.trader_starting_cash_gbp db in
    let peak = Decimal.max previous (equity_of settings db) in
    let (pct, divided) = drawdown_pct_of_total peak (Decimal.sub peak (equity_of settings db)) in
    elim (Result-cases (compute_and_persist_snapshot settings db)) [
      | inl ((s, db'), returned) ↦ (s, db', returned)
      | inr (e, raised) ↦ let impossible = rw divided at raised in absurd (cc)
    ]

latest-append :
    {A : Type 0} (key : A → Instant) (xs : List A) (y : A)
    → All (λ x. key x < key y) xs
    → latest key (xs ++ y ∷ []) ≡ some y
latest-append key [] y h = refl
latest-append key (x ∷ xs) y h = ground (arith, latest-append key xs y h.1, h.0)

persisted :
    (settings : TraderSettings) (db : Db) {s : SnapshotRow} {db' : Db}
    → compute_and_persist_snapshot settings db ≡ ok (s, db')
    → All (λ r. r.ts < db.now) db.snapshots
    → latest snapshot_ts db'.snapshots ≡ some s
unfolding compute_and_persist_snapshot
persisted settings db h earlier = after_bind (drawdown_pct_of _ _) _ h λ pct divided h'.
    subst (λ (x : SnapshotRow × Db). latest snapshot_ts x.1.snapshots ≡ some x.0) (ok-injective h')
      (latest-append snapshot_ts db.snapshots _ earlier)

-- When every stored snapshot is older than the clock, the new snapshot is the one that the API, the
-- next peak and the risk manager read.
pub compute_and_persist_snapshot_read :
    (settings : TraderSettings) (db : Db) {s : SnapshotRow} {db' : Db}
    → compute_and_persist_snapshot settings db ≡ ok (s, db')
    → All (λ r. r.ts < db.now) db.snapshots
    → (fetch_latest_snapshot db' ≡ some s)
      × (previous_peak_equity settings.trader_starting_cash_gbp db' ≡ s.peak_equity)
      × (compute_portfolio_state settings db' ≡ record {
        cash = s.cash;
        equity = s.equity;
        peak_equity = s.peak_equity;
        drawdown_pct = s.drawdown_pct;
        starting_equity = settings.trader_starting_cash_gbp;
      })
unfolding fetch_latest_snapshot previous_peak_equity compute_portfolio_state
compute_and_persist_snapshot_read settings db {s} {db'} h earlier =
    let newest = persisted settings db h earlier in
    (newest, rw (previous_peak_equity, newest) refl, rw (compute_portfolio_state, newest) refl)
