-- ===== src/Trader/Portfolio/Curve.antt =====
-- The equity curve that the API reads.
use marketmind_open.Common.{
  ◌≤◌, ◌≡◌, refl, ◌∙◌, Bool, true, Option, List, [], ◌∷◌, map, length, select, All, Bool-cases, inl,
  inr, arith,
}
use marketmind_open.Clock.{Instant}
use marketmind_open.Decimal.{Decimal}
use marketmind_open.Trader.Schema.{SnapshotRow}
use marketmind_open.Trader.Tables.{Db, before, insert_by, order_by}
use marketmind_open.Trader.Risk.State.{snapshot_ts}
use marketmind_open.Trader.Portfolio.{within, fetch_equity_curve}

module _ {A : Type 0} (key : A → Instant) where
  -- Times do not go down along the list.
  abbrev pub Ascending : List A → Type 0
  Ascending [] = Unit
  Ascending (x ∷ xs) = All (λ y. key x ≤ key y) xs × Ascending xs

  All-weaken :
      (a b : Instant) (xs : List A) → a ≤ b → All (λ y. b ≤ key y) xs → All (λ y. a ≤ key y) xs
  All-weaken a b [] h all = tt
  All-weaken a b (x ∷ xs) h all = (omega (arith, h, all.0), All-weaken a b xs h all.1)

  All-insert_by :
      (a : Instant) (x : A) (xs : List A)
      → a ≤ key x
      → All (λ y. a ≤ key y) xs
      → All (λ y. a ≤ key y) (insert_by (before key key) x xs)
  All-insert_by a x [] h all = (h, tt)
  All-insert_by a x (y ∷ ys) h all =
      let rest = All-insert_by a x ys h all.1 in
      elim (Bool-cases (before key key x y)) [
        | inl first ↦ rw first (h, all)
        | inr later ↦ rw later (all.0, rest)
      ]

  insert_by-Ascending :
      (x : A) (xs : List A) → Ascending xs → Ascending (insert_by (before key key) x xs)
  insert_by-Ascending x [] h = (tt, tt)
  insert_by-Ascending x (y ∷ ys) h =
      let rest = insert_by-Ascending x ys h.1 in
      elim (Bool-cases (before key key x y)) [
        | inl first ↦
            let le : key x ≤ key y = ground (arith, first) in
            rw first ((le, All-weaken (key x) (key y) ys le h.0), h)
        | inr later ↦
            let le : key y ≤ key x = ground (arith, later) in
            rw later (All-insert_by (key y) x ys le h.0, rest)
      ]

  order_by-Ascending : (xs : List A) → Ascending (order_by key key xs)
  order_by-Ascending [] = tt
  order_by-Ascending (x ∷ xs) = insert_by-Ascending x (order_by key key xs) (order_by-Ascending xs)

  length-select-insert_by :
      (p : A → Bool) (x : A) (xs : List A)
      → length (select p (insert_by (before key key) x xs)) ≡ length (select p (x ∷ xs))
  length-select-insert_by p x [] = refl
  length-select-insert_by p x (y ∷ ys) = ground (arith, length-select-insert_by p x ys)

  length-select-order_by :
      (p : A → Bool) (xs : List A) → length (select p (order_by key key xs)) ≡ length (select p xs)
  length-select-order_by p [] = refl
  length-select-order_by p (x ∷ xs) =
      ground (arith, length-select-insert_by p x (order_by key key xs), length-select-order_by p xs)

abbrev row_of : SnapshotRow → Instant × Decimal
row_of s = (s.ts, s.equity)

module _ (q : Instant × Decimal → Bool) where
  All-rows :
      (a : Instant) (xs : List SnapshotRow)
      → All (λ s. a ≤ s.ts) xs
      → All (λ r. a ≤ r.0) (select q (map row_of xs))
  All-rows a [] h = tt
  All-rows a (x ∷ xs) h =
      let rest = All-rows a xs h.1 in
      elim (Bool-cases (q (row_of x))) [
        | inl taken ↦ rw taken (h.0, rest)
        | inr left ↦ rw left rest
      ]

  rows-Ascending :
      (xs : List SnapshotRow)
      → Ascending snapshot_ts xs
      → Ascending (λ r. r.0) (select q (map row_of xs))
  rows-Ascending [] h = tt
  rows-Ascending (x ∷ xs) h =
      let rest = rows-Ascending xs h.1 in
      elim (Bool-cases (q (row_of x))) [
        | inl taken ↦ rw taken (All-rows x.ts xs h.0, rest)
        | inr left ↦ rw left rest
      ]

  rows_pass : (xs : List SnapshotRow) → All (λ r. q r ≡ true) (select q (map row_of xs))
  rows_pass [] = tt
  rows_pass (x ∷ xs) =
      let rest = rows_pass xs in
      elim (Bool-cases (q (row_of x))) [
        | inl taken ↦ rw taken (taken, rest)
        | inr left ↦ rw left rest
      ]

  length-select-rows :
      (xs : List SnapshotRow)
      → length (select q (map row_of xs)) ≡ length (select (λ s. q (row_of s)) xs)
  length-select-rows [] = refl
  length-select-rows (x ∷ xs) = ground (arith, length-select-rows xs)

-- The rows of the curve go forward in time, each is within the bounds, and there are as many as
-- there are snapshots within the bounds.
pub fetch_equity_curve-Ascending :
    (since until : Option Instant) (db : Db)
    → Ascending (λ r. r.0) (fetch_equity_curve since until db)
      × All (λ r. within since until r.0 ≡ true) (fetch_equity_curve since until db)
      × (length (fetch_equity_curve since until db)
          ≡ length (select (λ s. within since until s.ts) db.snapshots))
unfolding fetch_equity_curve
fetch_equity_curve-Ascending since until db =
    let q = λ (r : Instant × Decimal). within since until r.0 in
    let rows = order_by snapshot_ts snapshot_ts db.snapshots in
    (
      rows-Ascending q rows (order_by-Ascending snapshot_ts db.snapshots),
      rows_pass q rows,
      length-select-rows q rows
          ∙ length-select-order_by snapshot_ts (λ s. within since until s.ts) db.snapshots,
    )
