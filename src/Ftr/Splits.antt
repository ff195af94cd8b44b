-- ===== src/Ftr/Splits.antt =====
-- workers/src/marketmind_workers/ftr/features/splits.py: purged walk-forward folds with an embargo.
-- Timestamps are microseconds since 1970, and the counts of days, hours and bars are not negative.
pub mod Walk
pub mod Leakage
mod Tests
use marketmind_open.Common.{
  ℕ, zero, suc, ◌+◌, ◌*◌, Bool, ◌&&◌, Option, none, some, List, [], ◌∷◌, map, length, ltb, leb,
  if◌then◌else◌,
}
use marketmind_open.Common.Result.{Result, ok, err, value_error}
use marketmind_open.Clock.{Instant, second, day}

pub record Fold : Type 0 where
  pub fold_id : ℕ
  pub train_start : Instant
  pub train_end : Instant
  pub val_start : Instant
  pub val_end : Instant
  pub test_start : Instant
  pub test_end : Instant

-- The keyword arguments of `make_walkforward_folds`.
pub record FoldSettings : Type 0 where
  pub train_days : ℕ
  pub val_days : ℕ
  pub test_days : ℕ
  pub step_days : ℕ
  pub embargo_hours : ℕ
  pub min_folds : ℕ

abbrev pub hour : ℕ
hour = 3600 * second

-- The rows of the three masks, the train mask without the rows of the last bars: a row is before
-- `train_end - purge_bars * bar`.
unfoldable pub in_train : Fold → ℕ → ℕ → Instant → Bool
in_train fold purge_bars bar t = leb fold.train_start t && ltb (t + purge_bars * bar) fold.train_end

unfoldable pub in_val : Fold → Instant → Bool
in_val fold t = leb fold.val_start t && ltb t fold.val_end

unfoldable pub in_test : Fold → Instant → Bool
in_test fold t = leb fold.test_start t && ltb t fold.test_end

unfoldable pub masks : Fold → ℕ → ℕ → List Instant → List Bool × List Bool × List Bool
masks fold purge_bars bar index =
    (map (in_train fold purge_bars bar) index, map (in_val fold) index, map (in_test fold) index)

-- The fold that starts at the cursor.
unfoldable pub fold_at : FoldSettings → ℕ → Instant → Fold
fold_at s fold_id cursor =
    let train_end = cursor + s.train_days * day in
    let val_end = train_end + s.val_days * day in
    let test_start = val_end + s.embargo_hours * hour in
    record {
      fold_id = fold_id;
      train_start = cursor;
      train_end = train_end;
      val_start = train_end;
      val_end = val_end;
      test_start = test_start;
      test_end = test_start + s.test_days * day;
    }

abbrev pub prepend : Fold → Option (List Fold) → Option (List Fold)
prepend fold none = none
prepend fold (some folds) = some (fold ∷ folds)

-- `while True`: none when the fuel runs out.
unfoldable pub walk : FoldSettings → Instant → ℕ → ℕ → Instant → Option (List Fold)
walk s end zero fold_id cursor = none
walk s end (suc fuel) fold_id cursor =
    let fold = fold_at s fold_id cursor in
    let rest = walk s end fuel (suc fold_id) (cursor + s.step_days * day) in
    if ltb end fold.test_end then some [] else prepend fold rest

abbrev pub last_of : Instant → List Instant → Instant
last_of first [] = first
last_of first (t ∷ rest) = last_of t rest

abbrev pub checked : FoldSettings → List Fold → Result (List Fold)
checked s folds = if ltb (length folds) s.min_folds then err value_error else ok folds

unfoldable pub make_walkforward_folds :
    FoldSettings → ℕ → List Instant → Option (Result (List Fold))
make_walkforward_folds s fuel [] = some (err value_error)
make_walkforward_folds s fuel (first ∷ rest) = elim (walk s (last_of first rest) fuel 0 first) [
  | none ↦ none
  | some folds ↦ some (checked s folds)
]
