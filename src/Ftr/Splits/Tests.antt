-- ===== src/Ftr/Splits/Tests.antt =====
-- Two folds over a hundred days.
use mathlib.Core.List.Memᴰ.{head}
use marketmind_open.Common.{
  true, ℕ, ◌+◌, ◌*◌, ◌≤◌, ◌<◌, ◌≡◌, refl, some, none, List, [], ◌∷◌, arith,
}
use marketmind_open.Common.Result.{Result, ok}
use marketmind_open.Clock.{Instant, day}
use marketmind_open.Ftr.Splits.{
  Fold, FoldSettings, hour, in_train, in_val, in_test, fold_at, walk, last_of,
  make_walkforward_folds,
}
use marketmind_open.Ftr.Splits.Walk.{make_walkforward_folds_total, make_walkforward_folds_endless}
use marketmind_open.Ftr.Splits.Leakage.{make_walkforward_folds_purged}

abbrev monthly : FoldSettings
monthly = record {
  train_days = 20;
  val_days = 10;
  test_days = 30;
  step_days = 30;
  embargo_hours = 24;
  min_folds = 2;
}

abbrev start : Instant
start = 20000 * day

abbrev index : List Instant
index = 20050 * day ∷ 20100 * day ∷ []

abbrev two_folds : List Fold
two_folds = fold_at monthly 0 start ∷ fold_at monthly 1 (20030 * day) ∷ []

split : make_walkforward_folds monthly 5 (start ∷ index) ≡ some (ok two_folds)
unfolding make_walkforward_folds walk fold_at
split = refl

make_walkforward_folds_total_example :
    (r : Result (List Fold)) × (make_walkforward_folds monthly
        (last_of start index + 2)
        (start ∷ index)
      ≡ some r)
make_walkforward_folds_total_example =
    make_walkforward_folds_total monthly start index (omega arith)

abbrev still : FoldSettings
still = record monthly { step_days = 0 }

still_fits : (fold_at still 0 start).test_end ≤ 20100 * day
unfolding fold_at
still_fits = omega arith

make_walkforward_folds_endless_example : make_walkforward_folds still 1000000 (start ∷ index) ≡ none
make_walkforward_folds_endless_example =
    make_walkforward_folds_endless still 1000000 start index refl still_fits

abbrev hour_bar : ℕ
hour_bar = 3600 * 1000000

-- With a day of hourly bars purged, a row 18 days into the training slice is the last whole day.
trained : in_train (fold_at monthly 0 start) 24 hour_bar (20018 * day) ≡ true
unfolding in_train fold_at
trained = refl

validated : in_val (fold_at monthly 0 start) (20020 * day) ≡ true
unfolding in_val fold_at
validated = refl

tested : in_test (fold_at monthly 0 start) (20031 * day) ≡ true
unfolding in_test fold_at
tested = refl

make_walkforward_folds_purged_example :
    (20018 * day + 24 * hour_bar < 20020 * day) × (20020 * day + 24 * hour < 20031 * day)
make_walkforward_folds_purged_example =
    make_walkforward_folds_purged monthly 5 24 hour_bar start index (20018 * day) (20020 * day)
      (20031 * day) split (head refl) trained validated tested
