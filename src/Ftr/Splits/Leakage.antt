-- ===== src/Ftr/Splits/Leakage.antt =====
-- What the purge, the embargo and the step keep apart.
use marketmind_open.Common.{
  Memᴰ, All-lookup, ℕ, zero, suc, ◌+◌, ◌*◌, ◌≤◌, ◌<◌, ◌≡◌, sym, subst, true, some, List, [], ◌∷◌,
  length, All, arith,
}
use native.Mathlib.Nat.{mul-le-mul_right}
use marketmind_open.Common.Result.{ok}
use marketmind_open.Clock.{Instant, day}
use marketmind_open.Ftr.Splits.{
  Fold, FoldSettings, hour, in_train, in_val, in_test, fold_at, make_walkforward_folds,
}
use marketmind_open.Ftr.Splits.Walk.{folds_from, make_walkforward_folds-Fills}

-- The masks of a fold keep the label windows and the embargo apart.
abbrev IsPurged : FoldSettings → ℕ → ℕ → Fold → Type 0
IsPurged s purge_bars bar fold =
    (t v u : Instant)
    → in_train fold purge_bars bar t ≡ true
    → in_val fold v ≡ true
    → in_test fold u ≡ true
    → (t + purge_bars * bar < v) × (v + s.embargo_hours * hour < u)

fold_at-IsPurged :
    (s : FoldSettings) (purge_bars bar fold_id : ℕ) (cursor : Instant)
    → IsPurged s purge_bars bar (fold_at s fold_id cursor)
unfolding fold_at in_train in_val in_test
fold_at-IsPurged s purge_bars bar fold_id cursor t v u a b c = (ground arith, ground arith)

folds_from-IsPurged :
    (s : FoldSettings) (purge_bars bar fold_id : ℕ) (cursor : Instant) (n : ℕ)
    → All (IsPurged s purge_bars bar) (folds_from s fold_id cursor n)
folds_from-IsPurged s purge_bars bar fold_id cursor zero = tt
folds_from-IsPurged s purge_bars bar fold_id cursor (suc n) = (
  fold_at-IsPurged s purge_bars bar fold_id cursor,
  folds_from-IsPurged s purge_bars bar (suc fold_id) (cursor + s.step_days * day) n,
)

-- In every fold that comes back, the window of `purge_bars` bars after a training row ends before
-- each validation row, and more than the embargo passes from a validation row to a test row.
pub make_walkforward_folds_purged :
    (s : FoldSettings) (fuel purge_bars bar : ℕ) (first : Instant) (rest : List Instant)
    {folds : List Fold} {fold : Fold} (t v u : Instant)
    → make_walkforward_folds s fuel (first ∷ rest) ≡ some (ok folds)
    → Memᴰ fold folds
    → in_train fold purge_bars bar t ≡ true
    → in_val fold v ≡ true
    → in_test fold u ≡ true
    → (t + purge_bars * bar < v) × (v + s.embargo_hours * hour < u)
make_walkforward_folds_purged s fuel purge_bars bar first rest {folds} t v u h there =
    let (filled, _) = make_walkforward_folds-Fills s fuel first rest h in
    All-lookup (IsPurged s purge_bars bar) folds
      (subst (All (IsPurged s purge_bars bar)) (sym filled.stepped)
        (folds_from-IsPurged s purge_bars bar 0 first (length folds)))
      there t v u

-- Each test slice ends before the next ones start.
abbrev pub TestsApart : List Fold → Type 0
TestsApart [] = Unit
TestsApart (f ∷ folds) = All (λ g. f.test_end ≤ g.test_start) folds × TestsApart folds

later_tests :
    (s : FoldSettings) (bound fold_id : ℕ) (cursor : Instant) (n : ℕ)
    → bound ≤ (fold_at s fold_id cursor).test_start
    → All (λ g. bound ≤ g.test_start) (folds_from s fold_id cursor n)
unfolding fold_at
later_tests s bound fold_id cursor zero h = tt
later_tests s bound fold_id cursor (suc n) h =
    (h, later_tests s bound (suc fold_id) (cursor + s.step_days * day) n (omega (arith, h)))

next_test :
    (s : FoldSettings) (fold_id : ℕ) (cursor : Instant)
    → s.test_days ≤ s.step_days
    → (fold_at s fold_id cursor).test_end
      ≤ (fold_at s (suc fold_id) (cursor + s.step_days * day)).test_start
unfolding fold_at
next_test s fold_id cursor h = omega (arith, mul-le-mul_right day h)

folds_from-TestsApart :
    (s : FoldSettings) (fold_id : ℕ) (cursor : Instant) (n : ℕ)
    → s.test_days ≤ s.step_days
    → TestsApart (folds_from s fold_id cursor n)
folds_from-TestsApart s fold_id cursor zero h = tt
folds_from-TestsApart s fold_id cursor (suc n) h = (
  later_tests s _ (suc fold_id) (cursor + s.step_days * day) n (next_test s fold_id cursor h),
  folds_from-TestsApart s (suc fold_id) (cursor + s.step_days * day) n h,
)

-- With a step of at least the test slice, no two test slices of the folds that come back overlap.
pub make_walkforward_folds_apart :
    (s : FoldSettings) (fuel : ℕ) (first : Instant) (rest : List Instant) {folds : List Fold}
    → make_walkforward_folds s fuel (first ∷ rest) ≡ some (ok folds)
    → s.test_days ≤ s.step_days
    → TestsApart folds
make_walkforward_folds_apart s fuel first rest {folds} h wide =
    let (filled, _) = make_walkforward_folds-Fills s fuel first rest h in
    subst TestsApart (sym filled.stepped) (folds_from-TestsApart s 0 first (length folds) wide)
