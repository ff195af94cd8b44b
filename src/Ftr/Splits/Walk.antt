-- ===== src/Ftr/Splits/Walk.antt =====
-- The folds that the loop builds, and that it ends.
use marketmind_open.Common.{
  ℕ, zero, suc, ◌+◌, ◌*◌, ◌≤◌, ◌<◌, ◌≡◌, refl, sym, ap, subst, none, some, List, [], ◌∷◌, length,
  All, ltb, Bool-cases, Option-cases, inl, inr, ltb→lt, ltb→le, arith,
}
use marketmind_open.Common.Result.{Result, ok}
use marketmind_open.Clock.{Instant, day}
use marketmind_open.Ftr.Splits.{
  Fold, FoldSettings, fold_at, walk, last_of, checked, make_walkforward_folds,
}

-- n folds, one step apart.
abbrev pub folds_from : FoldSettings → ℕ → Instant → ℕ → List Fold
folds_from s fold_id cursor zero = []
folds_from s fold_id cursor (suc n) =
    fold_at s fold_id cursor ∷ folds_from s (suc fold_id) (cursor + s.step_days * day) n

-- As many folds as fit, and no fewer.
pub record Fills (s : FoldSettings) (start end : Instant) (fold_id : ℕ) (folds : List Fold)
    : Type 0 where
  pub stepped : folds ≡ folds_from s fold_id start (length folds)
  pub fitting : All (λ f. f.test_end ≤ end) folds
  pub full :
      end
      < (fold_at s (fold_id + length folds) (start + length folds * (s.step_days * day))).test_end

Fills-none :
    (s : FoldSettings) (end : Instant) (fold_id : ℕ) (cursor : Instant)
    → end < (fold_at s fold_id cursor).test_end
    → Fills s cursor end fold_id []
unfolding fold_at
Fills-none s end fold_id cursor over = record {
  stepped = refl;
  fitting = tt;
  full = omega (arith, over);
}

Fills-more :
    (s : FoldSettings) (end : Instant) (fold_id : ℕ) (cursor : Instant) (folds : List Fold)
    → (fold_at s fold_id cursor).test_end ≤ end
    → Fills s (cursor + s.step_days * day) end (suc fold_id) folds
    → Fills s cursor end fold_id (fold_at s fold_id cursor ∷ folds)
unfolding fold_at
Fills-more s end fold_id cursor folds fits rest = record {
  stepped = ap (λ (fs : List Fold). fold_at s fold_id cursor ∷ fs) rest.stepped;
  fitting = (fits, rest.fitting);
  full = grind (arith, rest.full);
}

walk-Fills :
    (s : FoldSettings) (end : Instant) (fuel fold_id : ℕ) (cursor : Instant) {folds : List Fold}
    → walk s end fuel fold_id cursor ≡ some folds
    → Fills s cursor end fold_id folds
unfolding walk
walk-Fills s end zero fold_id cursor h = absurd (cc)
walk-Fills s end (suc fuel) fold_id cursor {folds} h =
    elim (Bool-cases (ltb end (fold_at s fold_id cursor).test_end)) [
      | inl over ↦
          let same : [] ≡ folds = ground arith in
          subst (Fills s cursor end fold_id) same
            (Fills-none s end fold_id cursor (ltb→lt _ _ over))
      | inr fits ↦
          elim (Option-cases (walk s end fuel (suc fold_id) (cursor + s.step_days * day))) [
            | inl short ↦ absurd (ground arith)
            | inr (rest, found) ↦
                let same : fold_at s fold_id cursor ∷ rest ≡ folds = ground arith in
                subst (Fills s cursor end fold_id) same (
                  Fills-more s end fold_id cursor rest (ltb→le _ _ fits)
                    (walk-Fills s end fuel (suc fold_id) (cursor + s.step_days * day) found))
          ]
    ]

-- Folds that come back are numbered from 0 and one step apart from the first timestamp on, all end
-- by the last timestamp, the next one would not, and they are at least as many as required.
pub make_walkforward_folds-Fills :
    (s : FoldSettings) (fuel : ℕ) (first : Instant) (rest : List Instant) {folds : List Fold}
    → make_walkforward_folds s fuel (first ∷ rest) ≡ some (ok folds)
    → Fills s first (last_of first rest) 0 folds × (s.min_folds ≤ length folds)
unfolding make_walkforward_folds
make_walkforward_folds-Fills s fuel first rest {folds} h =
    elim (Option-cases (walk s (last_of first rest) fuel 0 first)) [
      | inl short ↦ absurd (ground arith)
      | inr (found, walked) ↦
          let same : found ≡ folds = ground arith in
          (
            subst (Fills s first (last_of first rest) 0) same
                (walk-Fills s (last_of first rest) fuel 0 first walked),
            ground arith,
          )
    ]

cursor_le :
    (s : FoldSettings) (fold_id : ℕ) (cursor : Instant)
    → cursor ≤ (fold_at s fold_id cursor).test_end
unfolding fold_at
cursor_le s fold_id cursor = omega arith

walk-total :
    (s : FoldSettings) (end : Instant) (fuel fold_id : ℕ) (cursor : Instant)
    → 0 < s.step_days
    → 0 < fuel
    → end + 1 < cursor + fuel
    → (folds : List Fold) × (walk s end fuel fold_id cursor ≡ some folds)
unfolding walk
walk-total s end zero fold_id cursor positive some_fuel enough = absurd (omega (arith, some_fuel))
walk-total s end (suc fuel) fold_id cursor positive some_fuel enough =
    elim (Bool-cases (ltb end (fold_at s fold_id cursor).test_end)) [
      | inl over ↦ ([], ground arith)
      | inr fits ↦
          let low = cursor_le s fold_id cursor in
          let high : (fold_at s fold_id cursor).test_end ≤ end = ltb→le _ _ fits in
          let (rest, walked) =
            walk-total s end fuel (suc fold_id) (cursor + s.step_days * day) positive
              (omega (arith, low, high, enough)) (omega (arith, low, high, enough, positive)) in
          (fold_at s fold_id cursor ∷ rest, ground (arith, walked))
    ]

-- With a step of at least one day the loop ends: two more rounds than the last timestamp counts
-- microseconds are enough.
pub make_walkforward_folds_total :
    (s : FoldSettings) (first : Instant) (rest : List Instant)
    → 0 < s.step_days
    → (r : Result (List Fold)) × (make_walkforward_folds s (last_of first rest + 2) (first ∷ rest)
        ≡ some r)
unfolding make_walkforward_folds
make_walkforward_folds_total s first rest positive =
    let end = last_of first rest in
    let (folds, walked) = walk-total s end (end + 2) 0 first positive (omega arith) (omega arith) in
    (checked s folds, rw (make_walkforward_folds, walked) refl)

walk-endless :
    (s : FoldSettings) (end : Instant) (fuel fold_id : ℕ) (cursor : Instant)
    → s.step_days ≡ 0
    → (fold_at s 0 cursor).test_end ≤ end
    → walk s end fuel fold_id cursor ≡ none
unfolding walk fold_at
walk-endless s end zero fold_id cursor still fits = refl
walk-endless s end (suc fuel) fold_id cursor still fits =
    let stays : cursor + s.step_days * day ≡ cursor = rw still (omega arith) in
    let rest : walk s end fuel (suc fold_id) (cursor + s.step_days * day) ≡ none =
      subst (λ (c : Instant). walk s end fuel (suc fold_id) c ≡ none) (sym stays)
        (walk-endless s end fuel (suc fold_id) cursor still fits) in
    ground (arith, rest, fits)

-- With a step of zero days and a first fold that fits, no fuel is enough: the loop never ends.
pub make_walkforward_folds_endless :
    (s : FoldSettings) (fuel : ℕ) (first : Instant) (rest : List Instant)
    → s.step_days ≡ 0
    → (fold_at s 0 first).test_end ≤ last_of first rest
    → make_walkforward_folds s fuel (first ∷ rest) ≡ none
unfolding make_walkforward_folds
make_walkforward_folds_endless s fuel first rest still fits =
    rw (make_walkforward_folds, walk-endless s (last_of first rest) fuel 0 first still fits) refl
