-- ===== src/Decimal/Round.antt =====
-- Correct rounding of a quotient to 28 significant digits, the default context of `decimal`
-- (ROUND_HALF_EVEN).
use marketmind_open.Common.{
  ℕ, zero, suc, ◌+◌, ◌*◌, ◌/◌, ◌%◌, ◌^◌, ◌≤◌, ◌<◌, ◌≡◌, refl, inl, inr, true, false, arith, ltb,
  ltb→le, if◌then◌else◌, Bool-cases,
}
use native.Mathlib.Nat.{mul-le-mul_right}

-- The coefficient of a result has at most 28 digits.
abbrev pub coefficient_limit : ℕ
coefficient_limit = 10 ^ 28

-- p / d as a whole number; a tie goes to the even neighbour.
unfoldable pub half_even : ℕ → ℕ → ℕ
half_even p d =
    let k = p / d in
    let r = p % d in if ltb (2 * r) d then k else if ltb d (2 * r) then k + 1 else k + k % 2

-- p / d to 28 digits: while the quotient is too large, one digit is dropped.
unfoldable pub round_ratio : ℕ → ℕ → ℕ → ℕ
round_ratio zero p d = half_even p d
round_ratio (suc fuel) p d = elim (ltb p (d * coefficient_limit)) [
  | true ↦ half_even p d
  | false ↦ 10 * round_ratio fuel p (10 * d)
]

pub half_even-ge : (p d n : ℕ) → 0 < d → n * d ≤ p → n ≤ half_even p d
unfolding half_even
half_even-ge p d n h e = ground (arith, floor)
  where
    floor : n ≤ p / d
    floor = grind arith

quotient_lt : (p d n : ℕ) → 0 < d → p ≤ n * d → 0 < p % d → p / d + 1 ≤ n
quotient_lt p d n h e r = grind arith

quotient_le : (p d n : ℕ) → 0 < d → p ≤ n * d → p / d ≤ n
quotient_le p d n h e = grind arith

pub half_even-le : (p d n : ℕ) → 0 < d → p ≤ n * d → half_even p d ≤ n
unfolding half_even
half_even-le p d n h e = ground (arith, quotient_le p d n h e, quotient_lt p d n h e)

-- The error of one rounding, doubled, is at most the divisor.
pub half_even_error :
    (p d : ℕ)
    → 0 < d
    → (2 * (half_even p d * d) ≤ 2 * p + d) × (2 * p ≤ 2 * (half_even p d * d) + d)
unfolding half_even
half_even_error p d h = grind arith

-- A coefficient c with e zeros behind it: c * 10 ^ e.
abbrev pub shifted : ℕ → ℕ → ℕ
shifted c zero = c
shifted c (suc e) = 10 * shifted c e

-- Rounding does not pass below a number of 28 digits that is not above the quotient.
pub round_ratio-ge :
    (fuel p d c e : ℕ)
    → 0 < d
    → c ≤ coefficient_limit
    → shifted c e * d ≤ p
    → shifted c e ≤ round_ratio fuel p d
unfolding round_ratio
round_ratio-ge zero p d c e h small le = half_even-ge p d (shifted c e) h le
round_ratio-ge (suc fuel) p d c zero h small le =
    ground (arith, half_even-ge p d c h le, round_ratio-ge fuel p (10 * d) (10 ^ 27) 0)
round_ratio-ge (suc fuel) p d c (suc e) h small le =
    ground (arith, half_even-ge p d (shifted c (suc e)) h le, round_ratio-ge fuel p (10 * d) c e)

factor_le : (p d c : ℕ) → 0 < d → d * coefficient_limit ≤ p → p ≤ c * d → coefficient_limit ≤ c
factor_le p d c h low high = grind arith

-- Nor above one that is not below the quotient.
pub round_ratio-le :
    (fuel p d c e : ℕ)
    → 0 < d
    → c ≤ coefficient_limit
    → p ≤ shifted c e * d
    → round_ratio fuel p d ≤ shifted c e
unfolding round_ratio
round_ratio-le zero p d c e h small le = half_even-le p d (shifted c e) h le
round_ratio-le (suc fuel) p d c zero h small le = ground (
  arith,
  half_even-le p d c h le,
  round_ratio-le fuel p (10 * d) (10 ^ 27) 0,
  factor_le p d c h,
  mul-le-mul_right d small,
)
round_ratio-le (suc fuel) p d c (suc e) h small le =
    ground (arith, half_even-le p d (shifted c (suc e)) h le, round_ratio-le fuel p (10 * d) c e)

-- A quotient of 28 digits or more is off by at most one part in 2 * 10 ^ 27.
pub round_ratio_error :
    (fuel p d : ℕ)
    → 0 < d
    → d * 10 ^ 27 ≤ p
    → (2 * 10 ^ 27 * (round_ratio fuel p d * d) ≤ (2 * 10 ^ 27 + 1) * p)
      × (2 * 10 ^ 27 * p ≤ 2 * 10 ^ 27 * (round_ratio fuel p d * d) + p)
unfolding round_ratio
round_ratio_error zero p d h big = omega (arith, half_even_error p d h)
round_ratio_error (suc fuel) p d h big = elim (Bool-cases (ltb p (d * coefficient_limit))) [
  | inl done ↦ rw (done, round_ratio) (omega (arith, half_even_error p d h))
  | inr more ↦
      rw (more, round_ratio) (omega (arith, ltb→le _ _ more, round_ratio_error fuel p (10 * d)))
]

-- A number of at most 28 digits, behind which zeros may stand.
pub record IsRepresentable (n : ℕ) : Type 0 where
  pub coefficient : ℕ
  pub zeros : ℕ
  pub small : coefficient ≤ coefficient_limit
  pub same : n ≡ shifted coefficient zeros

ten_times : {n : ℕ} → IsRepresentable n → IsRepresentable (10 * n)
ten_times r = record {
  coefficient = r.coefficient;
  zeros = suc r.zeros;
  small = r.small;
  same = omega (arith, r.same);
}

-- With fuel for the digits that go, the result has 28 digits.
pub round_ratio-IsRepresentable :
    (fuel p d : ℕ)
    → 0 < d
    → p < d * coefficient_limit * suc fuel
    → IsRepresentable (round_ratio fuel p d)
unfolding round_ratio
round_ratio-IsRepresentable zero p d h room = record {
  coefficient = half_even p d;
  zeros = 0;
  small = half_even-le p d coefficient_limit h (omega arith);
  same = refl;
}
round_ratio-IsRepresentable (suc fuel) p d h room =
    elim (Bool-cases (ltb p (d * coefficient_limit))) [
      | inl done ↦
          rw (done, round_ratio)
            (record {
              coefficient = half_even p d;
              zeros = 0;
              small = half_even-le p d coefficient_limit h (ground arith);
              same = refl;
            })
      | inr more ↦
          rw (more, round_ratio)
            (ten_times (round_ratio-IsRepresentable fuel p (10 * d) (omega arith) (omega arith)))
    ]
