-- ===== src/Common/Result.antt =====
-- Exceptions: an operation returns a value or raises.
use mathlib.Core.Path.{◌≡◌, refl}
use mathlib.Core.Logic.{◌⊎◌, inl, inr}

-- What the modelled code and the libraries below it can raise.
pub data Error : Type 0 where
  invalid_operation : Error  -- decimal.InvalidOperation
  division_by_zero : Error  -- decimal.DivisionByZero
  unique_violation : Error  -- psycopg.errors.UniqueViolation
  type_error : Error  -- arithmetic on None
  time_error : Error  -- trader.time.TimeError
  value_error : Error  -- ValueError itself
  validation_error : Error  -- pydantic.ValidationError, a kind of ValueError
  zero_division : Error  -- ZeroDivisionError
  iterative_backtest_error : Error  -- IterativeBacktestError
  missing_row : Error  -- `assert row is not None`

pub data Result {κ} (X : Type κ) : Type κ where
  err : Error → Result X
  ok : X → Result X

pub ok-injective {κ} : {X : Type κ} {x y : X} → ok x ≡ ok y → x ≡ y
ok-injective same = cc

pub Result-cases {κ} :
    {X : Type κ} (r : Result X) → ((x : X) × (r ≡ ok x)) ⊎ ((e : Error) × (r ≡ err e))
Result-cases (err raised) = inr (raised, refl)
Result-cases (ok value) = inl (value, refl)

infixl 5 ◌>>=◌
-- An abbreviation: the first part may still be open where the rest is computed.
abbrev pub ◌>>=◌ {κ μ} : {X : Type κ} {Y : Type μ} → Result X → (X → Result Y) → Result Y
err raised >>= next = err raised
ok value >>= next = next value

module _ {κ μ ν} {X : Type κ} {Y : Type μ} {P : Type ν} where
  -- To go on from a successful bind with a name for what its first part returned.
  pub after_bind :
      (first : Result X) (next : X → Result Y) {y : Y}
      → (first >>= next) ≡ ok y
      → ((x : X) → first ≡ ok x → next x ≡ ok y → P)
      → P
  after_bind (err raised) next whole go_on = absurd (cc)
  after_bind (ok value) next whole go_on = go_on value refl whole

-- The same, with the value as a pair.
pub >>=-eq-ok {κ μ} :
    {X : Type κ} {Y : Type μ} (first : Result X) (next : X → Result Y) {y : Y}
    → (first >>= next) ≡ ok y
    → (x : X) × (first ≡ ok x) × (next x ≡ ok y)
>>=-eq-ok first next whole = after_bind first next whole λ x h k. (x, h, k)
