-- ===== src/Trader/Risk/Sizing.antt =====
-- How near the size of an approved entry keeps to the risk budget, and when the sizing cannot raise.
use marketmind_open.Common.{
  ℕ, ◌+◌, ◌*◌, ◌^◌, ◌≤◌, ◌<◌, ◌≡◌, ◌≢◌, refl, arith, inl, inr, Bool-cases, ltb, ltb→lt, ltb→le, ◌/◌,
  if◌then◌else◌,
}
use native.Mathlib.Nat.{mul-le-mul_right}
use marketmind_open.Common.Int.{pos, ◌<ℤ◌, leb_ℤ}
use marketmind_open.Common.Result.{Error, Result-cases, ok, err}
use marketmind_open.Clock.{Instant}
use marketmind_open.Decimal
use marketmind_open.Decimal.{Decimal, scale, rounded, nought}
use marketmind_open.Decimal.Laws.{rounded-le, rounded_error, div-pos}
use marketmind_open.Money.{quantize_size, size_quant}
use marketmind_open.Money.Bounds.{quantize_size_bounds, quantize_size_total}
use marketmind_open.Trader.Schema.{TraderSettings}
use marketmind_open.Trader.Tables.{Db}
use marketmind_open.Trader.Risk.Checks.{
  RiskInputs, Proposal, BlockDecision, stop_distance, risk_budget, stop_block, zero_size_block,
  Sizing, refused, sized, size_trade, check_entry, evaluate_risk,
}
use marketmind_open.Trader.Risk.Gate.{IsPermitted}

large_quotient : (p d r : ℕ) → 0 < d → rounded p d ≡ r → 10 ^ 52 ≤ r → d * 10 ^ 27 ≤ p
large_quotient p d r h e big = elim (Bool-cases (ltb p (d * 10 ^ 27))) [
  | inl small ↦ absurd (
      omega (
        arith,
        ltb→lt _ _ small,
        rounded-le p d (10 ^ 27) 0 h (omega arith) (omega (arith, ltb→lt _ _ small)),
      ))
  | inr enough ↦ ltb→le _ _ enough
]

quotient_risk :
    (m d n : ℕ)
    → 0 < d
    → 10 ^ 52 ≤ n
    → n ≤ rounded (m * scale) d
    → 2 * 10 ^ 27 * (n * d) ≤ (2 * 10 ^ 27 + 1) * (m * scale)
quotient_risk m d n h big le = omega (
  arith,
  (rounded_error (m * scale) d h
      (large_quotient (m * scale) d _ h refl (omega (arith, big, le)))).0,
  mul-le-mul_right d le,
)

positive_of : (a : Decimal) (n : ℕ) → a ≡ pos n → nought <ℤ a → 0 < n
positive_of a n e h = ground arith

module _ (settings : TraderSettings) (p : Proposal) (inputs : RiskInputs) {m d : ℕ}
    (budget : risk_budget settings p inputs ≡ pos m) (distance : stop_distance p ≡ pos d) where
  raw_size :
      {raw : Decimal}
      → 0 < d
      → Decimal.div (risk_budget settings p inputs) (stop_distance p) ≡ ok raw
      → raw ≡ pos (rounded (m * scale) d)
  raw_size {raw} h e =
      let same = rw budget at (rw distance at e) in ground (arith, div-pos m d h, same)

  -- With a risk budget of m and a stop distance of d, a permitted size is positive, and the loss at
  -- the stop, size times distance, exceeds the budget by at most one part in 2 * 10 ^ 27.
  pub approved_size_risk :
      (now : Instant) {size : Decimal}
      → IsPermitted settings p inputs now size
      → (n : ℕ) × (size ≡ pos n)
        × (0 < n)
        × (2 * 10 ^ 27 * (n * d) ≤ (2 * 10 ^ 27 + 1) * (m * scale))
  approved_size_risk now {size} h =
      let positive : 0 < d = positive_of _ d distance h.stop in
      let quantised : quantize_size (pos (rounded (m * scale) d)) ≡ ok size =
        rw (raw_size positive h.divided) at h.quantised in
      let (k, same, low, high) = quantize_size_bounds (pos (rounded (m * scale) d)) quantised in
      let some_quanta : 0 < k * size_quant = positive_of _ _ same h.positive in
      (
        k * size_quant,
        same,
        some_quanta,
        quotient_risk m d (k * size_quant) positive (omega arith) low,
      )

  size_trade_total : 0 < d → m ≤ d * 10 ^ 19 → (s : Sizing) × (size_trade settings p inputs ≡ ok s)
  unfolding size_trade
  size_trade_total positive room =
      let raw : ℕ = rounded (m * scale) d in
      let small : raw ≤ 10 ^ 27 * size_quant =
        omega (arith, rounded-le (m * scale) d (10 ^ 19) 60 positive (omega arith) (omega arith)) in
      let divided : Decimal.div (risk_budget settings p inputs) (stop_distance p) ≡ ok (pos raw) =
        rw (budget, distance) (div-pos m d positive) in
      let size : Decimal = pos (raw / size_quant * size_quant) in
      (
        (if leb_ℤ (stop_distance p) nought
            then refused (stop_block p)
            else if leb_ℤ size nought
            then refused (zero_size_block settings p inputs)
            else sized size),
        ground (arith, divided, quantize_size_total raw small),
      )

  size_trade_raises_not :
      0 < d → m ≤ d * 10 ^ 19 → (e : Error) → size_trade settings p inputs ≢ err e
  size_trade_raises_not positive room e h = let (s, returned) = size_trade_total positive room in cc

  check_entry_raises_not :
      (now : Instant)
      → 0 < d
      → m ≤ d * 10 ^ 19
      → (e : Error) → check_entry settings p inputs now ≢ err e
  unfolding check_entry
  check_entry_raises_not now positive room e h =
      ground (arith, size_trade_raises_not positive room e)

  evaluate_risk_raises_not :
      (now : Instant) (db : Db)
      → 0 < d
      → m ≤ d * 10 ^ 19
      → (e : Error) → evaluate_risk settings p inputs now db ≢ err e
  unfolding evaluate_risk
  evaluate_risk_raises_not now db positive room e h =
      ground (arith, check_entry_raises_not now positive room e)

  -- With a positive stop distance, and a budget that is not negative and at most 10 ^ 19 such
  -- distances, every signal is decided: nothing raises.
  pub evaluate_risk_total :
      (now : Instant) (db : Db)
      → 0 < d
      → m ≤ d * 10 ^ 19
      → (r : BlockDecision × Db) × (evaluate_risk settings p inputs now db ≡ ok r)
  evaluate_risk_total now db positive room =
      elim (Result-cases (evaluate_risk settings p inputs now db)) [
        | inl returned ↦ returned
        | inr (e, raised) ↦ absurd (evaluate_risk_raises_not now db positive room e raised)
      ]
