-- ===== src/Ftr/Broker.antt =====
-- workers/src/marketmind_workers/ftr/trader/paper_broker.py: the ledger of the paper trader, without
-- its log lines. Dicts by symbol are lists in the order of insertion.
pub mod Positions
pub mod Replay
mod Tests
use Prim.Native.String.{String}
use text.Mathlib.Text.{◌==◌ as str_eq}
use marketmind_open.Common.{
  ◌*◌, ◌/◌, Bool, true, false, Option, none, some, List, [], ◌∷◌, ◌++◌, find, if◌then◌else◌,
}
use marketmind_open.Common.Int.{pos, abs, ltb_ℤ, leb_ℤ}
use marketmind_open.Common.Result.{Result, ok, err, ◌>>=◌}
use marketmind_open.Clock.{Instant}
use marketmind_open.Decimal
use marketmind_open.Ftr.Floats.{Floats}
use marketmind_open.Decimal.{Decimal, literal, nought, scale, signed}

-- The terms of a `VenueProfile` as Decimals, and `half_spread_bps.for_symbol`.
pub record VenueProfile : Type 0 where
  pub name : String
  pub half_spread_bps : String → Decimal
  pub slippage_bps : Decimal
  pub taker_fee_bps : Decimal

pub data Side : Type 0 where
  buy sell : Side

pub record PaperFill : Type 0 where
  pub ts_utc : Instant
  pub symbol : String
  pub side : Side
  pub qty : Decimal
  pub reference_price : Decimal
  pub fill_price : Decimal
  pub fee_paid : Decimal
  pub venue_profile : String

pub record Position : Type 0 where
  pub symbol : String
  pub qty : Decimal
  pub avg_entry_price : Decimal
  pub opened_at : Instant

pub record PaperBroker : Type 0 where
  pub profile : VenueProfile
  pub cash : Decimal
  pub positions : List Position
  pub fills : List PaperFill

abbrev pub qty_step : Decimal
qty_step = literal 1 5

abbrev pub per_bps : Decimal
per_bps = literal 1 4

unfoldable pub worsen : VenueProfile → Decimal → Side → String → Decimal
worsen profile reference side symbol =
    let bps = Decimal.add (profile.half_spread_bps symbol) profile.slippage_bps in
    let frac = Decimal.mul bps per_bps in
    elim side [
      | Side.buy ↦ Decimal.mul reference (Decimal.add (literal 1 0) frac)
      | Side.sell ↦ Decimal.mul reference (Decimal.sub (literal 1 0) frac)
    ]

unfoldable pub fee : VenueProfile → Decimal → Decimal
fee profile notional = Decimal.mul (Decimal.mul notional profile.taker_fee_bps) per_bps

-- `to_integral_value(rounding=ROUND_DOWN)`, which does not round to the context.
abbrev pub to_integral_value : Decimal → Decimal
to_integral_value d = signed d (pos 0) (abs d / scale * scale)

abbrev pub is_position_of : String → Position → Bool
is_position_of symbol p = str_eq p.symbol symbol

-- `self.positions.get(symbol)`
abbrev pub position_of : String → List Position → Option Position
position_of symbol positions = find (is_position_of symbol) positions

-- `del self.positions[symbol]`
abbrev pub delete_position : String → List Position → List Position
delete_position symbol [] = []
delete_position symbol (p ∷ ps) =
    let rest = delete_position symbol ps in if is_position_of symbol p then ps else p ∷ rest

abbrev pub fill_of :
    PaperBroker → Side → String → Instant → Decimal → Decimal → Decimal → Decimal → PaperFill
fill_of b side symbol ts reference_close fill_px qty fee_paid = record {
  ts_utc = ts;
  symbol = symbol;
  side = side;
  qty = qty;
  reference_price = reference_close;
  fill_price = fill_px;
  fee_paid = fee_paid;
  venue_profile = b.profile.name;
}

-- From `self.cash -= notional + fee` to the end.
unfoldable pub book_buy :
    PaperBroker → String → Instant → Decimal → Decimal → Decimal → Decimal → PaperBroker
book_buy b symbol ts reference_close fill_px qty fee_paid = record b {
  cash = Decimal.sub b.cash (Decimal.add (Decimal.mul qty fill_px) fee_paid);
  positions =
      b.positions
      ++ record { symbol = symbol; qty = qty; avg_entry_price = fill_px; opened_at = ts } ∷ [];
  fills = b.fills ++ fill_of b Side.buy symbol ts reference_close fill_px qty fee_paid ∷ [];
}

-- The quantity of an order of at most the target, in whole steps.
unfoldable pub affordable_qty : PaperBroker → Decimal → Decimal → Result Decimal
affordable_qty b fill_px target_notional = do
  units ← Decimal.div (Decimal.min target_notional b.cash) fill_px
  steps ← Decimal.div units qty_step
  ok (Decimal.mul (to_integral_value steps) qty_step)

-- A buy that costs more than the cash is made one step smaller; the result tells whether it filled.
unfoldable pub buy_qty :
    PaperBroker → String → Instant → Decimal → Decimal → Decimal → Bool × PaperBroker
buy_qty b symbol ts reference_close fill_px qty =
    let fee_paid = fee b.profile (Decimal.mul qty fill_px) in
    let less = Decimal.sub qty qty_step in
    if leb_ℤ qty nought
    then (false, b)
    else (if ltb_ℤ b.cash (Decimal.add (Decimal.mul qty fill_px) fee_paid)
        then (if leb_ℤ less nought then (false, b) else (
          true,
          book_buy b symbol ts reference_close fill_px less
              (fee b.profile (Decimal.mul less fill_px)),
        ))
        else (true, book_buy b symbol ts reference_close fill_px qty fee_paid))

unfoldable pub execute_buy :
    PaperBroker → String → Instant → Decimal → Decimal → Result (Bool × PaperBroker)
execute_buy b symbol ts reference_close target_notional = elim (position_of symbol b.positions) [
  | some held ↦ ok (false, b)
  | none ↦
      let fill_px = worsen b.profile reference_close Side.buy symbol in
      affordable_qty b fill_px target_notional >>= λ qty.
      ok (buy_qty b symbol ts reference_close fill_px qty)
]

unfoldable pub execute_sell : PaperBroker → String → Instant → Decimal → Bool × PaperBroker
execute_sell b symbol ts reference_close = elim (position_of symbol b.positions) [
  | none ↦ (false, b)
  | some held ↦
      let fill_px = worsen b.profile reference_close Side.sell symbol in
      let notional = Decimal.mul held.qty fill_px in
      let fee_paid = fee b.profile notional in
      (
        true,
        record b {
          cash = Decimal.add b.cash (Decimal.sub notional fee_paid);
          positions = delete_position symbol b.positions;
          fills =
              b.fills
              ++ fill_of b Side.sell symbol ts reference_close fill_px held.qty fee_paid ∷ [];
        },
      )
]

-- `marks.get(symbol, avg_entry_price)`
abbrev pub mark_of : (String → Option Decimal) → Position → Decimal
mark_of marks p = elim (marks p.symbol) [ none ↦ p.avg_entry_price | some mark ↦ mark ]

abbrev pub add_values : (String → Option Decimal) → Decimal → List Position → Decimal
add_values marks value [] = value
add_values marks value (p ∷ ps) =
    add_values marks (Decimal.add value (Decimal.mul p.qty (mark_of marks p))) ps

unfoldable pub equity : PaperBroker → (String → Option Decimal) → Decimal
equity b marks = add_values marks b.cash b.positions

unfoldable pub gross_exposure_pct :
    {F : Type 0} → Floats F → PaperBroker → (String → Option Decimal) → Result F
gross_exposure_pct floats b marks =
    if leb_ℤ (equity b marks) nought
    then ok (floats.constant 0 0)
    else (Decimal.div (add_values marks nought b.positions) (equity b marks) >>= λ share.
        ok (floats.float share))
