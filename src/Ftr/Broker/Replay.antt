-- ===== src/Ftr/Broker/Replay.antt =====
-- The book of the broker against its fills.
use Prim.Native.String.{String}
use marketmind_open.Common.{
  ◌≡◌, refl, ◌∙◌, ap, subst, Bool, none, List, [], ◌∷◌, ◌++◌, All, inl, inr, Bool-cases,
  Option-cases, arith,
}
use marketmind_open.Common.Int.{ltb_ℤ, leb_ℤ, ◌<ℤ◌}
use marketmind_open.Common.Result.{Result, ok, ok-injective, after_bind, ◌>>=◌}
use marketmind_open.Clock.{Instant}
use marketmind_open.Decimal
use marketmind_open.Decimal.{Decimal, nought}
use marketmind_open.Ftr.Broker.{
  Side, PaperFill, Position, PaperBroker, qty_step, worsen, fee, position_of, delete_position,
  fill_of, book_buy, affordable_qty, buy_qty, execute_buy, execute_sell,
}
use marketmind_open.Ftr.Broker.Positions.{
  OnePerSymbol, OnePerSymbol-append, OnePerSymbol-delete, All-append, All-delete,
}

-- An order for the broker.
pub data Order : Type 0 where
  buys : String → Instant → Decimal → Decimal → Order
  sells : String → Instant → Decimal → Order

unfoldable pub execute : Order → PaperBroker → Result PaperBroker
execute (buys symbol ts reference_close target_notional) b =
    execute_buy b symbol ts reference_close target_notional >>= λ result. ok result.1
execute (sells symbol ts reference_close) b = ok (execute_sell b symbol ts reference_close).1

unfoldable pub execute_all : List Order → PaperBroker → Result PaperBroker
execute_all [] b = ok b
execute_all (o ∷ orders) b = execute o b >>= execute_all orders

-- What a fill does to cash and positions.
abbrev pub settle : PaperFill → Decimal × List Position → Decimal × List Position
settle f (cash, positions) =
    let notional = Decimal.mul f.qty f.fill_price in
    elim f.side [
      | Side.buy ↦ (
        Decimal.sub cash (Decimal.add notional f.fee_paid),
        positions
            ++ record {
              symbol = f.symbol;
              qty = f.qty;
              avg_entry_price = f.fill_price;
              opened_at = f.ts_utc;
            }
              ∷ [],
      )
      | Side.sell ↦
          (Decimal.add cash (Decimal.sub notional f.fee_paid), delete_position f.symbol positions)
    ]

abbrev pub settle_all : List PaperFill → Decimal × List Position → Decimal × List Position
settle_all [] book = book
settle_all (f ∷ fills) book = settle_all fills (settle f book)

-- The book is what the fills settle to, with one position of a positive quantity per symbol.
pub record IsLedger (start : Decimal) (b : PaperBroker) : Type 0 where
  pub settled : settle_all b.fills (start, []) ≡ (b.cash, b.positions)
  pub one_per_symbol : OnePerSymbol b.positions
  pub held : All (λ (p : Position). nought <ℤ p.qty) b.positions

settle_all-append :
    (fills : List PaperFill) (f : PaperFill) (book : Decimal × List Position)
    → settle_all (fills ++ f ∷ []) book ≡ settle f (settle_all fills book)
settle_all-append [] f book = refl
settle_all-append (x ∷ fills) f book = settle_all-append fills f (settle x book)

module _ (start : Decimal) where
  book_buy-IsLedger :
      (b : PaperBroker) (symbol : String) (ts : Instant) (reference_close px qty fee_paid : Decimal)
      → IsLedger start b
      → position_of symbol b.positions ≡ none
      → nought <ℤ qty
      → IsLedger start (book_buy b symbol ts reference_close px qty fee_paid)
  unfolding book_buy
  book_buy-IsLedger b symbol ts reference_close px qty fee_paid h free some_qty = record {
    settled =
        let f = fill_of b Side.buy symbol ts reference_close px qty fee_paid in
        settle_all-append b.fills f (start, []) ∙ ap (settle f) h.settled;
    one_per_symbol = OnePerSymbol-append b.positions _ h.one_per_symbol free;
    held = All-append _ b.positions _ h.held some_qty;
  }

  buy_qty-IsLedger :
      (b : PaperBroker) (symbol : String) (ts : Instant) (reference_close px qty : Decimal)
      → IsLedger start b
      → position_of symbol b.positions ≡ none
      → IsLedger start (buy_qty b symbol ts reference_close px qty).1
  unfolding buy_qty
  buy_qty-IsLedger b symbol ts reference_close px qty h free =
      let cost = Decimal.add (Decimal.mul qty px) (fee b.profile (Decimal.mul qty px)) in
      elim (Bool-cases (leb_ℤ qty nought)) [
        | inl empty ↦ rw (buy_qty, empty) h
        | inr filled ↦ elim (Bool-cases (ltb_ℤ b.cash cost)) [
          | inr enough ↦
              rw (buy_qty, filled, enough)
                (book_buy-IsLedger b symbol ts reference_close px qty _ h free
                  (ground (arith, filled)))
          | inl short ↦ elim (Bool-cases (leb_ℤ (Decimal.sub qty qty_step) nought)) [
            | inl gone ↦ rw (buy_qty, filled, short, gone) h
            | inr left ↦
                rw (buy_qty, filled, short, left)
                  (book_buy-IsLedger b symbol ts reference_close px (Decimal.sub qty qty_step) _ h
                    free (ground (arith, left)))
          ]
        ]
      ]

  execute_buy-IsLedger :
      (b : PaperBroker) (symbol : String) (ts : Instant) (reference_close target : Decimal)
      (result : Bool × PaperBroker)
      → IsLedger start b
      → execute_buy b symbol ts reference_close target ≡ ok result
      → IsLedger start result.1
  unfolding execute_buy
  execute_buy-IsLedger b symbol ts reference_close target result h ran =
      elim (Option-cases (position_of symbol b.positions)) [
        | inr (held, found) ↦
            subst (λ (r : Bool × PaperBroker). IsLedger start r.1)
              (ok-injective (rw (execute_buy, found) at ran)) h
        | inl free ↦
            let px = worsen b.profile reference_close Side.buy symbol in
            after_bind (affordable_qty b px target) _ (rw (execute_buy, free) at ran)
              λ qty sized same.
                subst (λ (r : Bool × PaperBroker). IsLedger start r.1) (ok-injective same)
                  (buy_qty-IsLedger b symbol ts reference_close px qty h free)
      ]

  execute_sell-IsLedger :
      (b : PaperBroker) (symbol : String) (ts : Instant) (reference_close : Decimal)
      → IsLedger start b
      → IsLedger start (execute_sell b symbol ts reference_close).1
  unfolding execute_sell
  execute_sell-IsLedger b symbol ts reference_close h =
      elim (Option-cases (position_of symbol b.positions)) [
        | inl flat ↦ rw (execute_sell, flat) h
        | inr (held, found) ↦
            let px = worsen b.profile reference_close Side.sell symbol in
            let paid = fee b.profile (Decimal.mul held.qty px) in
            let f = fill_of b Side.sell symbol ts reference_close px held.qty paid in
            rw (execute_sell, found)
              (record {
                settled = settle_all-append b.fills f (start, []) ∙ ap (settle f) h.settled;
                one_per_symbol = OnePerSymbol-delete symbol b.positions h.one_per_symbol;
                held = All-delete _ symbol b.positions h.held;
              })
      ]

  execute-IsLedger :
      (o : Order) (b b' : PaperBroker) → IsLedger start b → execute o b ≡ ok b' → IsLedger start b'
  unfolding execute
  execute-IsLedger (buys symbol ts reference_close target) b b' h ran =
      after_bind (execute_buy b symbol ts reference_close target) _ ran λ result bought same.
        subst (IsLedger start) (ok-injective same)
          (execute_buy-IsLedger b symbol ts reference_close target result h bought)
  execute-IsLedger (sells symbol ts reference_close) b b' h ran =
      subst (IsLedger start) (ok-injective ran)
        (execute_sell-IsLedger b symbol ts reference_close h)

  -- Orders keep a ledger: if cash and positions are what the fills settle to, one by one from the
  -- starting cash, and each symbol has at most one position, of a positive quantity, then this also
  -- holds after any orders that end.
  pub execute_all-IsLedger :
      (orders : List Order) (b b' : PaperBroker)
      → IsLedger start b
      → execute_all orders b ≡ ok b'
      → IsLedger start b'
  unfolding execute_all
  execute_all-IsLedger [] b b' h ran = subst (IsLedger start) (ok-injective ran) h
  execute_all-IsLedger (o ∷ orders) b b' h ran =
      after_bind (execute o b) _ ran
        λ b₁ first rest. execute_all-IsLedger orders b₁ b' (execute-IsLedger o b b₁ h first) rest
