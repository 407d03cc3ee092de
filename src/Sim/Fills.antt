-- ===== src/Sim/Fills.antt =====
-- market_engine/execution/simulator.py: `_record_fill`, and `_execute_taker` with its loop over the
-- levels.
use market_systems_workstati.Base.{
  ℕ, ◌+◌, ◌-◌, Bool, true, false, not, ◌||◌, Option, none, some, List, [], ◌∷◌, ◌++◌, ltb, ◌==◌,
  nat_eq, list_eq, if◌then◌else◌, length,
}
use Prim.Native.Nat.{min}
use market_systems_workstati.Base.Dict.{lookup, insert, or_else}
use market_systems_workstati.Book.Types.{Level, price_scale, quantity_scale}
use market_systems_workstati.Book.{BookSide, bid_levels, ask_levels}
use market_systems_workstati.Floats.{Floats, of_nat}
use market_systems_workstati.Sim.Types.{
  Side, OrderId, SimulatedOrder, Fill, OrderStatus, Reason, LevelKey, key_eq, remaining_quantity,
}
use market_systems_workstati.Sim.State.{
  Config, Simulator, put_order, with_order, set_status, set_outcome, projected, position_allows,
}

module _ (fl : Floats) (c : Config fl.Float) where
  open fl use {Float, add, sub, mul, div}

  -- `price / PRICE_SCALE * (quantity / QUANTITY_SCALE)`
  abbrev pub notional : ℕ → ℕ → Float
  notional price quantity =
      mul (div (of_nat fl price) (of_nat fl price_scale))
        (div (of_nat fl quantity) (of_nat fl quantity_scale))

  abbrev pub fee_of : Bool → Float → Float
  fee_of maker amount =
      div (mul amount (if maker then c.maker_fee_bps else c.taker_fee_bps)) (of_nat fl 10000)

  -- `cash_quote -= sign * notional`, with a sign of 1 or -1.
  abbrev pub settled : Side → Float → Float → Float
  settled Side.buy amount cash = sub cash amount
  settled Side.sell amount cash = add cash amount

  abbrev pub make_fill : SimulatedOrder Float → ℕ → ℕ → ℕ → Bool → Fill Float
  make_fill o timestamp quantity price maker = record {
    order_id = o.request.order_id;
    timestamp_ns = timestamp;
    side = o.request.side;
    quantity = quantity;
    price = price;
    maker = maker;
    fee_quote = fee_of maker (notional price quantity);
    markouts_bps = [];
  }

  -- `_record_fill` past its guards.
  unfoldable pub book_fill :
      ℕ → ℕ → ℕ → Bool → SimulatedOrder Float → Simulator Float → Simulator Float
  book_fill timestamp quantity price maker o s =
      let amount = notional price quantity in
      let fee = fee_of maker amount in
      put_order (record o { filled_quantity = o.filled_quantity + quantity })
        (record s {
          position = projected o.request.side quantity s.position;
          cash_quote = sub (settled o.request.side amount s.cash_quote) fee;
          realized_fees_quote = add s.realized_fees_quote fee;
          fills = s.fills ++ make_fill o timestamp quantity price maker ∷ [];
          pending_markouts = s.pending_markouts ++ length s.fills ∷ [];
        })

  -- `_record_fill`
  unfoldable pub record_fill :
      ℕ → ℕ → ℕ → Bool → SimulatedOrder Float → Simulator Float → Simulator Float
  unfolding book_fill position_allows
  record_fill timestamp quantity price maker o s =
      if quantity == 0
      then s
      else if not (position_allows c o.request.side quantity s)
      then set_outcome OrderStatus.rejected Reason.position_limit_during_partial_fill o s
      else book_fill timestamp quantity price maker o s

  abbrev pub taker_side : Side → BookSide
  taker_side Side.buy = BookSide.ask
  taker_side Side.sell = BookSide.bid

  -- The two `break`s on the limit price.
  abbrev pub beyond_limit : Side → Option ℕ → ℕ → Bool
  beyond_limit _ none price = false
  beyond_limit Side.buy (some limit) price = ltb limit price
  beyond_limit Side.sell (some limit) price = ltb price limit

  -- One round of the loop that fills: the fill, and the liquidity that it uses up.
  unfoldable pub consume : OrderId → ℕ → ℕ → LevelKey → Simulator Float → Simulator Float
  unfolding record_fill
  consume id timestamp quantity key s =
      let s' = with_order id (record_fill timestamp quantity key.1 false) s in
      record s' {
        consumed_liquidity =
            insert key (or_else (lookup key s'.consumed_liquidity) 0 + quantity)
              s'.consumed_liquidity;
      }

  -- What is left of a displayed level: `max(0, level.quantity - consumed)`.
  abbrev pub available : Side → Level → Simulator Float → ℕ
  available side level s =
      level.quantity - or_else (lookup (taker_side side, level.price) s.consumed_liquidity) 0

  -- The loop of `_execute_taker`.
  unfoldable pub walk :
      OrderId → ℕ → Side → Option ℕ → List Level → ℕ → Simulator Float → Simulator Float
  unfolding consume
  walk id timestamp side limit [] remaining s = s
  walk id timestamp side limit (level ∷ levels) remaining s =
      elim (remaining == 0 || beyond_limit side limit level.price) [
        | true ↦ s
        | false ↦
            let quantity = min remaining (available side level s) in
            elim (quantity == 0) [
              | true ↦ walk id timestamp side limit levels remaining s
              | false ↦
                  walk id timestamp side limit levels (remaining - quantity)
                    (consume id timestamp quantity (taker_side side, level.price) s)
            ]
      ]

  -- The status after the loop.
  abbrev pub conclude : SimulatedOrder Float → Simulator Float → Simulator Float
  conclude o s =
      if remaining_quantity o == 0
      then set_status OrderStatus.filled o s
      else if ltb 0 o.filled_quantity
      then set_outcome OrderStatus.partially_filled Reason.insufficient_visible_depth o s
      else set_outcome OrderStatus.rejected Reason.insufficient_visible_depth o s

  unfoldable pub visible : Side → Simulator Float → List Level
  unfolding bid_levels ask_levels
  visible Side.buy s = ask_levels s.book 0
  visible Side.sell s = bid_levels s.book 0

  -- `_execute_taker`, on an order that is among the orders.
  unfoldable pub execute_taker :
      ℕ → Option ℕ → SimulatedOrder Float → Simulator Float → Simulator Float
  unfolding walk
  execute_taker timestamp limit o s =
      let id = o.request.order_id in
      with_order id conclude
        (walk id timestamp o.request.side limit (visible o.request.side s) (remaining_quantity o) s)
