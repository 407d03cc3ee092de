-- ===== src/Sim/Activation.antt =====
-- market_engine/execution/simulator.py: `_activate_next_request`, the arrival of an order at the venue.
use market_systems_workstati.Base.{
  ℕ, ◌+◌, Bool, true, false, not, ◌&&◌, Option, none, some, List, [], ◌∷◌, ◌++◌, leb, ◌==◌, nat_eq,
  list_eq, if◌then◌else◌, Result, ok, err, Error, Action,
}
use market_systems_workstati.Base.Int.{pos}
use market_systems_workstati.Base.Dict.{lookup}
use market_systems_workstati.Book.{BookSide, best_bid, best_ask, quantity_at}
use market_systems_workstati.Floats.{Floats, of_nat, zero_float}
use market_systems_workstati.Sim.Types.{
  Side, OrderId, OrderRequest, OrderType, SimulatedOrder, OrderStatus, Reason, remaining_quantity,
  is_working, side_beq, option_beq,
}
use market_systems_workstati.Sim.State.{Config, Simulator, put_order, set_outcome, position_allows}
use market_systems_workstati.Sim.Submit.{expiry_timestamp}
use market_systems_workstati.Sim.Fills.{execute_taker}

module _ (fl : Floats) (c : Config fl.Float) where
  open fl use {Float, add, mul}

  abbrev pub new_order : OrderRequest → ℕ → Option ℕ → OrderStatus → Reason → SimulatedOrder Float
  new_order request arrival expiry status why = record {
    request = request;
    arrival_timestamp_ns = arrival;
    expiry_timestamp_ns = expiry;
    status = status;
    filled_quantity = 0;
    queue_ahead = zero_float fl;
    rejection_reason = why;
  }

  -- `marketable`: the best price of the other side is read for the order's side alone.
  unfoldable pub is_marketable : Side → ℕ → Simulator Float → Result Bool
  unfolding best_ask best_bid
  is_marketable Side.buy limit s = elim (best_ask s.book) [
    | err e ↦ err e
    | ok l ↦ ok (leb l.price limit)
  ]
  is_marketable Side.sell limit s = elim (best_bid s.book) [
    | err e ↦ err e
    | ok l ↦ ok (leb limit l.price)
  ]

  abbrev pub own_side : Side → BookSide
  own_side Side.buy = BookSide.bid
  own_side Side.sell = BookSide.ask

  -- `own_queue`: what the simulator's own orders hold ahead at the same price.
  abbrev pub own_queue : Side → ℕ → Simulator Float → List OrderId → ℕ
  own_queue side price s [] = 0
  own_queue side price s (id ∷ ids) =
      let rest = own_queue side price s ids in
      elim (lookup id s.orders) [
        | none ↦ rest
        | some o ↦
            if side_beq o.request.side side
              && option_beq o.request.limit_price price
              && is_working o.status
            then remaining_quantity o + rest
            else rest
      ]

  -- The order rests in the queue behind what is displayed and the simulator's own orders.
  unfoldable pub rest_order : ℕ → SimulatedOrder Float → Action (Simulator Float) (Unit {0})
  unfolding quantity_at
  rest_order price o s = elim (quantity_at s.book (own_side o.request.side) (pos price)) [
    | err e ↦ (err e, s)
    | ok displayed ↦
        let own = own_queue o.request.side price s s.active_order_ids in
        (
          ok tt,
          put_order
              (record o {
                queue_ahead =
                    add (mul (of_nat fl displayed) c.queue_ahead_fraction) (of_nat fl own);
                status = OrderStatus.open_order;
              })
              (record s { active_order_ids = s.active_order_ids ++ o.request.order_id ∷ [] }),
        )
  ]

  unfoldable pub route_limit : ℕ → ℕ → SimulatedOrder Float → Action (Simulator Float) (Unit {0})
  unfolding is_marketable execute_taker rest_order
  route_limit arrival price o s = elim (is_marketable o.request.side price s) [
    | err e ↦ (err e, s)
    | ok true ↦ (ok tt, execute_taker fl c arrival (some price) o s)
    | ok false ↦ rest_order price o s
  ]

  unfoldable pub route :
      ℕ → OrderType → Option ℕ → SimulatedOrder Float → Action (Simulator Float) (Unit {0})
  unfolding execute_taker route_limit
  route arrival OrderType.market limit o s = (ok tt, execute_taker fl c arrival none o s)
  route arrival OrderType.limit none o s = (err Error.missing_limit, s)
  route arrival OrderType.limit (some price) o s = route_limit arrival price o s

  -- `_activate_next_request` past the creation of the order; the flag is `self.killed`.
  unfoldable pub admit : Bool → ℕ → SimulatedOrder Float → Action (Simulator Float) (Unit {0})
  unfolding route position_allows
  admit killed arrival o s =
      if killed
      then (ok tt, set_outcome OrderStatus.rejected Reason.kill_switch_active o s)
      else if not (position_allows c o.request.side o.request.quantity s)
      then (ok tt, set_outcome OrderStatus.rejected Reason.position_limit o s)
      else if s.book.last_update_id == 0
      then (ok tt, set_outcome OrderStatus.rejected Reason.book_unavailable o s)
      else route arrival o.request.order_type o.request.limit_price o s

  -- `_activate_next_request`: the request has left the queue when the expiry overflows.
  unfoldable pub activate_request : ℕ → OrderRequest → Action (Simulator Float) (Unit {0})
  unfolding expiry_timestamp admit
  activate_request arrival request s = elim (expiry_timestamp arrival request.time_to_live_ns) [
    | err e ↦ (err e, s)
    | ok expiry ↦
        let o = new_order request arrival expiry OrderStatus.pending Reason.no_reason in
        admit s.killed arrival o (put_order o s)
  ]
