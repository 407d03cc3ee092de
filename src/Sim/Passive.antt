-- ===== src/Sim/Passive.antt =====
-- market_engine/execution/simulator.py: `_process_trade`, `_process_depth_depletion` and
-- `_refresh_consumed_liquidity`.
use market_systems_workstati.Base.{
  ℕ, ◌-◌, Bool, true, false, not, ◌&&◌, ◌||◌, none, some, List, [], ◌∷◌, ltb, nat_beq, ◌==◌, nat_eq,
  list_eq, if◌then◌else◌, Result, ok, err, Error, Action, then_do,
}
use Prim.Native.Nat.{min}
use market_systems_workstati.Base.Int.{pos, pos_part}
use market_systems_workstati.Base.Dict.{Dict, lookup, insert, erase, or_else}
use market_systems_workstati.Base.Sort.{sorted}
use market_systems_workstati.Book.Types.{Level, DepthUpdate, Trade}
use market_systems_workstati.Book.{Book, BookSide, quantity_at}
use market_systems_workstati.Floats.{Floats, of_nat, zero_float, max_float, min_float}
use market_systems_workstati.Sim.Types.{
  Side, OrderId, SimulatedOrder, OrderStatus, LevelKey, key_eq, QueueModel, remaining_quantity,
  side_beq, is_working, option_beq, id_leb,
}
use market_systems_workstati.Sim.State.{Config, Simulator, put_order, with_order, set_status}
use market_systems_workstati.Sim.Fills.{record_fill}

-- `_refresh_consumed_liquidity`
abbrev refresh_levels : BookSide → List Level → Dict LevelKey ℕ → Dict LevelKey ℕ
refresh_levels side [] consumed = consumed
refresh_levels side (l ∷ ls) consumed = refresh_levels side ls (erase (side, l.price) consumed)

unfoldable pub refresh_consumed_liquidity : {F : Type 0} → DepthUpdate → Simulator F → Simulator F
refresh_consumed_liquidity update s = record s {
  consumed_liquidity =
      refresh_levels BookSide.ask update.asks
        (refresh_levels BookSide.bid update.bids s.consumed_liquidity);
}

abbrev pub is_order_working : {F : Type 0} → Simulator F → OrderId → Bool
is_order_working s id = elim (lookup id s.orders) [ none ↦ false | some o ↦ is_working o.status ]

abbrev pub keep_ids : (OrderId → Bool) → List OrderId → List OrderId
keep_ids p [] = []
keep_ids p (id ∷ ids) = if p id then id ∷ keep_ids p ids else keep_ids p ids

-- The last statement of both methods: only working orders stay active.
abbrev pub prune_active : {F : Type 0} → Simulator F → Simulator F
prune_active s = record s { active_order_ids = keep_ids (is_order_working s) s.active_order_ids }

abbrev pub aggressor_side : Trade → Side
aggressor_side t = if t.buyer_is_maker then Side.sell else Side.buy

abbrev pub is_eligible : {F : Type 0} → Trade → SimulatedOrder F → Bool
is_eligible t o =
    is_working o.status
    && not (side_beq o.request.side (aggressor_side t))
    && option_beq o.request.limit_price t.price

abbrev pub eligible : {F : Type 0} → Trade → Simulator F → List OrderId → List (SimulatedOrder F)
eligible t s [] = []
eligible t s (id ∷ ids) =
    let rest = eligible t s ids in
    elim (lookup id s.orders) [ none ↦ rest | some o ↦ if is_eligible t o then o ∷ rest else rest ]

-- The sort key `(arrival_timestamp_ns, order_id)`.
abbrev pub order_leb : {F : Type 0} → SimulatedOrder F → SimulatedOrder F → Bool
order_leb a b =
    ltb a.arrival_timestamp_ns b.arrival_timestamp_ns
    || (nat_beq a.arrival_timestamp_ns b.arrival_timestamp_ns
        && id_leb a.request.order_id b.request.order_id)

module _ (fl : Floats) (c : Config fl.Float) where
  open fl use {Float, sub, mul, less_eq, trunc}

  -- `order.status = FILLED if order.remaining_quantity == 0 else PARTIALLY_FILLED`
  abbrev pub mark_progress : SimulatedOrder Float → Simulator Float → Simulator Float
  mark_progress o s =
      set_status
        (if remaining_quantity o == 0 then OrderStatus.filled else OrderStatus.partially_filled) o s

  -- The end of both loops: a maker fill of at most `int(executable)`, if that is positive.
  unfoldable pub fill_maker :
      OrderId → ℕ → ℕ → Float → SimulatedOrder Float → Simulator Float → Simulator Float
  unfolding record_fill
  fill_maker id timestamp price executable o s =
      let quantity = min (remaining_quantity o) (pos_part (trunc executable)) in
      if ltb 0 quantity
      then with_order id mark_progress (record_fill fl c timestamp quantity price true o s)
      else s

  -- The body of the loop of `_process_trade`: the queue moves up, then what is left of the trade fills.
  unfoldable pub advance : Trade → SimulatedOrder Float → Simulator Float → Simulator Float
  unfolding fill_maker
  advance t o s =
      let traded = of_nat fl t.quantity in
      let o' = record o { queue_ahead = max_float fl (zero_float fl) (sub o.queue_ahead traded) } in
      let executable = max_float fl (zero_float fl) (sub traded o.queue_ahead) in
      fill_maker o.request.order_id t.receipt_timestamp_ns t.price executable o' (put_order o' s)

  abbrev pub advance_all : Trade → List (SimulatedOrder Float) → Simulator Float → Simulator Float
  advance_all t [] s = s
  advance_all t (o ∷ os) s = advance_all t os (with_order o.request.order_id (advance t) s)

  -- `_process_trade`
  unfoldable pub process_trade : Trade → Simulator Float → Simulator Float
  unfolding advance
  process_trade t s = elim s.active_order_ids [
    | [] ↦ s
    | id ∷ ids ↦ prune_active (advance_all t (sorted order_leb (eligible t s (id ∷ ids))) s)
  ]

  -- The two loops that fill `decreases`.
  unfoldable pub decreases_of :
      Book → BookSide → List Level → Dict LevelKey ℕ → Result (Dict LevelKey ℕ)
  unfolding quantity_at
  decreases_of b side [] found = ok found
  decreases_of b side (l ∷ ls) found = elim (quantity_at b side (pos l.price)) [
    | err e ↦ err e
    | ok old ↦
        decreases_of b side ls
          (if ltb l.quantity old then insert (side, l.price) (old - l.quantity) found else found)
  ]

  abbrev pub fraction : Float
  fraction = elim c.queue_model [
    | QueueModel.optimistic_depth ↦ of_nat fl 1
    | _ ↦ c.depth_depletion_fill_fraction
  ]

  abbrev pub order_book_side : Side → BookSide
  order_book_side Side.buy = BookSide.bid
  order_book_side Side.sell = BookSide.ask

  -- `decreases.get(key, 0) * fraction`
  abbrev pub depletion : Dict LevelKey ℕ → ℕ → SimulatedOrder Float → Float
  depletion decreases price o =
      mul (of_nat fl (or_else (lookup (order_book_side o.request.side, price) decreases) 0))
        fraction

  -- The body of the loop over the active orders, past the assertion on the limit price.
  unfoldable pub deplete :
      ℕ → Dict LevelKey ℕ → ℕ → SimulatedOrder Float → Simulator Float → Simulator Float
  unfolding fill_maker
  deplete timestamp decreases price o s =
      let depleted = depletion decreases price o in
      if less_eq depleted (zero_float fl)
      then s
      else let reduction = min_float fl o.queue_ahead depleted in
        let o' = record o { queue_ahead = sub o.queue_ahead reduction } in
        fill_maker o.request.order_id timestamp price (sub depleted reduction) o' (put_order o' s)

  unfoldable pub deplete_order :
      ℕ → Dict LevelKey ℕ → SimulatedOrder Float → Action (Simulator Float) (Unit {0})
  unfolding deplete
  deplete_order timestamp decreases o s = elim o.request.limit_price [
    | none ↦ (err Error.missing_limit, s)
    | some price ↦ (ok tt, deplete timestamp decreases price o s)
  ]

  unfoldable pub deplete_all :
      ℕ → Dict LevelKey ℕ → List OrderId → Action (Simulator Float) (Unit {0})
  unfolding deplete_order
  deplete_all timestamp decreases [] s = (ok tt, s)
  deplete_all timestamp decreases (id ∷ ids) s = elim (lookup id s.orders) [
    | none ↦ deplete_all timestamp decreases ids s
    | some o ↦
        then_do (deplete_order timestamp decreases o s)
          (λ _ s'. deplete_all timestamp decreases ids s')
  ]

  abbrev pub is_trade_only : QueueModel → Bool
  is_trade_only QueueModel.trade_only = true
  is_trade_only _ = false

  -- `_process_depth_depletion`
  unfoldable pub process_depth_depletion : DepthUpdate → Action (Simulator Float) (Unit {0})
  unfolding decreases_of deplete_all
  process_depth_depletion update s =
      if is_trade_only c.queue_model || s.book.last_update_id == 0
      then (ok tt, s)
      else elim (decreases_of s.book BookSide.bid update.bids []) [
        | err e ↦ (err e, s)
        | ok bid_decreases ↦ elim (decreases_of s.book BookSide.ask update.asks bid_decreases) [
          | err e ↦ (err e, s)
          | ok decreases ↦
              then_do (deplete_all update.receipt_timestamp_ns decreases s.active_order_ids s)
                (λ _ s'. (ok tt, prune_active s'))
        ]
      ]
