-- ===== src/Sim/State.antt =====
-- market_engine/execution/simulator.py: `ExecutionConfig` and the fields of `ExecutionSimulator`, with
-- the access to its orders. `orders` holds the order objects: a method that changes an order writes it
-- back under its ID, which is what sharing the object amounts to.
use market_systems_workstati.Base.{
  ℕ, Bool, false, not, ◌&&◌, ◌||◌, Option, none, some, List, [], ◌∷◌, ltb, leb, nat_eq, list_eq,
  if◌then◌else◌, any, ◌≡◌, sym, subst, Option-cases, inl, inr, Result, ok, err, Error,
}
use market_systems_workstati.Base.Int.{ℤ, pos, abs, ◌+ℤ◌, ◌-ℤ◌}
use market_systems_workstati.Base.Dict.{Dict, lookup, insert}
use market_systems_workstati.Base.Order.{mem}
use market_systems_workstati.Book.Types.{uint64_max}
use market_systems_workstati.Book.{Book, empty_book}
use market_systems_workstati.Floats.{Floats, zero_float}
use market_systems_workstati.Sim.Types.{
  Side, OrderId, OrderRequest, CancelRequest, SimulatedOrder, Fill, QueueModel, LevelKey,
  OrderStatus, Reason,
}

pub record Config (F : Type 0) : Type 0 where
  pub decision_latency_ns : ℕ
  pub transmission_latency_ns : ℕ
  pub cancel_latency_ns : ℕ
  pub maker_fee_bps : F
  pub taker_fee_bps : F
  pub queue_model : QueueModel
  pub queue_ahead_fraction : F
  pub depth_depletion_fill_fraction : F
  pub max_absolute_position : ℕ
  pub kill_switch_loss_quote : F
  pub markout_horizons_ns : List ℕ

has_repeat : List ℕ → Bool
has_repeat [] = false
has_repeat (x ∷ xs) = mem x xs || has_repeat xs

-- `ExecutionConfig.__post_init__`, on integers that are not negative.
unfoldable pub check_config : (fl : Floats) → Config fl.Float → Result (Unit {0})
unfolding has_repeat
check_config fl c =
    if any (ltb uint64_max) (
      c.decision_latency_ns ∷ c.transmission_latency_ns ∷ c.cancel_latency_ns
      ∷ c.max_absolute_position ∷ [])
    then err Error.bad_latency
    else if not (fl.is_finite c.queue_ahead_fraction && within c.queue_ahead_fraction 5)
    then err Error.bad_config
    else if not
        (fl.is_finite c.depth_depletion_fill_fraction && within c.depth_depletion_fill_fraction 1)
    then err Error.bad_config
    else if not (fl.is_finite c.maker_fee_bps) || fl.less c.maker_fee_bps minus_100
    then err Error.bad_fee
    else if not (fl.is_finite c.taker_fee_bps) || fl.less c.taker_fee_bps (fl.of_int (pos 0))
    then err Error.bad_fee
    else if fl.is_nan c.kill_switch_loss_quote
        || fl.less_eq c.kill_switch_loss_quote (fl.of_int (pos 0))
    then err Error.bad_config
    else if has_repeat c.markout_horizons_ns
    then err Error.duplicate_horizon
    else if any (λ h. leb h 0 || ltb uint64_max h) c.markout_horizons_ns
    then err Error.bad_horizon
    else ok tt
  where
    within : fl.Float → ℕ → Bool
    within x most = fl.less_eq (fl.of_int (pos 0)) x && fl.less_eq x (fl.of_int (pos most))

    minus_100 : fl.Float
    minus_100 = fl.neg (fl.of_int (pos 100))

pub record Simulator (F : Type 0) : Type 0 where
  pub book : Book
  pub position : ℤ
  pub cash_quote : F
  pub realized_fees_quote : F
  pub orders : Dict OrderId (SimulatedOrder F)
  pub fills : List (Fill F)
  pub pending_requests : List OrderRequest
  pub pending_cancels : List (ℕ × CancelRequest)
  pub active_order_ids : List OrderId
  pub pending_markouts : List ℕ
  pub killed : Bool
  pub latest_mid : Option F
  pub consumed_liquidity : Dict LevelKey ℕ
  pub has_run : Bool

-- `ExecutionSimulator(config)`
abbrev pub make_simulator : (fl : Floats) → Simulator fl.Float
make_simulator fl = record {
  book = empty_book;
  position = pos 0;
  cash_quote = zero_float fl;
  realized_fees_quote = zero_float fl;
  orders = [];
  fills = [];
  pending_requests = [];
  pending_cancels = [];
  active_order_ids = [];
  pending_markouts = [];
  killed = false;
  latest_mid = none;
  consumed_liquidity = [];
  has_run = false;
}

-- The position after a trade of this side.
abbrev pub projected : Side → ℕ → ℤ → ℤ
projected Side.buy quantity position = position +ℤ pos quantity
projected Side.sell quantity position = position -ℤ pos quantity

module _ {F : Type 0} where
  -- `self.orders[request.order_id] = order`
  abbrev pub put_order : SimulatedOrder F → Simulator F → Simulator F
  put_order o s = record s { orders = insert o.request.order_id o s.orders }

  -- What a method does to `self.orders[order_id]`; every ID that the code looks up is there.
  abbrev pub with_order :
      OrderId → (SimulatedOrder F → Simulator F → Simulator F) → Simulator F → Simulator F
  with_order id f s = elim (lookup id s.orders) [ none ↦ s | some o ↦ f o s ]

  -- `order.status = …`, alone and with `order.rejection_reason = …`
  abbrev pub set_status : OrderStatus → SimulatedOrder F → Simulator F → Simulator F
  set_status status o s = put_order (record o { status = status }) s

  abbrev pub set_outcome : OrderStatus → Reason → SimulatedOrder F → Simulator F → Simulator F
  set_outcome status reason o s =
      put_order (record o { status = status; rejection_reason = reason }) s

  -- `_position_allows`
  unfoldable pub position_allows : Config F → Side → ℕ → Simulator F → Bool
  position_allows c side quantity s =
      leb (abs (projected side quantity s.position)) c.max_absolute_position

  pub with_order-none :
      (id : OrderId) (f : SimulatedOrder F → Simulator F → Simulator F) (s : Simulator F)
      → lookup id s.orders ≡ none
      → with_order id f s ≡ s
  with_order-none id f s h = rw (h, with_order)

  pub with_order-some :
      (id : OrderId) (f : SimulatedOrder F → Simulator F → Simulator F) {o : SimulatedOrder F}
      (s : Simulator F)
      → lookup id s.orders ≡ some o
      → with_order id f s ≡ f o s
  with_order-some id f s h = rw (h, with_order)

  -- What holds of the state, and of what `f` makes of it, holds after `f` on the order.
  pub with_order-keeps {ℓ} :
      (P : Simulator F → Type ℓ) (id : OrderId) (f : SimulatedOrder F → Simulator F → Simulator F)
      (s : Simulator F)
      → ((o : SimulatedOrder F) → lookup id s.orders ≡ some o → P (f o s))
      → P s
      → P (with_order id f s)
  with_order-keeps P id f s h i = elim (Option-cases (lookup id s.orders)) [
    | inl missing ↦ subst P (sym (with_order-none id f s missing)) i
    | inr (o, found) ↦ subst P (sym (with_order-some id f s found)) (h o found)
  ]
