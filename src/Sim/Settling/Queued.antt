-- ===== src/Sim/Settling/Queued.antt =====
-- What the methods of market_engine/execution/simulator.py leave of `_pending_requests` and
-- `_pending_cancels`.
use market_systems_workstati.Base.{
  ℕ, ◌≡◌, Bool, true, false, not, ◌||◌, Option, none, some, List, [], ◌∷◌, ◌==◌, nat_eq, list_eq,
  Bool-cases, Result-cases, inl, inr, ltb,
}
use Prim.Native.Nat.{min}
use market_systems_workstati.Base.Int.{pos}
use market_systems_workstati.Book.Types.{Level}
use market_systems_workstati.Book.{quantity_at}
use market_systems_workstati.Floats.{Floats}
use market_systems_workstati.Sim.Types.{
  Side, OrderId, OrderRequest, CancelRequest, OrderType, SimulatedOrder, LevelKey, Reason,
  remaining_quantity, is_working,
}
use market_systems_workstati.Sim.State.{
  Config, Simulator, put_order, with_order, with_order-keeps, position_allows,
}
use market_systems_workstati.Sim.Submit.{expiry_timestamp}
use market_systems_workstati.Sim.Fills.{
  book_fill, record_fill, consume, walk, execute_taker, conclude, visible, available, taker_side,
  beyond_limit,
}
use market_systems_workstati.Sim.Lifecycle.{
  is_due, expire_one, expire_each, expire_orders, cancel_one, cancel_each, cancel_all,
  check_kill_switch, marked_equity,
}
use market_systems_workstati.Sim.Activation.{
  is_marketable, own_side, rest_order, route_limit, route, admit, activate_request,
}

module _ {F : Type 0} (rs : List OrderRequest) (cs : List (ℕ × CancelRequest)) where
  pub record IsQueued (s : Simulator F) : Type 0 where
    pub requests : s.pending_requests ≡ rs
    pub cancels : s.pending_cancels ≡ cs

  pub put_order-IsQueued :
      (o : SimulatedOrder F) (s : Simulator F) → IsQueued s → IsQueued (put_order o s)
  put_order-IsQueued o s q = record { requests = q.requests; cancels = q.cancels }

  expire_one-IsQueued :
      (now : ℕ) (final : Bool) (o : SimulatedOrder F) (s : Simulator F)
      → IsQueued s
      → IsQueued (expire_one now final o s)
  expire_one-IsQueued now final o s q =
      elim (Bool-cases (final || is_due o.expiry_timestamp_ns now)) [
        | inl due ↦ rw (due, expire_one) (record { requests = q.requests; cancels = q.cancels })
        | inr early ↦ rw (early, expire_one) q
      ]

  expire_each-IsQueued :
      (now : ℕ) (final : Bool) (ids : List OrderId) (s : Simulator F)
      → IsQueued s
      → IsQueued (expire_each now final ids s)
  expire_each-IsQueued now final [] s q = q
  expire_each-IsQueued now final (id ∷ ids) s q =
      expire_each-IsQueued now final ids (with_order id (expire_one now final) s) (
        with_order-keeps IsQueued id (expire_one now final) s
          (λ o found. expire_one-IsQueued now final o s q) q)

  pub expire_orders-IsQueued :
      (now : ℕ) (final : Bool) (s : Simulator F) → IsQueued s → IsQueued (expire_orders now final s)
  unfolding expire_orders
  expire_orders-IsQueued now final s q = expire_each-IsQueued now final s.active_order_ids s q

  cancel_one-IsQueued :
      (why : Reason) (o : SimulatedOrder F) (s : Simulator F)
      → IsQueued s
      → IsQueued (cancel_one why o s)
  cancel_one-IsQueued why o s q = elim (Bool-cases (is_working o.status)) [
    | inl working ↦ rw (working, cancel_one) (put_order-IsQueued _ s q)
    | inr ended ↦ rw (ended, cancel_one) q
  ]

  cancel_each-IsQueued :
      (why : Reason) (ids : List OrderId) (s : Simulator F)
      → IsQueued s
      → IsQueued (cancel_each why ids s)
  cancel_each-IsQueued why [] s q = q
  cancel_each-IsQueued why (id ∷ ids) s q =
      cancel_each-IsQueued why ids (with_order id (cancel_one why) s) (
        with_order-keeps IsQueued id (cancel_one why) s (λ o found. cancel_one-IsQueued why o s q)
          q)

  cancel_all-IsQueued : (why : Reason) (s : Simulator F) → IsQueued s → IsQueued (cancel_all why s)
  unfolding cancel_all
  cancel_all-IsQueued why s q =
      let k = cancel_each-IsQueued why s.active_order_ids s q in
      record { requests = k.requests; cancels = k.cancels }

module _ (fl : Floats) (c : Config fl.Float) (rs : List OrderRequest)
    (cs : List (ℕ × CancelRequest)) where
  open fl use {Float}

  abbrev Queued : Simulator Float → Type 0
  Queued s = IsQueued rs cs s

  pub check_kill_switch-IsQueued :
      (s : Simulator Float) → Queued s → Queued (check_kill_switch fl c s)
  unfolding check_kill_switch
  check_kill_switch-IsQueued s q =
      elim (Bool-cases (s.killed || not (fl.is_finite c.kill_switch_loss_quote))) [
        | inl off ↦ rw (off, check_kill_switch) q
        | inr armed ↦
            elim (Bool-cases
              (fl.less_eq (marked_equity fl c s) (fl.neg c.kill_switch_loss_quote))) [
                | inl lost ↦
                    rw (armed, lost, check_kill_switch)
                      (cancel_all-IsQueued rs cs Reason.kill_switch (record s { killed = true })
                        (record { requests = q.requests; cancels = q.cancels }))
                | inr fine ↦ rw (armed, fine, check_kill_switch) q
              ]
      ]

  record_fill-IsQueued :
      (timestamp quantity price : ℕ) (maker : Bool) (o : SimulatedOrder Float) (s : Simulator Float)
      → Queued s
      → Queued (record_fill fl c timestamp quantity price maker o s)
  unfolding record_fill book_fill
  record_fill-IsQueued timestamp quantity price maker o s q = elim (Bool-cases (quantity == 0)) [
    | inl nothing ↦ rw (nothing, record_fill) q
    | inr something ↦ elim (Bool-cases (position_allows c o.request.side quantity s)) [
      | inl allowed ↦
          rw (something, allowed, record_fill)
            (record { requests = q.requests; cancels = q.cancels })
      | inr refused ↦ rw (something, refused, record_fill) (put_order-IsQueued rs cs _ s q)
    ]
  ]

  consume-IsQueued :
      (id : OrderId) (timestamp quantity : ℕ) (key : LevelKey) (s : Simulator Float)
      → Queued s
      → Queued (consume fl c id timestamp quantity key s)
  unfolding consume
  consume-IsQueued id timestamp quantity key s q =
      let k =
        with_order-keeps Queued id (record_fill fl c timestamp quantity key.1 false) s
          (λ o found. record_fill-IsQueued timestamp quantity key.1 false o s q) q in
      record { requests = k.requests; cancels = k.cancels }

  walk-IsQueued :
      (id : OrderId) (timestamp : ℕ) (side : Side) (limit : Option ℕ) (levels : List Level)
      (remaining : ℕ) (s : Simulator Float)
      → Queued s
      → Queued (walk fl c id timestamp side limit levels remaining s)
  unfolding walk
  walk-IsQueued id timestamp side limit [] remaining s q = q
  walk-IsQueued id timestamp side limit (level ∷ levels) remaining s q =
      elim (Bool-cases (remaining == 0 || beyond_limit fl c side limit level.price)) [
        | inl stop ↦ rw (stop, walk) q
        | inr go ↦ elim (Bool-cases (min remaining (available fl c side level s) == 0)) [
          | inl none_left ↦
              rw (go, none_left, walk) (walk-IsQueued id timestamp side limit levels remaining s q)
          | inr some_left ↦
              rw (go, some_left, walk)
                (walk-IsQueued id timestamp side limit levels _ _
                  (consume-IsQueued id timestamp _ (taker_side fl c side, level.price) s q))
        ]
      ]

  conclude-IsQueued :
      (o : SimulatedOrder Float) (s : Simulator Float) → Queued s → Queued (conclude fl c o s)
  conclude-IsQueued o s q = elim (Bool-cases (remaining_quantity o == 0)) [
    | inl full ↦ rw full (put_order-IsQueued rs cs _ s q)
    | inr part_open ↦ elim (Bool-cases (ltb 0 o.filled_quantity)) [
      | inl part ↦ rw (part_open, part) (put_order-IsQueued rs cs _ s q)
      | inr empty ↦ rw (part_open, empty) (put_order-IsQueued rs cs _ s q)
    ]
  ]

  execute_taker-IsQueued :
      (timestamp : ℕ) (limit : Option ℕ) (o : SimulatedOrder Float) (s : Simulator Float)
      → Queued s
      → Queued (execute_taker fl c timestamp limit o s)
  unfolding execute_taker
  execute_taker-IsQueued timestamp limit o s q =
      let w =
        walk-IsQueued o.request.order_id timestamp o.request.side limit
          (visible fl c o.request.side s) (remaining_quantity o) s q in
      with_order-keeps Queued o.request.order_id (conclude fl c) _
        (λ p found. conclude-IsQueued p _ w) w

  rest_order-IsQueued :
      (price : ℕ) (o : SimulatedOrder Float) (s : Simulator Float)
      → Queued s
      → Queued (rest_order fl c price o s).1
  unfolding rest_order
  rest_order-IsQueued price o s q =
      elim (Result-cases (quantity_at s.book (own_side fl c o.request.side) (pos price))) [
        | inr (e, failed) ↦ rw (failed, rest_order) q
        | inl (displayed, read) ↦
            rw (read, rest_order) (record { requests = q.requests; cancels = q.cancels })
      ]

  route-IsQueued :
      (arrival : ℕ) (kind : OrderType) (limit : Option ℕ) (o : SimulatedOrder Float)
      (s : Simulator Float)
      → Queued s
      → Queued (route fl c arrival kind limit o s).1
  unfolding route route_limit
  route-IsQueued arrival OrderType.market limit o s q = execute_taker-IsQueued arrival none o s q
  route-IsQueued arrival OrderType.limit none o s q = q
  route-IsQueued arrival OrderType.limit (some price) o s q =
      elim (Result-cases (is_marketable fl c o.request.side price s)) [
        | inr (e, failed) ↦ rw (failed, route_limit) q
        | inl (true, crossing) ↦
            rw (crossing, route_limit) (execute_taker-IsQueued arrival (some price) o s q)
        | inl (false, passive) ↦ rw (passive, route_limit) (rest_order-IsQueued price o s q)
      ]

  admit-IsQueued :
      (killed : Bool) (arrival : ℕ) (o : SimulatedOrder Float) (s : Simulator Float)
      → Queued s
      → Queued (admit fl c killed arrival o s).1
  unfolding admit
  admit-IsQueued true arrival o s q = put_order-IsQueued rs cs _ s q
  admit-IsQueued false arrival o s q =
      elim (Bool-cases (position_allows c o.request.side o.request.quantity s)) [
        | inr over ↦ rw (over, admit) (put_order-IsQueued rs cs _ s q)
        | inl allowed ↦ elim (Bool-cases (s.book.last_update_id == 0)) [
          | inl no_book ↦ rw (allowed, no_book, admit) (put_order-IsQueued rs cs _ s q)
          | inr ready ↦
              rw (allowed, ready, admit)
                (route-IsQueued arrival o.request.order_type o.request.limit_price o s q)
        ]
      ]

  pub activate_request-IsQueued :
      (arrival : ℕ) (r : OrderRequest) (s : Simulator Float)
      → Queued s
      → Queued (activate_request fl c arrival r s).1
  unfolding activate_request
  activate_request-IsQueued arrival r s q =
      elim (Result-cases (expiry_timestamp arrival r.time_to_live_ns)) [
        | inr (e, failed) ↦ rw (failed, activate_request) q
        | inl (expiry, found) ↦
            rw (found, activate_request)
              (admit-IsQueued s.killed arrival _ _ (put_order-IsQueued rs cs _ s q))
      ]
