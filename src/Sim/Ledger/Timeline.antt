-- ===== src/Sim/Ledger/Timeline.antt =====
-- The control timeline of market_engine/execution/simulator.py keeps the invariant: arrivals, cancels,
-- expirations and the kill switch.
use market_systems_workstati.Base.{
  ℕ, zero, suc, ◌≤◌, ◌≡◌, refl, ◌∙◌, Bool, true, false, not, ◌||◌, Option, none, some, List, [],
  ◌∷◌, arith, ◌==◌, nat_eq, list_eq, Bool-cases, Option-cases, Result-cases, inl, inr,
  then_do-keeps,
}
use market_systems_workstati.Base.Int.{pos, abs}
use market_systems_workstati.Base.Dict.{lookup, lookup-insert, beq_refl}
use market_systems_workstati.Book.{quantity_at}
use market_systems_workstati.Floats.{Floats}
use market_systems_workstati.Sim.Types.{
  OrderId, OrderRequest, CancelRequest, OrderType, SimulatedOrder, OrderStatus, Reason, is_working,
  option_beq,
}
use market_systems_workstati.Sim.State.{
  Config, Simulator, put_order, with_order, with_order-keeps, position_allows,
}
use market_systems_workstati.Sim.Submit.{order_arrival, expiry_timestamp}
use market_systems_workstati.Sim.Fills.{execute_taker}
use market_systems_workstati.Sim.Lifecycle.{
  remove_id, is_due, expire_one, expire_each, expire_orders, cancel_one, cancel_each, cancel_all,
  check_kill_switch, marked_equity,
}
use market_systems_workstati.Sim.Activation.{
  new_order, is_marketable, own_side, rest_order, route_limit, route, admit, activate_request,
}
use market_systems_workstati.Sim.Controls.{
  pop_request, cancel_pending, process_cancel, activate_next, cancel_next, run_control,
  control_loop, next_order, earliest, next_cancel, control_is_ready, process_controls,
}
use market_systems_workstati.Sim.Ledger.{
  IsBooked, AllFit, net, AllFit-insert, AllFit-lookup, put_order-IsBooked, with_order-IsBooked,
}
use market_systems_workstati.Sim.Ledger.Maker.{keep_ids-nil}
use market_systems_workstati.Sim.Ledger.Taker.{execute_taker-IsBooked}

remove_id-nil : (id : OrderId) (ids : List OrderId) → ids ≡ [] → remove_id id ids ≡ []
remove_id-nil id [] e = refl
remove_id-nil id (x ∷ xs) e = cc

module _ {F : Type 0} (c : Config F) where
  expire_one-IsBooked :
      (now : ℕ) (final : Bool) (o : SimulatedOrder F) (s : Simulator F)
      → o.filled_quantity ≤ o.request.quantity
      → IsBooked c s
      → IsBooked c (expire_one now final o s)
  expire_one-IsBooked now final o s room i =
      elim (Bool-cases (final || is_due o.expiry_timestamp_ns now)) [
        | inl due ↦
            rw (due, expire_one)
              (put_order-IsBooked c _ _ room (record {
                within = i.within;
                balanced = i.balanced;
                fit = i.fit;
                idle = λ k. remove_id-nil o.request.order_id s.active_order_ids (i.idle k);
              }))
        | inr early ↦ rw (early, expire_one) i
      ]

  expire_each-IsBooked :
      (now : ℕ) (final : Bool) (ids : List OrderId) (s : Simulator F)
      → IsBooked c s
      → IsBooked c (expire_each now final ids s)
  expire_each-IsBooked now final [] s i = i
  expire_each-IsBooked now final (id ∷ ids) s i =
      expire_each-IsBooked now final ids (with_order id (expire_one now final) s) (
        with_order-IsBooked c id (expire_one now final) s
          (λ o fits _. expire_one-IsBooked now final o s fits.1 i) i)

  pub expire_orders-IsBooked :
      (now : ℕ) (final : Bool) (s : Simulator F)
      → IsBooked c s
      → IsBooked c (expire_orders now final s)
  unfolding expire_orders
  expire_orders-IsBooked now final s i = expire_each-IsBooked now final s.active_order_ids s i

  -- The invariant but for the active orders, which the kill switch is about to clear.
  abbrev IsLedger : Simulator F → Type 0
  IsLedger s =
      (abs s.position ≤ c.max_absolute_position) × (s.position ≡ net s.fills) × AllFit s.orders

  cancel_one-IsLedger :
      (why : Reason) (o : SimulatedOrder F) (s : Simulator F)
      → o.filled_quantity ≤ o.request.quantity
      → IsLedger s
      → IsLedger (cancel_one why o s)
  cancel_one-IsLedger why o s room i = elim (Bool-cases (is_working o.status)) [
    | inl working ↦
        rw (working, cancel_one)
          (
            i.0,
            i.1,
            AllFit-insert o.request.order_id
                (record o { status = OrderStatus.cancelled; rejection_reason = why }) s.orders
                (refl, room) i.2,
          )
    | inr ended ↦ rw (ended, cancel_one) i
  ]

  cancel_each-IsLedger :
      (why : Reason) (ids : List OrderId) (s : Simulator F)
      → IsLedger s
      → IsLedger (cancel_each why ids s)
  cancel_each-IsLedger why [] s i = i
  cancel_each-IsLedger why (id ∷ ids) s i =
      cancel_each-IsLedger why ids (with_order id (cancel_one why) s) (
        with_order-keeps IsLedger id (cancel_one why) s
          (λ o found. cancel_one-IsLedger why o s (AllFit-lookup id o s.orders i.2 found).1 i) i)

  pub cancel_all-IsBooked :
      (why : Reason) (s : Simulator F) → IsLedger s → IsBooked c (cancel_all why s)
  unfolding cancel_all
  cancel_all-IsBooked why s i =
      let j = cancel_each-IsLedger why s.active_order_ids s i in
      record { within = j.0; balanced = j.1; fit = j.2; idle = λ _. refl }

module _ (fl : Floats) (c : Config fl.Float) where
  open fl use {Float}

  pub check_kill_switch-IsBooked :
      (s : Simulator Float) → IsBooked c s → IsBooked c (check_kill_switch fl c s)
  unfolding check_kill_switch
  check_kill_switch-IsBooked s i =
      elim (Bool-cases (s.killed || not (fl.is_finite c.kill_switch_loss_quote))) [
        | inl off ↦ rw (off, check_kill_switch) i
        | inr armed ↦
            elim (Bool-cases
              (fl.less_eq (marked_equity fl c s) (fl.neg c.kill_switch_loss_quote))) [
                | inl lost ↦
                    rw (armed, lost, check_kill_switch)
                      (cancel_all-IsBooked c Reason.kill_switch (record s { killed = true })
                        (i.within, i.balanced, i.fit))
                | inr fine ↦ rw (armed, fine, check_kill_switch) i
              ]
      ]

  -- The order is among the orders as it is passed, with nothing filled.
  abbrev IsNew : SimulatedOrder Float → Simulator Float → Type 0
  IsNew o s = (o.filled_quantity ≡ 0) × (lookup o.request.order_id s.orders ≡ some o)

  rest_order-IsBooked :
      (price : ℕ) (o : SimulatedOrder Float) (s : Simulator Float)
      → o.filled_quantity ≤ o.request.quantity
      → s.killed ≡ false
      → IsBooked c s
      → IsBooked c (rest_order fl c price o s).1
  unfolding rest_order
  rest_order-IsBooked price o s room alive i =
      elim (Result-cases (quantity_at s.book (own_side fl c o.request.side) (pos price))) [
        | inr (e, failed) ↦ rw (failed, rest_order) i
        | inl (displayed, read) ↦
            rw (read, rest_order)
              (put_order-IsBooked c _ _ room (record {
                within = i.within;
                balanced = i.balanced;
                fit = i.fit;
                idle = λ k. absurd (cc);
              }))
      ]

  taker-IsBooked :
      (arrival : ℕ) (limit : Option ℕ) (o : SimulatedOrder Float) (s : Simulator Float)
      → IsNew o s
      → IsBooked c s
      → IsBooked c (execute_taker fl c arrival limit o s)
  taker-IsBooked arrival limit o s new i =
      execute_taker-IsBooked fl c arrival limit o s (λ p found. ground (arith, new.1, found)) i

  route_limit-IsBooked :
      (arrival price : ℕ) (o : SimulatedOrder Float) (s : Simulator Float)
      → IsNew o s
      → s.killed ≡ false
      → IsBooked c s
      → IsBooked c (route_limit fl c arrival price o s).1
  unfolding route_limit
  route_limit-IsBooked arrival price o s new alive i =
      elim (Result-cases (is_marketable fl c o.request.side price s)) [
        | inr (e, failed) ↦ rw (failed, route_limit) i
        | inl (true, crossing) ↦
            rw (crossing, route_limit) (taker-IsBooked arrival (some price) o s new i)
        | inl (false, passive) ↦
            rw (passive, route_limit) (rest_order-IsBooked price o s (omega (arith, new.0)) alive i)
      ]

  route-IsBooked :
      (arrival : ℕ) (kind : OrderType) (limit : Option ℕ) (o : SimulatedOrder Float)
      (s : Simulator Float)
      → IsNew o s
      → s.killed ≡ false
      → IsBooked c s
      → IsBooked c (route fl c arrival kind limit o s).1
  unfolding route
  route-IsBooked arrival OrderType.market limit o s new alive i =
      taker-IsBooked arrival none o s new i
  route-IsBooked arrival OrderType.limit none o s new alive i = i
  route-IsBooked arrival OrderType.limit (some price) o s new alive i =
      route_limit-IsBooked arrival price o s new alive i

  admit-IsBooked :
      (killed : Bool) (arrival : ℕ) (o : SimulatedOrder Float) (s : Simulator Float)
      → s.killed ≡ killed
      → IsNew o s
      → IsBooked c s
      → IsBooked c (admit fl c killed arrival o s).1
  unfolding admit
  admit-IsBooked true arrival o s dead new i = put_order-IsBooked c _ s (omega (arith, new.0)) i
  admit-IsBooked false arrival o s alive new i =
      elim (Bool-cases (position_allows c o.request.side o.request.quantity s)) [
        | inr over ↦ rw (over, admit) (put_order-IsBooked c _ s (omega (arith, new.0)) i)
        | inl allowed ↦ elim (Bool-cases (s.book.last_update_id == 0)) [
          | inl no_book ↦
              rw (allowed, no_book, admit) (put_order-IsBooked c _ s (omega (arith, new.0)) i)
          | inr ready ↦
              rw (allowed, ready, admit)
                (route-IsBooked arrival o.request.order_type o.request.limit_price o s new alive i)
        ]
      ]

  put_order-IsNew :
      (o : SimulatedOrder Float) (s : Simulator Float)
      → o.filled_quantity ≡ 0
      → IsNew o (put_order o s)
  put_order-IsNew o s e = (
    e,
    lookup-insert o.request.order_id o.request.order_id o s.orders
        ∙ rw (beq_refl o.request.order_id),
  )

  activate_request-IsBooked :
      (arrival : ℕ) (r : OrderRequest) (s : Simulator Float)
      → IsBooked c s
      → IsBooked c (activate_request fl c arrival r s).1
  unfolding activate_request
  activate_request-IsBooked arrival r s i =
      elim (Result-cases (expiry_timestamp arrival r.time_to_live_ns)) [
        | inr (e, failed) ↦ rw (failed, activate_request) i
        | inl (expiry, found) ↦
            rw (found, activate_request)
              (admit-IsBooked s.killed arrival (created expiry) (put_order (created expiry) s) refl
                (put_order-IsNew (created expiry) s refl)
                (put_order-IsBooked c (created expiry) s (omega arith) i))
      ]
    where
      created : Option ℕ → SimulatedOrder Float
      created expiry = new_order fl c r arrival expiry OrderStatus.pending Reason.no_reason

  -- Dropping pending controls leaves the invariant alone.
  popped-IsBooked :
      (rs : List OrderRequest) (cs : List (ℕ × CancelRequest)) (s : Simulator Float)
      → IsBooked c s
      → IsBooked c (record s { pending_requests = rs; pending_cancels = cs })
  popped-IsBooked rs cs s i = record {
    within = i.within;
    balanced = i.balanced;
    fit = i.fit;
    idle = i.idle;
  }

  cancel_pending-IsBooked :
      (id : OrderId) (s : Simulator Float) → IsBooked c s → IsBooked c (cancel_pending fl c id s).1
  unfolding cancel_pending
  cancel_pending-IsBooked id s i = elim (Option-cases (pop_request fl c id s.pending_requests)) [
    | inl missing ↦ rw (missing, cancel_pending) i
    | inr ((r, rest), found) ↦ elim (Result-cases (order_arrival c r)) [
      | inr (e, failed) ↦
          rw (found, failed, cancel_pending) (popped-IsBooked rest s.pending_cancels s i)
      | inl (arrival, arrives) ↦ elim (Result-cases (expiry_timestamp arrival r.time_to_live_ns)) [
        | inr (e, failed) ↦
            rw (found, arrives, failed, cancel_pending) (popped-IsBooked rest s.pending_cancels s i)
        | inl (expiry, expires) ↦
            rw (found, arrives, expires, cancel_pending)
              (put_order-IsBooked c _ _ (omega arith) (popped-IsBooked rest s.pending_cancels s i))
      ]
    ]
  ]

  process_cancel-IsBooked :
      (r : CancelRequest) (s : Simulator Float)
      → IsBooked c s
      → IsBooked c (process_cancel fl c r s).1
  unfolding process_cancel
  process_cancel-IsBooked r s i = elim (Option-cases (lookup r.order_id s.orders)) [
    | inl missing ↦ rw (missing, process_cancel) (cancel_pending-IsBooked r.order_id s i)
    | inr (o, found) ↦ elim (Bool-cases (is_working o.status)) [
      | inr ended ↦ rw (found, ended, process_cancel) (cancel_pending-IsBooked r.order_id s i)
      | inl working ↦
          rw (found, working, process_cancel)
            (put_order-IsBooked c _ _ (AllFit-lookup r.order_id o s.orders i.fit found).1 (record {
              within = i.within;
              balanced = i.balanced;
              fit = i.fit;
              idle = λ k. keep_ids-nil (λ id. not (id == r.order_id)) s.active_order_ids (i.idle k);
            }))
    ]
  ]

  activate_next-IsBooked :
      (arrival : ℕ) (rs : List OrderRequest) (s : Simulator Float)
      → IsBooked c s
      → IsBooked c (activate_next fl c arrival rs s).1
  unfolding activate_next
  activate_next-IsBooked arrival [] s i = i
  activate_next-IsBooked arrival (r ∷ rs) s i =
      let s' : Simulator Float = record s { pending_requests = rs } in
      let a = activate_request-IsBooked arrival r s' (popped-IsBooked rs s.pending_cancels s i) in
      then_do-keeps (IsBooked c) (activate_request fl c arrival r s') _ a
        (λ _. check_kill_switch-IsBooked _ a)

  cancel_next-IsBooked :
      (rs : List (ℕ × CancelRequest)) (s : Simulator Float)
      → IsBooked c s
      → IsBooked c (cancel_next fl c rs s).1
  unfolding cancel_next
  cancel_next-IsBooked [] s i = i
  cancel_next-IsBooked ((arrival, r) ∷ rs) s i =
      process_cancel-IsBooked r _ (popped-IsBooked s.pending_requests rs s i)

  run_control-IsBooked :
      (order_at : Option ℕ) (now : ℕ) (s : Simulator Float)
      → IsBooked c s
      → IsBooked c (run_control fl c order_at now s).1
  unfolding run_control
  run_control-IsBooked order_at now s i =
      let e = expire_orders-IsBooked c now false s i in
      elim (Bool-cases (option_beq order_at now)) [
        | inl order_first ↦ rw (order_first, run_control) (activate_next-IsBooked now _ _ e)
        | inr cancel_first ↦ rw (cancel_first, run_control) (cancel_next-IsBooked _ _ e)
      ]

  control_loop-IsBooked :
      (rounds now : ℕ) (inclusive : Bool) (s : Simulator Float)
      → IsBooked c s
      → IsBooked c (control_loop fl c rounds now inclusive s).1
  unfolding control_loop
  control_loop-IsBooked zero now inclusive s i = i
  control_loop-IsBooked (suc rounds) now inclusive s i =
      elim (Result-cases (next_order fl c s.pending_requests)) [
        | inr (e, failed) ↦ rw (failed, control_loop) i
        | inl (order_at, read) ↦
            elim (Option-cases (earliest fl c order_at (next_cancel fl c s.pending_cancels))) [
              | inl no_control ↦ rw (read, no_control, control_loop) i
              | inr (arrival, first) ↦
                  elim (Bool-cases (control_is_ready fl c arrival now inclusive)) [
                    | inr later ↦ rw (read, first, later, control_loop) i
                    | inl ready ↦
                        rw (read, first, ready, control_loop)
                          (let r = run_control-IsBooked order_at arrival s i in
                            then_do-keeps (IsBooked c) (run_control fl c order_at arrival s) _ r
                              (λ _. control_loop-IsBooked rounds now inclusive _ r))
                  ]
            ]
      ]

  -- Processing the controls of a time keeps the invariant, on every branch and raise.
  pub process_controls-IsBooked :
      (now : ℕ) (inclusive : Bool) (s : Simulator Float)
      → IsBooked c s
      → IsBooked c (process_controls fl c now inclusive s).1
  unfolding process_controls
  process_controls-IsBooked now inclusive s i = control_loop-IsBooked _ now inclusive s i
