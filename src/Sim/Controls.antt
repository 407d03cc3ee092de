-- ===== src/Sim/Controls.antt =====
-- market_engine/execution/simulator.py: the control timeline that order arrivals and cancels share:
-- `_process_controls` and `_process_next_cancel`.
use market_systems_workstati.Base.{
  ℕ, zero, suc, ◌+◌, Bool, true, false, not, ◌&&◌, ◌||◌, Option, none, some, List, [], ◌∷◌, ltb,
  nat_beq, ◌==◌, nat_eq, list_eq, if◌then◌else◌, length, Result, ok, err, Action, then_do,
}
use Prim.Native.Nat.{min}
use market_systems_workstati.Base.Dict.{lookup}
use market_systems_workstati.Floats.{Floats}
use market_systems_workstati.Sim.Types.{
  OrderId, OrderRequest, CancelRequest, OrderStatus, Reason, is_working, option_beq,
}
use market_systems_workstati.Sim.State.{Config, Simulator, put_order, set_status}
use market_systems_workstati.Sim.Submit.{order_arrival, expiry_timestamp}
use market_systems_workstati.Sim.Passive.{keep_ids}
use market_systems_workstati.Sim.Lifecycle.{expire_orders, check_kill_switch}
use market_systems_workstati.Sim.Activation.{new_order, activate_request}

module _ (fl : Floats) (c : Config fl.Float) where
  open fl use {Float}

  -- `pop(pending_index)`, with the request: the first pending one with this ID.
  abbrev pub pop_request : OrderId → List OrderRequest → Option (OrderRequest × List OrderRequest)
  pop_request id [] = none
  pop_request id (r ∷ rs) =
      let rest = pop_request id rs in
      if r.order_id == id
      then some (r, rs)
      else elim rest [ none ↦ none | some (q, qs) ↦ some (q, r ∷ qs) ]

  -- A cancel that is ahead of its order.
  unfoldable pub cancel_pending : OrderId → Action (Simulator Float) (Unit {0})
  unfolding order_arrival expiry_timestamp
  cancel_pending id s = elim (pop_request id s.pending_requests) [
    | none ↦ (ok tt, s)
    | some (r, rest) ↦
        let s' = record s { pending_requests = rest } in
        elim (order_arrival c r) [
          | err e ↦ (err e, s')
          | ok arrival ↦ elim (expiry_timestamp arrival r.time_to_live_ns) [
            | err e ↦ (err e, s')
            | ok expiry ↦ (
              ok tt,
              put_order
                  (new_order fl c r arrival expiry OrderStatus.cancelled
                    Reason.cancel_arrived_before_order)
                  s',
            )
          ]
        ]
  ]

  -- `_process_next_cancel`, on the request that was popped.
  unfoldable pub process_cancel : CancelRequest → Action (Simulator Float) (Unit {0})
  unfolding cancel_pending
  process_cancel request s = elim (lookup request.order_id s.orders) [
    | none ↦ cancel_pending request.order_id s
    | some o ↦
        if is_working o.status
        then (
          ok tt,
          set_status OrderStatus.cancelled o (record s {
            active_order_ids = keep_ids (λ id. not (id == request.order_id)) s.active_order_ids;
          }),
        )
        else cancel_pending request.order_id s
  ]

  -- `next_order_arrival` and `next_cancel_arrival`
  unfoldable pub next_order : List OrderRequest → Result (Option ℕ)
  unfolding order_arrival
  next_order [] = ok none
  next_order (r ∷ rs) = elim (order_arrival c r) [ err e ↦ err e | ok arrival ↦ ok (some arrival) ]

  abbrev pub next_cancel : List (ℕ × CancelRequest) → Option ℕ
  next_cancel [] = none
  next_cancel ((arrival, r) ∷ rs) = some arrival

  -- `min(arrivals)`, if there are any
  abbrev pub earliest : Option ℕ → Option ℕ → Option ℕ
  earliest none b = b
  earliest (some a) none = some a
  earliest (some a) (some b) = some (min a b)

  -- `_control_is_ready`
  abbrev pub control_is_ready : ℕ → ℕ → Bool → Bool
  control_is_ready arrival now inclusive = ltb arrival now || (inclusive && nat_beq arrival now)

  unfoldable pub activate_next : ℕ → List OrderRequest → Action (Simulator Float) (Unit {0})
  unfolding activate_request check_kill_switch
  activate_next arrival [] s = (ok tt, s)
  activate_next arrival (r ∷ rs) s =
      then_do (activate_request fl c arrival r (record s { pending_requests = rs }))
        (λ _ s'. (ok tt, check_kill_switch fl c s'))

  unfoldable pub cancel_next : List (ℕ × CancelRequest) → Action (Simulator Float) (Unit {0})
  unfolding process_cancel
  cancel_next [] s = (ok tt, s)
  cancel_next ((_, r) ∷ rs) s = process_cancel r (record s { pending_cancels = rs })

  -- One round of the `while` loop past its returns: an order goes before a cancel that ties with it.
  unfoldable pub run_control : Option ℕ → ℕ → Action (Simulator Float) (Unit {0})
  unfolding expire_orders activate_next cancel_next
  run_control order_at now s =
      let s' = expire_orders now false s in
      if option_beq order_at now
      then activate_next now s'.pending_requests s'
      else cancel_next s'.pending_cancels s'

  -- The loop, with a round left for each pending control.
  unfoldable pub control_loop : ℕ → ℕ → Bool → Action (Simulator Float) (Unit {0})
  unfolding run_control next_order
  control_loop zero now inclusive s = (ok tt, s)
  control_loop (suc rounds) now inclusive s = elim (next_order s.pending_requests) [
    | err e ↦ (err e, s)
    | ok order_at ↦ elim (earliest order_at (next_cancel s.pending_cancels)) [
      | none ↦ (ok tt, s)
      | some arrival ↦ elim (control_is_ready arrival now inclusive) [
        | false ↦ (ok tt, s)
        | true ↦
            then_do (run_control order_at arrival s) (λ _ s'. control_loop rounds now inclusive s')
      ]
    ]
  ]

  -- `_process_controls`: a round takes a request or a cancel away, so these rounds are enough.
  unfoldable pub process_controls : ℕ → Bool → Action (Simulator Float) (Unit {0})
  unfolding control_loop
  process_controls now inclusive s =
      control_loop (length s.pending_requests + length s.pending_cancels) now inclusive s
