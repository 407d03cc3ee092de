-- ===== src/Sim/Settling.antt =====
-- `_process_controls` of market_engine/execution/simulator.py: its `while` loop ends, and no control is
-- ready when it returns.
pub mod Queued
pub mod Popping
pub mod Rounds
pub mod Sorted
pub mod Timed
use market_systems_workstati.Base.{
  ℕ, zero, suc, ◌+◌, ◌≤◌, ◌<◌, ◌≡◌, refl, sym, ◌∙◌, Bool, true, false, not, Option, none, some,
  List, [], ◌∷◌, arith, ◌==◌, nat_eq, list_eq, length, Bool-cases, Option-cases, Result-cases, inl,
  inr, ◌⊎◌, Result, ok, err, Error, then_do, then_do-keeps, nat_beq_iff, ap, subst, All,
}
use market_systems_workstati.Base.Dict.{lookup}
use market_systems_workstati.Floats.{Floats}
use market_systems_workstati.Sim.Types.{
  OrderId, OrderRequest, CancelRequest, is_working, option_beq,
}
use market_systems_workstati.Sim.State.{Config, Simulator}
use market_systems_workstati.Sim.Submit.{order_arrival, expiry_timestamp}
use market_systems_workstati.Sim.Lifecycle.{expire_orders, check_kill_switch}
use market_systems_workstati.Sim.Activation.{activate_request}
use market_systems_workstati.Sim.Controls.{
  pop_request, cancel_pending, process_cancel, activate_next, cancel_next, run_control,
  control_loop, next_order, earliest, next_cancel, control_is_ready, process_controls,
}
use Popping.{InOrder, decided, pop_request-length, pop_request-InOrder}
use Queued.{IsQueued, expire_orders-IsQueued, check_kill_switch-IsQueued, activate_request-IsQueued}

-- The orders and cancels that have not arrived.
abbrev pub pending : {F : Type 0} → Simulator F → ℕ
pending s = length s.pending_requests + length s.pending_cancels

module _ (fl : Floats) (c : Config fl.Float) where
  open fl use {Float}

  -- The arrivals can be computed, and the earliest, if there is one, is not ready.
  unfoldable pub waits : ℕ → Bool → Simulator Float → Bool
  waits now inclusive s = elim (next_order fl c s.pending_requests) [
    | err e ↦ false
    | ok order_at ↦ elim (earliest fl c order_at (next_cancel fl c s.pending_cancels)) [
      | none ↦ true
      | some arrival ↦ not (control_is_ready fl c arrival now inclusive)
    ]
  ]

  -- A cancel takes away itself, and at most an order that has not arrived.
  record IsCut (rs : List OrderRequest) (cs : List (ℕ × CancelRequest)) (s : Simulator Float)
      : Type 0 where
    requests : length s.pending_requests ≤ length rs
    cancels : s.pending_cancels ≡ cs
    ordered : InOrder decided rs → InOrder decided s.pending_requests

  cancel_pending-IsCut :
      (id : OrderId) (s : Simulator Float)
      → IsCut s.pending_requests s.pending_cancels (cancel_pending fl c id s).1
  unfolding cancel_pending
  cancel_pending-IsCut id s = elim (Option-cases (pop_request fl c id s.pending_requests)) [
    | inl missing ↦
        rw (missing, cancel_pending)
          (record { requests = omega arith; cancels = refl; ordered = λ o. o })
    | inr ((r, rest), found) ↦
        let shorter = pop_request-length fl c id s.pending_requests rest r found in
        elim (Result-cases (order_arrival c r)) [
          | inr (e, failed) ↦
              rw (found, failed, cancel_pending)
                (record {
                  requests = omega (arith, shorter);
                  cancels = refl;
                  ordered = pop_request-InOrder fl c id s.pending_requests rest r found;
                })
          | inl (arrival, arrives) ↦
              elim (Result-cases (expiry_timestamp arrival r.time_to_live_ns)) [
                | inr (e, failed) ↦
                    rw (found, arrives, failed, cancel_pending)
                      (record {
                        requests = omega (arith, shorter);
                        cancels = refl;
                        ordered = pop_request-InOrder fl c id s.pending_requests rest r found;
                      })
                | inl (expiry, expires) ↦
                    rw (found, arrives, expires, cancel_pending)
                      (record {
                        requests = omega (arith, shorter);
                        cancels = refl;
                        ordered = pop_request-InOrder fl c id s.pending_requests rest r found;
                      })
              ]
        ]
  ]

  process_cancel-IsCut :
      (r : CancelRequest) (s : Simulator Float)
      → IsCut s.pending_requests s.pending_cancels (process_cancel fl c r s).1
  unfolding process_cancel
  process_cancel-IsCut r s = elim (Option-cases (lookup r.order_id s.orders)) [
    | inl missing ↦ rw (missing, process_cancel) (cancel_pending-IsCut r.order_id s)
    | inr (o, found) ↦ elim (Bool-cases (is_working o.status)) [
      | inr ended ↦ rw (found, ended, process_cancel) (cancel_pending-IsCut r.order_id s)
      | inl working ↦
          rw (found, working, process_cancel)
            (record { requests = omega arith; cancels = refl; ordered = λ o. o })
    ]
  ]

  pending_cut :
      (rs : List OrderRequest) (cs : List (ℕ × CancelRequest)) (s : Simulator Float)
      → IsCut rs cs s
      → pending s ≤ length rs + length cs
  pending_cut rs cs s k = rw k.cancels (omega (arith, k.requests))

  pending_queued :
      (rs : List OrderRequest) (cs : List (ℕ × CancelRequest)) (s : Simulator Float)
      → IsQueued rs cs s
      → pending s ≡ length rs + length cs
  pending_queued rs cs s q = rw (q.requests, q.cancels) refl

  activate_next-pending :
      (arrival : ℕ) (r : OrderRequest) (rs : List OrderRequest) (s : Simulator Float)
      → pending (activate_next fl c arrival (r ∷ rs) s).1 ≡ length rs + length s.pending_cancels
  unfolding activate_next
  activate_next-pending arrival r rs s =
      let q =
        activate_request-IsQueued fl c rs s.pending_cancels arrival r
          (record s { pending_requests = rs }) (record { requests = refl; cancels = refl }) in
      pending_queued rs s.pending_cancels _ (
        then_do-keeps (IsQueued rs s.pending_cancels)
          (activate_request fl c arrival r (record s { pending_requests = rs })) _ q
          (λ _. check_kill_switch-IsQueued fl c rs s.pending_cancels _ q))

  cancel_next-pending :
      (arrival : ℕ) (r : CancelRequest) (cs : List (ℕ × CancelRequest)) (s : Simulator Float)
      → pending (cancel_next fl c ((arrival, r) ∷ cs) s).1 ≤ length s.pending_requests + length cs
  unfolding cancel_next
  cancel_next-pending arrival r cs s =
      pending_cut s.pending_requests cs _
        (process_cancel-IsCut r (record s { pending_cancels = cs }))

  -- The orders and cancels that have not arrived stand in the order in which they will.
  pub record IsTimed (s : Simulator Float) : Type 0 where
    pub requests : InOrder decided s.pending_requests
    pub cancels : InOrder (λ p. p.0) s.pending_cancels

  pub queued-IsTimed :
      (rs : List OrderRequest) (cs : List (ℕ × CancelRequest)) (s : Simulator Float)
      → InOrder decided rs
      → InOrder (λ p. p.0) cs
      → IsQueued rs cs s
      → IsTimed s
  queued-IsTimed rs cs s o k q = record {
    requests = subst (InOrder decided) (sym q.requests) o;
    cancels = subst (InOrder (λ p. p.0)) (sym q.cancels) k;
  }

  pub activate_next-IsTimed :
      (arrival : ℕ) (rs : List OrderRequest) (s : Simulator Float)
      → InOrder decided rs
      → IsTimed s
      → IsTimed (activate_next fl c arrival rs s).1
  unfolding activate_next
  activate_next-IsTimed arrival [] s o k = k
  activate_next-IsTimed arrival (r ∷ rs) s o k =
      let q =
        activate_request-IsQueued fl c rs s.pending_cancels arrival r
          (record s { pending_requests = rs }) (record { requests = refl; cancels = refl }) in
      queued-IsTimed rs s.pending_cancels _ o.1 k.cancels (
        then_do-keeps (IsQueued rs s.pending_cancels)
          (activate_request fl c arrival r (record s { pending_requests = rs })) _ q
          (λ _. check_kill_switch-IsQueued fl c rs s.pending_cancels _ q))

  pub cancel_next-IsTimed :
      (cs : List (ℕ × CancelRequest)) (s : Simulator Float)
      → InOrder (λ p. p.0) cs
      → IsTimed s
      → IsTimed (cancel_next fl c cs s).1
  unfolding cancel_next
  cancel_next-IsTimed [] s o k = k
  cancel_next-IsTimed ((arrival, r) ∷ cs) s o k =
      let cut = process_cancel-IsCut r (record s { pending_cancels = cs }) in
      record {
        requests = cut.ordered k.requests;
        cancels = subst (InOrder (λ p. p.0)) (sym cut.cancels) o.1;
      }
