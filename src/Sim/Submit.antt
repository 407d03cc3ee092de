-- ===== src/Sim/Submit.antt =====
-- market_engine/execution/simulator.py: `submit`, `cancel`, and the arrival and expiry times.
use market_systems_workstati.Base.{
  ℕ, ◌+◌, Bool, ◌&&◌, ◌||◌, Option, none, some, List, [], ◌∷◌, ◌++◌, ltb, nat_beq, ◌==◌, list_eq,
  if◌then◌else◌, any, Result, ok, err, Error, Action,
}
use market_systems_workstati.Base.Dict.{lookup}
use market_systems_workstati.Base.Sort.{sorted}
use market_systems_workstati.Book.Types.{uint64_max}
use market_systems_workstati.Book.Views.{is_some}
use market_systems_workstati.Sim.Types.{OrderId, OrderRequest, CancelRequest, id_leb}
use market_systems_workstati.Sim.State.{Config, Simulator}

-- The sort key `(decision_timestamp_ns, order_id)`.
abbrev pub request_leb : OrderRequest → OrderRequest → Bool
request_leb a b =
    ltb a.decision_timestamp_ns b.decision_timestamp_ns
    || (nat_beq a.decision_timestamp_ns b.decision_timestamp_ns && id_leb a.order_id b.order_id)

-- The sort key `(arrival, order_id)`.
abbrev pub cancel_leb : ℕ × CancelRequest → ℕ × CancelRequest → Bool
cancel_leb (t, a) (u, b) = ltb t u || (nat_beq t u && id_leb a.order_id b.order_id)

abbrev pub is_pending : OrderId → List OrderRequest → Bool
is_pending id rs = any (λ r. r.order_id == id) rs

module _ {F : Type 0} (c : Config F) where
  unfoldable pub submit : OrderRequest → Action (Simulator F) (Unit {0})
  submit request s =
      if is_some (lookup request.order_id s.orders)
        || is_pending request.order_id s.pending_requests
      then (err Error.duplicate_order, s)
      else (
        ok tt,
        record s { pending_requests = sorted request_leb (s.pending_requests ++ request ∷ []) },
      )

  unfoldable pub cancel : CancelRequest → Action (Simulator F) (Unit {0})
  cancel request s =
      let arrival = request.decision_timestamp_ns + c.cancel_latency_ns in
      if ltb uint64_max arrival then (err Error.cancel_overflow, s) else (
        ok tt,
        record s {
          pending_cancels = sorted cancel_leb (s.pending_cancels ++ (arrival, request) ∷ []);
        },
      )

  unfoldable pub order_arrival : OrderRequest → Result ℕ
  order_arrival request =
      let arrival =
        request.decision_timestamp_ns + c.decision_latency_ns + c.transmission_latency_ns in
      if ltb uint64_max arrival then err Error.arrival_overflow else ok arrival

-- `_expiry_timestamp`
unfoldable pub expiry_timestamp : ℕ → Option ℕ → Result (Option ℕ)
expiry_timestamp arrival none = ok none
expiry_timestamp arrival (some ttl) =
    if ltb uint64_max (arrival + ttl) then err Error.expiry_overflow else ok (some (arrival + ttl))
