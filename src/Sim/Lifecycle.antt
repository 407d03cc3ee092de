-- ===== src/Sim/Lifecycle.antt =====
-- market_engine/execution/simulator.py: how orders end apart from fills: `_expire_orders`, `_cancel_all`
-- and `_check_kill_switch`.
use market_systems_workstati.Base.{
  ℕ, Bool, true, false, not, ◌||◌, Option, none, some, List, [], ◌∷◌, leb, ◌==◌, nat_eq, list_eq,
  if◌then◌else◌,
}
use market_systems_workstati.Book.Types.{quantity_scale}
use market_systems_workstati.Floats.{Floats, of_nat}
use market_systems_workstati.Sim.Types.{OrderId, SimulatedOrder, OrderStatus, Reason, is_working}
use market_systems_workstati.Sim.State.{Config, Simulator, with_order, set_status, set_outcome}

-- `self._active_order_ids.remove(order_id)`: the first occurrence.
abbrev pub remove_id : OrderId → List OrderId → List OrderId
remove_id id [] = []
remove_id id (x ∷ xs) = if x == id then xs else x ∷ remove_id id xs

abbrev pub is_due : Option ℕ → ℕ → Bool
is_due none now = false
is_due (some t) now = leb t now

module _ {F : Type 0} where
  abbrev pub expire_one : ℕ → Bool → SimulatedOrder F → Simulator F → Simulator F
  expire_one now final o s =
      if final || is_due o.expiry_timestamp_ns now
      then set_status OrderStatus.expired o
          (record s { active_order_ids = remove_id o.request.order_id s.active_order_ids })
      else s

  abbrev pub expire_each : ℕ → Bool → List OrderId → Simulator F → Simulator F
  expire_each now final [] s = s
  expire_each now final (id ∷ ids) s =
      expire_each now final ids (with_order id (expire_one now final) s)

  -- `_expire_orders(timestamp_ns, final=…)`
  unfoldable pub expire_orders : ℕ → Bool → Simulator F → Simulator F
  expire_orders now final s = expire_each now final s.active_order_ids s

  abbrev pub cancel_one : Reason → SimulatedOrder F → Simulator F → Simulator F
  cancel_one why o s = if is_working o.status then set_outcome OrderStatus.cancelled why o s else s

  abbrev pub cancel_each : Reason → List OrderId → Simulator F → Simulator F
  cancel_each why [] s = s
  cancel_each why (id ∷ ids) s = cancel_each why ids (with_order id (cancel_one why) s)

  -- `_cancel_all(reason)`
  unfoldable pub cancel_all : Reason → Simulator F → Simulator F
  cancel_all why s =
      let s' = cancel_each why s.active_order_ids s in record s' { active_order_ids = [] }

module _ (fl : Floats) (c : Config fl.Float) where
  open fl use {Float, add, mul, div, neg, less_eq, is_finite}

  -- `cash_quote`, plus the position at the latest mid if there is one.
  unfoldable pub marked_equity : Simulator Float → Float
  marked_equity s = elim s.latest_mid [
    | none ↦ s.cash_quote
    | some mid ↦ add s.cash_quote (mul (div (fl.of_int s.position) (of_nat fl quantity_scale)) mid)
  ]

  -- `_check_kill_switch`
  unfoldable pub check_kill_switch : Simulator Float → Simulator Float
  unfolding marked_equity cancel_all
  check_kill_switch s =
      if s.killed || not (is_finite c.kill_switch_loss_quote)
      then s
      else if less_eq (marked_equity s) (neg c.kill_switch_loss_quote)
      then cancel_all Reason.kill_switch (record s { killed = true })
      else s
