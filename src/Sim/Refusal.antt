-- ===== src/Sim/Refusal.antt =====
-- What becomes of a passive fill that the position limit refuses, in `_process_trade` and
-- `_process_depth_depletion` of market_engine/execution/simulator.py.
use market_systems_workstati.Base.{
  ℕ, ◌<◌, ◌≡◌, refl, sym, ap, subst, ◌∙◌, Bool, true, false, some, arith, ◌==◌, nat_eq, list_eq,
  lt→ltb,
}
use Prim.Native.Nat.{min}
use market_systems_workstati.Base.Int.{pos_part}
use market_systems_workstati.Base.Dict.{lookup, lookup-insert, beq_refl}
use market_systems_workstati.Floats.{Floats}
use market_systems_workstati.Sim.Types.{SimulatedOrder, OrderStatus, Reason, remaining_quantity}
use market_systems_workstati.Sim.State.{
  Config, Simulator, put_order, with_order, with_order-some, position_allows,
}
use market_systems_workstati.Sim.Fills.{record_fill}
use market_systems_workstati.Sim.Passive.{fill_maker, mark_progress}

positive_ne : (n : ℕ) → 0 < n → (n == 0) ≡ false
positive_ne n h = ground arith

module _ (fl : Floats) (c : Config fl.Float) where
  open fl use {Float, trunc}

  refused_order : SimulatedOrder Float → SimulatedOrder Float
  refused_order o = record o {
    status = OrderStatus.rejected;
    rejection_reason = Reason.position_limit_during_partial_fill;
  }

  lookup-put_order :
      (o : SimulatedOrder Float) (s : Simulator Float)
      → lookup o.request.order_id (put_order o s).orders ≡ some o
  lookup-put_order o s =
      lookup-insert o.request.order_id o.request.order_id o s.orders
      ∙ rw (beq_refl o.request.order_id)

  lookup_refused :
      (o : SimulatedOrder Float) (s : Simulator Float)
      → lookup o.request.order_id (put_order (refused_order o) s).orders ≡ some (refused_order o)
  unfolding refused_order
  lookup_refused o s = lookup-put_order (refused_order o) s

  record_fill_refused :
      (timestamp quantity price : ℕ) (maker : Bool) (o : SimulatedOrder Float) (s : Simulator Float)
      → 0 < quantity
      → position_allows c o.request.side quantity s ≡ false
      → record_fill fl c timestamp quantity price maker o s ≡ put_order (refused_order o) s
  unfolding record_fill refused_order
  record_fill_refused timestamp quantity price maker o s some_left refused =
      rw (refused, record_fill) (ground arith)

  stays_open : SimulatedOrder Float → SimulatedOrder Float
  stays_open o = record o {
    status = OrderStatus.partially_filled;
    rejection_reason = Reason.position_limit_during_partial_fill;
  }

  mark_refused :
      (o : SimulatedOrder Float) (s : Simulator Float)
      → 0 < remaining_quantity o
      → mark_progress fl c (refused_order o) s ≡ put_order (stays_open o) s
  unfolding refused_order stays_open
  mark_refused o s left = rw (positive_ne (remaining_quantity o) left)

  refused_fill_maker :
      (timestamp price : ℕ) (executable : Float) (o : SimulatedOrder Float) (s : Simulator Float)
      → 0 < min (remaining_quantity o) (pos_part (trunc executable))
      → position_allows c o.request.side
          (min (remaining_quantity o) (pos_part (trunc executable)))
          s
        ≡ false
      → fill_maker fl c o.request.order_id timestamp price executable o s
        ≡ put_order (stays_open o) (put_order (refused_order o) s)
  unfolding fill_maker
  refused_fill_maker timestamp price executable o s some_left refused =
      rw (lt→ltb 0 (min (remaining_quantity o) (pos_part (trunc executable))) some_left, fill_maker)
        (ap (with_order o.request.order_id (mark_progress fl c)) (
            record_fill_refused timestamp (min (remaining_quantity o) (pos_part (trunc executable)))
              price true o s some_left refused)
          ∙ with_order-some o.request.order_id (mark_progress fl c) (put_order (refused_order o) s)
              (lookup_refused o s)
          ∙ mark_refused o (put_order (refused_order o) s) (omega arith))

  -- When the position limit refuses the passive fill of an order with quantity left, the order ends up
  -- partially filled and not rejected, with the refusal as its reason and no more filled than before,
  -- and no fill is recorded.
  pub refused_maker_stays_open :
      (timestamp price : ℕ) (executable : Float) (o : SimulatedOrder Float) (s : Simulator Float)
      → 0 < min (remaining_quantity o) (pos_part (trunc executable))
      → position_allows c o.request.side
          (min (remaining_quantity o) (pos_part (trunc executable)))
          s
        ≡ false
      → let t = fill_maker fl c o.request.order_id timestamp price executable o s in
        (lookup o.request.order_id t.orders
          ≡ some (record o {
            status = OrderStatus.partially_filled;
            rejection_reason = Reason.position_limit_during_partial_fill;
          }))
        × (t.fills ≡ s.fills)
        × (t.position ≡ s.position)
  unfolding stays_open refused_order
  refused_maker_stays_open timestamp price executable o s some_left refused =
      subst
        (λ t.
          (lookup o.request.order_id t.orders ≡ some (stays_open o))
          × (t.fills ≡ s.fills)
          × (t.position ≡ s.position))
        (sym (refused_fill_maker timestamp price executable o s some_left refused))
        (lookup-put_order (stays_open o) (put_order (refused_order o) s), refl, refl)
