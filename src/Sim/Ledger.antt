-- ===== src/Sim/Ledger.antt =====
-- The invariant of `ExecutionSimulator` (market_engine/execution/simulator.py), and the writes to its
-- orders that keep it.
pub mod Taker
pub mod Maker
pub mod Timeline
pub mod Session
use market_systems_workstati.Base.{
  ℕ, ◌+◌, ◌≤◌, ◌≡◌, refl, subst, sym, Bool, true, false, Option, none, some, List, [], ◌∷◌, ◌++◌,
  arith, ◌==◌, list_eq, if◌then◌else◌, Option-cases, inl, inr,
}
use market_systems_workstati.Base.Int.{ℤ, pos, abs, ◌+ℤ◌, ◌-ℤ◌, int_laws}
use market_systems_workstati.Base.Dict.{Dict, lookup, insert}
use market_systems_workstati.Sim.Types.{Side, OrderId, SimulatedOrder, Fill}
use market_systems_workstati.Sim.State.{
  Config, Simulator, put_order, with_order, with_order-keeps, projected,
}

-- What a fill adds to the position.
abbrev pub signed : Side → ℕ → ℤ
signed Side.buy quantity = pos quantity
signed Side.sell quantity = pos 0 -ℤ pos quantity

abbrev pub net : {F : Type 0} → List (Fill F) → ℤ
net [] = pos 0
net (f ∷ fs) = signed f.side f.quantity +ℤ net fs

-- The order stands under its own ID, and no more than its quantity is filled.
abbrev pub Fits : {F : Type 0} → OrderId → SimulatedOrder F → Type 0
Fits id o = (o.request.order_id ≡ id) × (o.filled_quantity ≤ o.request.quantity)

abbrev pub AllFit : {F : Type 0} → Dict OrderId (SimulatedOrder F) → Type 0
AllFit [] = Unit
AllFit ((id, o) ∷ d) = Fits id o × AllFit d

-- The position is within its limit and is the sum of the fills, every order fits, and no order is
-- active once the kill switch has tripped.
pub record IsBooked {F : Type 0} (c : Config F) (s : Simulator F) : Type 0 where
  pub within : abs s.position ≤ c.max_absolute_position
  pub balanced : s.position ≡ net s.fills
  pub fit : AllFit s.orders
  pub idle : s.killed ≡ true → s.active_order_ids ≡ []

pub net-append :
    {F : Type 0} (fs : List (Fill F)) (f : Fill F)
    → net (fs ++ f ∷ []) ≡ net fs +ℤ signed f.side f.quantity
net-append [] f = omega int_laws
net-append (g ∷ fs) f = rw (net-append fs f) (omega int_laws)

pub projected-signed :
    (side : Side) (quantity : ℕ) (p : ℤ) → projected side quantity p ≡ p +ℤ signed side quantity
projected-signed Side.buy quantity p = refl
projected-signed Side.sell quantity p = omega int_laws

module _ {F : Type 0} where
  pub AllFit-insert :
      (id : OrderId) (o : SimulatedOrder F) (d : Dict OrderId (SimulatedOrder F))
      → Fits id o
      → AllFit d
      → AllFit (insert id o d)
  AllFit-insert id o [] h a = (h, tt)
  AllFit-insert id o ((j, w) ∷ d) h a =
      ground (arith, list_eq.beq_iff j id, AllFit-insert id o d h a.1)

  pub AllFit-lookup :
      (id : OrderId) (o : SimulatedOrder F) (d : Dict OrderId (SimulatedOrder F))
      → AllFit d
      → lookup id d ≡ some o
      → Fits id o
  AllFit-lookup id o [] a e = cc
  AllFit-lookup id o ((j, w) ∷ d) a e =
      ground (arith, list_eq.beq_iff j id, AllFit-lookup id o d a.1)

  module _ (c : Config F) where
    pub put_order-IsBooked :
        (o : SimulatedOrder F) (s : Simulator F)
        → o.filled_quantity ≤ o.request.quantity
        → IsBooked c s
        → IsBooked c (put_order o s)
    put_order-IsBooked o s h i = record {
      within = i.within;
      balanced = i.balanced;
      fit = AllFit-insert o.request.order_id o s.orders (refl, h) i.fit;
      idle = i.idle;
    }

    -- A method that keeps the invariant, given an order that fits.
    pub with_order-IsBooked :
        (id : OrderId) (f : SimulatedOrder F → Simulator F → Simulator F) (s : Simulator F)
        → ((o : SimulatedOrder F) → Fits id o → lookup id s.orders ≡ some o → IsBooked c (f o s))
        → IsBooked c s
        → IsBooked c (with_order id f s)
    with_order-IsBooked id f s h i =
        with_order-keeps (IsBooked c) id f s
          (λ o found. h o (AllFit-lookup id o s.orders i.fit found) found) i
