-- ===== src/Sim/Ledger/Taker.antt =====
-- `_record_fill` and `_execute_taker` of market_engine/execution/simulator.py keep the invariant.
use market_systems_workstati.Base.{
  ℕ, ◌+◌, ◌-◌, ◌≤◌, ◌≡◌, refl, subst, sym, Bool, true, false, Option, some, List, [], ◌∷◌, arith,
  ◌==◌, nat_eq, list_eq, Bool-cases, ◌||◌, inl, inr, ltb,
}
use Prim.Native.Nat.{min}
use market_systems_workstati.Base.Int.{abs}
use market_systems_workstati.Base.Dict.{lookup, lookup-insert}
use market_systems_workstati.Book.Types.{Level}
use market_systems_workstati.Floats.{Floats}
use market_systems_workstati.Sim.Types.{Side, OrderId, SimulatedOrder, LevelKey, remaining_quantity}
use market_systems_workstati.Sim.State.{
  Config, Simulator, put_order, with_order-keeps, projected, position_allows,
}
use market_systems_workstati.Sim.Fills.{
  book_fill, record_fill, consume, walk, execute_taker, make_fill, available, taker_side,
  beyond_limit, conclude, visible,
}
use market_systems_workstati.Sim.Ledger.{
  IsBooked, AllFit-insert, AllFit-lookup, net-append, projected-signed, put_order-IsBooked,
  with_order-IsBooked,
}

module _ (fl : Floats) (c : Config fl.Float) where
  open fl use {Float}

  book_fill-IsBooked :
      (timestamp quantity price : ℕ) (maker : Bool) (o : SimulatedOrder Float) (s : Simulator Float)
      → o.filled_quantity + quantity ≤ o.request.quantity
      → abs (projected o.request.side quantity s.position) ≤ c.max_absolute_position
      → IsBooked c s
      → IsBooked c (book_fill fl c timestamp quantity price maker o s)
  unfolding book_fill
  book_fill-IsBooked timestamp quantity price maker o s room allowed i = record {
    within = allowed;
    balanced =
        rw (net-append s.fills (make_fill fl c o timestamp quantity price maker), ← i.balanced)
          (projected-signed o.request.side quantity s.position);
    fit =
        AllFit-insert o.request.order_id
          (record o { filled_quantity = o.filled_quantity + quantity }) s.orders (refl, room) i.fit;
    idle = i.idle;
  }

  -- A fill of at most what the order has left keeps the invariant, whether it is refused or not.
  pub record_fill-IsBooked :
      (timestamp quantity price : ℕ) (maker : Bool) (o : SimulatedOrder Float) (s : Simulator Float)
      → o.filled_quantity + quantity ≤ o.request.quantity
      → IsBooked c s
      → IsBooked c (record_fill fl c timestamp quantity price maker o s)
  unfolding record_fill position_allows
  record_fill-IsBooked timestamp quantity price maker o s room i =
      elim (Bool-cases (quantity == 0)) [
        | inl nothing ↦ rw (nothing, record_fill) i
        | inr something ↦ elim (Bool-cases (position_allows c o.request.side quantity s)) [
          | inl allowed ↦
              rw (something, allowed, record_fill)
                (book_fill-IsBooked timestamp quantity price maker o s room (ground arith) i)
          | inr refused ↦
              rw (something, refused, record_fill) (put_order-IsBooked c _ s (omega arith) i)
        ]
      ]

  -- The order under this ID still has `remaining` left.
  abbrev Has : OrderId → ℕ → Simulator Float → Type 0
  Has id remaining s =
      (o : SimulatedOrder Float)
      → lookup id s.orders ≡ some o
      → o.filled_quantity + remaining ≤ o.request.quantity

  consume-IsBooked :
      (id : OrderId) (timestamp quantity : ℕ) (key : LevelKey) (s : Simulator Float)
      → Has id quantity s
      → IsBooked c s
      → IsBooked c (consume fl c id timestamp quantity key s)
  unfolding consume
  consume-IsBooked id timestamp quantity key s h i =
      let j =
        with_order-IsBooked c id (record_fill fl c timestamp quantity key.1 false) s
          (λ o fits found. record_fill-IsBooked timestamp quantity key.1 false o s (h o found) i)
          i in
      record { within = j.within; balanced = j.balanced; fit = j.fit; idle = j.idle }

  Has-put_order :
      (id : OrderId) (remaining : ℕ) (o : SimulatedOrder Float) (s : Simulator Float)
      → o.request.order_id ≡ id
      → o.filled_quantity + remaining ≤ o.request.quantity
      → Has id remaining (put_order o s)
  Has-put_order id remaining o s own room w found =
      ground (
        arith,
        lookup-insert id o.request.order_id o s.orders,
        list_eq.beq_iff o.request.order_id id,
      )

  -- A fill uses up what it fills; one that does nothing or is refused uses up nothing.
  record_fill-Has :
      (id : OrderId) (timestamp quantity price remaining : ℕ) (o : SimulatedOrder Float)
      (s : Simulator Float)
      → o.request.order_id ≡ id
      → o.filled_quantity + (quantity + remaining) ≤ o.request.quantity
      → Has id (quantity + remaining) s
      → Has id remaining (record_fill fl c timestamp quantity price false o s)
  unfolding record_fill book_fill
  record_fill-Has id timestamp quantity price remaining o s own room h =
      elim (Bool-cases (quantity == 0)) [
        | inl nothing ↦ rw (nothing, record_fill) (λ w found. omega (arith, h w found))
        | inr something ↦ elim (Bool-cases (position_allows c o.request.side quantity s)) [
          | inl allowed ↦
              rw (something, allowed, record_fill)
                (Has-put_order id remaining
                  (record o { filled_quantity = o.filled_quantity + quantity }) s own (omega arith))
          | inr refused ↦
              rw (something, refused, record_fill)
                (Has-put_order id remaining _ s own (omega arith))
        ]
      ]

  consume-Has :
      (id : OrderId) (timestamp quantity remaining : ℕ) (key : LevelKey) (s : Simulator Float)
      → IsBooked c s
      → Has id (quantity + remaining) s
      → Has id remaining (consume fl c id timestamp quantity key s)
  unfolding consume
  consume-Has id timestamp quantity remaining key s i h =
      with_order-keeps (Has id remaining) id (record_fill fl c timestamp quantity key.1 false) s
        (λ o found.
          record_fill-Has id timestamp quantity key.1 remaining o s
            (AllFit-lookup id o s.orders i.fit found).0 (h o found) h)
        (λ o found. omega (arith, h o found))

  keep : {s t : Simulator Float} → s ≡ t → IsBooked c t → IsBooked c s
  keep e i = subst (IsBooked c) (sym e) i

  module _ (id : OrderId) (timestamp : ℕ) (side : Side) (limit : Option ℕ) (level : Level)
      (levels : List Level) (remaining : ℕ) (s : Simulator Float) where
    walk_stop :
        (remaining == 0 || beyond_limit fl c side limit level.price) ≡ true
        → walk fl c id timestamp side limit (level ∷ levels) remaining s ≡ s
    unfolding walk
    walk_stop h = rw (h, walk)

    module _ (go : (remaining == 0 || beyond_limit fl c side limit level.price) ≡ false) where
      walk_skip :
          (min remaining (available fl c side level s) == 0) ≡ true
          → walk fl c id timestamp side limit (level ∷ levels) remaining s
            ≡ walk fl c id timestamp side limit levels remaining s
      unfolding walk
      walk_skip h = rw (go, h, walk)

      walk_fill :
          (min remaining (available fl c side level s) == 0) ≡ false
          → walk fl c id timestamp side limit (level ∷ levels) remaining s
            ≡ walk fl c id timestamp side limit levels
                (remaining - min remaining (available fl c side level s))
                (consume fl c id timestamp
                  (min remaining (available fl c side level s))
                  (taker_side fl c side, level.price)
                  s)
      unfolding walk
      walk_fill h = rw (go, h, walk)

  walk-IsBooked :
      (id : OrderId) (timestamp : ℕ) (side : Side) (limit : Option ℕ) (levels : List Level)
      (remaining : ℕ) (s : Simulator Float)
      → Has id remaining s
      → IsBooked c s
      → IsBooked c (walk fl c id timestamp side limit levels remaining s)
  unfolding walk
  walk-IsBooked id timestamp side limit [] remaining s h i = i
  walk-IsBooked id timestamp side limit (level ∷ levels) remaining s h i =
      elim (Bool-cases (remaining == 0 || beyond_limit fl c side limit level.price)) [
        | inl stop ↦ keep (walk_stop id timestamp side limit level levels remaining s stop) i
        | inr go ↦
            let quantity = min remaining (available fl c side level s) in
            elim (Bool-cases (quantity == 0)) [
              | inl none_left ↦
                  keep (walk_skip id timestamp side limit level levels remaining s go none_left)
                    (walk-IsBooked id timestamp side limit levels remaining s h i)
              | inr some_left ↦
                  keep (walk_fill id timestamp side limit level levels remaining s go some_left) (
                    walk-IsBooked id timestamp side limit levels (remaining - quantity) _
                      (consume-Has id timestamp quantity (remaining - quantity)
                        (taker_side fl c side, level.price) s i
                        (λ o found. omega (arith, h o found)))
                      (consume-IsBooked id timestamp quantity (taker_side fl c side, level.price) s
                        (λ o found. omega (arith, h o found)) i))
            ]
      ]

  conclude-IsBooked :
      (o : SimulatedOrder Float) (s : Simulator Float)
      → o.filled_quantity ≤ o.request.quantity
      → IsBooked c s
      → IsBooked c (conclude fl c o s)
  conclude-IsBooked o s room i = elim (Bool-cases (remaining_quantity o == 0)) [
    | inl full ↦ rw full (put_order-IsBooked c _ s room i)
    | inr part_open ↦ elim (Bool-cases (ltb 0 o.filled_quantity)) [
      | inl part ↦ rw (part_open, part) (put_order-IsBooked c _ s room i)
      | inr empty ↦ rw (part_open, empty) (put_order-IsBooked c _ s room i)
    ]
  ]

  -- An aggressive order keeps the invariant, if it is in place with nothing more than it had left.
  pub execute_taker-IsBooked :
      (timestamp : ℕ) (limit : Option ℕ) (o : SimulatedOrder Float) (s : Simulator Float)
      → Has o.request.order_id (remaining_quantity o) s
      → IsBooked c s
      → IsBooked c (execute_taker fl c timestamp limit o s)
  unfolding execute_taker
  execute_taker-IsBooked timestamp limit o s h i =
      let w =
        walk-IsBooked o.request.order_id timestamp o.request.side limit
          (visible fl c o.request.side s) (remaining_quantity o) s h i in
      with_order-IsBooked c o.request.order_id (conclude fl c) _
        (λ p fits found. conclude-IsBooked p _ fits.1 w) w
