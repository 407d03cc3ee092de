-- ===== src/Sim/Ledger/Maker.antt =====
-- `_process_trade` and `_process_depth_depletion` of market_engine/execution/simulator.py keep the
-- invariant.
use market_systems_workstati.Base.{
  ℕ, ◌≤◌, ◌≡◌, refl, Bool, true, some, List, [], ◌∷◌, arith, ◌==◌, nat_eq, list_eq, Bool-cases,
  Option-cases, inl, inr, ltb, then_do-keeps, Result-cases, ◌||◌,
}
use Prim.Native.Nat.{min}
use market_systems_workstati.Base.Int.{pos_part}
use market_systems_workstati.Base.Dict.{Dict, lookup}
use market_systems_workstati.Base.Sort.{sorted}
use market_systems_workstati.Book.Types.{Trade, DepthUpdate}
use market_systems_workstati.Book.{BookSide}
use market_systems_workstati.Floats.{Floats, zero_float}
use market_systems_workstati.Sim.Types.{OrderId, SimulatedOrder, LevelKey, remaining_quantity}
use market_systems_workstati.Sim.State.{Config, Simulator}
use market_systems_workstati.Sim.Fills.{record_fill}
use market_systems_workstati.Sim.Passive.{
  mark_progress, fill_maker, advance, advance_all, process_trade, depletion, deplete, deplete_order,
  deplete_all, process_depth_depletion, prune_active, is_order_working, keep_ids, eligible,
  order_leb, decreases_of, is_trade_only, refresh_consumed_liquidity,
}
use market_systems_workstati.Sim.Ledger.{
  IsBooked, AllFit-lookup, put_order-IsBooked, with_order-IsBooked,
}
use market_systems_workstati.Sim.Ledger.Taker.{record_fill-IsBooked}

pub keep_ids-nil : (p : OrderId → Bool) (ids : List OrderId) → ids ≡ [] → keep_ids p ids ≡ []
keep_ids-nil p [] e = refl
keep_ids-nil p (x ∷ xs) e = cc

module _ (fl : Floats) (c : Config fl.Float) where
  open fl use {Float, less_eq, trunc}

  mark_progress-IsBooked :
      (o : SimulatedOrder Float) (s : Simulator Float)
      → o.filled_quantity ≤ o.request.quantity
      → IsBooked c s
      → IsBooked c (mark_progress fl c o s)
  mark_progress-IsBooked o s room i = put_order-IsBooked c _ s room i

  fill_maker-IsBooked :
      (id : OrderId) (timestamp price : ℕ) (executable : Float) (o : SimulatedOrder Float)
      (s : Simulator Float)
      → o.filled_quantity ≤ o.request.quantity
      → IsBooked c s
      → IsBooked c (fill_maker fl c id timestamp price executable o s)
  unfolding fill_maker
  fill_maker-IsBooked id timestamp price executable o s room i =
      elim (Bool-cases (ltb 0 (min (remaining_quantity o) (pos_part (trunc executable))))) [
        | inl some_left ↦
            rw (some_left, fill_maker)
              (with_order-IsBooked c id (mark_progress fl c)
                (record_fill fl c timestamp quantity price true o s)
                (λ p fits found.
                  mark_progress-IsBooked p (record_fill fl c timestamp quantity price true o s)
                    fits.1 filled)
                filled)
        | inr none_left ↦ rw (none_left, fill_maker) i
      ]
    where
      quantity : ℕ
      quantity = min (remaining_quantity o) (pos_part (trunc executable))

      filled : IsBooked c (record_fill fl c timestamp quantity price true o s)
      filled = record_fill-IsBooked fl c timestamp quantity price true o s (omega arith) i

  advance-IsBooked :
      (t : Trade) (o : SimulatedOrder Float) (s : Simulator Float)
      → o.filled_quantity ≤ o.request.quantity
      → IsBooked c s
      → IsBooked c (advance fl c t o s)
  unfolding advance
  advance-IsBooked t o s room i =
      fill_maker-IsBooked o.request.order_id t.receipt_timestamp_ns t.price _ _ _ room
        (put_order-IsBooked c _ s room i)

  advance_all-IsBooked :
      (t : Trade) (os : List (SimulatedOrder Float)) (s : Simulator Float)
      → IsBooked c s
      → IsBooked c (advance_all fl c t os s)
  advance_all-IsBooked t [] s i = i
  advance_all-IsBooked t (o ∷ os) s i = advance_all-IsBooked t os _ (
      with_order-IsBooked c o.request.order_id (advance fl c t) s
        (λ p fits found. advance-IsBooked t p s fits.1 i) i)

  pub prune_active-IsBooked : (s : Simulator Float) → IsBooked c s → IsBooked c (prune_active s)
  prune_active-IsBooked s i = record {
    within = i.within;
    balanced = i.balanced;
    fit = i.fit;
    idle = λ k. keep_ids-nil (is_order_working s) s.active_order_ids (i.idle k);
  }

  -- A trade keeps the invariant.
  pub process_trade-IsBooked :
      (t : Trade) (s : Simulator Float) → IsBooked c s → IsBooked c (process_trade fl c t s)
  unfolding process_trade
  process_trade-IsBooked t s i = go s.active_order_ids
    where
      go :
          (ids : List OrderId)
          → IsBooked c (elim ids [
            | [] ↦ s
            | id ∷ rest ↦
                prune_active (advance_all fl c t (sorted order_leb (eligible t s (id ∷ rest))) s)
          ])
      go [] = i
      go (id ∷ rest) =
          prune_active-IsBooked (advance_all fl c t (sorted order_leb (eligible t s (id ∷ rest))) s)
            (advance_all-IsBooked t (sorted order_leb (eligible t s (id ∷ rest))) s i)

  deplete-IsBooked :
      (timestamp : ℕ) (decreases : Dict LevelKey ℕ) (price : ℕ) (o : SimulatedOrder Float)
      (s : Simulator Float)
      → o.filled_quantity ≤ o.request.quantity
      → IsBooked c s
      → IsBooked c (deplete fl c timestamp decreases price o s)
  unfolding deplete
  deplete-IsBooked timestamp decreases price o s room i =
      elim (Bool-cases (less_eq (depletion fl c decreases price o) (zero_float fl))) [
        | inl nothing ↦ rw (nothing, deplete) i
        | inr something ↦
            rw (something, deplete)
              (fill_maker-IsBooked o.request.order_id timestamp price _ _ _ room
                (put_order-IsBooked c _ s room i))
      ]

  deplete_order-IsBooked :
      (timestamp : ℕ) (decreases : Dict LevelKey ℕ) (o : SimulatedOrder Float) (s : Simulator Float)
      → o.filled_quantity ≤ o.request.quantity
      → IsBooked c s
      → IsBooked c (deplete_order fl c timestamp decreases o s).1
  unfolding deplete_order
  deplete_order-IsBooked timestamp decreases o s room i =
      elim (Option-cases o.request.limit_price) [
        | inl none_set ↦ rw (none_set, deplete_order) i
        | inr (price, limited) ↦
            rw (limited, deplete_order) (deplete-IsBooked timestamp decreases price o s room i)
      ]

  deplete_all-IsBooked :
      (timestamp : ℕ) (decreases : Dict LevelKey ℕ) (ids : List OrderId) (s : Simulator Float)
      → IsBooked c s
      → IsBooked c (deplete_all fl c timestamp decreases ids s).1
  unfolding deplete_all
  deplete_all-IsBooked timestamp decreases [] s i = i
  deplete_all-IsBooked timestamp decreases (id ∷ ids) s i =
      elim (Option-cases (lookup id s.orders)) [
        | inl missing ↦ rw (missing, deplete_all) (deplete_all-IsBooked timestamp decreases ids s i)
        | inr (o, found) ↦
            rw (found, deplete_all)
              (then_do-keeps (IsBooked c) (deplete_order fl c timestamp decreases o s) _
                (step o found) (λ _. deplete_all-IsBooked timestamp decreases ids _ (step o found)))
      ]
    where
      step :
          (o : SimulatedOrder Float)
          → lookup id s.orders ≡ some o
          → IsBooked c (deplete_order fl c timestamp decreases o s).1
      step o found =
          deplete_order-IsBooked timestamp decreases o s (AllFit-lookup id o s.orders i.fit found).1
            i

  -- A depth update's depletion keeps the invariant, on every branch.
  pub process_depth_depletion-IsBooked :
      (u : DepthUpdate) (s : Simulator Float)
      → IsBooked c s
      → IsBooked c (process_depth_depletion fl c u s).1
  unfolding process_depth_depletion
  process_depth_depletion-IsBooked u s i =
      elim (Bool-cases (is_trade_only fl c c.queue_model || s.book.last_update_id == 0)) [
        | inl skipped ↦ rw (skipped, process_depth_depletion) i
        | inr modelled ↦ elim (Result-cases (decreases_of fl c s.book BookSide.bid u.bids [])) [
          | inr (e, failed) ↦ rw (modelled, failed, process_depth_depletion) i
          | inl (bids, passed) ↦
              elim (Result-cases (decreases_of fl c s.book BookSide.ask u.asks bids)) [
                | inr (e, failed) ↦ rw (modelled, passed, failed, process_depth_depletion) i
                | inl (decreases, done) ↦
                    rw (modelled, passed, done, process_depth_depletion)
                      (let d =
                          deplete_all-IsBooked u.receipt_timestamp_ns decreases s.active_order_ids s
                            i in
                        then_do-keeps (IsBooked c)
                          (deplete_all fl c u.receipt_timestamp_ns decreases s.active_order_ids s) _
                          d (λ _. prune_active-IsBooked _ d))
              ]
        ]
      ]

pub refresh_consumed_liquidity-IsBooked :
    {F : Type 0} (c : Config F) (u : DepthUpdate) (s : Simulator F)
    → IsBooked c s
    → IsBooked c (refresh_consumed_liquidity u s)
unfolding refresh_consumed_liquidity
refresh_consumed_liquidity-IsBooked c u s i = record {
  within = i.within;
  balanced = i.balanced;
  fit = i.fit;
  idle = i.idle;
}
