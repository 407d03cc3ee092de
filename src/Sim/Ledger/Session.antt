-- ===== src/Sim/Ledger/Session.antt =====
-- `run` of market_engine/execution/simulator.py, from submission to its result: the invariant holds at
-- every point, and the result shows it.
use market_systems_workstati.Recording.File.{Yielded}
use market_systems_workstati.Base.{
  ℕ, zero, suc, ◌+◌, ◌≡◌, refl, sym, ap, ◌∙◌, Bool, true, false, not, ◌||◌, List, [], ◌∷◌, arith,
  ◌==◌, nat_eq, list_eq, if◌then◌else◌, Bool-cases, Result-cases, inl, inr, leb, ltb, err, Error,
  then_do-keeps, either-keeps,
}
use market_systems_workstati.Base.Int.{◌+ℤ◌}
use market_systems_workstati.Base.Dict.{Dict, lookup, insert}
use market_systems_workstati.Book.Views.{is_some}
use market_systems_workstati.Book.Types.{Snapshot, DepthUpdate, uint64_max}
use market_systems_workstati.Book.{
  Book, best_bid, best_ask, install_snapshot as install_book, apply,
}
use market_systems_workstati.Recording.Event.{L2Event, receipt_of}
use market_systems_workstati.Floats.{Floats}
use market_systems_workstati.Sim.Types.{OrderRequest, CancelRequest, Fill, Reason}
use market_systems_workstati.Sim.State.{Config, Simulator, make_simulator}
use market_systems_workstati.Sim.Submit.{
  is_pending, submit, cancel, order_arrival, expiry_timestamp,
}
use market_systems_workstati.Sim.Passive.{process_depth_depletion}
use market_systems_workstati.Sim.Controls.{process_controls}
use market_systems_workstati.Sim.Run.{
  complete_horizons, complete_at, complete_markouts, update_mid, on_book, process_boundary,
  process_snapshot, process_depth, process_event, process_tick, process_events, finalize_each,
  finalize_pending, replay, run, markout,
}
use market_systems_workstati.Sim.Ledger.{IsBooked, net, signed, put_order-IsBooked}
use market_systems_workstati.Sim.Ledger.Maker.{
  process_trade-IsBooked, process_depth_depletion-IsBooked, refresh_consumed_liquidity-IsBooked,
}
use market_systems_workstati.Sim.Ledger.Timeline.{
  expire_orders-IsBooked, cancel_all-IsBooked, check_kill_switch-IsBooked,
  process_controls-IsBooked,
}

module _ (fl : Floats) (c : Config fl.Float) where
  open fl use {Float}

  marked-signed :
      (b : Bool) (f : Fill Float) (marks : Dict ℕ Float)
      → let g = if b then f else record f { markouts_bps = marks } in
        signed g.side g.quantity ≡ signed f.side f.quantity
  marked-signed true f marks = refl
  marked-signed false f marks = refl

  -- Markouts change no quantity and no side.
  complete_horizons-signed :
      (mid : Float) (now : ℕ) (hs : List ℕ) (f : Fill Float)
      → let g = complete_horizons fl c mid now hs f in
        signed g.side g.quantity ≡ signed f.side f.quantity
  complete_horizons-signed mid now [] f = refl
  complete_horizons-signed mid now (h ∷ hs) f =
      complete_horizons-signed mid now hs _
      ∙ marked-signed (is_some (lookup h f.markouts_bps) || ltb now (f.timestamp_ns + h)) f
          (insert h (markout fl c mid f) f.markouts_bps)

  net-complete_at :
      (mid : Float) (now i : ℕ) (fs : List (Fill Float))
      → net (complete_at fl c mid now i fs) ≡ net fs
  net-complete_at mid now i [] = refl
  net-complete_at mid now zero (f ∷ fs) =
      ap (λ n. n +ℤ net fs) (complete_horizons-signed mid now c.markout_horizons_ns f)
  net-complete_at mid now (suc i) (f ∷ fs) =
      ap (λ n. signed f.side f.quantity +ℤ n) (net-complete_at mid now i fs)

  net-complete_markouts :
      (mid : Float) (now : ℕ) (is remaining : List ℕ) (fs : List (Fill Float))
      → net (complete_markouts fl c mid now is remaining fs).1 ≡ net fs
  net-complete_markouts mid now [] remaining fs = refl
  net-complete_markouts mid now (i ∷ is) remaining fs =
      net-complete_markouts mid now is _ _ ∙ net-complete_at mid now i fs

  update_mid-IsBooked :
      (now : ℕ) (s : Simulator Float) → IsBooked c s → IsBooked c (update_mid fl c now s).1
  unfolding update_mid
  update_mid-IsBooked now s i = elim (Bool-cases (s.book.last_update_id == 0)) [
    | inl no_book ↦ rw (no_book, update_mid) i
    | inr ready ↦ elim (Result-cases (best_bid s.book)) [
      | inr (e, failed) ↦ rw (ready, failed, update_mid) i
      | inl (bid, read) ↦ elim (Result-cases (best_ask s.book)) [
        | inr (e, failed) ↦ rw (ready, read, failed, update_mid) i
        | inl (ask, found) ↦
            rw (ready, read, found, update_mid)
              (record {
                within = i.within;
                balanced =
                    i.balanced ∙ sym (net-complete_markouts _ now s.pending_markouts [] s.fills);
                fit = i.fit;
                idle = i.idle;
              })
      ]
    ]
  ]

  -- The invariant speaks neither of the book nor of what was consumed.
  IsBooked-elsewhere :
      (b : Book) (s : Simulator Float) → IsBooked c s → IsBooked c (record s { book = b })
  IsBooked-elsewhere b s i = record {
    within = i.within;
    balanced = i.balanced;
    fit = i.fit;
    idle = i.idle;
  }

  process_boundary-IsBooked :
      (s : Simulator Float) → IsBooked c s → IsBooked c (process_boundary fl c s)
  unfolding process_boundary
  process_boundary-IsBooked s i =
      let j = cancel_all-IsBooked c Reason.market_data_boundary s (i.within, i.balanced, i.fit) in
      record { within = j.within; balanced = j.balanced; fit = j.fit; idle = j.idle }

  process_snapshot-IsBooked :
      (e : Snapshot) (now : ℕ) (s : Simulator Float)
      → IsBooked c s
      → IsBooked c (process_snapshot fl c e now s).1
  unfolding process_snapshot
  process_snapshot-IsBooked e now s i =
      then_do-keeps (IsBooked c) (on_book fl c (install_book e) s) _ (IsBooked-elsewhere _ s i)
        (λ _.
          update_mid-IsBooked now
            (record (on_book fl c (install_book e) s).1 { consumed_liquidity = [] })
            (record { within = i.within; balanced = i.balanced; fit = i.fit; idle = i.idle }))

  process_depth-IsBooked :
      (e : DepthUpdate) (now : ℕ) (s : Simulator Float)
      → IsBooked c s
      → IsBooked c (process_depth fl c e now s).1
  unfolding process_depth
  process_depth-IsBooked e now s i =
      elim (Bool-cases (leb e.final_update_id s.book.last_update_id)) [
        | inl stale ↦ rw (stale, process_depth) i
        | inr fresh ↦ elim (Bool-cases (ltb (s.book.last_update_id + 1) e.first_update_id)) [
          | inl broken ↦ rw (fresh, broken, process_depth) i
          | inr joined ↦
              let d = process_depth_depletion-IsBooked fl c e s i in
              rw (fresh, joined, process_depth)
                (then_do-keeps (IsBooked c) (process_depth_depletion fl c e s) _ d (λ _.
                  let s₁ = (process_depth_depletion fl c e s).1 in
                  let b = IsBooked-elsewhere (apply e s₁.book).1 s₁ d in
                  then_do-keeps (IsBooked c) (on_book fl c (apply e) s₁) _ b
                    (λ _. update_mid-IsBooked now _ (refresh_consumed_liquidity-IsBooked c e _ b))))
        ]
      ]

  process_event-IsBooked :
      (e : L2Event) (now : ℕ) (s : Simulator Float)
      → IsBooked c s
      → IsBooked c (process_event fl c e now s).1
  unfolding process_event
  process_event-IsBooked (L2Event.boundary e) now s i = process_boundary-IsBooked s i
  process_event-IsBooked (L2Event.snapshot e) now s i = process_snapshot-IsBooked e now s i
  process_event-IsBooked (L2Event.depth e) now s i = process_depth-IsBooked e now s i
  process_event-IsBooked (L2Event.trade e) now s i = process_trade-IsBooked fl c e s i

  pub process_tick-IsBooked :
      (e : L2Event) (s : Simulator Float) → IsBooked c s → IsBooked c (process_tick fl c e s).1
  unfolding process_tick
  process_tick-IsBooked e s i =
      let a = process_controls-IsBooked fl c (receipt_of e) false s i in
      then_do-keeps (IsBooked c) (process_controls fl c (receipt_of e) false s) _ a (λ _.
        let b =
          process_event-IsBooked e (receipt_of e) _
            (expire_orders-IsBooked c (receipt_of e) false _ a) in
        then_do-keeps (IsBooked c) (process_event fl c e (receipt_of e) _) _ b (λ _.
          let d = process_controls-IsBooked fl c (receipt_of e) true _ b in
          then_do-keeps (IsBooked c) (process_controls fl c (receipt_of e) true _) _ d (λ _.
            check_kill_switch-IsBooked fl c _ (expire_orders-IsBooked c (receipt_of e) false _ d))))

  process_events-IsBooked :
      (es : List L2Event) (s : Simulator Float)
      → IsBooked c s
      → IsBooked c (process_events fl c es s).1
  unfolding process_events
  process_events-IsBooked [] s i = i
  process_events-IsBooked (e ∷ es) s i =
      let t = process_tick-IsBooked e s i in
      then_do-keeps (IsBooked c) (process_tick fl c e s) _ t (λ _. process_events-IsBooked es _ t)

  finalize_each-IsBooked :
      (rs : List OrderRequest) (s : Simulator Float)
      → IsBooked c s
      → IsBooked c (finalize_each fl c rs s).1
  unfolding finalize_each
  finalize_each-IsBooked [] s i = i
  finalize_each-IsBooked (r ∷ rs) s i = elim (Result-cases (order_arrival c r)) [
    | inr (e, failed) ↦ rw (failed, finalize_each) i
    | inl (arrival, arrives) ↦ elim (Result-cases (expiry_timestamp arrival r.time_to_live_ns)) [
      | inr (e, failed) ↦ rw (arrives, failed, finalize_each) i
      | inl (expiry, expires) ↦
          rw (arrives, expires, finalize_each)
            (finalize_each-IsBooked rs _ (put_order-IsBooked c _ s (omega arith) i))
    ]
  ]

  finalize_pending-IsBooked :
      (s : Simulator Float) → IsBooked c s → IsBooked c (finalize_pending fl c s).1
  unfolding finalize_pending
  finalize_pending-IsBooked s i =
      let f = finalize_each-IsBooked s.pending_requests s i in
      then_do-keeps (IsBooked c) (finalize_each fl c s.pending_requests s) _ f
        (λ _. record { within = f.within; balanced = f.balanced; fit = f.fit; idle = f.idle })

  replay-IsBooked :
      (y : Yielded) (s : Simulator Float) → IsBooked c s → IsBooked c (replay fl c y s).1
  unfolding replay
  replay-IsBooked (es, end) s i =
      let p = process_events-IsBooked es s i in
      then_do-keeps (IsBooked c) (process_events fl c es s) _ p (λ _.
        then_do-keeps (IsBooked c) (end, (process_events fl c es s).1) _ p
          (λ _.
            let f = finalize_pending-IsBooked _ (expire_orders-IsBooked c uint64_max true _ p) in
            then_do-keeps (IsBooked c) (finalize_pending fl c _) _ f (λ _. f)))

  -- A whole replay keeps the invariant, whether it returns or raises.
  pub run-IsBooked :
      (complete : Bool) (y : Yielded) (s : Simulator Float)
      → IsBooked c s
      → IsBooked c (run fl c complete y s).1
  unfolding run
  run-IsBooked complete y s i =
      let started : Simulator Float = record s { has_run = true } in
      let rest = replay fl c y started in
      either-keeps (IsBooked c) s.has_run (err Error.already_run, s)
        (if not complete then (err Error.incomplete_recording, s) else rest) i
        (either-keeps (IsBooked c) (not complete) (err Error.incomplete_recording, s) rest i
          (replay-IsBooked y started
            (record { within = i.within; balanced = i.balanced; fit = i.fit; idle = i.idle })))

  make_simulator-IsBooked : IsBooked c (make_simulator fl)
  make_simulator-IsBooked = record {
    within = omega arith;
    balanced = refl;
    fit = tt;
    idle = λ k. refl;
  }

  submit-IsBooked :
      (r : OrderRequest) (s : Simulator Float) → IsBooked c s → IsBooked c (submit c r s).1
  unfolding submit
  submit-IsBooked r s i =
      elim (Bool-cases
        (is_some (lookup r.order_id s.orders) || is_pending r.order_id s.pending_requests)) [
          | inl known ↦ rw (known, submit) i
          | inr new ↦
              rw (new, submit)
                (record { within = i.within; balanced = i.balanced; fit = i.fit; idle = i.idle })
        ]

  cancel-IsBooked :
      (r : CancelRequest) (s : Simulator Float) → IsBooked c s → IsBooked c (cancel c r s).1
  unfolding cancel
  cancel-IsBooked r s i =
      elim (Bool-cases (ltb uint64_max (r.decision_timestamp_ns + c.cancel_latency_ns))) [
        | inl late ↦ rw (late, cancel) i
        | inr fits ↦
            rw (fits, cancel)
              (record { within = i.within; balanced = i.balanced; fit = i.fit; idle = i.idle })
      ]

  -- A simulator that was only given orders and cancels.
  pub data IsPrepared : Simulator Float → Type 0 where
    fresh : IsPrepared (make_simulator fl)
    submitted :
        (r : OrderRequest) {s : Simulator Float} → IsPrepared s → IsPrepared (submit c r s).1
    cancelled :
        (r : CancelRequest) {s : Simulator Float} → IsPrepared s → IsPrepared (cancel c r s).1

  IsPrepared-IsBooked : {s : Simulator Float} → IsPrepared s → IsBooked c s
  IsPrepared-IsBooked fresh = make_simulator-IsBooked
  IsPrepared-IsBooked (submitted r {s = s} p) = submit-IsBooked r s (IsPrepared-IsBooked p)
  IsPrepared-IsBooked (cancelled r {s = s} p) = cancel-IsBooked r s (IsPrepared-IsBooked p)

  -- Whatever orders and cancels were submitted, and whatever the recording holds, after `run` (also if
  -- it raised) the absolute position is within its limit, the position is the sum of the recorded
  -- fills, no order has more filled than its quantity, and none is active if the kill switch tripped.
  pub run-prepared-IsBooked :
      (complete : Bool) (y : Yielded) {s : Simulator Float}
      → IsPrepared s
      → IsBooked c (run fl c complete y s).1
  run-prepared-IsBooked complete y {s} p = run-IsBooked complete y s (IsPrepared-IsBooked p)
