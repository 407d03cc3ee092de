-- ===== src/Sim/Settling/Timed.antt =====
-- `_process_controls` of market_engine/execution/simulator.py: no control is ready when it returns, since the
-- pending controls are kept in the order in which they arrive.
use market_systems_workstati.Base.{
  ℕ, zero, suc, ◌+◌, ◌≤◌, ◌≡◌, refl, Bool, true, false, not, ◌||◌, Option, none, some, List, [],
  ◌∷◌, ◌++◌, arith, ltb, All, Bool-cases, inl, inr, ◌⊎◌, Result, ok, err, Error, then_do-keeps,
  either-keeps, list_eq,
}
use market_systems_workstati.Floats.{Floats}
use market_systems_workstati.Sim.Types.{OrderRequest, CancelRequest, option_beq}
use market_systems_workstati.Sim.State.{Config, Simulator, make_simulator}
use market_systems_workstati.Sim.Submit.{submit, cancel, order_arrival, is_pending}
use market_systems_workstati.Base.Dict.{lookup}
use market_systems_workstati.Book.Views.{is_some}
use market_systems_workstati.Book.Types.{uint64_max}
use market_systems_workstati.Sim.Lifecycle.{expire_orders}
use market_systems_workstati.Sim.Controls.{
  run_control, control_loop, control_is_ready, process_controls, next_order, next_cancel, earliest,
}
use market_systems_workstati.Sim.Settling.{
  waits, IsTimed, queued-IsTimed, activate_next-IsTimed, cancel_next-IsTimed,
}
use market_systems_workstati.Sim.Settling.Sorted.{sorted_requests, sorted_cancels}
use market_systems_workstati.Sim.Settling.Popping.{InOrder, decided}
use market_systems_workstati.Sim.Settling.Queued.{IsQueued, expire_orders-IsQueued}
use market_systems_workstati.Sim.Settling.Rounds.{
  IsDone, process_controls-IsDone, Begins, begins, loop_done, loop_failed, loop_goes_on,
}

module _ (fl : Floats) (c : Config fl.Float) where
  open fl use {Float}

  submit-IsTimed :
      (r : OrderRequest) (s : Simulator Float) → IsTimed fl c s → IsTimed fl c (submit c r s).1
  unfolding submit
  submit-IsTimed r s t =
      either-keeps (IsTimed fl c)
        (is_some (lookup ⦃e = list_eq⦄ r.order_id s.orders)
          || is_pending r.order_id s.pending_requests)
        _ _ t
        (record { requests = sorted_requests (s.pending_requests ++ r ∷ []); cancels = t.cancels })

  cancel-IsTimed :
      (r : CancelRequest) (s : Simulator Float) → IsTimed fl c s → IsTimed fl c (cancel c r s).1
  unfolding cancel
  cancel-IsTimed r s t =
      let arrival = r.decision_timestamp_ns + c.cancel_latency_ns in
      either-keeps (IsTimed fl c) (ltb uint64_max arrival) _ _ t (record {
        requests = t.requests;
        cancels = sorted_cancels (s.pending_cancels ++ (arrival, r) ∷ []);
      })

  run_control-IsTimed :
      (order_at : Option ℕ) (now : ℕ) (s : Simulator Float)
      → IsTimed fl c s
      → IsTimed fl c (run_control fl c order_at now s).1
  unfolding run_control
  run_control-IsTimed order_at now s t =
      let s' : Simulator Float = expire_orders now false s in
      let q =
        expire_orders-IsQueued s.pending_requests s.pending_cancels now false s
          (record { requests = refl; cancels = refl }) in
      let t' = queued-IsTimed fl c s.pending_requests s.pending_cancels s' t.requests t.cancels q in
      elim (Bool-cases (option_beq order_at now)) [
        | inl order_first ↦
            rw (order_first, run_control)
              (activate_next-IsTimed fl c now s'.pending_requests s' t'.requests t')
        | inr cancel_first ↦
            rw (cancel_first, run_control)
              (cancel_next-IsTimed fl c s'.pending_cancels s' t'.cancels t')
      ]

  control_loop-IsTimed :
      (rounds now : ℕ) (inclusive : Bool) (s : Simulator Float)
      → IsTimed fl c s
      → IsTimed fl c (control_loop fl c rounds now inclusive s).1
  unfolding control_loop
  control_loop-IsTimed zero now inclusive s t = t
  control_loop-IsTimed (suc rounds) now inclusive s t = elim (begins fl c now inclusive s) [
    | Begins.done w ↦ rw (loop_done fl c (suc rounds) now inclusive s w) t
    | Begins.failed e wrong ↦ rw (loop_failed fl c rounds now inclusive s e wrong) t
    | Begins.goes_on order_at arrival read first ready ↦
        rw (loop_goes_on fl c rounds now inclusive s order_at arrival read first ready) (
          then_do-keeps (IsTimed fl c) (run_control fl c order_at arrival s) _
            (run_control-IsTimed order_at arrival s t)
            (λ _.
              control_loop-IsTimed rounds now inclusive _
                (run_control-IsTimed order_at arrival s t)))
  ]

  -- When an order arrives.
  abbrev arrival_time : OrderRequest → ℕ
  arrival_time r = r.decision_timestamp_ns + c.decision_latency_ns + c.transmission_latency_ns

  -- No pending order and no pending cancel, wherever it stands, has an arrival that is ready.
  abbrev NoneReady : ℕ → Bool → List OrderRequest → List (ℕ × CancelRequest) → Type 0
  NoneReady now inclusive rs cs =
      All (λ r. control_is_ready fl c (arrival_time r) now inclusive ≡ false) rs
      × All (λ p. control_is_ready fl c p.0 now inclusive ≡ false) cs

  later_unready :
      (n m now : ℕ) (inclusive : Bool)
      → n ≤ m
      → control_is_ready fl c n now inclusive ≡ false
      → control_is_ready fl c m now inclusive ≡ false
  later_unready n m now inclusive h k = ground (arith, h, k)

  all_unready :
      {A : Type 0} (key time : A → ℕ) (x : A) (xs : List A) (now : ℕ) (inclusive : Bool)
      → ((y : A) → key x ≤ key y → time x ≤ time y)
      → control_is_ready fl c (time x) now inclusive ≡ false
      → All (λ y. key x ≤ key y) xs
      → All (λ y. control_is_ready fl c (time y) now inclusive ≡ false) xs
  all_unready key time x [] now inclusive grows h a = tt
  all_unready key time x (y ∷ ys) now inclusive grows h a = (
    later_unready (time x) (time y) now inclusive (grows y a.0) h,
    all_unready key time x ys now inclusive grows h a.1,
  )

  -- The test that ends the loop, on the two lists.
  abbrev ends : ℕ → Bool → List OrderRequest → List (ℕ × CancelRequest) → Bool
  ends now inclusive rs cs = elim (next_order fl c rs) [
    | err e ↦ false
    | ok order_at ↦ elim (earliest fl c order_at (next_cancel fl c cs)) [
      | none ↦ true
      | some arrival ↦ not (control_is_ready fl c arrival now inclusive)
    ]
  ]

  first_order_unready :
      (now : ℕ) (inclusive : Bool) (r : OrderRequest) (rs : List OrderRequest)
      (cs : List (ℕ × CancelRequest))
      → ends now inclusive (r ∷ rs) cs ≡ true
      → control_is_ready fl c (arrival_time r) now inclusive ≡ false
  unfolding next_order order_arrival
  first_order_unready now inclusive r rs [] h = ground (arith, h)
  first_order_unready now inclusive r rs (x ∷ cs) h = ground (arith, h)

  first_cancel_unready :
      (now : ℕ) (inclusive : Bool) (rs : List OrderRequest) (x : ℕ × CancelRequest)
      (cs : List (ℕ × CancelRequest))
      → ends now inclusive rs (x ∷ cs) ≡ true
      → control_is_ready fl c x.0 now inclusive ≡ false
  unfolding next_order order_arrival
  first_cancel_unready now inclusive [] x cs h = ground (arith, h)
  first_cancel_unready now inclusive (r ∷ rs) x cs h = ground (arith, h)

  requests_unready :
      (now : ℕ) (inclusive : Bool) (rs : List OrderRequest) (cs : List (ℕ × CancelRequest))
      → ends now inclusive rs cs ≡ true
      → InOrder decided rs
      → All (λ r. control_is_ready fl c (arrival_time r) now inclusive ≡ false) rs
  requests_unready now inclusive [] cs h o = tt
  requests_unready now inclusive (r ∷ rs) cs h o =
      let first = first_order_unready now inclusive r rs cs h in
      (
        first,
        all_unready decided arrival_time r rs now inclusive (λ y k. omega (arith, k)) first o.0,
      )

  cancels_unready :
      (now : ℕ) (inclusive : Bool) (rs : List OrderRequest) (cs : List (ℕ × CancelRequest))
      → ends now inclusive rs cs ≡ true
      → InOrder (λ p. p.0) cs
      → All (λ p. control_is_ready fl c p.0 now inclusive ≡ false) cs
  cancels_unready now inclusive rs [] h o = tt
  cancels_unready now inclusive rs (x ∷ cs) h o =
      let first = first_cancel_unready now inclusive rs x cs h in
      (first, all_unready (λ p. p.0) (λ p. p.0) x cs now inclusive (λ y k. k) first o.0)

  waits-NoneReady :
      (now : ℕ) (inclusive : Bool) (s : Simulator Float)
      → IsTimed fl c s
      → waits fl c now inclusive s ≡ true
      → NoneReady now inclusive s.pending_requests s.pending_cancels
  unfolding waits
  waits-NoneReady now inclusive s t h = (
    requests_unready now inclusive s.pending_requests s.pending_cancels h t.requests,
    cancels_unready now inclusive s.pending_requests s.pending_cancels h t.cancels,
  )

  -- How a call ends: without a raise and with no control left that is ready, or with a raise.
  abbrev pub IsSettled : ℕ → Bool → Result (Unit {0}) × Simulator Float → Type 0
  IsSettled now inclusive (r, s) =
      ((r ≡ ok tt) × NoneReady now inclusive s.pending_requests s.pending_cancels)
      ⊎ ((e : Error) × (r ≡ err e))

  -- A simulator that was made, and given orders and cancels; controls were processed, some of these calls may
  -- have raised, and other steps left the pending controls as they were.
  pub data Scheduled : Simulator Float → Type 0 where
    fresh : Scheduled (make_simulator fl)
    submitted : (r : OrderRequest) {s : Simulator Float} → Scheduled s → Scheduled (submit c r s).1
    cancelled : (r : CancelRequest) {s : Simulator Float} → Scheduled s → Scheduled (cancel c r s).1
    processed :
        (now : ℕ) (inclusive : Bool) {s : Simulator Float}
        → Scheduled s
        → Scheduled (process_controls fl c now inclusive s).1
    queued :
        {s t : Simulator Float}
        → IsQueued s.pending_requests s.pending_cancels t
        → Scheduled s
        → Scheduled t

  Scheduled-IsTimed : {s : Simulator Float} → Scheduled s → IsTimed fl c s
  unfolding process_controls
  Scheduled-IsTimed fresh = record { requests = tt; cancels = tt }
  Scheduled-IsTimed (submitted r {s = s} h) = submit-IsTimed r s (Scheduled-IsTimed h)
  Scheduled-IsTimed (cancelled r {s = s} h) = cancel-IsTimed r s (Scheduled-IsTimed h)
  Scheduled-IsTimed (processed now inclusive {s = s} h) =
      control_loop-IsTimed _ now inclusive s (Scheduled-IsTimed h)
  Scheduled-IsTimed (queued {s = s} {t = t} q h) =
      let timed = Scheduled-IsTimed h in
      queued-IsTimed fl c s.pending_requests s.pending_cancels t timed.requests timed.cancels q

  settle_done :
      (now : ℕ) (inclusive : Bool) (m : Result (Unit {0}) × Simulator Float)
      → IsTimed fl c m.1
      → IsDone fl c now inclusive m
      → IsSettled now inclusive m
  settle_done now inclusive (r, s) t (inl (done, w)) =
      inl (done, waits-NoneReady now inclusive s t w)
  settle_done now inclusive (r, s) t (inr raised) = inr raised

  -- After any orders and cancels were submitted and any controls processed, `_process_controls` raises, or
  -- returns with no pending order or cancel, wherever it stands in its list, whose arrival is ready at the
  -- given time.
  pub process_controls-IsSettled :
      (now : ℕ) (inclusive : Bool) (s : Simulator Float)
      → Scheduled s
      → IsSettled now inclusive (process_controls fl c now inclusive s)
  process_controls-IsSettled now inclusive s h =
      settle_done now inclusive (process_controls fl c now inclusive s)
        (Scheduled-IsTimed (Scheduled.processed now inclusive h))
        (process_controls-IsDone fl c now inclusive s)
