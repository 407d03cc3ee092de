-- ===== src/Sim/Settling/Rounds.antt =====
-- The rounds of the loop of `_process_controls` (market_engine/execution/simulator.py): each takes a
-- control away, so as many rounds as there are controls are enough.
use market_systems_workstati.Base.{
  ℕ, zero, suc, ◌+◌, ◌≤◌, ◌<◌, ◌≡◌, refl, sym, ◌∙◌, Bool, true, false, Option, none, some, List, [],
  ◌∷◌, arith, length, Bool-cases, Option-cases, Result-cases, inl, inr, ◌⊎◌, Result, ok, err, Error,
  then_do, ap,
}
use market_systems_workstati.Floats.{Floats}
use market_systems_workstati.Sim.Types.{OrderRequest, CancelRequest, option_beq}
use market_systems_workstati.Sim.State.{Config, Simulator}
use market_systems_workstati.Sim.Lifecycle.{expire_orders}
use market_systems_workstati.Sim.Controls.{
  activate_next, cancel_next, run_control, control_loop, next_order, earliest, next_cancel,
  control_is_ready, process_controls,
}
use market_systems_workstati.Sim.Settling.{
  pending, waits, activate_next-pending, cancel_next-pending,
}
use market_systems_workstati.Sim.Settling.Queued.{expire_orders-IsQueued}

length_zero : {A : Type 0} (xs : List A) → length xs ≤ 0 → xs ≡ []
length_zero [] h = refl
length_zero (x ∷ xs) h = absurd (omega (arith, h))

then_do-eq :
    {S A B : Type 0} (m : Result A × S) (f g : A → S → Result B × S)
    → ((a : A) → f a m.1 ≡ g a m.1)
    → then_do m f ≡ then_do m g
then_do-eq (ok a, s) f g h = h a
then_do-eq (err e, s) f g h = refl

module _ (fl : Floats) (c : Config fl.Float) where
  open fl use {Float}

  activate_shrinks :
      (now : ℕ) (rs : List OrderRequest) (s : Simulator Float)
      → 0 < length rs
      → pending (activate_next fl c now rs s).1 < length rs + length s.pending_cancels
  activate_shrinks now [] s h = absurd (omega (arith, h))
  activate_shrinks now (r ∷ rs) s h = omega (arith, activate_next-pending fl c now r rs s)

  cancel_shrinks :
      (cs : List (ℕ × CancelRequest)) (s : Simulator Float)
      → 0 < length cs
      → pending (cancel_next fl c cs s).1 < length s.pending_requests + length cs
  cancel_shrinks [] s h = absurd (omega (arith, h))
  cancel_shrinks ((arrival, r) ∷ cs) s h = omega (arith, cancel_next-pending fl c arrival r cs s)

  some_request :
      (rs : List OrderRequest) (order_at : Option ℕ) (arrival : ℕ)
      → next_order fl c rs ≡ ok order_at
      → option_beq order_at arrival ≡ true
      → 0 < length rs
  unfolding next_order
  some_request [] order_at arrival e h = absurd (ground arith)
  some_request (r ∷ rs) order_at arrival e h = omega arith

  some_cancel :
      (order_at : Option ℕ) (cs : List (ℕ × CancelRequest)) (arrival : ℕ)
      → earliest fl c order_at (next_cancel fl c cs) ≡ some arrival
      → option_beq order_at arrival ≡ false
      → 0 < length cs
  some_cancel order_at (x ∷ cs) arrival e h = omega arith
  some_cancel none [] arrival e h = absurd (ground arith)
  some_cancel (some a) [] arrival e h = absurd (ground arith)

  run_control-shrinks :
      (order_at : Option ℕ) (arrival : ℕ) (s : Simulator Float)
      → next_order fl c s.pending_requests ≡ ok order_at
      → earliest fl c order_at (next_cancel fl c s.pending_cancels) ≡ some arrival
      → pending (run_control fl c order_at arrival s).1 < pending s
  unfolding run_control
  run_control-shrinks order_at arrival s e h =
      let s' : Simulator Float = expire_orders arrival false s in
      let q =
        expire_orders-IsQueued s.pending_requests s.pending_cancels arrival false s
          (record { requests = refl; cancels = refl }) in
      let same_requests = ap (λ rs. length rs) q.requests in
      let same_cancels = ap (λ cs. length cs) q.cancels in
      elim (Bool-cases (option_beq order_at arrival)) [
        | inl order_first ↦
            rw (order_first, run_control)
              (omega (
                arith,
                same_requests,
                same_cancels,
                activate_shrinks arrival s'.pending_requests s' (
                    omega (
                      arith,
                      same_requests,
                      some_request s.pending_requests order_at arrival e order_first,
                    )),
              ))
        | inr cancel_first ↦
            rw (cancel_first, run_control)
              (omega (
                arith,
                same_requests,
                same_cancels,
                cancel_shrinks s'.pending_cancels s' (
                    omega (
                      arith,
                      same_cancels,
                      some_cancel order_at s.pending_cancels arrival h cancel_first,
                    )),
              ))
      ]

  -- What a call of the loop comes to: it raised, or the test that ends the loop holds.
  abbrev pub IsDone : ℕ → Bool → Result (Unit {0}) × Simulator Float → Type 0
  IsDone now inclusive (r, s) =
      ((r ≡ ok tt) × (waits fl c now inclusive s ≡ true)) ⊎ ((e : Error) × (r ≡ err e))

  -- The three ways a round can begin.
  pub data Begins (now : ℕ) (inclusive : Bool) (s : Simulator Float) : Type 0 where
    done : waits fl c now inclusive s ≡ true → Begins now inclusive s
    failed : (e : Error) → next_order fl c s.pending_requests ≡ err e → Begins now inclusive s
    goes_on :
        (order_at : Option ℕ) (arrival : ℕ)
        → next_order fl c s.pending_requests ≡ ok order_at
        → earliest fl c order_at (next_cancel fl c s.pending_cancels) ≡ some arrival
        → control_is_ready fl c arrival now inclusive ≡ true
        → Begins now inclusive s

  pub begins : (now : ℕ) (inclusive : Bool) (s : Simulator Float) → Begins now inclusive s
  unfolding waits
  begins now inclusive s = elim (Result-cases (next_order fl c s.pending_requests)) [
    | inr (e, wrong) ↦ Begins.failed e wrong
    | inl (order_at, read) ↦
        elim (Option-cases (earliest fl c order_at (next_cancel fl c s.pending_cancels))) [
          | inl no_control ↦ Begins.done (rw (read, no_control, waits) refl)
          | inr (arrival, first) ↦ elim (Bool-cases (control_is_ready fl c arrival now inclusive)) [
            | inl ready ↦ Begins.goes_on order_at arrival read first ready
            | inr later ↦ Begins.done (rw (read, first, later, waits) refl)
          ]
        ]
  ]

  pub loop_done :
      (rounds now : ℕ) (inclusive : Bool) (s : Simulator Float)
      → waits fl c now inclusive s ≡ true
      → control_loop fl c rounds now inclusive s ≡ (ok tt, s)
  unfolding control_loop waits
  loop_done zero now inclusive s w = refl
  loop_done (suc rounds) now inclusive s w = ground arith

  pub loop_failed :
      (rounds now : ℕ) (inclusive : Bool) (s : Simulator Float) (e : Error)
      → next_order fl c s.pending_requests ≡ err e
      → control_loop fl c (suc rounds) now inclusive s ≡ (err e, s)
  unfolding control_loop
  loop_failed rounds now inclusive s e h = rw (h, control_loop) refl

  pub loop_goes_on :
      (rounds now : ℕ) (inclusive : Bool) (s : Simulator Float) (order_at : Option ℕ) (arrival : ℕ)
      → next_order fl c s.pending_requests ≡ ok order_at
      → earliest fl c order_at (next_cancel fl c s.pending_cancels) ≡ some arrival
      → control_is_ready fl c arrival now inclusive ≡ true
      → control_loop fl c (suc rounds) now inclusive s
        ≡ then_do
            (run_control fl c order_at arrival s)
            (λ _ s'. control_loop fl c rounds now inclusive s')
  unfolding control_loop
  loop_goes_on rounds now inclusive s order_at arrival read first ready =
      rw (read, first, ready, control_loop) refl

  nothing_pending :
      (now : ℕ) (inclusive : Bool) (s : Simulator Float)
      → pending s ≤ 0
      → waits fl c now inclusive s ≡ true
  unfolding waits next_order
  nothing_pending now inclusive s h =
      rw
        (
          length_zero s.pending_requests (omega (arith, h)),
          length_zero s.pending_cancels (omega (arith, h)),
          waits,
        )
        refl

  loop_stops :
      (rounds now : ℕ) (inclusive : Bool) (s : Simulator Float)
      → waits fl c now inclusive s ≡ true
      → IsDone now inclusive (control_loop fl c rounds now inclusive s)
  loop_stops rounds now inclusive s w = rw (loop_done rounds now inclusive s w) (inl (refl, w))

  IsDone-then_do :
      (now : ℕ) (inclusive : Bool) (m : Result (Unit {0}) × Simulator Float)
      (f : Unit {0} → Simulator Float → Result (Unit {0}) × Simulator Float)
      → IsDone now inclusive (f tt m.1)
      → IsDone now inclusive (then_do m f)
  IsDone-then_do now inclusive (ok tt, s) f h = h
  IsDone-then_do now inclusive (err e, s) f h = inr (e, refl)

  control_loop-IsDone :
      (rounds now : ℕ) (inclusive : Bool) (s : Simulator Float)
      → pending s ≤ rounds
      → IsDone now inclusive (control_loop fl c rounds now inclusive s)
  control_loop-IsDone zero now inclusive s h =
      loop_stops zero now inclusive s (nothing_pending now inclusive s h)
  control_loop-IsDone (suc rounds) now inclusive s h = elim (begins now inclusive s) [
    | Begins.done w ↦ loop_stops (suc rounds) now inclusive s w
    | Begins.failed e wrong ↦ rw (loop_failed rounds now inclusive s e wrong) (inr (e, refl))
    | Begins.goes_on order_at arrival read first ready ↦
        rw (loop_goes_on rounds now inclusive s order_at arrival read first ready) (
          IsDone-then_do now inclusive (run_control fl c order_at arrival s) _ (
            control_loop-IsDone rounds now inclusive _
              (omega (arith, h, run_control-shrinks order_at arrival s read first))))
  ]

  control_loop_rounds :
      (n m now : ℕ) (inclusive : Bool) (s : Simulator Float)
      → pending s ≤ n
      → pending s ≤ m
      → control_loop fl c n now inclusive s ≡ control_loop fl c m now inclusive s
  control_loop_rounds zero m now inclusive s h k =
      let w = nothing_pending now inclusive s h in
      loop_done zero now inclusive s w ∙ sym (loop_done m now inclusive s w)
  control_loop_rounds (suc n) zero now inclusive s h k =
      let w = nothing_pending now inclusive s k in
      loop_done (suc n) now inclusive s w ∙ sym (loop_done zero now inclusive s w)
  control_loop_rounds (suc n) (suc m) now inclusive s h k = elim (begins now inclusive s) [
    | Begins.done w ↦
        loop_done (suc n) now inclusive s w ∙ sym (loop_done (suc m) now inclusive s w)
    | Begins.failed e wrong ↦
        loop_failed n now inclusive s e wrong ∙ sym (loop_failed m now inclusive s e wrong)
    | Begins.goes_on order_at arrival read first ready ↦
        let less = run_control-shrinks order_at arrival s read first in
        loop_goes_on n now inclusive s order_at arrival read first ready
        ∙ then_do-eq (run_control fl c order_at arrival s) _ _ (λ _.
          control_loop_rounds n m now inclusive _ (omega (arith, h, less)) (omega (arith, k, less)))
        ∙ sym (loop_goes_on m now inclusive s order_at arrival read first ready)
  ]

  pub process_controls-IsDone :
      (now : ℕ) (inclusive : Bool) (s : Simulator Float)
      → IsDone now inclusive (process_controls fl c now inclusive s)
  unfolding process_controls
  process_controls-IsDone now inclusive s = control_loop-IsDone _ now inclusive s (omega arith)

  -- More rounds than `process_controls` allows the loop change nothing: it ends by itself.
  pub process_controls_ends :
      (extra now : ℕ) (inclusive : Bool) (s : Simulator Float)
      → control_loop fl c (pending s + extra) now inclusive s
        ≡ process_controls fl c now inclusive s
  unfolding process_controls
  process_controls_ends extra now inclusive s =
      control_loop_rounds _ _ now inclusive s (omega arith) (omega arith)
