-- ===== src/Capture/Backoff.antt =====
-- `class ReconnectBackoff` of market_engine/market_data/l2_capture.py.
use market_systems_workstati.Base.{
  ◌≡◌, ap, sym, subst, Bool, true, false, not, ◌||◌, List, [], ◌∷◌, arith, Result, ok, err, Error,
  if◌then◌else◌, Bool-cases, inl, inr, All,
}
use market_systems_workstati.Floats.{Floats, of_nat, zero_float, min_float}

module _ (fl : Floats) where
  open fl use {Float, mul, less, less_eq, is_finite}

  pub record ReconnectBackoff : Type 0 where
    pub initial_delay_seconds : Float
    pub maximum_delay_seconds : Float
    pub current_delay_seconds : Float

  -- `ReconnectBackoff(initial, maximum)`
  unfoldable pub make_backoff : Float → Float → Result ReconnectBackoff
  make_backoff initial maximum =
      if not (is_finite initial) || less_eq initial (zero_float fl)
      then err Error.bad_initial_delay
      else if not (is_finite maximum) || less maximum initial
      then err Error.bad_maximum_delay
      else ok (record {
        initial_delay_seconds = initial;
        maximum_delay_seconds = maximum;
        current_delay_seconds = initial;
      })

  -- `consume`: the delay, and the state after it.
  unfoldable pub consume : ReconnectBackoff → Float × ReconnectBackoff
  consume b = (
    b.current_delay_seconds,
    record b {
      current_delay_seconds =
          min_float fl (mul b.current_delay_seconds (of_nat fl 2)) b.maximum_delay_seconds;
    },
  )

  abbrev pub reset_backoff : ReconnectBackoff → ReconnectBackoff
  reset_backoff b = record b { current_delay_seconds = b.initial_delay_seconds }

  -- The attempts of a run of the client: each ends in a delay, and may have opened the transport, which
  -- resets the schedule.
  unfoldable pub delays : List Bool → ReconnectBackoff → List Float
  unfolding consume
  delays [] b = []
  delays (opened ∷ rest) b =
      let (delay, after) = consume (if opened then reset_backoff b else b) in
      delay ∷ delays rest after

  -- What IEEE comparison and doubling do: a float is not below itself; a finite one that is not at most
  -- zero is above it; doubling one that is not below a positive float leaves it not below.
  pub record IsOrdered : Type 0 where
    pub irreflexive : (x : Float) → less x x ≡ false
    pub positive :
        (x : Float)
        → is_finite x ≡ true
        → less_eq x (zero_float fl) ≡ false
        → less (zero_float fl) x ≡ true
    pub doubled :
        (x y : Float)
        → less (zero_float fl) y ≡ true
        → less x y ≡ false
        → less (mul x (of_nat fl 2)) y ≡ false

  -- Neither below the initial delay nor above the maximum.
  abbrev pub Between : Float → Float → Float → Type 0
  Between low high x = (less x low ≡ false) × (less high x ≡ false)

  record IsScheduled (low high : Float) (b : ReconnectBackoff) : Type 0 where
    initial : b.initial_delay_seconds ≡ low
    maximum : b.maximum_delay_seconds ≡ high
    current : Between low high b.current_delay_seconds

  module _ (o : IsOrdered) (low high : Float) (above_zero : less (zero_float fl) low ≡ true)
      (wide : less high low ≡ false) where
    min_float-Between : (x : Float) → less x low ≡ false → Between low high (min_float fl x high)
    min_float-Between x h = elim (Bool-cases (less high x)) [
      | inl beyond ↦ rw beyond (wide, o.irreflexive high)
      | inr within ↦ rw within (h, within)
    ]

    consume-IsScheduled :
        (b : ReconnectBackoff) → IsScheduled low high b → IsScheduled low high (consume b).1
    unfolding consume
    consume-IsScheduled b s = record {
      initial = s.initial;
      maximum = s.maximum;
      current =
          subst (Between low high)
            (ap (min_float fl (mul b.current_delay_seconds (of_nat fl 2))) (sym s.maximum))
            (min_float-Between (mul b.current_delay_seconds (of_nat fl 2))
              (o.doubled b.current_delay_seconds low above_zero s.current.0));
    }

    begun-IsScheduled :
        (opened : Bool) (b : ReconnectBackoff)
        → IsScheduled low high b
        → IsScheduled low high (if opened then reset_backoff b else b)
    begun-IsScheduled false b s = s
    begun-IsScheduled true b s = record {
      initial = s.initial;
      maximum = s.maximum;
      current = subst (Between low high) (sym s.initial) (o.irreflexive low, wide);
    }

    delays-Between :
        (opens : List Bool) (b : ReconnectBackoff)
        → IsScheduled low high b
        → All (Between low high) (delays opens b)
    unfolding delays consume
    delays-Between [] b s = tt
    delays-Between (opened ∷ rest) b s =
        let t = begun-IsScheduled opened b s in
        (t.current, delays-Between rest _ (consume-IsScheduled _ t))

  make_backoff_parts :
      (initial maximum : Float) (b : ReconnectBackoff)
      → make_backoff initial maximum ≡ ok b
      → (is_finite initial ≡ true)
        × ((less_eq initial (zero_float fl) ≡ false)
            × ((less maximum initial ≡ false)
                × ((b.initial_delay_seconds ≡ initial)
                    × ((b.maximum_delay_seconds ≡ maximum) × (b.current_delay_seconds ≡ initial)))))
  unfolding make_backoff
  make_backoff_parts initial maximum b h = ground (arith, h)

  -- If floats are ordered and doubled as IEEE says, then a schedule that the constructor accepted gives
  -- no delay below the initial one and none above the maximum, whichever attempts opened the transport.
  pub make_backoff-delays :
      (o : IsOrdered) (initial maximum : Float) (b : ReconnectBackoff) (opens : List Bool)
      → make_backoff initial maximum ≡ ok b
      → All (Between initial maximum) (delays opens b)
  make_backoff-delays o initial maximum b opens h =
      let (finite, (above, (wide, (same_initial, (same_maximum, same_current))))) =
        make_backoff_parts initial maximum b h in
      delays-Between o initial maximum (o.positive initial finite above) wide opens b (record {
        initial = same_initial;
        maximum = same_maximum;
        current = subst (Between initial maximum) (sym same_current) (o.irreflexive initial, wide);
      })
