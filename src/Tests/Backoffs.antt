-- ===== src/Tests/Backoffs.antt =====
-- `ReconnectBackoff` (market_engine/market_data/l2_capture.py) on whole numbers.
use market_systems_workstati.Base.{◌*◌, ◌≡◌, refl, true, false, [], ◌∷◌, arith, ok, All}
use market_systems_workstati.Base.Int.{ℤ, pos, negsuc, ltb_ℤ, leb_ℤ, pos_part}
use market_systems_workstati.Capture.Backoff.{
  ReconnectBackoff, make_backoff, consume, delays, IsOrdered, Between, make_backoff-delays,
}
use market_systems_workstati.Tests.Orders.{whole}

abbrev schedule : ReconnectBackoff whole
schedule = record {
  initial_delay_seconds = pos 1;
  maximum_delay_seconds = pos 5;
  current_delay_seconds = pos 1;
}

schedule_made : make_backoff whole (pos 1) (pos 5) ≡ ok schedule
unfolding make_backoff
schedule_made = refl

-- 1, 2, 4, 5, and again from 1 once the transport opened.
doubling :
    delays whole (false ∷ false ∷ false ∷ false ∷ true ∷ []) schedule
    ≡ pos 1 ∷ pos 2 ∷ pos 4 ∷ pos 5 ∷ pos 1 ∷ []
unfolding delays consume
doubling = refl

whole-IsOrdered : IsOrdered whole
whole-IsOrdered = record { irreflexive = irreflexive; positive = positive; doubled = doubled }
  where
    irreflexive : (x : ℤ) → ltb_ℤ x x ≡ false
    irreflexive (pos n) = ground arith
    irreflexive (negsuc n) = ground arith

    positive : (x : ℤ) → true ≡ true → leb_ℤ x (pos 0) ≡ false → ltb_ℤ (pos 0) x ≡ true
    positive (pos n) f h = ground (arith, h)
    positive (negsuc n) f h = ground (arith, h)

    doubled :
        (x y : ℤ)
        → ltb_ℤ (pos 0) y ≡ true
        → ltb_ℤ x y ≡ false
        → ltb_ℤ (pos (pos_part x * 2)) y ≡ false
    doubled (pos n) (pos m) h k = ground (arith, h, k)
    doubled (pos n) (negsuc m) h k = ground (arith, h, k)
    doubled (negsuc n) (pos m) h k = ground (arith, h, k)
    doubled (negsuc n) (negsuc m) h k = ground (arith, h, k)

make_backoff-delays_example :
    All
      (Between whole (pos 1) (pos 5))
      (delays whole (false ∷ false ∷ false ∷ false ∷ true ∷ []) schedule)
make_backoff-delays_example =
    make_backoff-delays whole whole-IsOrdered (pos 1) (pos 5) schedule
      (false ∷ false ∷ false ∷ false ∷ true ∷ []) schedule_made
