-- ===== src/Sim/Settling/Sorted.antt =====
-- The sorts of `submit` and `cancel` (market_engine/execution/simulator.py).
use market_systems_workstati.Base.{
  ℕ, ◌≤◌, ◌≡◌, Bool, true, false, List, [], ◌∷◌, arith, All, Bool-cases, inl, inr, list_eq,
}
use market_systems_workstati.Base.Sort.{place, sorted}
use market_systems_workstati.Sim.Types.{OrderRequest, CancelRequest}
use market_systems_workstati.Sim.Submit.{request_leb, cancel_leb}
use market_systems_workstati.Sim.Settling.Popping.{InOrder, decided}

-- Sorting by an order that goes by a key puts a list in the order of the key.
module _ {A : Type 0} (le : A → A → Bool) (key : A → ℕ)
    (below : (x y : A) → le x y ≡ true → key x ≤ key y)
    (above : (x y : A) → le x y ≡ false → key y ≤ key x) where
  All-below : (n m : ℕ) (xs : List A) → n ≤ m → All (λ y. m ≤ key y) xs → All (λ y. n ≤ key y) xs
  All-below n m [] h a = tt
  All-below n m (x ∷ xs) h a = (omega (arith, h, a.0), All-below n m xs h a.1)

  All-place :
      (n : ℕ) (x : A) (ys : List A)
      → n ≤ key x
      → All (λ y. n ≤ key y) ys
      → All (λ y. n ≤ key y) (place le x ys)
  All-place n x [] h a = (h, tt)
  All-place n x (y ∷ ys) h a = elim (Bool-cases (le x y)) [
    | inl first ↦ rw first (h, a)
    | inr later ↦ rw later (a.0, All-place n x ys h a.1)
  ]

  place-InOrder : (x : A) (ys : List A) → InOrder key ys → InOrder key (place le x ys)
  place-InOrder x [] o = (tt, tt)
  place-InOrder x (y ∷ ys) o = elim (Bool-cases (le x y)) [
    | inl first ↦
        rw first ((below x y first, All-below (key x) (key y) ys (below x y first) o.0), o)
    | inr later ↦ rw later (All-place (key y) x ys (above x y later) o.0, place-InOrder x ys o.1)
  ]

  sorted-InOrder : (xs : List A) → InOrder key (sorted le xs)
  sorted-InOrder [] = tt
  sorted-InOrder (x ∷ xs) = place-InOrder x (sorted le xs) (sorted-InOrder xs)

pub sorted_requests : (rs : List OrderRequest) → InOrder decided (sorted request_leb rs)
sorted_requests =
    sorted-InOrder request_leb decided (λ x y h. ground (arith, h)) (λ x y h. ground (arith, h))

pub sorted_cancels : (cs : List (ℕ × CancelRequest)) → InOrder (λ p. p.0) (sorted cancel_leb cs)
sorted_cancels =
    sorted-InOrder cancel_leb (λ p. p.0) (λ (t, a) (u, b) h. ground (arith, h))
      (λ (t, a) (u, b) h. ground (arith, h))
