-- ===== src/Base/Sort.antt =====
-- Python's `sorted`: stable, by a Boolean order.
use mathlib.Core.Bool.{Bool}
use mathlib.Core.List.{List, [], ◌∷◌}
use market_systems_workstati.Base.Tests.{if◌then◌else◌}

module _ {ℓ} {A : Type ℓ} (le : A → A → Bool) where
  -- Before the first entry that is strictly greater.
  abbrev pub place : A → List A → List A
  place x [] = x ∷ []
  place x (y ∷ ys) = if le x y then x ∷ y ∷ ys else y ∷ place x ys

  abbrev pub sorted : List A → List A
  sorted [] = []
  sorted (x ∷ xs) = place x (sorted xs)
