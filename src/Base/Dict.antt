-- ===== src/Base/Dict.antt =====
-- A Python dict: an association list in insertion order. An assignment to a key that is there keeps
-- its place, `pop(k, None)` removes it.
use mathlib.Core.Path.{◌≡◌, refl}
use mathlib.Core.Bool.{true}
use mathlib.Core.List.{List, [], ◌∷◌}
use mathlib.Core.Option.{Option, none, some}
use native.Mathlib.Omega.{arith}
use market_systems_workstati.Base.Tests.{Eq, ◌==◌, if◌then◌else◌}

abbrev pub Dict {ℓ κ} : Type ℓ → Type κ → Type (ℓ ⊔ κ)
Dict K V = List (K × V)

-- The `v` of `d.get(k, v)`.
abbrev pub or_else {ℓ} : {V : Type ℓ} → Option V → V → V
or_else none v = v
or_else (some w) v = w

pub beq_refl {ℓ} : {K : Type ℓ} ⦃e : Eq K⦄ (k : K) → (k == k) ≡ true
beq_refl ⦃e⦄ k = (e.beq_iff k k).1 refl

module _ {ℓ κ} {K : Type ℓ} {V : Type κ} where
  abbrev pub keys : Dict K V → List K
  keys [] = []
  keys ((k, v) ∷ d) = k ∷ keys d

  -- `d.values()`
  abbrev pub values : Dict K V → List V
  values [] = []
  values ((k, v) ∷ d) = v ∷ values d

module _ {ℓ κ} {K : Type ℓ} {V : Type κ} ⦃e : Eq K⦄ where
  abbrev pub lookup : K → Dict K V → Option V
  lookup k [] = none
  lookup k ((j, v) ∷ d) = if j == k then some v else lookup k d

  -- `d[k] = v`
  abbrev pub insert : K → V → Dict K V → Dict K V
  insert k v [] = (k, v) ∷ []
  insert k v ((j, w) ∷ d) = if j == k then (j, v) ∷ d else (j, w) ∷ insert k v d

  -- `d.pop(k, None)`
  abbrev pub erase : K → Dict K V → Dict K V
  erase k [] = []
  erase k ((j, w) ∷ d) = if j == k then d else (j, w) ∷ erase k d

  -- No key is there twice.
  abbrev pub IsUnique : Dict K V → Type κ
  IsUnique [] = Unit
  IsUnique ((j, v) ∷ d) = (lookup j d ≡ none) × IsUnique d

  pub lookup-insert :
      (j k : K) (v : V) (d : Dict K V)
      → lookup j (insert k v d) ≡ (if k == j then some v else lookup j d)
  lookup-insert j k v [] = refl
  lookup-insert j k v ((i, w) ∷ d) =
      ground (arith, e.beq_iff i k, e.beq_iff i j, e.beq_iff k j, lookup-insert j k v d)

  pub lookup-erase :
      (j k : K) (d : Dict K V)
      → IsUnique d
      → lookup j (erase k d) ≡ (if k == j then none else lookup j d)
  lookup-erase j k [] u = ground arith
  lookup-erase j k ((i, w) ∷ d) u =
      ground
        (arith, e.beq_iff i k, e.beq_iff i j, e.beq_iff k j, beq_refl k, lookup-erase j k d u.1)

  pub insert-IsUnique : (k : K) (v : V) (d : Dict K V) → IsUnique d → IsUnique (insert k v d)
  insert-IsUnique k v [] u = (refl, tt)
  insert-IsUnique k v ((i, w) ∷ d) u =
      ground (arith, e.beq_iff i k, e.beq_iff k i, insert-IsUnique k v d u.1, lookup-insert i k v d)

  pub erase-IsUnique : (k : K) (d : Dict K V) → IsUnique d → IsUnique (erase k d)
  erase-IsUnique k [] u = tt
  erase-IsUnique k ((i, w) ∷ d) u =
      ground (arith, e.beq_iff i k, e.beq_iff k i, erase-IsUnique k d u.1, lookup-erase i k d u.1)
