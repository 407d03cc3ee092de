-- ===== src/Floats.antt =====
-- Python's `float`, which the simulator takes as a parameter: IEEE arithmetic is not modelled, and no
-- property rests on its rounding.
use market_systems_workstati.Base.{ℕ, Bool, if◌then◌else◌}
use market_systems_workstati.Base.Int.{ℤ, pos}

pub record Floats : Type 1 where
  pub Float : Type 0
  -- `float(n)`, and an `int` operand beside a float
  pub of_int : ℤ → Float
  pub add : Float → Float → Float
  pub sub : Float → Float → Float
  pub mul : Float → Float → Float
  pub div : Float → Float → Float
  pub neg : Float → Float
  pub less : Float → Float → Bool
  pub less_eq : Float → Float → Bool
  pub is_finite : Float → Bool
  pub is_nan : Float → Bool
  -- `int(x)`, towards zero
  pub trunc : Float → ℤ

module _ (fl : Floats) where
  open fl use {Float, of_int, less}

  abbrev pub of_nat : ℕ → Float
  of_nat n = of_int (pos n)

  abbrev pub zero_float : Float
  zero_float = of_int (pos 0)

  -- `max(a, b)` and `min(a, b)`: the first argument unless the second is strictly better.
  abbrev pub max_float : Float → Float → Float
  max_float a b = if less a b then b else a

  abbrev pub min_float : Float → Float → Float
  min_float a b = if less b a then b else a
