-- ===== src/Prelude/Floats.antt =====
-- Floats against zero, as Python compares them: nan is not above, not below, and not equal.
use mathlib.Core.Bool.{Bool, true, false, not}
use kata_tee_runner.Prelude.Equality.{◌==◌, nat_eq}
use kata_tee_runner.Prelude.Value.{Float, finite, infinite, nan}

-- `x > 0`
abbrev pub is_positive : Float → Bool
is_positive (finite negative m k) = elim negative [ true ↦ false | false ↦ not (m == 0) ]
is_positive (infinite negative) = not negative
is_positive nan = false

-- `x <= 0`
abbrev pub is_at_most_zero : Float → Bool
is_at_most_zero (finite negative m k) = elim negative [ true ↦ true | false ↦ m == 0 ]
is_at_most_zero (infinite negative) = negative
is_at_most_zero nan = false
