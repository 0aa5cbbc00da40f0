-- ===== src/Helpers/Floats.antt =====
-- Python's `float`: a double is not a number, infinite, or a whole number of steps of 2 ^ -1074.
-- The program only compares floats with small integers, so zero has one sign.
use me.Base.{ℕ, ◌*◌, ◌^◌, Bool, false, leb}

pub data Float : Type 0 where
  nan infinity neg_infinity : Float
  pos : ℕ → Float
  neg : ℕ → Float

-- The integer n as a float.
unfoldable pub steps : ℕ → ℕ
steps n = n * 2 ^ 1074

-- `-n <= x <= n`
unfoldable pub between : ℕ → Float → Bool
unfolding steps
between n nan = false
between n infinity = false
between n neg_infinity = false
between n (pos m) = leb m (steps n)
between n (neg m) = leb m (steps n)
