-- ===== src/Prelude/Number.antt =====
-- The numbers of the source (IEEE doubles), as far as it tests them: an integer, a value strictly
-- between an integer and the next one, or one of the three values that are not finite.
use mathlib.Core.Bool.{Bool, true, false}
use messk.Prelude.Int.{ℤ, ltb_ℤ, leb_ℤ}

pub data Number : Type 0 where
  nan infinity minus_infinity : Number
  int : ℤ → Number
  between : ℤ → Number

-- Number.isInteger
unfoldable pub is_integer : Number → Bool
is_integer (int z) = true
is_integer _ = false

-- Number.isFinite
unfoldable pub is_finite : Number → Bool
is_finite (int z) = true
is_finite (between z) = true
is_finite _ = false

-- x <= z, for an integer z
unfoldable pub at_most : Number → ℤ → Bool
at_most (int x) z = leb_ℤ x z
at_most (between x) z = ltb_ℤ x z
at_most minus_infinity z = true
at_most _ z = false

-- z <= x, for an integer z
unfoldable pub at_least : Number → ℤ → Bool
at_least (int x) z = leb_ℤ z x
at_least (between x) z = leb_ℤ z x
at_least infinity z = true
at_least _ z = false

-- z < x, for an integer z
unfoldable pub above : Number → ℤ → Bool
above (int x) z = ltb_ℤ z x
above (between x) z = leb_ℤ z x
above infinity z = true
above _ z = false
