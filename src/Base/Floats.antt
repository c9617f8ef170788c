-- ===== src/Base/Floats.antt =====
-- Go's float64 by its value: every finite double is a whole multiple of 2 ^ -1074. The program only
-- compares them.
use Prim.Native.Nat.{ℕ, ◌*◌, ◌^◌}
use mathlib.Core.Bool.{Bool, true, false, not, ◌&&◌, ◌||◌}
use personal_cfo_os.Base.Tests.{ltb, ◌==◌, nat_eq}

-- `minus n` is -n of the unit, and `minus 0` the negative zero.
pub data Float64 : Type 0 where
  nan minus_infinity plus_infinity : Float64
  minus plus : ℕ → Float64

-- `a < b`
unfoldable pub less : Float64 → Float64 → Bool
less nan b = false
less minus_infinity nan = false
less minus_infinity minus_infinity = false
less minus_infinity plus_infinity = true
less minus_infinity (minus n) = true
less minus_infinity (plus n) = true
less plus_infinity b = false
less (minus m) nan = false
less (minus m) minus_infinity = false
less (minus m) plus_infinity = true
less (minus m) (minus n) = ltb n m
less (minus m) (plus n) = not (m == 0) || not (n == 0)
less (plus m) nan = false
less (plus m) minus_infinity = false
less (plus m) plus_infinity = true
less (plus m) (minus n) = false
less (plus m) (plus n) = ltb m n

-- `a == b`
unfoldable pub float_equal : Float64 → Float64 → Bool
float_equal nan b = false
float_equal minus_infinity minus_infinity = true
float_equal plus_infinity plus_infinity = true
float_equal (minus m) (plus n) = (m == 0) && (n == 0)
float_equal (plus m) (minus n) = (m == 0) && (n == 0)
float_equal (minus m) (minus n) = m == n
float_equal (plus m) (plus n) = m == n
float_equal _ _ = false

-- `a >= b`
unfoldable pub at_least : Float64 → Float64 → Bool
unfolding less float_equal
at_least a b = less b a || float_equal a b

-- The doubles that the source's decimal constants denote.
abbrev pub of_unit : ℕ → ℕ → Float64
of_unit mantissa power = plus (mantissa * 2 ^ power)

unfoldable pub float_zero : Float64
float_zero = plus 0

unfoldable pub float_one : Float64
float_one = of_unit 1 1074

-- 0.2, 0.3, 0.35 and 0.7
unfoldable pub fifth : Float64
fifth = of_unit 7205759403792794 1019

unfoldable pub three_tenths : Float64
three_tenths = of_unit 5404319552844595 1020

unfoldable pub thirty_five_hundredths : Float64
thirty_five_hundredths = of_unit 6305039478318694 1020

unfoldable pub seven_tenths : Float64
seven_tenths = of_unit 6305039478318694 1021
