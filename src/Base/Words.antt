-- ===== src/Base/Words.antt =====
-- Go's `int` and `int64`, as bit patterns below 2 ^ 64 in two's complement.
use Prim.Native.Nat.{ℕ, ◌+◌, ◌*◌, ◌-◌, ◌%◌, ◌<◌}
use mathlib.Core.Logic.{◌≢◌}
use mathlib.Core.Bool.{Bool, ◌&&◌}
use native.Mathlib.Omega.{arith}
use personal_cfo_os.Base.Tests.{ltb, if◌then◌else◌}

abbrev pub two_63 : ℕ
two_63 = 9223372036854775808

abbrev pub two_64 : ℕ
two_64 = 18446744073709551616

-- x > 0
abbrev pub is_pos : ℕ → Bool
is_pos x = ltb 0 x && ltb x two_63

-- x < y
abbrev pub signed_lt : ℕ → ℕ → Bool
signed_lt x y = ltb ((x + two_63) % two_64) ((y + two_63) % two_64)

-- x + 1
abbrev pub int_suc : ℕ → ℕ
int_suc x = (x + 1) % two_64

-- x * 2
abbrev pub int_double : ℕ → ℕ
int_double x = (x * 2) % two_64

-- `t.Add(d)`: nanoseconds since the zero time, moved by a signed duration; `-` stops at the zero time.
abbrev pub add_duration : ℕ → ℕ → ℕ
add_duration t d = if ltb d two_63 then t + d else t - (two_64 - d)

-- x - 1
abbrev pub int_pred : ℕ → ℕ
int_pred x = (x + 18446744073709551615) % two_64

-- One step never comes back to the same word.
pub int_suc-ne : (x : ℕ) → x < two_64 → int_suc x ≢ x
int_suc-ne x h e = omega arith
