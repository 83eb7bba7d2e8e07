-- ===== src/Common/Words.antt =====
-- Signed machine integers: ranges, conversions and the checks that C leaves to the program.
use Prim.Native.Nat.{ℕ, suc, ◌-◌, ◌*◌, ◌/◌, ◌%◌, ◌^◌, ◌≤◌, ◌<◌}
use mathlib.Core.Path.{◌≡◌}
use native.Mathlib.Nat.{div-le_of_le-mul}
use native.Mathlib.Omega.{arith}
use network_exercises.Common.Bools.{ltb, ◌==◌, if◌then◌else◌}
use network_exercises.Common.Int.{ℤ, pos, negsuc, pos_part, neg_part}

-- The values of an `int32_t`.
abbrev pub IsInt32 : ℤ → Type 0
IsInt32 z = (pos_part z < 2 ^ 31) × (neg_part z ≤ 2 ^ 31)

-- The value of a 32-bit pattern read as `int32_t`.
unfoldable pub signed32 : ℕ → ℤ
signed32 w = if ltb w (2 ^ 31) then pos w else negsuc (2 ^ 32 - w - 1)

-- The conversion of an integer to `uint32_t`.
unfoldable pub word32 : ℤ → ℕ
word32 (pos n) = n % 2 ^ 32
word32 (negsuc n) = 2 ^ 32 - 1 - n % 2 ^ 32

-- `(int)n` of a `size_t`
unfoldable pub to_int : ℕ → ℤ
to_int n = signed32 (n % 2 ^ 32)

-- The conversion of an integer to `int32_t`.
unfoldable pub to_int32 : ℤ → ℤ
to_int32 z = signed32 (word32 z)

-- Division in C rounds towards zero. The divisor here is positive.
abbrev pub opposite : ℕ → ℤ
opposite n = if n == 0 then pos 0 else negsuc (n - 1)

unfoldable pub div_ℤ : ℤ → ℕ → ℤ
div_ℤ (pos a) n = pos (a / n)
div_ℤ (negsuc a) n = opposite (suc a / n)

pub signed32-IsInt32 : (w : ℕ) → w < 2 ^ 32 → IsInt32 (signed32 w)
unfolding signed32
signed32-IsInt32 w h = ground arith

pub signed32-word32 : (z : ℤ) → IsInt32 z → signed32 (word32 z) ≡ z
unfolding signed32 word32
signed32-word32 (pos n) h = ground arith
signed32-word32 (negsuc n) h = ground arith

pub word32-lt : (z : ℤ) → word32 z < 2 ^ 32
unfolding word32
word32-lt (pos n) = omega arith
word32-lt (negsuc n) = omega arith

pub to_int32_same : (z : ℤ) → IsInt32 z → to_int32 z ≡ z
unfolding to_int32
to_int32_same z h = signed32-word32 z h

pub to_int_small : (n : ℕ) → n < 2 ^ 31 → to_int n ≡ pos n
unfolding to_int signed32
to_int_small n h = ground arith

-- The mean of `n` values of an `int32_t` is one.
pub div_ℤ-IsInt32 :
    (z : ℤ) (n : ℕ) → pos_part z ≤ n * (2 ^ 31 - 1) → neg_part z ≤ n * 2 ^ 31 → IsInt32 (div_ℤ z n)
unfolding div_ℤ
div_ℤ-IsInt32 (pos a) n h l = omega (arith, div-le_of_le-mul n h)
div_ℤ-IsInt32 (negsuc a) n h l = ground (arith, div-le_of_le-mul n l)
