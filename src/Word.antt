-- ===== src/Word.antt =====
-- The C integers of the headers: `u_int32_t` as a number below 2 ^ 32, `int` as an integer, and the
-- conversions between the two (gcc's, modulo 2 ^ 32).
use futextest.Common.{ℕ, ◌-◌, ◌%◌, ◌^◌, ◌<◌, ◌≡◌, arith, ltb, if◌then◌else◌}
use futextest.Common.Int.{ℤ, pos, negsuc, ◌≤ℤ◌}

abbrev pub u32_mod : ℕ
u32_mod = 2 ^ 32

abbrev pub int_max : ℕ
int_max = 2 ^ 31 - 1

unfoldable pub to_u32 : ℤ → ℕ
to_u32 (pos n) = n % u32_mod
to_u32 (negsuc n) = u32_mod - 1 - n % u32_mod

unfoldable pub to_int : ℕ → ℤ
to_int w = if ltb w (2 ^ 31) then pos w else negsuc (u32_mod - 1 - w)

abbrev pub IsInt : ℤ → Type 0
IsInt x = (negsuc int_max ≤ℤ x) × (x ≤ℤ pos int_max)

pub to_u32-lt : (x : ℤ) → to_u32 x < u32_mod
unfolding to_u32
to_u32-lt (pos n) = omega arith
to_u32-lt (negsuc n) = omega arith

pub to_int-IsInt : (w : ℕ) → w < u32_mod → IsInt (to_int w)
unfolding to_int
to_int-IsInt w h = ground arith

pub to_int-to_u32 : (x : ℤ) → IsInt x → to_int (to_u32 x) ≡ x
unfolding to_int to_u32
to_int-to_u32 (pos n) h = ground arith
to_int-to_u32 (negsuc n) h = ground arith

pub to_u32-to_int : (w : ℕ) → w < u32_mod → to_u32 (to_int w) ≡ w
unfolding to_int to_u32
to_u32-to_int w h = ground arith
