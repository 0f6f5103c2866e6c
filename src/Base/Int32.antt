-- ===== src/Base/Int32.antt =====
-- Go's conversion of an `int` to an `int32`, which keeps the low 32 bits.
use Prim.Native.Nat.{ℕ, ◌-◌, ◌%◌, ◌^◌, ◌<◌}
use mathlib.Core.Path.{◌≡◌}
use native.Mathlib.Omega.{arith}
use extend_challenge_service.Base.Tests.{ltb, if◌then◌else◌}
use extend_challenge_service.Base.Int.{ℤ, pos, negsuc}

-- The bit pattern, and the number that a pattern stands for.
abbrev pub low_bits : ℤ → ℕ
low_bits (pos n) = n % 2 ^ 32
low_bits (negsuc n) = 2 ^ 32 - 1 - n % 2 ^ 32

abbrev pub signed : ℕ → ℤ
signed w = if ltb w (2 ^ 31) then pos w else negsuc (2 ^ 32 - 1 - w)

unfoldable pub int32 : ℤ → ℤ
int32 z = signed (low_bits z)

-- The numbers that an `int32` holds.
abbrev pub InRange : ℤ → Type 0
InRange (pos n) = n < 2 ^ 31
InRange (negsuc n) = n < 2 ^ 31

pub int32-InRange : (z : ℤ) → InRange (int32 z)
unfolding int32
int32-InRange (pos n) = ground arith
int32-InRange (negsuc n) = ground arith

pub int32_id : (z : ℤ) → InRange z → int32 z ≡ z
unfolding int32
int32_id (pos n) h = ground arith
int32_id (negsuc n) h = ground arith
