-- ===== src/Prelude/Int.antt =====
-- Go's `int64` (and `int`, of 64 bits on the platforms built for): integers, whose sums and
-- products wrap.
use Prim.Native.Nat.{ℕ, zero, suc, ◌+◌, ◌-◌, ◌%◌, ◌^◌}
use mathlib.Core.Path.{◌≡◌}
use mathlib.Core.Logic.{◌↔◌}
use mathlib.Core.Bool.{Bool, true, false}
use native.Mathlib.Omega.{arith}
use opendesk_remote.Prelude.Tests.{nat_eq, ltb, leb, if◌then◌else◌, Eq}

-- `negsuc n` is -(n + 1).
pub data ℤ : Type 0 where
  pos : ℕ → ℤ
  negsuc : ℕ → ℤ

abbrev pub int_eq : ℤ → ℤ → Bool
int_eq (pos a) (pos b) = nat_eq a b
int_eq (pos a) (negsuc b) = false
int_eq (negsuc a) (pos b) = false
int_eq (negsuc a) (negsuc b) = nat_eq a b

pub int_eq_iff : (a b : ℤ) → (int_eq a b ≡ true) ↔ (a ≡ b)
int_eq_iff (pos a) (pos b) = ground arith
int_eq_iff (pos a) (negsuc b) = ground arith
int_eq_iff (negsuc a) (pos b) = ground arith
int_eq_iff (negsuc a) (negsuc b) = ground arith

instance abbrev pub int_has_eq : Eq ℤ
int_has_eq = record { equals = int_eq; equals_iff = int_eq_iff }

-- `x > 0`
abbrev pub is_pos : ℤ → Bool
is_pos (pos n) = ltb 0 n
is_pos (negsuc n) = false

-- `x < y`
abbrev pub int_lt : ℤ → ℤ → Bool
int_lt (pos a) (pos b) = ltb a b
int_lt (pos a) (negsuc b) = false
int_lt (negsuc a) (pos b) = true
int_lt (negsuc a) (negsuc b) = ltb b a

-- `x - y` of two values that are not negative.
abbrev pub sub_ℕ : ℕ → ℕ → ℤ
sub_ℕ a b = if leb b a then pos (a - b) else negsuc (b - a - 1)

-- The 64-bit value of a natural number.
unfoldable pub wrap64 : ℕ → ℤ
wrap64 n = let m = n % 2 ^ 64 in if ltb m (2 ^ 63) then pos m else negsuc (2 ^ 64 - m - 1)

-- `x++`
unfoldable pub inc64 : ℤ → ℤ
unfolding wrap64
inc64 (pos n) = wrap64 (n + 1)
inc64 (negsuc zero) = pos 0
inc64 (negsuc (suc n)) = negsuc n

-- The 64 bits of an integer, and `x - y` on them.
abbrev pub bits64 : ℤ → ℕ
bits64 (pos n) = n % 2 ^ 64
bits64 (negsuc n) = 2 ^ 64 - 1 - n % 2 ^ 64

unfoldable pub sub64 : ℤ → ℤ → ℤ
unfolding wrap64
sub64 a b = wrap64 (bits64 a + (2 ^ 64 - bits64 b))
