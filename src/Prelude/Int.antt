-- ===== src/Prelude/Int.antt =====
-- Signed integers over the native numbers, and the conversions of C between integer types.
-- A conversion to an unsigned type keeps the value modulo 2 ^ w; one to a signed type reads the
-- resulting bit pattern in two's complement, as gcc and clang define it.
use Prim.Native.Nat.{ℕ, ◌-◌, ◌%◌, ◌^◌, ◌<◌}
use mathlib.Core.Path.{◌≡◌}
use native.Mathlib.Omega.{arith}
use mathlib.Core.Bool.{Bool, true, false}
use mathlib.Core.Logic.{◌↔◌}
use libsearpc.Prelude.Tests.{ltb, ◌==◌, if◌then◌else◌}

-- `negsuc n` is -(n + 1).
pub data ℤ : Type 0 where
  pos : ℕ → ℤ
  negsuc : ℕ → ℤ

-- The bit pattern of an integer in a word with 2 ^ w = m values.
abbrev pub pattern_of : ℕ → ℤ → ℕ
pattern_of m (pos n) = n % m
pattern_of m (negsuc n) = m - 1 - n % m

-- The signed reading of a pattern below 2 * h.
abbrev pub signed_of : ℕ → ℕ → ℤ
signed_of h u = if ltb u h then pos u else negsuc (h - 1 - (u - h))

abbrev pub two31 : ℕ
two31 = 2 ^ 31

abbrev pub two32 : ℕ
two32 = 2 ^ 32

abbrev pub two63 : ℕ
two63 = 2 ^ 63

abbrev pub two64 : ℕ
two64 = 2 ^ 64

-- (int) z and (gint64) z
unfoldable pub to_int : ℤ → ℤ
to_int z = signed_of two31 (pattern_of two32 z)

unfoldable pub to_int64 : ℤ → ℤ
to_int64 z = signed_of two63 (pattern_of two64 z)

-- The values of a signed type with 2 * h values.
abbrev pub Within : ℕ → ℤ → Type 0
Within h (pos n) = n < h
Within h (negsuc n) = n < h

abbrev pub IsInt : ℤ → Type 0
IsInt z = Within two31 z

abbrev pub IsInt64 : ℤ → Type 0
IsInt64 z = Within two63 z

-- a == b on integers
abbrev pub int_equal : ℤ → ℤ → Bool
int_equal (pos m) (pos n) = m == n
int_equal (negsuc m) (negsuc n) = m == n
int_equal _ _ = false

pub int_equal_iff : (a b : ℤ) → (int_equal a b ≡ true) ↔ (a ≡ b)
int_equal_iff (pos m) (pos n) = ground arith
int_equal_iff (pos m) (negsuc n) = (λ h. cc, λ h. cc)
int_equal_iff (negsuc m) (pos n) = (λ h. cc, λ h. cc)
int_equal_iff (negsuc m) (negsuc n) = ground arith

pub to_int-IsInt : (z : ℤ) → IsInt (to_int z)
unfolding to_int
to_int-IsInt (pos n) = ground arith
to_int-IsInt (negsuc n) = ground arith

pub to_int_of_IsInt : (z : ℤ) → IsInt z → to_int z ≡ z
unfolding to_int
to_int_of_IsInt (pos n) h = ground arith
to_int_of_IsInt (negsuc n) h = ground arith

pub to_int64-IsInt64 : (z : ℤ) → IsInt64 (to_int64 z)
unfolding to_int64
to_int64-IsInt64 (pos n) = ground arith
to_int64-IsInt64 (negsuc n) = ground arith

pub to_int64_of_IsInt64 : (z : ℤ) → IsInt64 z → to_int64 z ≡ z
unfolding to_int64
to_int64_of_IsInt64 (pos n) h = ground arith
to_int64_of_IsInt64 (negsuc n) h = ground arith

pub IsInt-IsInt64 : (z : ℤ) → IsInt z → IsInt64 z
IsInt-IsInt64 (pos n) h = omega arith
IsInt-IsInt64 (negsuc n) h = omega arith
