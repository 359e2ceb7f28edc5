-- ===== src/Pipe/Frame.antt =====
-- The length word in front of every message: a `guint32` that is written and read as its four
-- bytes, here in little-endian order, and a short read that overwrites a part of a variable.
use libsearpc.Prelude.{
  ℕ, ◌+◌, ◌*◌, ◌/◌, ◌%◌, ◌<◌, ◌≡◌, refl, [], ◌∷◌, ◌++◌, arith, Bytes, length, drop, two32,
}

-- The bytes of a guint32; a larger number is cut to 32 bits.
unfoldable pub u32_bytes : ℕ → Bytes
u32_bytes n = (n % 256) ∷ (n / 256 % 256) ∷ (n / 65536 % 256) ∷ (n / 16777216 % 256) ∷ []

unfoldable pub u32_value : Bytes → ℕ
u32_value (a ∷ b ∷ c ∷ d ∷ rest) = a + 256 * b + 65536 * c + 16777216 * d
u32_value _ = 0

-- A buffer after its first bytes were overwritten.
abbrev pub overlay : Bytes → Bytes → Bytes
overlay got buffer = got ++ drop (length got) buffer

-- A message with its length word.
abbrev pub frame : Bytes → Bytes
frame message = u32_bytes (length message) ++ message

pub u32_value-u32_bytes : (n : ℕ) → u32_value (u32_bytes n) ≡ n % two32
unfolding u32_value u32_bytes
u32_value-u32_bytes n = omega arith

pub u32_value-overlay : (n m : ℕ) → n < two32 → u32_value (overlay (u32_bytes n) (u32_bytes m)) ≡ n
unfolding u32_value u32_bytes
u32_value-overlay n m h = omega arith

pub length-u32_bytes : (n : ℕ) → length (u32_bytes n) ≡ 4
unfolding u32_bytes
length-u32_bytes n = refl
