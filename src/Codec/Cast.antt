-- ===== src/Codec/Cast.antt =====
-- The integer types that a property can have, and the casts of C between them and `json_int_t`,
-- which is `long long`. `long` has 64 bits, as on Linux.
use libsearpc.Prelude.{
  ℕ, ◌<◌, ◌≡◌, arith, ℤ, pos, negsuc, pattern_of, signed_of, to_int, to_int64, two31, two32, two63,
  two64, Within,
}

-- The fundamental types with integer values.
pub data IntKind : Type 0 where
  char uchar int uint long ulong int64 enum flags : IntKind

-- The cast from `json_int_t` that the deserializer makes; g_value_set_enum takes a `gint` and
-- g_value_set_flags a `guint`, to which their `gint64` is converted.
unfoldable pub cast : IntKind → ℤ → ℤ
cast char z = signed_of 128 (pattern_of 256 z)
cast uchar z = pos (pattern_of 256 z)
cast int z = to_int z
cast uint z = pos (pattern_of two32 z)
cast long z = to_int64 z
cast ulong z = pos (pattern_of two64 z)
cast int64 z = to_int64 z
cast enum z = to_int (to_int64 z)
cast flags z = pos (pattern_of two32 (to_int64 z))

abbrev pub Unsigned : ℕ → ℤ → Type 0
Unsigned m (pos n) = n < m
Unsigned m (negsuc n) = ⊥

-- The values of each type.
abbrev pub InRange : IntKind → ℤ → Type 0
InRange char z = Within 128 z
InRange uchar z = Unsigned 256 z
InRange int z = Within two31 z
InRange uint z = Unsigned two32 z
InRange long z = Within two63 z
InRange ulong z = Unsigned two64 z
InRange int64 z = Within two63 z
InRange enum z = Within two31 z
InRange flags z = Unsigned two32 z

pub cast-InRange : (k : IntKind) (z : ℤ) → InRange k (cast k z)
unfolding cast to_int to_int64
cast-InRange char (pos n) = ground arith
cast-InRange char (negsuc n) = ground arith
cast-InRange uchar (pos n) = omega arith
cast-InRange uchar (negsuc n) = omega arith
cast-InRange int (pos n) = ground arith
cast-InRange int (negsuc n) = ground arith
cast-InRange uint (pos n) = omega arith
cast-InRange uint (negsuc n) = omega arith
cast-InRange long (pos n) = ground arith
cast-InRange long (negsuc n) = ground arith
cast-InRange ulong (pos n) = omega arith
cast-InRange ulong (negsuc n) = omega arith
cast-InRange int64 (pos n) = ground arith
cast-InRange int64 (negsuc n) = ground arith
cast-InRange enum (pos n) = ground arith
cast-InRange enum (negsuc n) = ground arith
cast-InRange flags (pos n) = ground arith
cast-InRange flags (negsuc n) = ground arith

-- A value of any of the types survives the conversion to `json_int_t` and the cast back.
pub cast-to_int64 : (k : IntKind) (z : ℤ) → InRange k z → cast k (to_int64 z) ≡ z
unfolding cast to_int to_int64
cast-to_int64 char (pos n) h = ground arith
cast-to_int64 char (negsuc n) h = ground arith
cast-to_int64 uchar (pos n) h = ground arith
cast-to_int64 uchar (negsuc n) h = absurd h
cast-to_int64 int (pos n) h = ground arith
cast-to_int64 int (negsuc n) h = ground arith
cast-to_int64 uint (pos n) h = ground arith
cast-to_int64 uint (negsuc n) h = absurd h
cast-to_int64 long (pos n) h = ground arith
cast-to_int64 long (negsuc n) h = ground arith
cast-to_int64 ulong (pos n) h = ground arith
cast-to_int64 ulong (negsuc n) h = absurd h
cast-to_int64 int64 (pos n) h = ground arith
cast-to_int64 int64 (negsuc n) h = ground arith
cast-to_int64 enum (pos n) h = ground arith
cast-to_int64 enum (negsuc n) h = ground arith
cast-to_int64 flags (pos n) h = ground arith
cast-to_int64 flags (negsuc n) h = absurd h
