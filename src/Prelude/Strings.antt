-- ===== src/Prelude/Strings.antt =====
-- C strings as lists of bytes without the terminating NUL, their comparison and their literals.
use Prim.Native.Nat.{ℕ}
use Prim.Native.Char.{code}
use Prim.Native.String.{String}
use mathlib.Core.Path.{◌≡◌, refl}
use mathlib.Core.Logic.{◌↔◌}
use mathlib.Core.Bool.{Bool, true, false, ◌&&◌}
use mathlib.Core.List.{List, [], ◌∷◌}
use native.Mathlib.Omega.{arith}
use libsearpc.Prelude.Tests.{◌==◌}

abbrev pub Bytes : Type 0
Bytes = List ℕ

-- The bytes of an ASCII literal.
abbrev pub codes : String → Bytes
codes String.[] = []
codes (String.◌∷◌ c s) = code c ∷ codes s

-- strcmp (s, t) == 0, which is also `g_str_equal`
unfoldable pub str_equal : Bytes → Bytes → Bool
str_equal [] [] = true
str_equal (a ∷ s) (b ∷ t) = (a == b) && str_equal s t
str_equal _ _ = false

pub str_equal_iff : (s t : Bytes) → (str_equal s t ≡ true) ↔ (s ≡ t)
unfolding str_equal
str_equal_iff [] [] = (λ _. refl, λ _. refl)
str_equal_iff [] (b ∷ t) = (λ h. cc, λ h. cc)
str_equal_iff (a ∷ s) [] = (λ h. cc, λ h. cc)
str_equal_iff (a ∷ s) (b ∷ t) = ground (arith, str_equal_iff s t)

pub str_equal_self : (s : Bytes) → str_equal s s ≡ true
str_equal_self s = (str_equal_iff s s).1 refl
