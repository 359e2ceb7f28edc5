-- ===== src/Pipe/Buffer.antt =====
-- The growth of the handler's buffer, `while (bufsize < len) bufsize *= 2`, on 32-bit numbers.
use libsearpc.Prelude.{
  ℕ, zero, suc, ◌+◌, ◌*◌, ◌%◌, ◌≤◌, ◌<◌, ◌≡◌, refl, true, false, Option, none, some, arith, ltb,
  two31, two32, Bool-cases, inl, inr, ◌⊎◌, ◌∙◌,
}

-- `none` means that the rounds given are not enough.
unfoldable pub grow : ℕ → ℕ → ℕ → Option ℕ
grow zero bufsize len = none
grow (suc fuel) bufsize len = elim (ltb bufsize len) [
  | true ↦ grow fuel (bufsize * 2 % two32) len
  | false ↦ some bufsize
]

pow2 : ℕ → ℕ
pow2 zero = 1
pow2 (suc k) = 2 * pow2 k

leb-cases : (n m : ℕ) → (n ≤ m) ⊎ (m < n)
leb-cases n m = elim (Bool-cases (ltb m n)) [
  | inl e ↦ inr (ground arith)
  | inr e ↦ inl (ground arith)
]

double_step : (b p : ℕ) → b * 2 * p ≡ b * (2 * p)
double_step b p = omega arith

double_le : (b p len : ℕ) → len ≤ b * (2 * p) → len ≤ b * 2 * p
double_le b p len h = rw (double_step b p) h

factor_le : (b p : ℕ) {n : ℕ} → 1 ≤ p → b * p ≡ n → b ≤ n
factor_le b zero h e = absurd (omega arith)
factor_le b (suc p) h e = let split : b * suc p ≡ b + b * p = omega arith in omega (arith, split, e)

grow-less :
    (fuel bufsize len : ℕ)
    → bufsize < len
    → bufsize * 2 < two32
    → grow (suc fuel) bufsize len ≡ grow fuel (bufsize * 2) len
unfolding grow
grow-less fuel bufsize len h b =
    let same : bufsize * 2 % two32 ≡ bufsize * 2 = omega arith in ground arith

grow-enough : (fuel bufsize len : ℕ) → len ≤ bufsize → grow (suc fuel) bufsize len ≡ some bufsize
unfolding grow
grow-enough fuel bufsize len h = ground arith

grow_rounds :
    (k bufsize len : ℕ)
    → bufsize < two32
    → len ≤ two31
    → len ≤ bufsize * pow2 k
    → (r : ℕ) × (grow (suc k) bufsize len ≡ some r) × (len ≤ r) × (bufsize ≤ r) × (r < two32)
unfolding pow2
grow_rounds zero bufsize len b l h =
    (bufsize, grow-enough 0 bufsize len (omega arith), omega arith, omega arith, b)
grow_rounds (suc k) bufsize len b l h = elim (leb-cases len bufsize) [
  | inl e ↦ (bufsize, grow-enough (suc k) bufsize len e, e, omega arith, b)
  | inr e ↦
      let (r, g, le, ge, lt) =
        grow_rounds k (bufsize * 2) len (omega arith) l (double_le bufsize (pow2 k) len h) in
      (r, grow-less (suc k) bufsize len e (omega arith) ∙ g, le, omega arith, lt)
]

-- From a size from 1 to below 2 ^ 32 the loop that doubles the handler's buffer ends within 32
-- rounds for every length up to 2 ^ 31, with a size that holds the message, is not smaller than
-- before and fits 32 bits.
pub grow_total :
    (bufsize len : ℕ)
    → 1 ≤ bufsize
    → bufsize < two32
    → len ≤ two31
    → (r : ℕ) × (grow 32 bufsize len ≡ some r) × (len ≤ r) × (bufsize ≤ r) × (r < two32)
grow_total bufsize len p b l = grow_rounds 31 bufsize len b l (unfold pow2 in omega arith)

abbrev Diverges : ℕ → ℕ → Type 0
Diverges bufsize len = (fuel : ℕ) → grow fuel bufsize len ≡ none

Diverges-double :
    (bufsize len : ℕ) → bufsize < len → Diverges (bufsize * 2 % two32) len → Diverges bufsize len
unfolding grow
Diverges-double bufsize len h d zero = refl
Diverges-double bufsize len h d (suc fuel) = ground (arith, d fuel)

Diverges-zero : (len : ℕ) → 0 < len → Diverges 0 len
unfolding grow
Diverges-zero len h zero = refl
Diverges-zero len h (suc fuel) = ground (arith, Diverges-zero len h fuel)

pow2_pos : (k : ℕ) → 1 ≤ pow2 k
unfolding pow2
pow2_pos zero = omega arith
pow2_pos (suc k) = omega (arith, pow2_pos k)

Diverges-pow2 : (k bufsize len : ℕ) → two31 < len → bufsize * pow2 k ≡ two31 → Diverges bufsize len
unfolding pow2
Diverges-pow2 zero bufsize len h e =
    let wraps : bufsize * 2 % two32 ≡ 0 = omega arith in
    Diverges-double bufsize len (omega arith) (rw wraps (Diverges-zero len (omega arith)))
Diverges-pow2 (suc k) bufsize len h e =
    let halved : bufsize * 2 * pow2 k ≡ two31 = double_step bufsize (pow2 k) ∙ e in
    let small : bufsize * 2 ≤ two31 = factor_le (bufsize * 2) (pow2 k) (pow2_pos k) halved in
    let same : bufsize * 2 % two32 ≡ bufsize * 2 = omega arith in
    Diverges-double bufsize len (omega arith) (rw same (Diverges-pow2 k (bufsize * 2) len h halved))

-- From the handler's first size, 4096, the loop that doubles the buffer does not end in any number
-- of rounds for a length above 2 ^ 31: the size wraps to 0.
pub grow_diverges : (len fuel : ℕ) → two31 < len → grow fuel 4096 len ≡ none
grow_diverges len fuel h = Diverges-pow2 19 4096 len h (unfold pow2 in refl) fuel
