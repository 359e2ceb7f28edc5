-- ===== src/Server/Registry/Final/Sums.antt =====
-- Sums over the entries of a hash table, under its operations.
use libsearpc.Prelude.{ℕ, ◌+◌, ◌≡◌, refl, none, some, [], ◌∷◌, arith, Bytes}
use libsearpc.Server.Table.{Table, lookup_live, insert_live, g_hash_table_remove, modify}
use libsearpc.Server.Registry.Final.{entries_under, replaced}

module _ {V : Type 0} where
  -- `f` weighs the address and `g` the value of an entry.
  abbrev pub total : (ℕ → ℕ) → (V → ℕ) → Table V → ℕ
  total f g [] = 0
  total f g (e ∷ t) = f e.value_at + g e.value + total f g t

  pub total-insert :
      (f : ℕ → ℕ) (g : V → ℕ) (t : Table V) (k : Bytes) (at : ℕ) (v : V)
      → total f g (insert_live t k at v) + total f g (replaced t k) ≡ total f g t + (f at + g v)
  unfolding insert_live replaced
  total-insert f g [] k at v = omega arith
  total-insert f g (e ∷ t) k at v = ground (arith, total-insert f g t k at v)

  pub total-remove :
      (f : ℕ → ℕ) (g : V → ℕ) (t : Table V) (k : Bytes)
      → total f g (g_hash_table_remove t k) + total f g (entries_under t k) ≡ total f g t
  unfolding g_hash_table_remove entries_under
  total-remove f g [] k = refl
  total-remove f g (e ∷ t) k = ground (arith, total-remove f g t k)

  pub total-modify :
      (f : ℕ → ℕ) (g : V → ℕ) (t : Table V) (k : Bytes) (old v : V)
      → lookup_live t k ≡ some old
      → total f g (modify t k v) + g old ≡ total f g t + g v
  unfolding lookup_live modify
  total-modify f g [] k old v h = absurd (cc h)
  total-modify f g (e ∷ t) k old v h = ground (arith, total-modify f g t k old v)

  -- Nothing is replaced where the key is not there.
  pub replaced_none : (t : Table V) (k : Bytes) → lookup_live t k ≡ none → replaced t k ≡ []
  unfolding lookup_live replaced
  replaced_none [] k h = refl
  replaced_none (e ∷ t) k h = ground (arith, replaced_none t k)
