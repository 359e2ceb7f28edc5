-- ===== src/Server/Table/Laws.antt =====
-- The laws of the hash table, by lookups and by predicates on all entries.
use libsearpc.Prelude.{
  ℕ, ◌<◌, ◌≡◌, ◌≢◌, refl, true, false, none, some, [], ◌∷◌, arith, Bytes, str_equal, str_equal_iff,
  str_equal_self, if◌then◌else◌, Bool-cases, inl, inr,
}
use libsearpc.Types.{done, crash, use_after_free}
use libsearpc.Server.Table.{
  Entry, Table, lookup_live, insert_live, g_hash_table_remove, modify, AllEntries, KeysOwned,
  key_freed, g_hash_table_lookup,
}

module _ {V : Type 0} where
  pub lookup-insert :
      (t : Table V) (k : Bytes) (at : ℕ) (v : V) (j : Bytes)
      → lookup_live (insert_live t k at v) j ≡ (if str_equal k j then some v else lookup_live t j)
  unfolding lookup_live insert_live
  lookup-insert [] k at v j = refl
  lookup-insert (e ∷ t) k at v j = ground (
    arith,
    lookup-insert t k at v j,
    str_equal_iff e.key k,
    str_equal_iff e.key j,
    str_equal_iff k j,
  )

  pub lookup-remove :
      (t : Table V) (k j : Bytes)
      → lookup_live (g_hash_table_remove t k) j ≡ (if str_equal k j then none else lookup_live t j)
  unfolding lookup_live g_hash_table_remove
  lookup-remove [] k j = ground arith
  lookup-remove (e ∷ t) k j =
      ground (
        arith,
        lookup-remove t k j,
        str_equal_iff e.key k,
        str_equal_iff e.key j,
        str_equal_iff k j,
      )

  pub lookup-modify :
      (t : Table V) (k : Bytes) (v : V) (j : Bytes)
      → lookup_live t k ≢ none
      → lookup_live (modify t k v) j ≡ (if str_equal k j then some v else lookup_live t j)
  unfolding lookup_live modify
  lookup-modify [] k v j h = absurd (h refl)
  lookup-modify (e ∷ t) k v j h = ground (
    arith,
    lookup-modify t k v j,
    str_equal_iff e.key k,
    str_equal_iff e.key j,
    str_equal_iff k j,
  )

module _ {V : Type 0} (P : Entry V → Type 0) where
  pub AllEntries-lookup :
      (t : Table V) (k : Bytes) {v : V}
      → AllEntries P t
      → lookup_live t k ≡ some v
      → (e : Entry V) × (e.key ≡ k) × (e.value ≡ v) × P e
  unfolding lookup_live
  AllEntries-lookup [] k a h = cc
  AllEntries-lookup (e ∷ t) k a h = elim (Bool-cases (str_equal e.key k)) [
    | inl same ↦ (e, (str_equal_iff e.key k).0 same, ground arith, a.0)
    | inr other ↦ AllEntries-lookup t k a.1 (ground arith)
  ]

  pub AllEntries-insert :
      (t : Table V) (k : Bytes) (at : ℕ) (v : V)
      → AllEntries P t
      → lookup_live t k ≡ none
      → P (record { key = k; key_at = at; value = v; value_at = at })
      → AllEntries P (insert_live t k at v)
  unfolding lookup_live insert_live
  AllEntries-insert [] k at v a h p = (p, tt)
  AllEntries-insert (e ∷ t) k at v a h p = ground (arith, AllEntries-insert t k at v)

  pub AllEntries-remove :
      (t : Table V) (k : Bytes) → AllEntries P t → AllEntries P (g_hash_table_remove t k)
  unfolding g_hash_table_remove
  AllEntries-remove [] k a = tt
  AllEntries-remove (e ∷ t) k a = ground (arith, AllEntries-remove t k)

module _ {V : Type 0} (P Q : Entry V → Type 0) where
  pub AllEntries-mono :
      ((e : Entry V) → P e → Q e) → (t : Table V) → AllEntries P t → AllEntries Q t
  AllEntries-mono f [] a = tt
  AllEntries-mono f (e ∷ t) a = (f e a.0, AllEntries-mono f t a.1)

  -- A change in place under `k`, where the other entries go from `P` to `Q` as well.
  pub AllEntries-modify :
      (k : Bytes) (v : V)
      → ((e : Entry V) → P e → Q e)
      → (t : Table V)
      → ((e : Entry V)
          → e.key ≡ k
          → lookup_live t k ≡ some e.value
          → P e
          → Q (record e { value = v }))
      → AllEntries P t
      → AllEntries Q (modify t k v)
  unfolding modify lookup_live
  AllEntries-modify k v f [] g a = tt
  AllEntries-modify k v f (e ∷ t) g a = elim (Bool-cases (str_equal e.key k)) [
    | inl same ↦
        rw same (g e ((str_equal_iff e.key k).0 same) (rw same refl) a.0, AllEntries-mono f t a.1)
    | inr other ↦
        rw other (f e a.0, AllEntries-modify k v f t (λ e' q h p. g e' q (rw other h) p) a.1)
  ]

module _ {V : Type 0} where
  -- No key is freed where all keys are owned, so each comparison reads live memory.
  pub KeysOwned-key_freed : (t : Table V) (k : Bytes) → KeysOwned t → key_freed t k ≡ false
  unfolding key_freed
  KeysOwned-key_freed [] k o = refl
  KeysOwned-key_freed (e ∷ t) k o = ground (arith, KeysOwned-key_freed t k)

  -- An insertion leaves the keys of other names, and the key of a new name is live.
  pub key_freed-other :
      (t : Table V) (k : Bytes) (at : ℕ) (v : V) (j : Bytes)
      → str_equal k j ≡ false
      → key_freed (insert_live t k at v) j ≡ key_freed t j
  unfolding key_freed insert_live
  key_freed-other [] k at v j d = ground arith
  key_freed-other (e ∷ t) k at v j d = ground (
    arith,
    key_freed-other t k at v j,
    str_equal_iff e.key k,
    str_equal_iff e.key j,
    str_equal_iff k j,
  )

  pub key_freed-new :
      (t : Table V) (k : Bytes) (at : ℕ) (v : V)
      → lookup_live t k ≡ none
      → key_freed (insert_live t k at v) k ≡ false
  unfolding key_freed insert_live lookup_live
  key_freed-new [] k at v h = ground (arith, str_equal_self k)
  key_freed-new (e ∷ t) k at v h = ground (arith, key_freed-new t k at v)

  -- A key that is already there is kept, although its memory goes with the value that is replaced.
  pub key_freed-again :
      (t : Table V) (k : Bytes) (at : ℕ) (v : V)
      → lookup_live t k ≢ none
      → AllEntries (λ e. e.value_at < at) t
      → KeysOwned t
      → key_freed (insert_live t k at v) k ≡ true
  unfolding key_freed insert_live lookup_live
  key_freed-again [] k at v h a o = absurd (h refl)
  key_freed-again (e ∷ t) k at v h a o = ground (arith, key_freed-again t k at v)

  pub lookup_freed :
      (t : Table V) (k : Bytes)
      → key_freed t k ≡ true
      → g_hash_table_lookup t k ≡ crash use_after_free
  unfolding g_hash_table_lookup
  lookup_freed t k h = rw h refl

  pub lookup-other :
      (t : Table V) (k : Bytes) (at : ℕ) (v : V) (j : Bytes)
      → str_equal k j ≡ false
      → g_hash_table_lookup (insert_live t k at v) j ≡ g_hash_table_lookup t j
  unfolding g_hash_table_lookup
  lookup-other t k at v j d = ground (arith, key_freed-other t k at v j d, lookup-insert t k at v j)

  pub lookup-new :
      (t : Table V) (k : Bytes) (at : ℕ) (v : V) (j : Bytes)
      → lookup_live t k ≡ none
      → g_hash_table_lookup (insert_live t k at v) j
        ≡ (if str_equal k j then done (some v) else g_hash_table_lookup t j)
  unfolding g_hash_table_lookup
  lookup-new t k at v j h = ground (
    arith,
    key_freed-other t k at v j,
    key_freed-new t k at v h,
    lookup-insert t k at v j,
    str_equal_iff k j,
  )
