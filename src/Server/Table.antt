-- ===== src/Server/Table.antt =====
-- A `GHashTable` with string keys (g_str_hash, g_str_equal), as an association list. Where the key
-- and the value live matters to the program: each key is a field of a value. So an entry has the
-- addresses of the allocation that holds its key and of its value. g_hash_table_insert on a key
-- that is there keeps the old key, and its destroy function frees the old value with it: from then
-- on the key's address is not the value's, and a comparison with the key reads freed memory. The
-- table compares a name with the keys of its hash value; hash values of different names are taken
-- as different here.
pub mod Laws
use libsearpc.Prelude.{
  ℕ, ◌≡◌, ◌==◌, Bool, true, false, Option, none, some, List, [], ◌∷◌, Bytes, str_equal,
  if◌then◌else◌,
}
use libsearpc.Types.{Run, done, crash, use_after_free}

pub record Entry (V : Type 0) : Type 0 where
  pub key : Bytes
  pub key_at : ℕ
  pub value : V
  pub value_at : ℕ

abbrev pub Table : Type 0 → Type 0
Table V = List (Entry V)

module _ {V : Type 0} where
  -- The lookup where all keys are live, as in the tables of services and of marshals.
  unfoldable pub lookup_live : Table V → Bytes → Option V
  lookup_live [] k = none
  lookup_live (e ∷ t) k = if str_equal e.key k then some e.value else lookup_live t k

  -- The insertion where the key, if it is there, is live. The new key is a field of the value, so
  -- both are at the address of the value.
  unfoldable pub insert_live : Table V → Bytes → ℕ → V → Table V
  insert_live [] k at v = record { key = k; key_at = at; value = v; value_at = at } ∷ []
  insert_live (e ∷ t) k at v =
      if str_equal e.key k
      then record e { value = v; value_at = at } ∷ t
      else e ∷ insert_live t k at v

  -- The key under which a name was stored lies in memory that was freed.
  unfoldable pub key_freed : Table V → Bytes → Bool
  key_freed [] k = false
  key_freed (e ∷ t) k =
      if str_equal e.key k then (if e.key_at == e.value_at then false else true) else key_freed t k

  unfoldable pub g_hash_table_lookup : Table V → Bytes → Run (Option V)
  unfolding key_freed lookup_live
  g_hash_table_lookup t k = if key_freed t k then crash use_after_free else done (lookup_live t k)

  unfoldable pub g_hash_table_insert : Table V → Bytes → ℕ → V → Run (Table V)
  unfolding key_freed insert_live
  g_hash_table_insert t k at v =
      if key_freed t k then crash use_after_free else done (insert_live t k at v)

  unfoldable pub g_hash_table_remove : Table V → Bytes → Table V
  g_hash_table_remove [] k = []
  g_hash_table_remove (e ∷ t) k =
      let rest = g_hash_table_remove t k in if str_equal e.key k then rest else e ∷ rest

  -- A change of the value under a key in place, through the pointer that lookup returned.
  unfoldable pub modify : Table V → Bytes → V → Table V
  modify [] k v = []
  modify (e ∷ t) k v = if str_equal e.key k then record e { value = v } ∷ t else e ∷ modify t k v

  abbrev pub AllEntries : (Entry V → Type 0) → Table V → Type 0
  AllEntries P [] = Unit
  AllEntries P (e ∷ t) = P e × AllEntries P t

  -- Each key lies in the value that is stored under it, so none of them is freed memory.
  abbrev pub KeysOwned : Table V → Type 0
  KeysOwned = AllEntries (λ e. e.key_at ≡ e.value_at)
