-- ===== src/Jansson/Plain/Code.antt =====
-- A prefix code for the trees, and its reader.
use libsearpc.Prelude.{
  ℕ, zero, suc, ◌≤◌, ◌≡◌, refl, Option, none, some, [], ◌∷◌, ◌++◌, arith, append_assoc, append-nil,
  Bytes, pos, negsuc, length, take, drop, length-append, take-length-append, drop-length-append,
}
use libsearpc.Jansson.Plain.Value.{
  Tree, Items, Fields, null, truth, falsity, real, integer, string, array, object, nil, item, end,
  field,
}

unfoldable mutual
  pub write : Tree → Bytes
  write null = 0 ∷ []
  write (integer (pos n)) = 1 ∷ n ∷ []
  write (integer (negsuc n)) = 2 ∷ n ∷ []
  write (string s) = 3 ∷ length s ∷ s
  write (array xs) = 4 ∷ write_items xs
  write truth = 6 ∷ []
  write falsity = 7 ∷ []
  write (real r) = 8 ∷ r ∷ []
  write (object fs) = 5 ∷ write_fields fs

  pub write_items : Items → Bytes
  write_items nil = 2 ∷ []
  write_items (item v xs) = 1 ∷ (write v ++ write_items xs)

  pub write_fields : Fields → Bytes
  write_fields end = 2 ∷ []
  write_fields (field k v fs) = 1 ∷ length k ∷ (k ++ (write v ++ write_fields fs))

infixl 5 ◌>>=◌
abbrev ◌>>=◌ : {A B : Type 0} → Option A → (A → Option B) → Option B
none >>= f = none
some a >>= f = f a

unfoldable mutual
  pub read : ℕ → Bytes → Option (Tree × Bytes)
  read (suc f) (zero ∷ bs) = some (null, bs)
  read (suc f) (suc zero ∷ n ∷ bs) = some (integer (pos n), bs)
  read (suc f) (suc (suc zero) ∷ n ∷ bs) = some (integer (negsuc n), bs)
  read (suc f) (suc (suc (suc zero)) ∷ n ∷ bs) = some (string (take n bs), drop n bs)
  read (suc f) (suc (suc (suc (suc zero))) ∷ bs) =
      read_items f bs >>= λ (xs, rest). some (array xs, rest)
  read (suc f) (suc (suc (suc (suc (suc zero)))) ∷ bs) =
      read_fields f bs >>= λ (fs, rest). some (object fs, rest)
  read (suc f) (suc (suc (suc (suc (suc (suc zero))))) ∷ bs) = some (truth, bs)
  read (suc f) (suc (suc (suc (suc (suc (suc (suc zero)))))) ∷ bs) = some (falsity, bs)
  read (suc f) (suc (suc (suc (suc (suc (suc (suc (suc zero))))))) ∷ r ∷ bs) = some (real r, bs)
  read _ _ = none

  read_items : ℕ → Bytes → Option (Items × Bytes)
  read_items (suc f) (suc (suc zero) ∷ bs) = some (nil, bs)
  read_items (suc f) (suc zero ∷ bs) =
      read f bs >>= λ (v, rest). read_items f rest >>= λ (xs, rest'). some (item v xs, rest')
  read_items _ _ = none

  read_fields : ℕ → Bytes → Option (Fields × Bytes)
  read_fields (suc f) (suc (suc zero) ∷ bs) = some (end, bs)
  read_fields (suc f) (suc zero ∷ n ∷ bs) = read f (drop n bs) >>= λ (v, rest).
      read_fields f rest >>= λ (fs, rest'). some (field (take n bs) v fs, rest')
  read_fields _ _ = none

write_pos : (v : Tree) → 1 ≤ length (write v)
unfolding write
write_pos (integer (pos n)) = omega arith
write_pos (integer (negsuc n)) = omega arith
write_pos _ = omega arith

write_items_pos : (xs : Items) → 1 ≤ length (write_items xs)
unfolding write
write_items_pos nil = omega arith
write_items_pos _ = omega arith

write_fields_pos : (fs : Fields) → 1 ≤ length (write_fields fs)
unfolding write
write_fields_pos end = omega arith
write_fields_pos _ = omega arith

-- What was written is read back, whatever follows it.
mutual
  unfolding write read

  read-write_rest :
      (v : Tree) (f : ℕ) (rest : Bytes)
      → length (write v) ≤ f
      → read f (write v ++ rest) ≡ some (v, rest)
  read-write_rest v zero rest h = absurd (omega (arith, write_pos v))
  read-write_rest null (suc f) rest h = refl
  read-write_rest truth (suc f) rest h = refl
  read-write_rest falsity (suc f) rest h = refl
  read-write_rest (real r) (suc f) rest h = refl
  read-write_rest (integer (pos n)) (suc f) rest h = refl
  read-write_rest (integer (negsuc n)) (suc f) rest h = refl
  read-write_rest (string s) (suc f) rest h =
      rw (take-length-append s rest, drop-length-append s rest)
  read-write_rest (array xs) (suc f) rest h = rw (read-write_items xs f rest (omega arith))
  read-write_rest (object fs) (suc f) rest h = rw (read-write_fields fs f rest (omega arith))

  read-write_items :
      (xs : Items) (f : ℕ) (rest : Bytes)
      → length (write_items xs) ≤ f
      → read_items f (write_items xs ++ rest) ≡ some (xs, rest)
  read-write_items xs zero rest h = absurd (omega (arith, write_items_pos xs))
  read-write_items nil (suc f) rest h = refl
  read-write_items (item v xs) (suc f) rest h = rw (
    append_assoc (write v),
    read-write_rest v f (write_items xs ++ rest)
        (omega (arith, length-append (write v) (write_items xs))),
    read-write_items xs f rest (omega (arith, length-append (write v) (write_items xs))),
  )

  read-write_fields :
      (fs : Fields) (f : ℕ) (rest : Bytes)
      → length (write_fields fs) ≤ f
      → read_fields f (write_fields fs ++ rest) ≡ some (fs, rest)
  read-write_fields fs zero rest h = absurd (omega (arith, write_fields_pos fs))
  read-write_fields end (suc f) rest h = refl
  read-write_fields (field k v fs) (suc f) rest h = rw (
    append_assoc k (write v ++ write_fields fs) rest,
    take-length-append k ((write v ++ write_fields fs) ++ rest),
    drop-length-append k ((write v ++ write_fields fs) ++ rest),
    append_assoc (write v),
    read-write_rest v f (write_fields fs ++ rest) (
        omega (
          arith,
          length-append k (write v ++ write_fields fs),
          length-append (write v) (write_fields fs),
        )),
    read-write_fields fs f rest (
        omega (
          arith,
          length-append k (write v ++ write_fields fs),
          length-append (write v) (write_fields fs),
        )),
  )

unfoldable pub read_all : Bytes → Option Tree
read_all bs = read (length bs) bs >>= λ (v, rest). elim rest [ [] ↦ some v | _ ∷ _ ↦ none ]

read-write : (v : Tree) → read (length (write v)) (write v) ≡ some (v, [])
read-write v = rw append-nil at (read-write_rest v (length (write v)) [] (omega arith))

pub read_all-write : (v : Tree) → read_all (write v) ≡ some v
unfolding read_all
read_all-write v = rw (read-write v)
