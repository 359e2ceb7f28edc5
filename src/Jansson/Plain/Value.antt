-- ===== src/Jansson/Plain/Value.antt =====
-- JSON values as trees, with objects in insertion order.
use libsearpc.Prelude.{
  ℕ, zero, suc, ◌+◌, ◌≡◌, refl, Option, none, some, Bytes, str_equal, str_equal_iff, ◌==◌,
  if◌then◌else◌, ℤ, List, [], ◌∷◌, ◌++◌, arith,
}

mutual
  pub data Tree : Type 0 where
    null truth falsity : Tree
    real : ℕ → Tree
    integer : ℤ → Tree
    string : Bytes → Tree
    array : Items → Tree
    object : Fields → Tree

  pub data Items : Type 0 where
    nil : Items
    item : Tree → Items → Items

  pub data Fields : Type 0 where
    end : Fields
    field : Bytes → Tree → Fields → Fields

unfoldable pub set : Fields → Bytes → Tree → Fields
set end k v = field k v end
set (field j w fs) k v = if str_equal k j then field j v fs else field j w (set fs k v)

unfoldable pub get : Fields → Bytes → Option Tree
get end k = none
get (field j w fs) k = if str_equal j k then some w else get fs k

pub get-set :
    (fs : Fields) (k : Bytes) (v : Tree) (j : Bytes)
    → get (set fs k v) j ≡ (if str_equal k j then some v else get fs j)
unfolding set get
get-set end k v j = refl
get-set (field i w fs) k v j =
    ground (arith, get-set fs k v j, str_equal_iff k i, str_equal_iff i j, str_equal_iff k j)

unfoldable pub append : Items → Tree → Items
append nil v = item v nil
append (item w xs) v = item w (append xs v)

unfoldable pub size : Items → ℕ
size nil = 0
size (item w xs) = suc (size xs)

unfoldable pub elem : Items → ℕ → Option Tree
elem nil i = none
elem (item w xs) zero = some w
elem (item w xs) (suc i) = elem xs i

-- The members in the order of the object.
unfoldable pub entries : Fields → List (Bytes × Tree)
entries end = []
entries (field k v fs) = (k, v) ∷ entries fs

pub entries-set :
    (fs : Fields) (k : Bytes) (v : Tree)
    → get fs k ≡ none
    → entries (set fs k v) ≡ entries fs ++ (k, v) ∷ []
unfolding entries set get
entries-set end k v h = refl
entries-set (field j w fs) k v h =
    ground (arith, entries-set fs k v, str_equal_iff k j, str_equal_iff j k)

pub size-append : (xs : Items) (v : Tree) → size (append xs v) ≡ size xs + 1
unfolding size append
size-append nil v = refl
size-append (item w xs) v = ground (arith, size-append xs v)

pub elem-append :
    (xs : Items) (v : Tree) (i : ℕ)
    → elem (append xs v) i ≡ (if i == size xs then some v else elem xs i)
unfolding size append elem
elem-append nil v zero = refl
elem-append nil v (suc i) = ground arith
elem-append (item w xs) v zero = ground arith
elem-append (item w xs) v (suc i) = ground (arith, elem-append xs v i)
