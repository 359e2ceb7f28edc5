-- ===== src/Jansson/Plain/Laws.antt =====
-- The laws of the interface for the operations of the concrete JSON library.
use libsearpc.Prelude.{
  ℕ, ◌+◌, ◌≡◌, ◌≢◌, refl, Option, none, some, Bytes, str_equal, ◌==◌, if◌then◌else◌, ℤ, pos, negsuc,
  IsInt64, [], ◌∷◌, ◌++◌, arith,
}
use libsearpc.Jansson.{JsonType, loaded, DumpFlags}
use libsearpc.Jansson.Plain.Code.{write, read_all, read_all-write}
use libsearpc.Jansson.Plain.Value.{
  Tree, Items, Fields, get-set, entries-set, size-append, elem-append,
}
use libsearpc.Jansson.Plain.Operations.{
  typeof, new_string, object_set, object_get, object_entries, real_value, array_append, array_size,
  array_get, string_value, integer_value, load, dump, load_all,
}

string_of-new_string : (s : Bytes) {j : Tree} → new_string s ≡ some j → j ≡ Tree.string s
unfolding new_string
string_of-new_string [] h = ground arith
string_of-new_string (b ∷ s) h = ground arith

pub typeof-new_string : (s : Bytes) (j : Tree) → new_string s ≡ some j → typeof j ≡ JsonType.string
unfolding typeof
typeof-new_string s j h = rw (string_of-new_string s h)

pub value-new_string :
    (s : Bytes) (j : Tree) → new_string s ≡ some j → string_value (some j) ≡ some s
unfolding string_value
value-new_string s j h = rw (string_of-new_string s h)

pub typeof-object_set :
    (o : Tree) (k : Bytes) (v : Option Tree)
    → typeof o ≡ JsonType.object
    → typeof (object_set o k v) ≡ JsonType.object
unfolding typeof object_set
typeof-object_set (Tree.object fs) k none h = refl
typeof-object_set (Tree.object fs) k (some v) h = refl
typeof-object_set t k v h = cc

pub typeof-array_append :
    (a : Tree) (v : Option Tree)
    → typeof a ≡ JsonType.array
    → typeof (array_append a v) ≡ JsonType.array
unfolding typeof array_append
typeof-array_append (Tree.array xs) none h = refl
typeof-array_append (Tree.array xs) (some v) h = refl
typeof-array_append t v h = cc

pub get_of_other : (k : Bytes) (t : Tree) → typeof t ≢ JsonType.object → object_get t k ≡ none
unfolding typeof object_get
get_of_other k (Tree.object fs) h = absurd (h refl)
get_of_other k t h = refl

pub get-object_set :
    (o : Tree) (k : Bytes) (v : Tree) (j : Bytes)
    → typeof o ≡ JsonType.object
    → object_get (object_set o k (some v)) j ≡ (if str_equal k j then some v else object_get o j)
unfolding typeof object_set object_get
get-object_set (Tree.object fs) k v j h = get-set fs k v j
get-object_set t k v j h = cc

pub entries-object_set :
    (o : Tree) (k : Bytes) (v : Tree)
    → typeof o ≡ JsonType.object
    → object_get o k ≡ none
    → object_entries (object_set o k (some v)) ≡ object_entries o ++ (k, v) ∷ []
unfolding typeof object_set object_get object_entries
entries-object_set (Tree.object fs) k v h n = entries-set fs k v n
entries-object_set t k v h n = cc

pub entries_of_other : (t : Tree) → typeof t ≢ JsonType.object → object_entries t ≡ []
unfolding typeof object_entries
entries_of_other (Tree.object fs) h = absurd (h refl)
entries_of_other t h = refl

pub real_laws :
    (typeof Tree.truth ≡ JsonType.true)
    × (typeof Tree.falsity ≡ JsonType.false)
    × ((r : ℕ) (j : Tree)
        → some (Tree.real r) ≡ some j
        → (typeof j ≡ JsonType.real) × (real_value (some j) ≡ r))
unfolding typeof real_value
real_laws = (refl, refl, λ r j h. ground arith)

pub entries_new : object_entries (Tree.object Fields.end) ≡ []
unfolding object_entries
entries_new = refl

pub set_null : (o : Tree) (k : Bytes) → object_set o k none ≡ o
unfolding object_set
set_null (Tree.object fs) k = refl
set_null t k = refl

pub size_of_other : (t : Tree) → typeof t ≢ JsonType.array → array_size t ≡ 0
unfolding typeof array_size
size_of_other (Tree.array xs) h = absurd (h refl)
size_of_other t h = refl

pub size-array_append :
    (a v : Tree)
    → typeof a ≡ JsonType.array
    → array_size (array_append a (some v)) ≡ array_size a + 1
unfolding typeof array_size array_append
size-array_append (Tree.array xs) v h = size-append xs v
size-array_append t v h = cc

pub get-array_append :
    (a v : Tree) (i : ℕ)
    → typeof a ≡ JsonType.array
    → array_get (array_append a (some v)) i ≡ (if i == array_size a then some v else array_get a i)
unfolding typeof array_size array_append array_get
get-array_append (Tree.array xs) v i h = elem-append xs v i
get-array_append t v i h = cc

pub append_null : (a : Tree) → array_append a none ≡ a
unfolding array_append
append_null (Tree.array xs) = refl
append_null t = refl

pub string_value_of_other : (j : Tree) → typeof j ≢ JsonType.string → string_value (some j) ≡ none
unfolding typeof string_value
string_value_of_other (Tree.string s) h = absurd (h refl)
string_value_of_other t h = refl

loaded-read_all : (j : Tree) → load (read_all (write j)) ≡ loaded j
unfolding load
loaded-read_all j = rw (read_all-write j)

pub load-write : (flags : DumpFlags) (j : Tree) → load_all (dump flags j) ≡ loaded j
load-write flags j = unfold load_all dump in loaded-read_all j

string_of_write : (j : Tree) → (s : Tree) × (new_string (write j) ≡ some s)
unfolding new_string write
string_of_write (Tree.integer (pos n)) = (Tree.string (write (Tree.integer (pos n))), refl)
string_of_write (Tree.integer (negsuc n)) = (Tree.string (write (Tree.integer (negsuc n))), refl)
string_of_write t = (Tree.string (write t), refl)

pub string-write :
    (flags : DumpFlags) (j : Tree) → (s : Tree) × (new_string (dump flags j) ≡ some s)
unfolding dump
string-write flags j = string_of_write j

pub typeof_new :
    (typeof Tree.null ≡ JsonType.null)
    × ((z : ℤ) → typeof (Tree.integer z) ≡ JsonType.integer)
    × (typeof (Tree.object Fields.end) ≡ JsonType.object)
    × (typeof (Tree.array Items.nil) ≡ JsonType.array)
unfolding typeof
typeof_new = (refl, λ z. refl, refl, refl)

pub get_new : (k : Bytes) → object_get (Tree.object Fields.end) k ≡ none
unfolding object_get
get_new k = refl

pub size_new : array_size (Tree.array Items.nil) ≡ 0
unfolding array_size
size_new = refl

pub elem_new : (i : ℕ) → array_get (Tree.array Items.nil) i ≡ none
unfolding array_get
elem_new i = refl

pub value_null : (string_value none ≡ none) × (integer_value none ≡ pos 0)
unfolding string_value integer_value
value_null = (refl, refl)

pub value-integer : (z : ℤ) → IsInt64 z → integer_value (some (Tree.integer z)) ≡ z
unfolding integer_value
value-integer z h = refl
