-- ===== src/Jansson/Plain/Operations.antt =====
-- The operations of the concrete JSON library on its trees.
use libsearpc.Prelude.{
  ℕ, Option, none, some, Bytes, codes, ◌==◌, if◌then◌else◌, ℤ, pos, List, [], ◌∷◌,
}
use libsearpc.Jansson.{JsonType, Loaded, loaded, load_error, DumpFlags}
use libsearpc.Jansson.Plain.Code.{write, read_all}
use libsearpc.Jansson.Plain.Value.{Tree, set, get, append, entries, size, elem}

unfoldable pub typeof : Tree → JsonType
typeof Tree.null = JsonType.null
typeof Tree.truth = JsonType.true
typeof Tree.falsity = JsonType.false
typeof (Tree.real r) = JsonType.real
typeof (Tree.integer z) = JsonType.integer
typeof (Tree.string s) = JsonType.string
typeof (Tree.array xs) = JsonType.array
typeof (Tree.object fs) = JsonType.object

unfoldable pub new_string : Bytes → Option Tree
new_string [] = some (Tree.string [])
new_string (b ∷ s) = if b == 255 then none else some (Tree.string (b ∷ s))

unfoldable pub object_set : Tree → Bytes → Option Tree → Tree
unfolding set
object_set (Tree.object fs) k (some v) = Tree.object (set fs k v)
object_set t k v = t

unfoldable pub object_get : Tree → Bytes → Option Tree
unfolding get
object_get (Tree.object fs) k = get fs k
object_get t k = none

unfoldable pub object_entries : Tree → List (Bytes × Tree)
unfolding entries
object_entries (Tree.object fs) = entries fs
object_entries t = []

unfoldable pub real_value : Option Tree → ℕ
real_value (some (Tree.real r)) = r
real_value t = 0

unfoldable pub array_append : Tree → Option Tree → Tree
unfolding append
array_append (Tree.array xs) (some v) = Tree.array (append xs v)
array_append t v = t

unfoldable pub array_size : Tree → ℕ
unfolding size
array_size (Tree.array xs) = size xs
array_size t = 0

unfoldable pub array_get : Tree → ℕ → Option Tree
unfolding elem
array_get (Tree.array xs) i = elem xs i
array_get t i = none

unfoldable pub string_value : Option Tree → Option Bytes
string_value (some (Tree.string s)) = some s
string_value t = none

unfoldable pub integer_value : Option Tree → ℤ
integer_value (some (Tree.integer z)) = z
integer_value t = pos 0

unfoldable pub load : Option Tree → Loaded Tree
load (some t) = loaded t
load none = load_error (codes "invalid token")

unfoldable pub dump : DumpFlags → Tree → Bytes
unfolding write
dump flags t = write t

unfoldable pub load_all : Bytes → Loaded Tree
unfolding load read_all
load_all bs = load (read_all bs)
