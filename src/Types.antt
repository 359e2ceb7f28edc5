-- ===== src/Types.antt =====
-- What the components share: errors (`GError`), faults of the process, the values that a remote
-- call returns (the return types of lib/searpc-codegen.py), and the object codec that the
-- marshalling code calls (json_gobject_serialize and json_gobject_deserialize).
use libsearpc.Prelude.{Bool, Option, List, Bytes, ℤ}
use libsearpc.Jansson.{Jansson}

-- `GError`: DFT_DOMAIN is the log domain of the library, SEARPC_JSON_DOMAIN that of the parser.
pub data Domain : Type 0 where
  dft searpc_json : Domain

pub record GError : Type 0 where
  pub domain : Domain
  pub code : ℤ
  pub message : Bytes

-- What ends the process, or is undefined: a read past the end of a buffer, NULL where C
-- dereferences it, a failed `g_assert`, a recursion that the stack has
-- no room for, memory that was freed, a descriptor that was closed already.
pub data Fault : Type 0 where
  out_of_bounds null_pointer assertion stack_overflow use_after_free double_close : Fault

pub data Run {ℓ} (A : Type ℓ) : Type ℓ where
  done : A → Run A
  crash : Fault → Run A

infixl 5 ◌>>=◌
abbrev pub ◌>>=◌ {ℓ κ} : {A : Type ℓ} {B : Type κ} → Run A → (A → Run B) → Run B
done a >>= f = f a
crash e >>= f = crash e

-- The calls that the marshalling code makes of lib/searpc-utils.c.
pub record Objects (J : Jansson) : Type 1 where
  pub GObject : Type 0
  pub GType : Type 0
  -- G_TYPE_INVALID, the number 0, and the test against it
  pub type_invalid : GType
  pub is_invalid : GType → Bool
  pub json_gobject_serialize : GObject → J.Json
  pub json_gobject_deserialize : GType → Option J.Json → Option GObject

-- The type names that the client's calls and the code generator know; `other` is any other text.
pub data RetType : Type 0 where
  int int64 string object objlist json other : RetType

module _ (J : Jansson) (O : Objects J) where
  -- A value of a return type, as the C type that carries it: `GList *` is a list.
  pub data Value : Type 0 where
    int int64 : ℤ → Value
    string : Option Bytes → Value
    object : Option O.GObject → Value
    objlist : List O.GObject → Value
    json : Option J.Json → Value

-- The types that a parameter of a remote function can have, and such a parameter as its marshal
-- reads it from the request.
pub data ArgType : Type 0 where
  int int64 string json : ArgType

module _ (J : Jansson) where
  pub data Arg : Type 0 where
    int int64 : ℤ → Arg
    string : Option Bytes → Arg
    json : Option J.Json → Arg
