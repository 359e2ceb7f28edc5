-- ===== src/Tests/Setting.antt =====
-- The data of the runs: a codec for objects that are numbers, a server with the function `f` of the
-- service `svc`, and a call with a string and an int.
use libsearpc.Prelude.{
  ℕ, suc, ◌+◌, ◌≡◌, refl, Bool, true, false, Option, some, List, [], ◌∷◌, Bytes, codes, ℤ, pos,
  negsuc, to_int, str_equal, if◌then◌else◌,
}
use libsearpc.Jansson.Plain.{plain, new_string, integer_value, typeof}
use libsearpc.Jansson.Plain.Value.{Tree}
use libsearpc.Types.{GError, done, Objects, Value, Arg, ArgType}
use libsearpc.Client.Request.{Param}
use libsearpc.Server.Table.{lookup_live, insert_live, modify}
use libsearpc.Server.Registry.{
  RpcFunc, Registry, searpc_server_init, searpc_create_service, searpc_server_register_marshal,
  searpc_server_register_function, find_function, registered,
}
use libsearpc.Server.Marshal.{marshal}
use libsearpc.Server.SlowLog.{no_slow_log}
use libsearpc.Server.Call.{Server}
use libsearpc.Rpc.Request.{Accepts, AcceptsAll}
use libsearpc.Rpc.Reply.Objs.{RoundTrips}
use libsearpc.Rpc.Loopback.{marshalled}

abbrev pub magnitude : ℤ → ℕ
magnitude (pos n) = n
magnitude (negsuc n) = suc n

abbrev pub objects : Objects plain
objects = record {
  GObject = ℕ;
  GType = Bool;
  type_invalid = false;
  is_invalid = λ gtype. if gtype then false else true;
  json_gobject_serialize = λ n. Tree.integer (pos n);
  json_gobject_deserialize = λ gtype j. some (magnitude (integer_value j));
}

pub objects-RoundTrips : (n : ℕ) → RoundTrips plain objects true n
unfolding integer_value typeof
objects-RoundTrips n = record { is_object = λ e. cc e; back = refl }

abbrev pub Func : Type 0
Func = RpcFunc plain objects ℕ

-- A function that returns a value and counts its calls in the world.
abbrev pub returns : Value plain objects → Option GError → Func
returns value error args w = ((value, error), w + 1)

abbrev pub svc : Bytes
svc = codes "svc"

abbrev pub f : Bytes
f = codes "f"

abbrev pub sig : Bytes
sig = codes "s"

abbrev pub params : List (Param plain)
params = Param.string (some (codes "ab")) ∷ Param.int (pos 5) ∷ []

abbrev pub types : List ArgType
types = ArgType.string ∷ ArgType.int ∷ []

abbrev pub elements : List Tree
elements = Tree.string (codes "ab") ∷ Tree.integer (to_int (pos 5)) ∷ []

abbrev pub args : List (Arg plain)
args = Arg.string (some (codes "ab")) ∷ Arg.int (to_int (pos 5)) ∷ []

pub params-AcceptsAll : AcceptsAll plain params types elements args
unfolding new_string
params-AcceptsAll =
    AcceptsAll.cons (Accepts.string (codes "ab") (Tree.string (codes "ab")) refl)
      (AcceptsAll.cons (Accepts.int (pos 5)) AcceptsAll.nil)

pub f_named : new_string f ≡ some (Tree.string f)
unfolding new_string
f_named = refl

-- The tables with the service and the marshal, and with the function as well.
abbrev pub service_registry : Registry plain objects ℕ
service_registry =
    (searpc_server_register_marshal plain objects ℕ sig (marshal plain objects ℕ types)
      (searpc_create_service plain objects ℕ (some svc)
        (searpc_server_init plain objects ℕ (λ r. r))).1).1

abbrev pub registry : Func → Registry plain objects ℕ
registry func =
    registered plain objects ℕ
      (searpc_server_register_function plain objects ℕ svc func f sig service_registry)

abbrev pub server_of : Registry plain objects ℕ → Server plain objects ℕ
server_of r = record {
  registry = r;
  slow_log = no_slow_log;
  start = record { tv_sec = 0; tv_usec = 0 };
  end = record { tv_sec = 0; tv_usec = 0 };
}

pub f_found :
    (func : Func)
    → find_function plain objects ℕ (registry func) svc f
      ≡ done (some (marshalled plain objects ℕ func f types sig))
unfolding searpc_server_init searpc_create_service searpc_server_register_marshal
    searpc_server_register_function find_function lookup_live insert_live modify str_equal
f_found func = refl
