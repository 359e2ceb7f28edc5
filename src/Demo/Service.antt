-- ===== src/Demo/Service.antt =====
-- demo/searpc-demo-server.c: the functions of the demo service and their registration.
use libsearpc.Prelude.{
  ℕ, zero, suc, ◌≡◌, refl, Bool, false, ◌==◌, Option, none, some, List, [], ◌∷◌, Bytes, codes,
  length, ℤ, pos, negsuc, to_int, str_equal, str_equal_self, arith,
}
use libsearpc.Jansson.{Jansson}
use libsearpc.Types.{Run, done, ◌>>=◌, Objects, Value, Arg, ArgType}
use libsearpc.Server.Table.{
  lookup_live, insert_live, g_hash_table_lookup, g_hash_table_insert, key_freed, modify,
}
use libsearpc.Server.Registry.{
  RpcFunc, SearpcMarshalFunc, MarshalItem, new_registry, add_func, Registry, searpc_server_init,
  searpc_create_service, searpc_server_register_marshal, searpc_server_register_function,
  find_function, registered,
}
use libsearpc.Server.Marshal.{marshal, searpc_compute_signature}
use libsearpc.Server.SlowLog.{no_slow_log}
use libsearpc.Server.Call.{Server}
use libsearpc.Codec.Bridge.{codec}
use libsearpc.Rpc.Loopback.{marshalled}
use libsearpc.Demo.TestObject.{TestObject, test_objects}

unfoldable pub searpc_strlen : Option Bytes → ℤ
searpc_strlen none = negsuc 0
searpc_strlen (some str) = to_int (pos (length str))

-- The object of one round of the loop.
unfoldable pub objlist_item : ℤ → Bytes → TestObject
objlist_item len str = record {
  len = len;
  str = some str;
  equal = elim len [ pos n ↦ n == length str | negsuc n ↦ false ];
}

-- For a count that is not negative; each object is put in front.
unfoldable pub searpc_objlisttest : ℕ → ℤ → Bytes → List TestObject
unfolding objlist_item
searpc_objlisttest zero len str = []
searpc_objlisttest (suc count) len str = objlist_item len str ∷ searpc_objlisttest count len str

abbrev pub searpc_demo : Bytes
searpc_demo = codes "searpc-demo"

abbrev pub strlen_name : Bytes
strlen_name = codes "searpc_strlen"

abbrev pub objlisttest_name : Bytes
objlisttest_name = codes "searpc_objlisttest"

names_differ : str_equal strlen_name objlisttest_name ≡ false
unfolding str_equal
names_differ = refl

module _ (J : Jansson) (O : Objects J) (W : Type 0) where
  -- Two marshals with different signatures.
  marshals_found :
      (s1 s2 : Bytes) (m1 m2 : SearpcMarshalFunc J O W)
      → str_equal s1 s2 ≡ false
      → let r =
          (searpc_server_register_marshal J O W s2 m2
            (searpc_server_register_marshal J O W s1 m1 (new_registry J O W)).1).1 in
        (lookup_live r.marshal_table s1 ≡ some (record { mfunc = m1; signature = s1 }))
        × (lookup_live r.marshal_table s2 ≡ some (record { mfunc = m2; signature = s2 }))
        × (r.service_table ≡ [])
  unfolding searpc_server_register_marshal lookup_live insert_live
  marshals_found s1 s2 m1 m2 d =
      (ground (arith, str_equal_self s1), ground (arith, str_equal_self s2), ground arith)

  -- A service is created and two functions are registered.
  register_two :
      (r : Registry J O W) (svc f1 f2 s1 s2 : Bytes) (func1 func2 : RpcFunc J O W)
      (m1 m2 : MarshalItem J O W)
      → str_equal f1 f2 ≡ false
      → lookup_live r.marshal_table s1 ≡ some m1
      → lookup_live r.marshal_table s2 ≡ some m2
      → r.service_table ≡ []
      → let r' = registered J O W (
          searpc_server_register_function J O W svc func1 f1 s1
            (searpc_create_service J O W (some svc) r).1
          >>= λ done1. searpc_server_register_function J O W svc func2 f2 s2 done1.1) in
        (find_function J O W r' svc f1
          ≡ done (some (record { func = func1; fname = f1; marshal = m1 })))
        × (find_function J O W r' svc f2
            ≡ done (some (record { func = func2; fname = f2; marshal = m2 })))
  unfolding searpc_server_register_function searpc_create_service find_function add_func lookup_live
      insert_live modify g_hash_table_lookup g_hash_table_insert key_freed
  register_two r svc f1 f2 s1 s2 func1 func2 m1 m2 d e1 e2 e = (
    ground (arith, str_equal_self svc, str_equal_self f1),
    ground (arith, str_equal_self svc, str_equal_self f2),
  )

module _ (J : Jansson) (md5 : Bytes → Bytes) (W : Type 0) where
  -- The functions as their marshals call them.
  unfoldable pub strlen_func : RpcFunc J (codec J (test_objects J) 1) W
  unfolding searpc_strlen
  strlen_func (Arg.string str ∷ args) w = ((Value.int (searpc_strlen str), none), w)
  strlen_func _ w = ((Value.int (pos 0), none), w)

  unfoldable pub objlisttest_func : RpcFunc J (codec J (test_objects J) 1) W
  unfolding searpc_objlisttest
  objlisttest_func (Arg.int (pos count) ∷ Arg.int len ∷ Arg.string (some str) ∷ args) w =
      ((Value.objlist (searpc_objlisttest count len str), none), w)
  objlisttest_func _ w = ((Value.objlist [], none), w)

  -- searpc_signature_int__string and searpc_signature_objlist__int_int_string
  abbrev pub signature_int__string : Bytes
  signature_int__string = searpc_compute_signature md5 (codes "int") (codes "string" ∷ [])

  abbrev pub signature_objlist__int_int_string : Bytes
  signature_objlist__int_int_string =
      searpc_compute_signature md5 (codes "objlist")
        (codes "int" ∷ codes "int" ∷ codes "string" ∷ [])

  -- The marshals of the two functions, as register_marshals registers them.
  abbrev pub register_marshals :
      Registry J (codec J (test_objects J) 1) W → Registry J (codec J (test_objects J) 1) W
  register_marshals r =
      (searpc_server_register_marshal J (codec J (test_objects J) 1) W
        signature_objlist__int_int_string
        (marshal J (codec J (test_objects J) 1) W (ArgType.int ∷ ArgType.int ∷ ArgType.string ∷ []))
        (searpc_server_register_marshal J (codec J (test_objects J) 1) W signature_int__string
          (marshal J (codec J (test_objects J) 1) W (ArgType.string ∷ [])) r).1).1

  unfoldable pub start_rpc_service : Run (Bool × Registry J (codec J (test_objects J) 1) W)
  unfolding searpc_server_init searpc_create_service searpc_server_register_marshal
      searpc_server_register_function
  start_rpc_service =
      searpc_server_register_function J (codec J (test_objects J) 1) W searpc_demo strlen_func
        strlen_name signature_int__string
        (searpc_create_service J (codec J (test_objects J) 1) W (some searpc_demo)
          (searpc_server_init J (codec J (test_objects J) 1) W register_marshals)).1
      >>= λ done1.
          searpc_server_register_function J (codec J (test_objects J) 1) W searpc_demo
            objlisttest_func objlisttest_name signature_objlist__int_int_string done1.1

  abbrev pub demo_server : Server J (codec J (test_objects J) 1) W
  demo_server = record {
    registry = registered J (codec J (test_objects J) 1) W start_rpc_service;
    slow_log = no_slow_log;
    start = record { tv_sec = 0; tv_usec = 0 };
    end = record { tv_sec = 0; tv_usec = 0 };
  }

  pub demo_found :
      str_equal signature_int__string signature_objlist__int_int_string ≡ false
      → (find_function J (codec J (test_objects J) 1) W demo_server.registry searpc_demo strlen_name
          ≡ done (
              some (
                marshalled J
                  (codec J (test_objects J) 1)
                  W
                  strlen_func
                  strlen_name
                  (ArgType.string ∷ [])
                  signature_int__string)))
        × (find_function J
              (codec J (test_objects J) 1)
              W
              demo_server.registry
              searpc_demo
              objlisttest_name
            ≡ done (
                some (
                  marshalled J
                    (codec J (test_objects J) 1)
                    W
                    objlisttest_func
                    objlisttest_name
                    (ArgType.int ∷ ArgType.int ∷ ArgType.string ∷ [])
                    signature_objlist__int_int_string)))
  unfolding start_rpc_service searpc_server_init
  demo_found d =
      let (e1, e2, e) =
        marshals_found J (codec J (test_objects J) 1) W signature_int__string
          signature_objlist__int_int_string
          (marshal J (codec J (test_objects J) 1) W (ArgType.string ∷ []))
          (marshal J (codec J (test_objects J) 1) W
            (ArgType.int ∷ ArgType.int ∷ ArgType.string ∷ []))
          d in
      register_two J (codec J (test_objects J) 1) W
        (register_marshals (new_registry J (codec J (test_objects J) 1) W)) searpc_demo strlen_name
        objlisttest_name signature_int__string signature_objlist__int_int_string strlen_func
        objlisttest_func _ _ names_differ e1 e2 e
