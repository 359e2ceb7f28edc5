-- ===== src/Tests/Demos.antt =====
-- Runs of the theorems on the object codec and on the demos: objects of the demos' class, the demo
-- service, and its packets.
use libsearpc.Prelude.{
  ℕ, ◌+◌, ◌≡◌, refl, true, false, none, some, [], Bytes, codes, pos, negsuc, to_int, str_equal,
}
use libsearpc.Jansson.{JsonType}
use libsearpc.Jansson.Plain.{plain, new_string, typeof, integer_value}
use libsearpc.Jansson.Plain.Value.{Tree}
use libsearpc.Types.{Objects, done, Value}
use libsearpc.Client.Call.{searpc_client_call__object}
use libsearpc.Codec.Cast.{IntKind, cast}
use libsearpc.Codec.System.{GValue}
use libsearpc.Codec.Serialize.{json_gobject_serialize}
use libsearpc.Codec.Deserialize.{json_gobject_deserialize, json_deserialize_pspec, set_integer}
use libsearpc.Codec.RoundTrip.{deserialize-serialize}
use libsearpc.Codec.Typing.{HasType, json_deserialize_pspec-HasType}
use libsearpc.Codec.Bridge.{codec}
use libsearpc.Server.Table.{
  lookup_live, insert_live, g_hash_table_lookup, g_hash_table_insert, key_freed, modify,
}
use libsearpc.Server.Registry.{
  RpcFunc, Registry, searpc_server_init, searpc_create_service, searpc_server_register_marshal,
  searpc_server_register_function, find_function, registered, add_func,
}
use libsearpc.Server.Marshal.{marshal, signature_text, searpc_compute_signature}
use libsearpc.Server.SlowLog.{no_slow_log}
use libsearpc.Server.Call.{Server}
use libsearpc.Rpc.Request.{AcceptsAll}
use libsearpc.Rpc.Loopback.{loopback, marshalled}
use libsearpc.Rpc.Loopback.ObjectCalls.{call__object-codec}
use libsearpc.Demo.TestObject.{TestObject, test_object, gint, test_objects, TestObject-Fits}
use libsearpc.Demo.Service.{signature_int__string, signature_objlist__int_int_string}

-- An object with all three properties set.
abbrev sample : TestObject
sample = record { len = negsuc 0; str = none; equal = true }

abbrev pub test_codec : Objects plain
test_codec = codec plain (test_objects plain) 1

deserialize-serialize_example :
    (j : Tree) × (json_gobject_serialize plain (test_objects plain) 1 sample ≡ done j)
    × (plain.json_typeof j ≡ JsonType.object)
    × (json_gobject_deserialize plain (test_objects plain) 1 test_object j ≡ done (some sample))
deserialize-serialize_example =
    deserialize-serialize plain (test_objects plain) 1 sample (TestObject-Fits plain sample refl tt)

json_deserialize_pspec-HasType_example :
    HasType plain (test_objects plain) gint (GValue.num IntKind.int (to_int (pos 4294967297)))
unfolding json_deserialize_pspec set_integer typeof cast integer_value
json_deserialize_pspec-HasType_example =
    json_deserialize_pspec-HasType plain (test_objects plain)
      (json_gobject_deserialize plain (test_objects plain) 0) gint (Tree.integer (pos 4294967297))
      (GValue.num IntKind.int (to_int (pos 4294967297))) refl

-- A server with a function that returns the sample.
abbrev get_sample : RpcFunc plain test_codec ℕ
get_sample args w = ((Value.object (some sample), none), w + 1)

abbrev svc : Bytes
svc = codes "svc"

abbrev get : Bytes
get = codes "get"

abbrev sig : Bytes
sig = codes "s"

abbrev get_registry : Registry plain test_codec ℕ
get_registry = registered plain test_codec ℕ (
    searpc_server_register_function plain test_codec ℕ svc get_sample get sig
      (searpc_server_register_marshal plain test_codec ℕ sig (marshal plain test_codec ℕ [])
        (searpc_create_service plain test_codec ℕ (some svc)
          (searpc_server_init plain test_codec ℕ (λ r. r))).1).1)

abbrev get_server : Server plain test_codec ℕ
get_server = record {
  registry = get_registry;
  slow_log = no_slow_log;
  start = record { tv_sec = 0; tv_usec = 0 };
  end = record { tv_sec = 0; tv_usec = 0 };
}

get_found :
    find_function plain test_codec ℕ get_registry svc get
    ≡ done (some (marshalled plain test_codec ℕ get_sample get [] sig))
unfolding searpc_server_init searpc_create_service searpc_server_register_marshal
    searpc_server_register_function find_function lookup_live insert_live modify g_hash_table_lookup
    g_hash_table_insert key_freed add_func str_equal
get_found = refl

call__object-codec_example :
    searpc_client_call__object plain test_codec ℕ
      (loopback plain test_codec ℕ get_server svc)
      (some get)
      test_object
      []
      3
    ≡ (done (some sample, none), 4)
unfolding new_string
call__object-codec_example =
    call__object-codec plain (test_objects plain) ℕ 1 get_server svc get sig get_sample [] [] [] []
      (Tree.string get) 3 4 sample get_found refl AcceptsAll.nil tt refl refl
      (TestObject-Fits plain sample refl tt) tt

-- A digest that tells all texts apart.
abbrev pub no_md5 : Bytes → Bytes
no_md5 text = text

pub signatures_differ :
    str_equal
      (signature_int__string plain no_md5 ℕ)
      (signature_objlist__int_int_string plain no_md5 ℕ)
    ≡ false
unfolding str_equal searpc_compute_signature signature_text
signatures_differ = refl
