-- ===== src/Tests/Tables.antt =====
-- Runs of the theorems on the server's tables, on its dispatch and on its slow log.
use libsearpc.Prelude.{
  ℕ, ◌-◌, ◌/◌, ◌≡◌, ◌↔◌, ◌⊎◌, refl, true, false, ◌&&◌, Option, none, some, [], ◌∷◌, arith, Bytes,
  codes, str_equal, if◌then◌else◌, pos,
}
use libsearpc.Jansson.{loaded}
use libsearpc.Jansson.Plain.{plain}
use libsearpc.Jansson.Plain.Value.{Tree}
use libsearpc.Types.{Run, done, crash, null_pointer, use_after_free, Value}
use libsearpc.Server.Table.{
  lookup_live, insert_live, g_hash_table_lookup, g_hash_table_insert, key_freed, modify,
}
use libsearpc.Server.Registry.{
  MarshalItem, FuncItem, SearpcService, Registry, new_registry, searpc_server_init,
  searpc_create_service, searpc_server_register_marshal, searpc_server_register_function,
  find_function, add_func,
}
use libsearpc.Server.Registry.Lookup.{find-register_function}
use libsearpc.Server.Registry.Invariant.{
  WellFormed, new_registry-WellFormed, create_service-WellFormed, register_marshal-WellFormed,
}
use libsearpc.Server.Registry.Register.{register_function-WellFormed, register_function_twice}
use libsearpc.Server.Registry.Reach.{Reachable, Reachable-WellFormed}
use libsearpc.Server.Marshal.Signature.{NoColon, signature_text-injective}
use libsearpc.Server.Marshal.{marshal}
use libsearpc.Server.SlowLog.{SlowLog, Timeval, LogLine, rpc_include_passwd, log_call}
use libsearpc.Server.SlowLog.Laws.{usec_of, IsShorter, log_call_lem}
use libsearpc.Server.Call.{Called, run_function, service_error, searpc_server_call_function}
use libsearpc.Server.Reply.{error_to_json}
use libsearpc.Server.Call.Dispatch.{call_function_cases, call_function-crash_iff}
use libsearpc.Tests.Setting.{
  objects, Func, returns, svc, f, sig, types, registry, service_registry, server_of,
}

abbrev seven : Func
seven = returns (Value.int (pos 7)) none

abbrev g : Bytes
g = codes "g"

abbrev marshal_item : MarshalItem plain objects ℕ
marshal_item = record { mfunc = marshal plain objects ℕ types; signature = sig }

abbrev find : Registry plain objects ℕ → Bytes → Bytes → Run (Option (FuncItem plain objects ℕ))
find = find_function plain objects ℕ

abbrev Wf : Registry plain objects ℕ → Type 0
Wf = WellFormed plain objects ℕ

service_registry-WellFormed : Wf service_registry
unfolding searpc_server_init
service_registry-WellFormed =
    register_marshal-WellFormed plain objects ℕ sig (marshal plain objects ℕ types)
      (searpc_create_service plain objects ℕ (some svc) (new_registry plain objects ℕ)).1
      (create_service-WellFormed plain objects ℕ (some svc) (new_registry plain objects ℕ)
        (new_registry-WellFormed plain objects ℕ))

registry_new : find service_registry svc f ≡ done none
unfolding searpc_server_init searpc_create_service searpc_server_register_marshal find_function
    g_hash_table_lookup key_freed lookup_live insert_live str_equal
registry_new = refl

registry-done :
    searpc_server_register_function plain objects ℕ svc seven f sig service_registry
    ≡ done (true, registry seven)
unfolding searpc_server_init searpc_create_service searpc_server_register_marshal
    searpc_server_register_function g_hash_table_insert key_freed lookup_live insert_live add_func
    str_equal
registry-done = refl

registry-WellFormed : Wf (registry seven)
registry-WellFormed =
    register_function-WellFormed plain objects ℕ svc seven f sig true service_registry
      (registry seven) registry_new registry-done service_registry-WellFormed

abbrev empty_service : SearpcService plain objects ℕ
empty_service = record { name = svc; func_table = [] }

find-register_function_example :
    (r' : Registry plain objects ℕ) × (searpc_server_register_function plain objects ℕ svc seven f
        sig service_registry
      ≡ done (true, r'))
    × ((svc_name name : Bytes)
        → find r' svc_name name ≡ (
            if str_equal svc svc_name && str_equal f name
            then done (some (record { func = seven; fname = f; marshal = marshal_item }))
            else find service_registry svc_name name))
unfolding searpc_server_init searpc_create_service searpc_server_register_marshal lookup_live
    insert_live str_equal
find-register_function_example =
    find-register_function plain objects ℕ service_registry svc seven f sig empty_service
      marshal_item refl refl registry_new

abbrev full_service : SearpcService plain objects ℕ
full_service = record {
  name = svc;
  func_table =
      record {
        key = f;
        key_at = 2;
        value = record { func = seven; fname = f; marshal = marshal_item };
        value_at = 2;
      }
      ∷ [];
}

register_function_twice_example :
    (r' : Registry plain objects ℕ) × (searpc_server_register_function plain objects ℕ svc seven f
        sig
        (registry seven)
      ≡ done (true, r'))
    × ((svc_name name : Bytes)
        → find r' svc_name name ≡ (
            if str_equal svc svc_name && str_equal f name
            then crash use_after_free
            else find (registry seven) svc_name name))
    × (searpc_server_register_function plain objects ℕ svc seven f sig r' ≡ crash use_after_free)
unfolding searpc_server_init searpc_create_service searpc_server_register_marshal
    searpc_server_register_function g_hash_table_insert key_freed add_func lookup_live insert_live
    modify str_equal
register_function_twice_example =
    register_function_twice plain objects ℕ svc seven seven f sig sig (registry seven) full_service
      marshal_item marshal_item registry-WellFormed refl (λ e. cc e) refl refl

abbrev no_service_reply : Called plain objects ℕ
no_service_reply = record {
  ret = error_to_json plain (pos 501) (some (service_error g));
  world = 3;
  logged = [];
}

call_function_cases_example :
    ((no_service_reply.world ≡ 3) × (no_service_reply.logged ≡ []))
    ⊎ ((fname : Bytes) × (item : FuncItem plain objects ℕ) × (array : Tree) × (plain.json_loadb []
          ≡ loaded array)
        × (plain.json_string_value (plain.json_array_get array 0) ≡ some fname)
        × (find (registry seven) g fname ≡ done (some item))
        × (no_service_reply
            ≡ run_function plain objects ℕ (server_of (registry seven)) g [] item array 3))
unfolding searpc_server_init searpc_create_service searpc_server_register_marshal
    searpc_server_register_function lookup_live insert_live modify str_equal
    searpc_server_call_function g_hash_table_insert key_freed add_func
call_function_cases_example =
    call_function_cases plain objects ℕ (server_of (registry seven)) g [] 3 no_service_reply refl

call_function-crash_iff_example :
    (searpc_server_call_function plain objects ℕ (server_of (registry seven)) svc [] 3
      ≡ crash null_pointer)
    ↔ ((service : SearpcService plain objects ℕ) × (array : Tree) × (lookup_live
            (registry seven).service_table
            svc
          ≡ some service)
        × (plain.json_loadb [] ≡ loaded array)
        × (plain.json_string_value (plain.json_array_get array 0) ≡ none))
call_function-crash_iff_example =
    call_function-crash_iff plain objects ℕ (server_of (registry seven)) svc [] 3

abbrev log : SlowLog
log = record {
  slow_log_fp = some 1;
  slow_threshold = pos 100;
  filtered_funcs = g ∷ [];
  log_to_stdout = false;
}

abbrev start : Timeval
start = record { tv_sec = 10; tv_usec = 900000 }

abbrev end : Timeval
end = record { tv_sec = 11; tv_usec = 200000 }

-- The call takes 300 ms.
log_call_lem_example :
    let line : LogLine = record {
      stream = 1;
      marked = false;
      at = 10;
      svc_name = svc;
      func = f;
      intv_in_usec = usec_of end - usec_of start;
    } in
    let shorter = IsShorter ((usec_of end - usec_of start) / 1000) (pos 100) in
    ((log_call log svc f f start end ≡ []) ↔ shorter)
    × ((log_call log svc f f start end ≡ line ∷ []) ↔ (¬ shorter))
unfolding rpc_include_passwd str_equal
log_call_lem_example =
    log_call_lem log 1 svc f f start end refl refl (omega arith) (omega arith) (omega arith)

registry-Reachable : Reachable plain objects ℕ (registry seven)
unfolding searpc_server_init
registry-Reachable =
    Reachable.function_registered svc seven f sig true service_registry (registry seven)
      registry_new registry-done
      (Reachable.marshal_registered sig (marshal plain objects ℕ types)
        (searpc_create_service plain objects ℕ (some svc) (new_registry plain objects ℕ)).1
        (Reachable.created (some svc) (new_registry plain objects ℕ) Reachable.initialized))

Reachable-WellFormed_example : Wf (registry seven)
Reachable-WellFormed_example =
    Reachable-WellFormed plain objects ℕ (registry seven) registry-Reachable

int-NoColon : NoColon (codes "int")
int-NoColon = ((λ e. omega (arith, e)), ((λ e. omega (arith, e)), ((λ e. omega (arith, e)), tt)))

string-NoColon : NoColon (codes "string")
string-NoColon = (
  (λ e. omega (arith, e)),
  (
    (λ e. omega (arith, e)),
    (
      (λ e. omega (arith, e)),
      ((λ e. omega (arith, e)), ((λ e. omega (arith, e)), ((λ e. omega (arith, e)), tt))),
    ),
  ),
)

signature_text-injective_example :
    (codes "int" ≡ codes "int") × (codes "string" ∷ [] ≡ codes "string" ∷ [])
signature_text-injective_example =
    signature_text-injective (codes "int") (codes "int") (codes "string" ∷ []) (codes "string" ∷ [])
      (int-NoColon, (string-NoColon, tt)) (int-NoColon, (string-NoColon, tt)) refl
