-- ===== src/Tests/Final.antt =====
-- A run of the theorem on the memory of the server's tables: a service is created, a function is
-- registered twice, and the service is removed.
use libsearpc.Prelude.{ℕ, ◌≡◌, refl, none, some, List, [], ◌++◌, true, str_equal, pos}
use libsearpc.Jansson.Plain.{plain}
use libsearpc.Types.{Value}
use libsearpc.Server.Table.{lookup_live, insert_live, g_hash_table_insert, key_freed, modify}
use libsearpc.Server.Registry.{
  Registry, new_registry, searpc_create_service, searpc_remove_service,
  searpc_server_register_marshal, searpc_server_register_function, add_func, registered,
}
use libsearpc.Server.Registry.Final.{
  searpc_server_final, remove_service_frees, register_function_frees,
}
use libsearpc.Server.Registry.Final.Live.{frees_of, allocated}
use libsearpc.Server.Registry.Final.Once.{Runs, final_once}
use libsearpc.Server.Marshal.{marshal}
use libsearpc.Tests.Setting.{objects, Func, returns, svc, f, sig, types}

abbrev seven : Func
seven = returns (Value.int (pos 7)) none

abbrev r1 : Registry plain objects ℕ
r1 = (searpc_create_service plain objects ℕ (some svc) (new_registry plain objects ℕ)).1

abbrev r2 : Registry plain objects ℕ
r2 = (searpc_server_register_marshal plain objects ℕ sig (marshal plain objects ℕ types) r1).1

abbrev r3 : Registry plain objects ℕ
r3 = registered plain objects ℕ (searpc_server_register_function plain objects ℕ svc seven f sig r2)

abbrev r4 : Registry plain objects ℕ
r4 = registered plain objects ℕ (searpc_server_register_function plain objects ℕ svc seven f sig r3)

abbrev r5 : Registry plain objects ℕ
r5 = searpc_remove_service plain objects ℕ (some svc) r4

abbrev freed : List ℕ
freed =
    (([] ++ register_function_frees plain objects ℕ svc f sig r2)
      ++ register_function_frees plain objects ℕ svc f sig r3)
    ++ remove_service_frees plain objects ℕ (some svc) r4

run : Runs plain objects ℕ r5 freed
unfolding searpc_create_service searpc_server_register_marshal searpc_server_register_function
    g_hash_table_insert key_freed lookup_live insert_live modify add_func str_equal
run = Runs.removed (some svc) r4 _ (
    Runs.function_registered svc seven f sig true r3 r4 _ refl (
      Runs.function_registered svc seven f sig true r2 r3 _ refl (
        Runs.marshal_registered sig (marshal plain objects ℕ types) r1 _
          (Runs.created (some svc) (new_registry plain objects ℕ) _ Runs.initialized))))

-- The item that the second registration replaces.
final_once_example :
    frees_of (freed ++ searpc_server_final plain objects ℕ r5) 2 ≡ allocated r5.next 2
final_once_example = final_once plain objects ℕ r5 freed 2 run
