-- ===== src/Server/Registry/Final/Once.antt =====
-- The tables of lib/searpc-server.c free every block once: with searpc_server_final at the end,
-- nothing that they allocated is lost and nothing is freed twice.
use libsearpc.Prelude.{ℕ, ◌+◌, ◌≡◌, Bool, Option, List, [], ◌++◌, Bytes, arith}
use libsearpc.Jansson.{Jansson}
use libsearpc.Types.{Objects, done}
use libsearpc.Server.Registry.{
  RpcFunc, SearpcMarshalFunc, Registry, new_registry, searpc_create_service, searpc_remove_service,
  searpc_server_register_marshal, searpc_server_register_function,
}
use libsearpc.Server.Registry.Final.{
  searpc_server_final, remove_service_frees, register_function_frees,
}
use libsearpc.Server.Registry.Final.Live.{
  frees_of, allocated, frees_of-append, live, frees_of-final, create_service-live,
  remove_service-live, register_marshal-live, register_function-live,
}

module _ (J : Jansson) (O : Objects J) (W : Type 0) where
  -- The tables after any calls of the four operations that return, and the blocks that these have freed.
  pub data Runs : Registry J O W → List ℕ → Type 0 where
    initialized : Runs (new_registry J O W) []
    created :
        (svc_name : Option Bytes) (r : Registry J O W) (freed : List ℕ)
        → Runs r freed
        → Runs (searpc_create_service J O W svc_name r).1 freed
    removed :
        (svc_name : Option Bytes) (r : Registry J O W) (freed : List ℕ)
        → Runs r freed
        → Runs
            (searpc_remove_service J O W svc_name r)
            (freed ++ remove_service_frees J O W svc_name r)
    marshal_registered :
        (signature : Bytes) (marshal : SearpcMarshalFunc J O W) (r : Registry J O W)
        (freed : List ℕ)
        → Runs r freed
        → Runs (searpc_server_register_marshal J O W signature marshal r).1 freed
    function_registered :
        (svc_name : Bytes) (func : RpcFunc J O W) (fname signature : Bytes) (status : Bool)
        (r r' : Registry J O W) (freed : List ℕ)
        → searpc_server_register_function J O W svc_name func fname signature r ≡ done (status, r')
        → Runs r freed
        → Runs r' (freed ++ register_function_frees J O W svc_name fname signature r)

  balanced :
      (r : Registry J O W) (freed : List ℕ) (a : ℕ)
      → Runs r freed
      → frees_of freed a + live J O W a r ≡ allocated r.next a
  balanced r' freed a initialized = ground arith
  balanced r' freed' a (created svc_name r freed h) =
      omega (arith, create_service-live J O W a svc_name r, balanced r freed a h)
  balanced r' freed' a (removed svc_name r freed h) = omega (
    arith,
    remove_service-live J O W a svc_name r,
    balanced r freed a h,
    frees_of-append freed (remove_service_frees J O W svc_name r) a,
  )
  balanced r' freed' a (marshal_registered signature marshal r freed h) =
      omega (arith, register_marshal-live J O W a signature marshal r, balanced r freed a h)
  balanced r'' freed' a (function_registered svc_name func fname signature status r r' freed d h) =
      omega (
        arith,
        register_function-live J O W a svc_name func fname signature status r r' d,
        balanced r freed a h,
        frees_of-append freed (register_function_frees J O W svc_name fname signature r) a,
      )

  -- After any sequence of calls of searpc_create_service, searpc_remove_service,
  -- searpc_server_register_marshal and searpc_server_register_function from the empty tables that
  -- return (a registration that would read the freed key of its name does not), what these have
  -- freed and what searpc_server_final then frees is every block that the tables have allocated,
  -- each exactly once.
  pub final_once :
      (r : Registry J O W) (freed : List ℕ) (a : ℕ)
      → Runs r freed
      → frees_of (freed ++ searpc_server_final J O W r) a ≡ allocated r.next a
  final_once r freed a h = omega (
    arith,
    frees_of-append freed (searpc_server_final J O W r) a,
    frees_of-final J O W a r,
    balanced r freed a h,
  )
