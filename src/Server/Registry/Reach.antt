-- ===== src/Server/Registry/Reach.antt =====
-- The registries that the calls of a program reach, in lib/searpc-server.c.
use libsearpc.Prelude.{◌≡◌, Bool, Option, none, Bytes}
use libsearpc.Jansson.{Jansson}
use libsearpc.Types.{Objects, done}
use libsearpc.Server.Registry.{
  RpcFunc, SearpcMarshalFunc, Registry, new_registry, find_function, searpc_create_service,
  searpc_remove_service, searpc_server_register_marshal, searpc_server_register_function,
}
use libsearpc.Server.Registry.Invariant.{
  WellFormed, new_registry-WellFormed, create_service-WellFormed, remove_service-WellFormed,
  register_marshal-WellFormed,
}
use libsearpc.Server.Registry.Register.{register_function-WellFormed}

module _ (J : Jansson) (O : Objects J) (W : Type 0) where
  -- The tables after any sequence of calls of the four operations that names each function once.
  pub data Reachable : Registry J O W → Type 0 where
    initialized : Reachable (new_registry J O W)
    created :
        (svc_name : Option Bytes) (r : Registry J O W)
        → Reachable r
        → Reachable (searpc_create_service J O W svc_name r).1
    removed :
        (svc_name : Option Bytes) (r : Registry J O W)
        → Reachable r
        → Reachable (searpc_remove_service J O W svc_name r)
    marshal_registered :
        (signature : Bytes) (marshal : SearpcMarshalFunc J O W) (r : Registry J O W)
        → Reachable r
        → Reachable (searpc_server_register_marshal J O W signature marshal r).1
    function_registered :
        (svc_name : Bytes) (func : RpcFunc J O W) (fname signature : Bytes) (status : Bool)
        (r r' : Registry J O W)
        → find_function J O W r svc_name fname ≡ done none
        → searpc_server_register_function J O W svc_name func fname signature r ≡ done (status, r')
        → Reachable r
        → Reachable r'

  -- After any sequence of searpc_create_service, searpc_remove_service,
  -- searpc_server_register_marshal and searpc_server_register_function from the empty tables, in
  -- which no function is registered under a name that its service has, the registry is well-
  -- formed: every key lies in the item stored under it, and every function's marshal is in the
  -- table.
  pub Reachable-WellFormed : (r : Registry J O W) → Reachable r → WellFormed J O W r
  Reachable-WellFormed r initialized = new_registry-WellFormed J O W
  Reachable-WellFormed r' (created svc_name r h) =
      create_service-WellFormed J O W svc_name r (Reachable-WellFormed r h)
  Reachable-WellFormed r' (removed svc_name r h) =
      remove_service-WellFormed J O W svc_name r (Reachable-WellFormed r h)
  Reachable-WellFormed r' (marshal_registered signature marshal r h) =
      register_marshal-WellFormed J O W signature marshal r (Reachable-WellFormed r h)
  Reachable-WellFormed r'' (function_registered svc_name func fname signature status r r' new d h) =
      register_function-WellFormed J O W svc_name func fname signature status r r' new d
        (Reachable-WellFormed r h)
