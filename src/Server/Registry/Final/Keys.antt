-- ===== src/Server/Registry/Final/Keys.antt =====
-- The tables of services and of marshals of lib/searpc-server.c, whose keys are never freed: both are
-- inserted into only where a lookup has found nothing.
use libsearpc.Prelude.{
  ℕ, ◌≡◌, refl, Bool, Option, none, some, List, Bytes, arith, Option-cases, inl, inr,
}
use libsearpc.Jansson.{Jansson}
use libsearpc.Types.{Objects, done}
use libsearpc.Server.Table.{Table, lookup_live, g_hash_table_lookup, KeysOwned}
use libsearpc.Server.Table.Laws.{
  AllEntries-insert, AllEntries-remove, AllEntries-modify, KeysOwned-key_freed,
}
use libsearpc.Server.Registry.{
  RpcFunc, SearpcMarshalFunc, FuncItem, SearpcService, Registry, searpc_create_service,
  searpc_remove_service, searpc_server_register_marshal, searpc_server_register_function,
  with_funcs,
}
use libsearpc.Server.Registry.Outcomes.{register_function-cases}
use libsearpc.Server.Registry.Final.Once.{
  Runs, initialized, created, removed, marshal_registered, function_registered,
}

lookup_owned :
    {V : Type 0} (t : Table V) (k : Bytes)
    → KeysOwned t
    → g_hash_table_lookup t k ≡ done (lookup_live t k)
unfolding g_hash_table_lookup
lookup_owned t k o = ground (arith, KeysOwned-key_freed t k o)

module _ (J : Jansson) (O : Objects J) (W : Type 0) where
  abbrev Owned : Registry J O W → Type 0
  Owned r = KeysOwned r.service_table × KeysOwned r.marshal_table

  create_service-Owned :
      (svc_name : Option Bytes) (r : Registry J O W)
      → Owned r
      → Owned (searpc_create_service J O W svc_name r).1
  unfolding searpc_create_service
  create_service-Owned none r o = o
  create_service-Owned (some svc_name) r o =
      elim (Option-cases (lookup_live r.service_table svc_name)) [
        | inr (service, e) ↦ rw (e, searpc_create_service) o
        | inl e ↦
            rw (e, searpc_create_service)
              (AllEntries-insert _ r.service_table svc_name r.next _ o.0 e refl, o.1)
      ]

  remove_service-Owned :
      (svc_name : Option Bytes) (r : Registry J O W)
      → Owned r
      → Owned (searpc_remove_service J O W svc_name r)
  unfolding searpc_remove_service
  remove_service-Owned none r o = o
  remove_service-Owned (some svc_name) r o = (AllEntries-remove _ r.service_table svc_name o.0, o.1)

  register_marshal-Owned :
      (signature : Bytes) (marshal : SearpcMarshalFunc J O W) (r : Registry J O W)
      → Owned r
      → Owned (searpc_server_register_marshal J O W signature marshal r).1
  unfolding searpc_server_register_marshal
  register_marshal-Owned signature marshal r o =
      elim (Option-cases (lookup_live r.marshal_table signature)) [
        | inr (item, e) ↦ rw (e, searpc_server_register_marshal) o
        | inl e ↦
            rw (e, searpc_server_register_marshal)
              (o.0, AllEntries-insert _ r.marshal_table signature r.next _ o.1 e refl)
      ]

  with_funcs-Owned :
      (svc_name : Bytes) (service : SearpcService J O W) (funcs : Table (FuncItem J O W))
      (r : Registry J O W)
      → Owned r
      → Owned (with_funcs J O W svc_name service funcs r)
  with_funcs-Owned svc_name service funcs r o = (
    AllEntries-modify _ _ svc_name (record service { func_table = funcs }) (λ e h. h)
        r.service_table (λ e k l h. h) o.0,
    o.1,
  )

  register_function-Owned :
      (svc_name : Bytes) (func : RpcFunc J O W) (fname signature : Bytes) (status : Bool)
      (r r' : Registry J O W)
      → searpc_server_register_function J O W svc_name func fname signature r ≡ done (status, r')
      → Owned r
      → Owned r'
  register_function-Owned svc_name func fname signature status r r' d o =
      elim (register_function-cases J O W svc_name func fname signature status r r' d) [
        | inl same ↦ rw same o
        | inr (service, funcs, changed) ↦ rw changed (with_funcs-Owned svc_name service funcs r o)
      ]

  Runs-Owned : (r : Registry J O W) (freed : List ℕ) → Runs J O W r freed → Owned r
  Runs-Owned r' freed initialized = (tt, tt)
  Runs-Owned r' freed' (created svc_name r freed h) =
      create_service-Owned svc_name r (Runs-Owned r freed h)
  Runs-Owned r' freed' (removed svc_name r freed h) =
      remove_service-Owned svc_name r (Runs-Owned r freed h)
  Runs-Owned r' freed' (marshal_registered signature marshal r freed h) =
      register_marshal-Owned signature marshal r (Runs-Owned r freed h)
  Runs-Owned r'' freed' (function_registered svc_name func fname signature status r r' freed d h) =
      register_function-Owned svc_name func fname signature status r r' d (Runs-Owned r freed h)

  -- After any sequence of calls that return, also one in which a name was registered again, each
  -- lookup in the tables of services and of marshals is lookup_live: it reads no freed key.
  Runs-lookup_live :
      (r : Registry J O W) (freed : List ℕ) (k : Bytes)
      → Runs J O W r freed
      → (g_hash_table_lookup r.service_table k ≡ done (lookup_live r.service_table k))
        × (g_hash_table_lookup r.marshal_table k ≡ done (lookup_live r.marshal_table k))
  Runs-lookup_live r freed k h =
      let o = Runs-Owned r freed h in
      (lookup_owned r.service_table k o.0, lookup_owned r.marshal_table k o.1)
