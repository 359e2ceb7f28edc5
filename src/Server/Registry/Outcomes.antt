-- ===== src/Server/Registry/Outcomes.antt =====
-- What searpc_server_register_function of lib/searpc-server.c comes to, and what a call finds after
-- a change of a table of functions.
use libsearpc.Prelude.{
  ◌≡◌, ◌∙◌, Bool, true, false, str_equal, Option, some, arith, Bytes, Option-cases, Bool-cases, ◌⊎◌,
  sym, inl, inr, if◌then◌else◌,
}
use libsearpc.Jansson.{Jansson}
use libsearpc.Types.{Objects, Fault, Run, done, crash, use_after_free}
use libsearpc.Server.Table.{
  Table, lookup_live, insert_live, key_freed, g_hash_table_lookup, g_hash_table_insert,
}
use libsearpc.Server.Table.Laws.{lookup-modify}
use libsearpc.Server.Registry.{
  RpcFunc, MarshalItem, FuncItem, SearpcService, Registry, searpc_server_register_function,
  find_function, with_funcs, add_func,
}

module _ (J : Jansson) (O : Objects J) (W : Type 0) where
  -- Two registrations that return the same.
  pub the_same :
      (r r' : Registry J O W) (a b : Bool) (x : Run (Bool × Registry J O W))
      → x ≡ done (a, r)
      → x ≡ done (b, r')
      → r ≡ r'
  the_same r r' a b x p q = cc (p, q)

  -- A registration where the service and the marshal exist and the name's key is not freed.
  pub register_function-done :
      (svc_name : Bytes) (func : RpcFunc J O W) (fname signature : Bytes) (r : Registry J O W)
      (service : SearpcService J O W) (mitem : MarshalItem J O W)
      → lookup_live r.service_table svc_name ≡ some service
      → lookup_live r.marshal_table signature ≡ some mitem
      → key_freed service.func_table fname ≡ false
      → let item : FuncItem J O W = record { func = func; fname = fname; marshal = mitem } in
        searpc_server_register_function J O W svc_name func fname signature r
        ≡ done (
          true,
          with_funcs J O W svc_name service (insert_live service.func_table fname r.next item) r,
        )
  unfolding searpc_server_register_function add_func g_hash_table_insert
  register_function-done svc_name func fname signature r service mitem s m k = ground arith

  pub crashed : {fault : Fault} {x : Bool × Registry J O W} → crash fault ≡ done x → ⊥
  crashed e = cc e

  pub register_function_freed :
      (svc_name : Bytes) (func : RpcFunc J O W) (fname signature : Bytes) (r : Registry J O W)
      (service : SearpcService J O W) (mitem : MarshalItem J O W)
      → lookup_live r.service_table svc_name ≡ some service
      → lookup_live r.marshal_table signature ≡ some mitem
      → key_freed service.func_table fname ≡ true
      → searpc_server_register_function J O W svc_name func fname signature r ≡ crash use_after_free
  unfolding searpc_server_register_function add_func g_hash_table_insert
  register_function_freed svc_name func fname signature r service mitem s m k = ground arith

  -- A registration that returns leaves the registry as it was, or has changed a service's table.
  pub register_function-cases :
      (svc_name : Bytes) (func : RpcFunc J O W) (fname signature : Bytes) (status : Bool)
      (r r' : Registry J O W)
      → searpc_server_register_function J O W svc_name func fname signature r ≡ done (status, r')
      → (r' ≡ r)
        ⊎ ((service : SearpcService J O W) × (funcs : Table (FuncItem J O W)) × (r'
              ≡ with_funcs J O W svc_name service funcs r))
  unfolding searpc_server_register_function add_func
  register_function-cases svc_name func fname signature status r r' d =
      elim (Option-cases (lookup_live r.service_table svc_name)) [
        | inl e ↦ inl (ground arith)
        | inr (service, e) ↦ elim (Option-cases (lookup_live r.marshal_table signature)) [
          | inl m ↦ inl (ground arith)
          | inr (mitem, m) ↦ elim (Bool-cases (key_freed service.func_table fname)) [
            | inl k ↦ absurd (
                crashed (
                  sym (register_function_freed svc_name func fname signature r service mitem e m k)
                  ∙ d))
            | inr k ↦
                let item : FuncItem J O W = record {
                  func = func;
                  fname = fname;
                  marshal = mitem;
                } in
                inr (
                  service,
                  insert_live service.func_table fname r.next item,
                  the_same r' _ status true _ d
                      (register_function-done svc_name func fname signature r service mitem e m k),
                )
          ]
        ]
      ]

  -- A name that is found, or that is new, has no key in freed memory.
  pub find-found :
      (r : Registry J O W) (svc_name fname : Bytes) (service : SearpcService J O W)
      {found : Option (FuncItem J O W)}
      → lookup_live r.service_table svc_name ≡ some service
      → find_function J O W r svc_name fname ≡ done found
      → (key_freed service.func_table fname ≡ false)
        × (lookup_live service.func_table fname ≡ found)
  unfolding find_function g_hash_table_lookup
  find-found r svc_name fname service s f = (ground arith, ground arith)

  -- What a call finds after a change of one service's table of functions.
  pub find-with_funcs :
      (svc_name : Bytes) (service : SearpcService J O W) (funcs : Table (FuncItem J O W))
      (r : Registry J O W) (svc name : Bytes)
      → lookup_live r.service_table svc_name ≡ some service
      → find_function J O W (with_funcs J O W svc_name service funcs r) svc name ≡ (
          if str_equal svc_name svc
          then g_hash_table_lookup funcs name
          else find_function J O W r svc name)
  unfolding find_function
  find-with_funcs svc_name service funcs r svc name s =
      ground
        (arith, lookup-modify r.service_table svc_name (record service { func_table = funcs }) svc)
