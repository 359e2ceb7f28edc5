-- ===== src/Server/Registry/Lookup.antt =====
-- What each operation on the registry does to the functions that a call can find.
use libsearpc.Prelude.{
  ◌≡◌, ◌≢◌, ◌↔◌, refl, Bool, true, false, Option, Option-cases, inl, inr, ◌&&◌, none, some, [],
  arith, Bytes, str_equal, str_equal_iff, str_equal_self, if◌then◌else◌, pos,
}
use libsearpc.Jansson.{Jansson}
use libsearpc.Types.{Objects, done}
use libsearpc.Server.Table.{lookup_live, insert_live, key_freed, g_hash_table_lookup}
use libsearpc.Server.Table.Laws.{lookup-insert, lookup-remove, lookup-new}
use libsearpc.Server.Registry.{
  RpcFunc, MarshalItem, FuncItem, SearpcService, Registry, find_function, searpc_create_service,
  searpc_remove_service, searpc_server_register_function, with_funcs,
}
use libsearpc.Server.Registry.Outcomes.{find-found, register_function-done, find-with_funcs}

module _ (J : Jansson) (O : Objects J) (W : Type 0) (r : Registry J O W) where
  -- searpc_create_service on a name returns 0, the service exists afterwards, and every service
  -- and name finds the function that it found before, also where the service was there already.
  pub create_service_find :
      (svc_name : Bytes)
      → let (status, r') = searpc_create_service J O W (some svc_name) r in
        (status ≡ pos 0)
        × (lookup_live r'.service_table svc_name ≢ none)
        × ((svc fname : Bytes) → find_function J O W r' svc fname ≡ find_function J O W r svc fname)
  unfolding searpc_create_service find_function lookup_live g_hash_table_lookup key_freed
  create_service_find svc_name =
      let fresh : SearpcService J O W = record { name = svc_name; func_table = [] } in
      (
        ground arith,
        ground (
          arith,
          lookup-insert r.service_table svc_name r.next fresh svc_name,
          str_equal_self svc_name,
        ),
        λ svc fname. ground (
          arith,
          lookup-insert r.service_table svc_name r.next fresh svc,
          str_equal_iff svc_name svc,
        ),
      )

  -- After searpc_remove_service on a name no function of that service is found, and every other
  -- service finds what it found before.
  pub find-remove_service :
      (svc_name svc fname : Bytes)
      → find_function J O W (searpc_remove_service J O W (some svc_name) r) svc fname
        ≡ (if str_equal svc_name svc then done none else find_function J O W r svc fname)
  unfolding searpc_remove_service find_function
  find-remove_service svc_name svc fname =
      ground (arith, lookup-remove r.service_table svc_name svc)

  -- Where the name is new in its service or is found there, searpc_server_register_function returns:
  -- TRUE exactly when the service and a marshal for the signature exist, and where it returns FALSE
  -- the registry is as it was.
  pub register_function_status :
      (svc_name : Bytes) (func : RpcFunc J O W) (fname signature : Bytes)
      (found : Option (FuncItem J O W))
      → find_function J O W r svc_name fname ≡ done found
      → (status : Bool) × (r' : Registry J O W) × (searpc_server_register_function J O W svc_name
            func fname signature r
          ≡ done (status, r'))
        × ((status ≡ true) ↔ (
            (lookup_live r.service_table svc_name ≢ none)
            × (lookup_live r.marshal_table signature ≢ none)))
        × (status ≡ false → r' ≡ r)
  unfolding searpc_server_register_function
  register_function_status svc_name func fname signature found f =
      elim (Option-cases (lookup_live r.service_table svc_name)) [
        | inl e ↦ (false, r, ground arith, ground arith, λ h. refl)
        | inr (service, e) ↦ elim (Option-cases (lookup_live r.marshal_table signature)) [
          | inl m ↦ (false, r, ground arith, ground arith, λ h. refl)
          | inr (mitem, m) ↦
              let item : FuncItem J O W = record { func = func; fname = fname; marshal = mitem } in
              let funcs = insert_live service.func_table fname r.next item in
              let (k, g) = find-found J O W r svc_name fname service e f in
              (
                true,
                with_funcs J O W svc_name service funcs r,
                register_function-done J O W svc_name func fname signature r service mitem e m k,
                ground arith,
                λ h. absurd (cc h),
              )
        ]
      ]

  -- Where the service and a marshal for the signature exist and the service does not have the
  -- name, searpc_server_register_function succeeds, and after it the name finds the function with
  -- that marshal in that service, and every other pair of a service and a name finds what it found
  -- before.
  pub find-register_function :
      (svc_name : Bytes) (func : RpcFunc J O W) (fname signature : Bytes)
      (service : SearpcService J O W) (mitem : MarshalItem J O W)
      → lookup_live r.service_table svc_name ≡ some service
      → lookup_live r.marshal_table signature ≡ some mitem
      → find_function J O W r svc_name fname ≡ done none
      → (r' : Registry J O W) × (searpc_server_register_function J O W svc_name func fname signature
            r
          ≡ done (true, r'))
        × ((svc name : Bytes)
            → find_function J O W r' svc name ≡ (
                if str_equal svc_name svc && str_equal fname name
                then done (some (record { func = func; fname = fname; marshal = mitem }))
                else find_function J O W r svc name))
  unfolding find_function
  find-register_function svc_name func fname signature service mitem s m new =
      let item : FuncItem J O W = record { func = func; fname = fname; marshal = mitem } in
      let funcs = insert_live service.func_table fname r.next item in
      let (k, fresh) = find-found J O W r svc_name fname service s new in
      (
        with_funcs J O W svc_name service funcs r,
        register_function-done J O W svc_name func fname signature r service mitem s m k,
        λ svc name. ground (
          arith,
          find-with_funcs J O W svc_name service funcs r svc name s,
          lookup-new service.func_table fname r.next item name fresh,
          str_equal_iff svc_name svc,
        ),
      )
