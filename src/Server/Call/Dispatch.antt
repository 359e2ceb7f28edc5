-- ===== src/Server/Call/Dispatch.antt =====
-- Which calls reach a function, and what the others do.
use libsearpc.Prelude.{
  ◌≡◌, ◌↔◌, ◌⊎◌, inl, inr, refl, none, some, [], arith, Bytes, Option-cases, Bool-cases, pos,
}
use libsearpc.Jansson.{Jansson, Loaded, loaded, load_error}
use libsearpc.Types.{done, crash, null_pointer, Objects}
use libsearpc.Server.Table.{lookup_live, key_freed, g_hash_table_lookup}
use libsearpc.Server.Registry.{SearpcService, FuncItem, find_function}
use libsearpc.Server.Reply.{error_to_json}
use libsearpc.Server.Call.{
  Server, Called, run_function, function_error, searpc_server_call_function,
}

Loaded-cases :
    {A : Type 0} (r : Loaded A)
    → ((text : Bytes) × (r ≡ load_error text)) ⊎ ((a : A) × (r ≡ loaded a))
Loaded-cases (load_error text) = inl (text, refl)
Loaded-cases (loaded a) = inr (a, refl)

module _ (J : Jansson) (O : Objects J) (W : Type 0) where
  open J use {Json, json_loadb, json_array_get, json_string_value}

  -- A request whose first element names a registered function runs that function.
  pub call_function_found :
      (server : Server J O W) (svc_name func fname : Bytes) (array : Json) (item : FuncItem J O W)
      (w : W)
      → json_loadb func ≡ loaded array
      → json_string_value (json_array_get array 0) ≡ some fname
      → find_function J O W server.registry svc_name fname ≡ done (some item)
      → searpc_server_call_function J O W server svc_name func w
        ≡ done (run_function J O W server svc_name func item array w)
  unfolding searpc_server_call_function find_function g_hash_table_lookup
  call_function_found server svc_name func fname array item w l n f = ground arith

  -- A request that names a function which the service does not have.
  pub call_function_missing :
      (server : Server J O W) (svc_name func fname : Bytes) (array : Json)
      (service : SearpcService J O W) (w : W)
      → json_loadb func ≡ loaded array
      → json_string_value (json_array_get array 0) ≡ some fname
      → lookup_live server.registry.service_table svc_name ≡ some service
      → g_hash_table_lookup service.func_table fname ≡ done none
      → searpc_server_call_function J O W server svc_name func w
        ≡ done (record {
          ret = error_to_json J (pos 500) (some (function_error fname));
          world = w;
          logged = [];
        })
  unfolding searpc_server_call_function g_hash_table_lookup
  call_function_missing server svc_name func fname array service w l n s f = ground arith

  -- A call of searpc_server_call_function that returns has either changed nothing and logged
  -- nothing, or run the function that the first element of its request names in the given service,
  -- and returned what that run returns.
  pub call_function_cases :
      (server : Server J O W) (svc_name func : Bytes) (w : W) (c : Called J O W)
      → searpc_server_call_function J O W server svc_name func w ≡ done c
      → ((c.world ≡ w) × (c.logged ≡ []))
        ⊎ ((fname : Bytes) × (item : FuncItem J O W) × (array : Json) × (json_loadb func
              ≡ loaded array)
            × (json_string_value (json_array_get array 0) ≡ some fname)
            × (find_function J O W server.registry svc_name fname ≡ done (some item))
            × (c ≡ run_function J O W server svc_name func item array w))
  unfolding searpc_server_call_function find_function g_hash_table_lookup
  call_function_cases server svc_name func w c h =
      elim (Option-cases (lookup_live server.registry.service_table svc_name)) [
        | inl e ↦ inl (ground arith, ground arith)
        | inr (service, e) ↦ elim (Loaded-cases (json_loadb func)) [
          | inl (text, l) ↦ inl (ground arith, ground arith)
          | inr (array, l) ↦ elim (Option-cases (json_string_value (json_array_get array 0))) [
            | inl n ↦ absurd (ground arith)
            | inr (fname, n) ↦ elim (Bool-cases (key_freed service.func_table fname)) [
              | inl k ↦ absurd (ground arith)
              | inr k ↦ elim (Option-cases (lookup_live service.func_table fname)) [
                | inl f ↦ inl (ground arith, ground arith)
                | inr (item, f) ↦ inr (fname, item, array, l, n, ground arith, ground arith)
              ]
            ]
          ]
        ]
      ]

  -- searpc_server_call_function passes NULL to the hash function exactly when the service exists
  -- and the request is valid JSON that does not start with a string: its first element is missing
  -- or not a string, or it is no array.
  pub call_function-crash_iff :
      (server : Server J O W) (svc_name func : Bytes) (w : W)
      → (searpc_server_call_function J O W server svc_name func w ≡ crash null_pointer) ↔ (
          (service : SearpcService J O W) × (array : Json) × (lookup_live
              server.registry.service_table svc_name
            ≡ some service)
          × (json_loadb func ≡ loaded array)
          × (json_string_value (json_array_get array 0) ≡ none))
  unfolding searpc_server_call_function
  call_function-crash_iff server svc_name func w = (λ h. ground arith, λ h. ground arith)
