-- ===== src/Server/Registry/Final/Live.antt =====
-- How often an address is in the tables of lib/searpc-server.c, under the operations on them.
use libsearpc.Prelude.{
  ℕ, ◌+◌, ◌==◌, ◌≡◌, refl, Option, none, some, List, [], ◌∷◌, ◌++◌, Bytes, ltb, arith, inl, inr,
  Option-cases, Bool, true, Bool-cases, sym, ◌∙◌, if◌then◌else◌,
}
use libsearpc.Jansson.{Jansson}
use libsearpc.Types.{Objects, done}
use libsearpc.Server.Table.{Table, lookup_live, insert_live, key_freed}
use libsearpc.Server.Registry.{
  RpcFunc, SearpcMarshalFunc, MarshalItem, FuncItem, SearpcService, Registry, searpc_create_service,
  searpc_remove_service, searpc_server_register_marshal, with_funcs,
  searpc_server_register_function,
}
use libsearpc.Server.Registry.Outcomes.{
  crashed, the_same, register_function-done, register_function_freed,
}
use libsearpc.Server.Registry.Final.{
  entries_under, replaced, func_items_free, marshal_items_free, services_free, searpc_server_final,
  remove_service_frees, register_function_frees,
}
use libsearpc.Server.Registry.Final.Sums.{
  total, total-insert, total-remove, total-modify, replaced_none,
}

-- 1 at the address itself, and 0 elsewhere.
abbrev pub block_at : ℕ → ℕ → ℕ
block_at address b = if b == address then 1 else 0

-- How many times a trace of frees names an address.
abbrev pub frees_of : List ℕ → ℕ → ℕ
frees_of [] address = 0
frees_of (freed ∷ trace) address = frees_of trace address + block_at address freed

pub frees_of-append :
    (trace later : List ℕ) (address : ℕ)
    → frees_of (trace ++ later) address ≡ frees_of later address + frees_of trace address
frees_of-append [] later address = omega arith
frees_of-append (freed ∷ trace) later address = omega (arith, frees_of-append trace later address)

-- The addresses below `next` are those that were given out.
abbrev pub allocated : ℕ → ℕ → ℕ
allocated next a = if ltb a next then 1 else 0

allocated_next : (next a : ℕ) → allocated (next + 1) a ≡ allocated next a + block_at a next
allocated_next next a = ground arith

module _ (J : Jansson) (O : Objects J) (W : Type 0) where
  abbrev funcs_at : ℕ → SearpcService J O W → ℕ
  funcs_at a service = frees_of (func_items_free J O W service.func_table) a

  frees_of-func_items_free :
      (a : ℕ) (t : Table (FuncItem J O W))
      → frees_of (func_items_free J O W t) a ≡ total (block_at a) (λ item. 0) t
  unfolding func_items_free
  frees_of-func_items_free a [] = refl
  frees_of-func_items_free a (e ∷ t) = omega (arith, frees_of-func_items_free a t)

  frees_of-marshal_items_free :
      (a : ℕ) (t : Table (MarshalItem J O W))
      → frees_of (marshal_items_free J O W t) a ≡ total (block_at a) (λ item. 0) t
  unfolding marshal_items_free
  frees_of-marshal_items_free a [] = refl
  frees_of-marshal_items_free a (e ∷ t) = omega (arith, frees_of-marshal_items_free a t)

  frees_of-services_free :
      (a : ℕ) (t : Table (SearpcService J O W))
      → frees_of (services_free J O W t) a ≡ total (block_at a) (funcs_at a) t
  unfolding services_free
  frees_of-services_free a [] = refl
  frees_of-services_free a (e ∷ t) =
      let funcs = func_items_free J O W e.value.func_table in
      omega (
        arith,
        frees_of-append (funcs ++ (e.value_at ∷ [])) (services_free J O W t) a,
        frees_of-append funcs (e.value_at ∷ []) a,
        frees_of-services_free a t,
      )

  -- How often an address is in the tables.
  abbrev pub live : ℕ → Registry J O W → ℕ
  live a r =
      total (block_at a) (funcs_at a) r.service_table
      + total (block_at a) (λ item. 0) r.marshal_table

  pub frees_of-final :
      (a : ℕ) (r : Registry J O W) → frees_of (searpc_server_final J O W r) a ≡ live a r
  unfolding searpc_server_final
  frees_of-final a r = omega (
    arith,
    frees_of-append (services_free J O W r.service_table) (marshal_items_free J O W r.marshal_table)
        a,
    frees_of-services_free a r.service_table,
    frees_of-marshal_items_free a r.marshal_table,
  )

  pub create_service-live :
      (a : ℕ) (svc_name : Option Bytes) (r : Registry J O W)
      → let r' = (searpc_create_service J O W svc_name r).1 in
        live a r' + allocated r.next a ≡ live a r + allocated r'.next a
  unfolding searpc_create_service func_items_free
  create_service-live a none r = omega arith
  create_service-live a (some svc_name) r =
      elim (Option-cases (lookup_live r.service_table svc_name)) [
        | inr (service, e) ↦ rw (e, searpc_create_service) (omega arith)
        | inl e ↦
            let t =
              total-insert (block_at a) (funcs_at a) r.service_table svc_name r.next
                (record { name = svc_name; func_table = [] }) in
            let z = replaced_none r.service_table svc_name e in
            rw (e, searpc_create_service) (ground (arith, t, z, allocated_next r.next a))
      ]

  pub remove_service-live :
      (a : ℕ) (svc_name : Option Bytes) (r : Registry J O W)
      → let r' = searpc_remove_service J O W svc_name r in
        live a r' + frees_of (remove_service_frees J O W svc_name r) a + allocated r.next a
        ≡ live a r + allocated r'.next a
  unfolding searpc_remove_service remove_service_frees
  remove_service-live a none r = omega arith
  remove_service-live a (some svc_name) r = omega (
    arith,
    total-remove (block_at a) (funcs_at a) r.service_table svc_name,
    frees_of-services_free a (entries_under r.service_table svc_name),
  )

  pub register_marshal-live :
      (a : ℕ) (signature : Bytes) (marshal : SearpcMarshalFunc J O W) (r : Registry J O W)
      → let r' = (searpc_server_register_marshal J O W signature marshal r).1 in
        live a r' + allocated r.next a ≡ live a r + allocated r'.next a
  unfolding searpc_server_register_marshal
  register_marshal-live a signature marshal r =
      elim (Option-cases (lookup_live r.marshal_table signature)) [
        | inr (item, e) ↦ rw (e, searpc_server_register_marshal) (omega arith)
        | inl e ↦
            let t =
              total-insert (block_at a) (λ (item : MarshalItem J O W). 0) r.marshal_table signature
                r.next (record { mfunc = marshal; signature = signature }) in
            let z = replaced_none r.marshal_table signature e in
            rw (e, searpc_server_register_marshal) (ground (arith, t, z, allocated_next r.next a))
      ]

  pub register_function-live :
      (a : ℕ) (svc_name : Bytes) (func : RpcFunc J O W) (fname signature : Bytes) (status : Bool)
      (r r' : Registry J O W)
      → searpc_server_register_function J O W svc_name func fname signature r ≡ done (status, r')
      → live a r'
          + frees_of (register_function_frees J O W svc_name fname signature r) a
          + allocated r.next a
        ≡ live a r + allocated r'.next a
  unfolding searpc_server_register_function register_function_frees
  register_function-live a svc_name func fname signature status r r' d =
      elim (Option-cases (lookup_live r.service_table svc_name)) [
        | inl e ↦
            let same : r ≡ r' = ground arith in
            rw (e, register_function_frees, sym same) (omega arith)
        | inr (service, e) ↦ elim (Option-cases (lookup_live r.marshal_table signature)) [
          | inl m ↦
              let same : r ≡ r' = ground arith in
              rw (e, m, register_function_frees, sym same) (omega arith)
          | inr (mitem, m) ↦ elim (Bool-cases (key_freed service.func_table fname)) [
            | inl k ↦ absurd (
                crashed J O W (
                  sym (
                    register_function_freed J O W svc_name func fname signature r service mitem e m
                      k)
                  ∙ d))
            | inr k ↦
                let item : FuncItem J O W = record {
                  func = func;
                  fname = fname;
                  marshal = mitem;
                } in
                let table = insert_live service.func_table fname r.next item in
                let t =
                  total-insert (block_at a) (λ (item : FuncItem J O W). 0) service.func_table fname
                    r.next item in
                let u =
                  total-modify (block_at a) (funcs_at a) r.service_table svc_name service
                    (record service { func_table = table }) e in
                let same =
                  the_same J O W (with_funcs J O W svc_name service table r) r' true status _
                    (register_function-done J O W svc_name func fname signature r service mitem e m
                      k)
                    d in
                rw (e, m, register_function_frees, sym same)
                  (omega (
                    arith,
                    t,
                    u,
                    allocated_next r.next a,
                    frees_of-func_items_free a service.func_table,
                    frees_of-func_items_free a table,
                    frees_of-func_items_free a (replaced service.func_table fname),
                  ))
          ]
        ]
      ]
