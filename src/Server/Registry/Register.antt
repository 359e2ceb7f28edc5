-- ===== src/Server/Registry/Register.antt =====
-- searpc_server_register_function of lib/searpc-server.c: the first registration of a name, which
-- keeps the registry well-formed, and a second one.
use libsearpc.Prelude.{
  ℕ, ◌+◌, ◌<◌, ◌≡◌, ◌≢◌, refl, ◌∙◌, ap, Bool, true, ◌&&◌, str_equal, str_equal_self, str_equal_iff,
  none, some, arith, Bytes, Option-cases, inl, inr, if◌then◌else◌,
}
use libsearpc.Jansson.{Jansson}
use libsearpc.Types.{Objects, done, crash, use_after_free}
use libsearpc.Server.Table.{Entry, Table, lookup_live, insert_live, AllEntries, KeysOwned}
use libsearpc.Server.Table.Laws.{
  AllEntries-lookup, AllEntries-insert, AllEntries-mono, AllEntries-modify, lookup-modify,
  KeysOwned-key_freed, key_freed-again, lookup_freed, lookup-other,
}
use libsearpc.Server.Registry.{
  RpcFunc, MarshalItem, FuncItem, SearpcService, Registry, searpc_server_register_function,
  find_function, with_funcs,
}
use libsearpc.Server.Registry.Outcomes.{
  the_same, register_function-done, register_function_freed, find-found, find-with_funcs,
}
use libsearpc.Server.Registry.Invariant.{
  IsFuncEntry, IsServiceEntry, WellFormed, signature-lookup, IsOwned-grow, IsFuncEntry-grow,
  IsServiceEntry-grow,
}

module _ (J : Jansson) (O : Objects J) (W : Type 0) where
  -- The service with one more function, whose name is new in it.
  added_func :
      (r : Registry J O W) (service : SearpcService J O W) (e : Entry (SearpcService J O W))
      (item : FuncItem J O W)
      → lookup_live r.marshal_table item.marshal.signature ≡ some item.marshal
      → lookup_live service.func_table item.fname ≡ none
      → e.value ≡ service
      → IsServiceEntry J O W r.next r.marshal_table e
      → IsServiceEntry J O W (r.next + 1) r.marshal_table (record e {
        value = record service {
          func_table = insert_live service.func_table item.fname r.next item;
        };
      })
  added_func r service e item m fresh v h = record {
    at = record {
      named = h.at.named ∙ ap (λ (x : SearpcService J O W). x.name) v;
      owned = h.at.owned;
      below = omega (arith, h.at.below);
    };
    funcs =
        AllEntries-insert _ service.func_table item.fname r.next item
          (AllEntries-mono _ _
            (IsFuncEntry-grow J O W r.next r.marshal_table r.marshal_table (λ k x f. f))
            service.func_table (rw v at h.funcs))
          fresh
          (record { at = record { named = refl; owned = refl; below = omega arith }; linked = m });
  }

  with_funcs-WellFormed :
      (svc_name : Bytes) (service : SearpcService J O W) (item : FuncItem J O W)
      (r : Registry J O W)
      → lookup_live r.service_table svc_name ≡ some service
      → lookup_live r.marshal_table item.marshal.signature ≡ some item.marshal
      → lookup_live service.func_table item.fname ≡ none
      → WellFormed J O W r
      → WellFormed J O W (
          with_funcs J O W svc_name service
            (insert_live service.func_table item.fname r.next item)
            r)
  with_funcs-WellFormed svc_name service item r s m fresh h = record {
    marshals =
        AllEntries-mono _ _ (λ e. IsOwned-grow (MarshalItem J O W) r.next e.value.signature e)
          r.marshal_table h.marshals;
    services =
        AllEntries-modify _ _ svc_name _
          (IsServiceEntry-grow J O W r.next r.marshal_table r.marshal_table (λ k x f. f))
          r.service_table (λ e k l p. added_func r service e item m fresh (cc (l, s)) p) h.services;
  }

  -- Registering a function under a name that its service does not have keeps the registry well-
  -- formed, whether or not the registration succeeds.
  pub register_function-WellFormed :
      (svc_name : Bytes) (func : RpcFunc J O W) (fname signature : Bytes) (status : Bool)
      (r r' : Registry J O W)
      → find_function J O W r svc_name fname ≡ done none
      → searpc_server_register_function J O W svc_name func fname signature r ≡ done (status, r')
      → WellFormed J O W r
      → WellFormed J O W r'
  unfolding searpc_server_register_function
  register_function-WellFormed svc_name func fname signature status r r' new d h =
      elim (Option-cases (lookup_live r.service_table svc_name)) [
        | inl e ↦ let same : r ≡ r' = ground arith in rw same at h
        | inr (service, e) ↦ elim (Option-cases (lookup_live r.marshal_table signature)) [
          | inl m ↦ let same : r ≡ r' = ground arith in rw same at h
          | inr (mitem, m) ↦
              let (k, fresh) = find-found J O W r svc_name fname service e new in
              rw
                (the_same J O W _ r' true status _
                  (register_function-done J O W svc_name func fname signature r service mitem e m k)
                  d)
                at
                (with_funcs-WellFormed svc_name service
                  (record { func = func; fname = fname; marshal = mitem }) r e
                  (ap (lookup_live r.marshal_table) (signature-lookup J O W r signature h m) ∙ m)
                  fresh h)
        ]
      ]

  keys_of_funcs :
      (next : ℕ) (marshals : Table (MarshalItem J O W)) (t : Table (FuncItem J O W))
      → AllEntries (IsFuncEntry J O W next marshals) t
      → KeysOwned t × AllEntries (λ e. e.value_at < next) t
  keys_of_funcs next marshals t a =
      (AllEntries-mono _ _ (λ e h. h.at.owned) t a, AllEntries-mono _ _ (λ e h. h.at.below) t a)

  service_funcs :
      (r : Registry J O W) (svc_name : Bytes) (service : SearpcService J O W)
      → WellFormed J O W r
      → lookup_live r.service_table svc_name ≡ some service
      → KeysOwned service.func_table × AllEntries (λ e. e.value_at < r.next) service.func_table
  service_funcs r svc_name service h s =
      let (e, k, v, p) =
        AllEntries-lookup (IsServiceEntry J O W r.next r.marshal_table) r.service_table svc_name
          h.services s in
      rw v at (keys_of_funcs r.next r.marshal_table e.value.func_table p.funcs)

  -- From a well-formed registry, registering a function under a name that its service already has,
  -- with a signature that has a marshal, succeeds, and after it a lookup of that name in that
  -- service, and a further registration under it with a signature that has a marshal, reads freed
  -- memory; every other pair of a service and a name finds what it found before.
  pub register_function_twice :
      (svc_name : Bytes) (func func' : RpcFunc J O W) (fname signature signature' : Bytes)
      (r : Registry J O W) (service : SearpcService J O W) (mitem mitem' : MarshalItem J O W)
      → WellFormed J O W r
      → lookup_live r.service_table svc_name ≡ some service
      → lookup_live service.func_table fname ≢ none
      → lookup_live r.marshal_table signature ≡ some mitem
      → lookup_live r.marshal_table signature' ≡ some mitem'
      → (r' : Registry J O W) × (searpc_server_register_function J O W svc_name func fname signature
            r
          ≡ done (true, r'))
        × ((svc name : Bytes)
            → find_function J O W r' svc name ≡ (
                if str_equal svc_name svc && str_equal fname name
                then crash use_after_free
                else find_function J O W r svc name))
        × (searpc_server_register_function J O W svc_name func' fname signature' r'
            ≡ crash use_after_free)
  unfolding find_function
  register_function_twice svc_name func func' fname signature signature' r service mitem mitem' h s
        f m m' =
      let item : FuncItem J O W = record { func = func; fname = fname; marshal = mitem } in
      let funcs = insert_live service.func_table fname r.next item in
      let service' : SearpcService J O W = record service { func_table = funcs } in
      let r' = with_funcs J O W svc_name service funcs r in
      let old = service_funcs r svc_name service h s in
      let freed = key_freed-again service.func_table fname r.next item f old.1 old.0 in
      let found : lookup_live r'.service_table svc_name ≡ some service' = ground (
        arith,
        lookup-modify r.service_table svc_name service' svc_name,
        str_equal_self svc_name,
      ) in
      (
        r',
        register_function-done J O W svc_name func fname signature r service mitem s m
            (KeysOwned-key_freed service.func_table fname old.0),
        λ svc name. ground (
          arith,
          find-with_funcs J O W svc_name service funcs r svc name s,
          lookup_freed funcs fname freed,
          lookup-other service.func_table fname r.next item name,
          str_equal_iff svc_name svc,
          str_equal_iff fname name,
        ),
        register_function_freed J O W svc_name func' fname signature' r' service' mitem' found m'
            freed,
      )
