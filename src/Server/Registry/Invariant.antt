-- ===== src/Server/Registry/Invariant.antt =====
-- The well-formedness of the registry of lib/searpc-server.c under its operations.
use libsearpc.Prelude.{
  ℕ, ◌+◌, ◌<◌, ◌≡◌, refl, Option, none, some, [], arith, Bytes, str_equal_iff, Option-cases, inl,
  inr,
}
use libsearpc.Jansson.{Jansson}
use libsearpc.Types.{Objects}
use libsearpc.Server.Table.{Entry, Table, lookup_live, insert_live, AllEntries}
use libsearpc.Server.Table.Laws.{
  lookup-insert, AllEntries-lookup, AllEntries-insert, AllEntries-remove, AllEntries-mono,
}
use libsearpc.Server.Registry.{
  SearpcMarshalFunc, MarshalItem, FuncItem, SearpcService, Registry, new_registry,
  searpc_create_service, searpc_remove_service, searpc_server_register_marshal,
}

-- An entry whose key is the given name inside its own value, below the next free address.
pub record IsOwned (V : Type 0) (next : ℕ) (name : Bytes) (e : Entry V) : Type 0 where
  pub named : e.key ≡ name
  pub owned : e.key_at ≡ e.value_at
  pub below : e.value_at < next

pub IsOwned-grow :
    (V : Type 0) (next : ℕ) (name : Bytes) (e : Entry V)
    → IsOwned V next name e
    → IsOwned V (next + 1) name e
IsOwned-grow V next name e h = record { named = h.named; owned = h.owned; below = omega arith }

module _ (J : Jansson) (O : Objects J) (W : Type 0) where
  -- A function's item points to a marshal of the marshal table.
  pub record IsFuncEntry (next : ℕ) (marshals : Table (MarshalItem J O W))
      (e : Entry (FuncItem J O W)) : Type 0 where
    pub at : IsOwned (FuncItem J O W) next e.value.fname e
    pub linked : lookup_live marshals e.value.marshal.signature ≡ some e.value.marshal

  pub record IsServiceEntry (next : ℕ) (marshals : Table (MarshalItem J O W))
      (e : Entry (SearpcService J O W)) : Type 0 where
    pub at : IsOwned (SearpcService J O W) next e.value.name e
    pub funcs : AllEntries (IsFuncEntry next marshals) e.value.func_table

  abbrev pub IsMarshalEntry : ℕ → Entry (MarshalItem J O W) → Type 0
  IsMarshalEntry next e = IsOwned (MarshalItem J O W) next e.value.signature e

  -- Every key of the three kinds of tables is the name in its own value, which is still stored
  -- there, and every function has the marshal that is registered under its signature.
  pub record WellFormed (r : Registry J O W) : Type 0 where
    pub marshals : AllEntries (IsMarshalEntry r.next) r.marshal_table
    pub services : AllEntries (IsServiceEntry r.next r.marshal_table) r.service_table

  pub new_registry-WellFormed : WellFormed (new_registry J O W)
  new_registry-WellFormed = record { marshals = tt; services = tt }

  -- A new marshal and a new address change nothing for the items that are there.
  pub IsFuncEntry-grow :
      (next : ℕ) (old new : Table (MarshalItem J O W))
      → ((k : Bytes) (m : MarshalItem J O W)
          → lookup_live old k ≡ some m
          → lookup_live new k ≡ some m)
      → (e : Entry (FuncItem J O W)) → IsFuncEntry next old e
      → IsFuncEntry (next + 1) new e
  IsFuncEntry-grow next old new keep e h = record {
    at = IsOwned-grow (FuncItem J O W) next e.value.fname e h.at;
    linked = keep e.value.marshal.signature e.value.marshal h.linked;
  }

  pub IsServiceEntry-grow :
      (next : ℕ) (old new : Table (MarshalItem J O W))
      → ((k : Bytes) (m : MarshalItem J O W)
          → lookup_live old k ≡ some m
          → lookup_live new k ≡ some m)
      → (e : Entry (SearpcService J O W)) → IsServiceEntry next old e
      → IsServiceEntry (next + 1) new e
  IsServiceEntry-grow next old new keep e h = record {
    at = IsOwned-grow (SearpcService J O W) next e.value.name e h.at;
    funcs = AllEntries-mono _ _ (IsFuncEntry-grow next old new keep) e.value.func_table h.funcs;
  }

  -- searpc_create_service keeps the registry well-formed, whether the name is NULL, new or known.
  pub create_service-WellFormed :
      (svc_name : Option Bytes) (r : Registry J O W)
      → WellFormed r
      → WellFormed (searpc_create_service J O W svc_name r).1
  unfolding searpc_create_service
  create_service-WellFormed none r h = h
  create_service-WellFormed (some svc_name) r h =
      elim (Option-cases (lookup_live r.service_table svc_name)) [
        | inr (service, e) ↦ rw (e, searpc_create_service) h
        | inl e ↦
            rw (e, searpc_create_service)
              (record {
                marshals =
                    AllEntries-mono _ _
                      (λ m. IsOwned-grow (MarshalItem J O W) r.next m.value.signature m)
                      r.marshal_table h.marshals;
                services =
                    AllEntries-insert _ r.service_table svc_name r.next
                      (record { name = svc_name; func_table = [] })
                      (AllEntries-mono _ _
                        (IsServiceEntry-grow r.next r.marshal_table r.marshal_table (λ k m f. f))
                        r.service_table h.services)
                      e
                      (record {
                        at = record { named = refl; owned = refl; below = omega arith };
                        funcs = tt;
                      });
              })
      ]

  -- searpc_remove_service keeps the registry well-formed, whether the name is NULL, unknown or
  -- known.
  pub remove_service-WellFormed :
      (svc_name : Option Bytes) (r : Registry J O W)
      → WellFormed r
      → WellFormed (searpc_remove_service J O W svc_name r)
  unfolding searpc_remove_service
  remove_service-WellFormed none r h = h
  remove_service-WellFormed (some svc_name) r h = record {
    marshals = h.marshals;
    services = AllEntries-remove _ r.service_table svc_name h.services;
  }

  -- searpc_server_register_marshal keeps the registry well-formed, whether or not the signature is
  -- new.
  pub register_marshal-WellFormed :
      (signature : Bytes) (marshal : SearpcMarshalFunc J O W) (r : Registry J O W)
      → WellFormed r
      → WellFormed (searpc_server_register_marshal J O W signature marshal r).1
  unfolding searpc_server_register_marshal
  register_marshal-WellFormed signature marshal r h =
      elim (Option-cases (lookup_live r.marshal_table signature)) [
        | inr (mitem, e) ↦ rw (e, searpc_server_register_marshal) h
        | inl e ↦
            let item : MarshalItem J O W = record { mfunc = marshal; signature = signature } in
            rw (e, searpc_server_register_marshal)
              (record {
                marshals =
                    AllEntries-insert _ r.marshal_table signature r.next item
                      (AllEntries-mono _ _
                        (λ m. IsOwned-grow (MarshalItem J O W) r.next m.value.signature m)
                        r.marshal_table h.marshals)
                      e (record { named = refl; owned = refl; below = omega arith });
                services =
                    AllEntries-mono _ _
                      (IsServiceEntry-grow r.next r.marshal_table
                        (insert_live r.marshal_table signature r.next item)
                        (λ k m f. ground (
                          arith,
                          lookup-insert r.marshal_table signature r.next item k,
                          str_equal_iff signature k,
                        )))
                      r.service_table h.services;
              })
      ]

module _ (J : Jansson) (O : Objects J) (W : Type 0) where
  -- A marshal that is found has the signature under which it was looked up.
  pub signature-lookup :
      (r : Registry J O W) (signature : Bytes) {mitem : MarshalItem J O W}
      → WellFormed J O W r
      → lookup_live r.marshal_table signature ≡ some mitem
      → mitem.signature ≡ signature
  signature-lookup r signature {mitem} h m =
      let (e, k, v, at) =
        AllEntries-lookup (IsMarshalEntry J O W r.next) r.marshal_table signature h.marshals m in
      cc (at.named, k, v)
