-- ===== src/Server/Registry.antt =====
-- The tables of lib/searpc-server.c and the operations that fill them. What the C code keeps as
-- `void *func` is a function on the list of its arguments; it may act on the world `W`, and it
-- returns a value and the error that it set. The allocation of an item takes the next address.
pub mod Lookup
pub mod Invariant
pub mod Outcomes
pub mod Register
pub mod Reach
pub mod Final
use libsearpc.Prelude.{
  ℕ, ◌+◌, Bool, true, false, Option, none, some, List, [], Bytes, ℤ, pos, negsuc,
}
use libsearpc.Jansson.{Jansson}
use libsearpc.Types.{GError, Run, done, crash, ◌>>=◌, Objects, Value, Arg}
use libsearpc.Server.Table.{
  Table, lookup_live, insert_live, g_hash_table_lookup, g_hash_table_insert, g_hash_table_remove,
  modify,
}

module _ (J : Jansson) (O : Objects J) (W : Type 0) where
  open J use {Json}

  abbrev pub RpcFunc : Type 0
  RpcFunc = List (Arg J) → W → (Value J O × Option GError) × W

  -- A marshal gets the function and the request's array, and returns the reply's text.
  abbrev pub SearpcMarshalFunc : Type 0
  SearpcMarshalFunc = RpcFunc → Json → W → Bytes × W

  pub record MarshalItem : Type 0 where
    pub mfunc : SearpcMarshalFunc
    pub signature : Bytes

  pub record FuncItem : Type 0 where
    pub func : RpcFunc
    pub fname : Bytes
    pub marshal : MarshalItem

  pub record SearpcService : Type 0 where
    pub name : Bytes
    pub func_table : Table FuncItem

  -- The two static tables, and the next free address.
  pub record Registry : Type 0 where
    pub marshal_table : Table MarshalItem
    pub service_table : Table SearpcService
    pub next : ℕ

  -- The tables that searpc_server_init makes, before it calls `register_func`.
  abbrev pub new_registry : Registry
  new_registry = record { marshal_table = []; service_table = []; next = 0 }

  unfoldable pub searpc_server_init : (Registry → Registry) → Registry
  searpc_server_init register_func = register_func new_registry

  unfoldable pub searpc_create_service : Option Bytes → Registry → ℤ × Registry
  searpc_create_service none r = (negsuc 0, r)
  searpc_create_service (some svc_name) r = elim (lookup_live r.service_table svc_name) [
    | some service ↦ (pos 0, r)
    | none ↦ (
      pos 0,
      record r {
        service_table =
            insert_live r.service_table svc_name r.next
              (record { name = svc_name; func_table = [] });
        next = r.next + 1;
      },
    )
  ]

  unfoldable pub searpc_remove_service : Option Bytes → Registry → Registry
  searpc_remove_service none r = r
  searpc_remove_service (some svc_name) r = record r {
    service_table = g_hash_table_remove r.service_table svc_name;
  }

  unfoldable pub searpc_server_register_marshal :
      Bytes → SearpcMarshalFunc → Registry → Bool × Registry
  searpc_server_register_marshal signature marshal r =
      elim (lookup_live r.marshal_table signature) [
        | some mitem ↦ (false, r)
        | none ↦ (
          true,
          record r {
            marshal_table =
                insert_live r.marshal_table signature r.next
                  (record { mfunc = marshal; signature = signature });
            next = r.next + 1;
          },
        )
      ]

  -- The service in place with another table of functions, and the address of the new item taken.
  abbrev pub with_funcs : Bytes → SearpcService → Table FuncItem → Registry → Registry
  with_funcs svc_name service funcs r = record r {
    service_table = modify r.service_table svc_name (record service { func_table = funcs });
    next = r.next + 1;
  }

  -- The insertion into `service->func_table`, which changes the service in place. It compares the
  -- name with its key in the table, if there is one.
  unfoldable pub add_func : Bytes → SearpcService → FuncItem → Registry → Run Registry
  unfolding g_hash_table_insert
  add_func svc_name service item r =
      g_hash_table_insert service.func_table item.fname r.next item >>= λ funcs.
      done (with_funcs svc_name service funcs r)

  unfoldable pub searpc_server_register_function :
      Bytes → RpcFunc → Bytes → Bytes → Registry → Run (Bool × Registry)
  unfolding add_func
  searpc_server_register_function svc_name func fname signature r =
      elim (lookup_live r.service_table svc_name) [
        | none ↦ done (false, r)
        | some service ↦ elim (lookup_live r.marshal_table signature) [
          | none ↦ done (false, r)
          | some mitem ↦
              add_func svc_name service (record { func = func; fname = fname; marshal = mitem }) r
              >>= λ r'. done (true, r')
        ]
      ]

  -- The tables after a registration that returns.
  abbrev pub registered : Run (Bool × Registry) → Registry
  registered (done (status, r)) = r
  registered (crash fault) = new_registry

  -- The lookup that a call makes: the service, then the function in its table.
  unfoldable pub find_function : Registry → Bytes → Bytes → Run (Option FuncItem)
  unfolding g_hash_table_lookup
  find_function r svc_name fname = elim (lookup_live r.service_table svc_name) [
    | none ↦ done none
    | some service ↦ g_hash_table_lookup service.func_table fname
  ]
