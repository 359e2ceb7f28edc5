-- ===== src/Server/Registry/Final.antt =====
-- The memory of the tables of lib/searpc-server.c: what their destroy functions free, and
-- searpc_server_final. A block is an item together with the name that it owns.
pub mod Sums
pub mod Live
pub mod Once
pub mod Keys
use libsearpc.Prelude.{ℕ, Option, none, some, List, [], ◌∷◌, ◌++◌, Bytes, str_equal, if◌then◌else◌}
use libsearpc.Jansson.{Jansson}
use libsearpc.Types.{Objects}
use libsearpc.Server.Table.{Entry, Table, lookup_live}
use libsearpc.Server.Registry.{FuncItem, MarshalItem, SearpcService, Registry}

-- The entries under a key: those that g_hash_table_remove drops.
unfoldable pub entries_under : {V : Type 0} → Table V → Bytes → Table V
entries_under [] k = []
entries_under (e ∷ t) k =
    let rest = entries_under t k in if str_equal e.key k then e ∷ rest else rest

-- The value that insert_live replaces, if there is one.
unfoldable pub replaced : {V : Type 0} → Table V → Bytes → Table V
replaced [] k = []
replaced (e ∷ t) k = if str_equal e.key k then e ∷ [] else replaced t k

module _ (J : Jansson) (O : Objects J) (W : Type 0) where
  -- g_hash_table_destroy of a func_table, whose destroy function is func_item_free
  unfoldable pub func_items_free : Table (FuncItem J O W) → List ℕ
  func_items_free [] = []
  func_items_free (e ∷ t) = e.value_at ∷ func_items_free t

  -- marshal_item_free on each entry
  unfoldable pub marshal_items_free : Table (MarshalItem J O W) → List ℕ
  marshal_items_free [] = []
  marshal_items_free (e ∷ t) = e.value_at ∷ marshal_items_free t

  -- service_free on each entry: the functions, and the service
  unfoldable pub services_free : Table (SearpcService J O W) → List ℕ
  unfolding func_items_free
  services_free [] = []
  services_free (e ∷ t) =
      (func_items_free e.value.func_table ++ (e.value_at ∷ [])) ++ services_free t

  unfoldable pub searpc_server_final : Registry J O W → List ℕ
  unfolding services_free marshal_items_free
  searpc_server_final r = services_free r.service_table ++ marshal_items_free r.marshal_table

  -- What searpc_remove_service frees.
  unfoldable pub remove_service_frees : Option Bytes → Registry J O W → List ℕ
  unfolding services_free entries_under
  remove_service_frees none r = []
  remove_service_frees (some svc_name) r = services_free (entries_under r.service_table svc_name)

  -- What searpc_server_register_function frees of the tables: the item that it replaces.
  unfoldable pub register_function_frees : Bytes → Bytes → Bytes → Registry J O W → List ℕ
  unfolding func_items_free replaced
  register_function_frees svc_name fname signature r = elim (lookup_live r.service_table svc_name) [
    | none ↦ []
    | some service ↦ elim (lookup_live r.marshal_table signature) [
      | none ↦ []
      | some mitem ↦ func_items_free (replaced service.func_table fname)
    ]
  ]
