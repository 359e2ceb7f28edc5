-- ===== src/Demo/Checks.antt =====
-- The test functions of demo/searpc-demo-client.c, over any transport: what they call, and what
-- they conclude. The text that they print is its verdict.
pub mod Members
pub mod Laws
use libsearpc.Prelude.{
  ℕ, zero, suc, ◌+◌, ◌==◌, Bool, true, false, not, Option, none, some, List, [], ◌∷◌, Bytes, codes,
  length, ℤ, pos, negsuc, int_equal, str_equal, if◌then◌else◌,
}
use libsearpc.Jansson.{Jansson, JsonType}
use libsearpc.Types.{GError, Fault, null_pointer, Run, done, crash, Objects}
use libsearpc.Client.Request.{Param}
use libsearpc.Client.Call.{SearpcClient, searpc_client_call__int, searpc_client_call__objlist}
use libsearpc.Demo.Service.{strlen_name, objlisttest_name}

-- How a test function ends: it prints "succeed" or "fail", it prints the error and calls exit (-1),
-- or it is undefined.
pub data Verdict : Type 0 where
  succeeds fails : Verdict
  exits_with : GError → Verdict
  crashes : Fault → Verdict

abbrev pub hello_searpc : Bytes
hello_searpc = codes "hello searpc"

abbrev pub a_rpc_test : Bytes
a_rpc_test = codes "A rpc test."

abbrev pub report : Bool → Verdict
report b = if b then succeeds else fails

-- ret == strlen (str), where the int is converted to size_t
unfoldable pub is_strlen : ℤ → Bytes → Bool
is_strlen (pos n) str = n == length str
is_strlen (negsuc n) str = false

unfoldable pub string_verdict : Run (ℤ × Option GError) → Verdict
unfolding is_strlen
string_verdict (crash fault) = crashes fault
string_verdict (done (ret, some error)) = exits_with error
string_verdict (done (ret, none)) = report (is_strlen ret hello_searpc)

-- The two tests of a member behind that of its length; strcmp reads the string.
unfoldable pub check_str : ℤ → Bytes → Option Bytes → Bool → Verdict
unfolding is_strlen
check_str len str none equal_false = crashes null_pointer
check_str len str (some s) equal_false =
    if str_equal s str
    then (if equal_false
        then (if is_strlen len str then fails else succeeds)
        else (if is_strlen len str then succeeds else fails))
    else fails

infixr 4 ◌and_then◌
abbrev pub ◌and_then◌ : Verdict → Verdict → Verdict
succeeds and_then v = v
fails and_then v = fails
exits_with error and_then v = exits_with error
crashes fault and_then v = crashes fault

module _ (J : Jansson) where
  open J use {Json, json_typeof, json_object_get, json_string_value, json_integer_value}

  -- json_is_false of a pointer that may be NULL
  unfoldable pub json_is_false : Option Json → Bool
  json_is_false none = false
  json_is_false (some j) = elim (json_typeof j) [ JsonType.false ↦ true | _ ↦ false ]

  -- json_object_get of a pointer that may be NULL
  unfoldable pub member_get : Option Json → Bytes → Option Json
  member_get none key = none
  member_get (some j) key = json_object_get j key

  -- json_array_size of a pointer that may be NULL
  unfoldable pub array_size : Option Json → ℕ
  array_size none = 0
  array_size (some j) = J.json_array_size j

  unfoldable pub array_get : Option Json → ℕ → Option Json
  array_get none i = none
  array_get (some j) i = J.json_array_get j i

  -- One round of the loop; it goes on where the member passes.
  unfoldable pub check_member : ℤ → Bytes → Option Json → Verdict
  unfolding check_str member_get json_is_false
  check_member len str member =
      if int_equal (json_integer_value (member_get member (codes "len"))) len
      then check_str len str (json_string_value (member_get member (codes "str")))
          (json_is_false (member_get member (codes "equal")))
      else fails

  -- for (i = 0; i != count; ++i), with `n` rounds left
  unfoldable pub check_members : ℤ → Bytes → Option Json → ℕ → ℕ → Verdict
  unfolding check_member array_get
  check_members len str array zero i = succeeds
  check_members len str array (suc n) i =
      check_member len str (array_get array i) and_then check_members len str array n (i + 1)

  unfoldable pub check_array : ℕ → ℤ → Bytes → Option Json → Verdict
  unfolding check_members array_size
  check_array count len str array =
      if array_size array == count then check_members len str array count 0 else fails

module _ (J : Jansson) (O : Objects J) where
  open J use {Json, json_null, json_array, json_array_append_new, json_object_set_new}
  open O use {GObject, json_gobject_serialize}

  -- The loop that appends every object of the list to the array.
  unfoldable pub append_list : Json → List GObject → Json
  append_list array [] = array
  append_list array (obj ∷ objs) =
      append_list (json_array_append_new array (some (json_gobject_serialize obj))) objs

  -- The demo client's own copy.
  unfoldable pub set_objlist_to_ret_object : Json → List GObject → Json
  unfolding append_list
  set_objlist_to_ret_object object [] = json_object_set_new object (codes "ret") (some json_null)
  set_objlist_to_ret_object object (obj ∷ objs) =
      json_object_set_new object (codes "ret") (some (append_list json_array (obj ∷ objs)))

  unfoldable pub glist_verdict : ℕ → ℤ → Bytes → Run (List GObject × Option GError) → Verdict
  unfolding set_objlist_to_ret_object check_array
  glist_verdict count len str (crash fault) = crashes fault
  glist_verdict count len str (done (ans, some error)) = exits_with error
  glist_verdict count len str (done (ans, none)) =
      check_array J count len str
        (J.json_object_get (set_objlist_to_ret_object J.json_object ans) (codes "ret"))

  module _ (W : Type 0) (rpc_client : SearpcClient J O W) where
    unfoldable pub rpc_string_test : W → Verdict × W
    unfolding string_verdict searpc_client_call__int
    rpc_string_test w =
        let (ret, w') =
          searpc_client_call__int J O W rpc_client (some strlen_name)
            (Param.string (some hello_searpc) ∷ []) w in
        (string_verdict ret, w')

    -- `object_type` is TEST_OBJECT_TYPE.
    unfoldable pub rpc_glist_test : O.GType → W → Verdict × W
    unfolding glist_verdict searpc_client_call__objlist
    rpc_glist_test object_type w =
        let (ret, w') =
          searpc_client_call__objlist J O W rpc_client (some objlisttest_name) object_type
            (Param.int (pos 4) ∷ Param.int (pos 11) ∷ Param.string (some a_rpc_test) ∷ []) w in
        (glist_verdict 4 (pos 11) a_rpc_test ret, w')
