-- ===== src/Server/Marshal.antt =====
-- The marshal that lib/searpc-codegen.py generates for a return type and parameter types, and the
-- signature under which it is registered (searpc_compute_signature of lib/searpc-server.c). The
-- setter is chosen here by the kind of the returned value; in C the function's type, which the
-- signature names, fixes that kind.
pub mod Signature
use libsearpc.Prelude.{ℕ, ◌+◌, List, [], ◌∷◌, ◌++◌, Bytes, codes, to_int}
use libsearpc.Jansson.{Jansson}
use libsearpc.Types.{Objects, Value, Arg, ArgType}
use libsearpc.Utils.{
  json_array_get_string_or_null_element, json_array_get_int_element,
  json_array_get_json_or_null_element,
}
use libsearpc.Server.Registry.{SearpcMarshalFunc}
use libsearpc.Server.Reply.{
  searpc_set_string_to_ret_object, searpc_set_int_to_ret_object, searpc_set_json_to_ret_object,
  searpc_set_object_to_ret_object, searpc_set_objlist_to_ret_object, searpc_marshal_set_ret_common,
}

module _ (J : Jansson) where
  open J use {Json}

  -- ${get_parameters}: parameter i is read from element i of the array; an `int` is cast.
  unfoldable pub get_parameter : Json → ℕ → ArgType → Arg J
  unfolding json_array_get_string_or_null_element json_array_get_int_element
      json_array_get_json_or_null_element
  get_parameter param_array i ArgType.int =
      Arg.int (to_int (json_array_get_int_element J param_array i))
  get_parameter param_array i ArgType.int64 = Arg.int64 (json_array_get_int_element J param_array i)
  get_parameter param_array i ArgType.string =
      Arg.string (json_array_get_string_or_null_element J param_array i)
  get_parameter param_array i ArgType.json =
      Arg.json (json_array_get_json_or_null_element J param_array i)

  unfoldable pub get_parameters : Json → ℕ → List ArgType → List (Arg J)
  get_parameters param_array i [] = []
  get_parameters param_array i (t ∷ types) =
      get_parameter param_array i t ∷ get_parameters param_array (i + 1) types

module _ (J : Jansson) (O : Objects J) where
  open J use {Json}

  -- ${convert_ret}
  unfoldable pub convert_ret : Json → Value J O → Json
  unfolding searpc_set_string_to_ret_object searpc_set_int_to_ret_object
      searpc_set_json_to_ret_object searpc_set_object_to_ret_object searpc_set_objlist_to_ret_object
  convert_ret object (Value.int ret) = searpc_set_int_to_ret_object J object ret
  convert_ret object (Value.int64 ret) = searpc_set_int_to_ret_object J object ret
  convert_ret object (Value.string ret) = searpc_set_string_to_ret_object J object ret
  convert_ret object (Value.object ret) = searpc_set_object_to_ret_object J O object ret
  convert_ret object (Value.objlist ret) = searpc_set_objlist_to_ret_object J O object ret
  convert_ret object (Value.json ret) = searpc_set_json_to_ret_object J object ret

module _ (J : Jansson) (O : Objects J) (W : Type 0) where
  open J use {json_object}

  unfoldable pub marshal : List ArgType → SearpcMarshalFunc J O W
  unfolding get_parameters convert_ret searpc_marshal_set_ret_common
  marshal arg_types func param_array w =
      let ((ret, error), w') = func (get_parameters J param_array 1 arg_types) w in
      (searpc_marshal_set_ret_common J (convert_ret J O json_object ret) error, w')

-- The text that is fed to the checksum: the return type, then ":" and each parameter type.
unfoldable pub signature_text : Bytes → List Bytes → Bytes
signature_text ret_type [] = ret_type
signature_text ret_type (ptype ∷ ptypes) = signature_text (ret_type ++ (codes ":" ++ ptype)) ptypes

-- `md5` is the hexadecimal digest that GLib's GChecksum computes.
unfoldable pub searpc_compute_signature : (Bytes → Bytes) → Bytes → List Bytes → Bytes
unfolding signature_text
searpc_compute_signature md5 ret_type ptypes = md5 (signature_text ret_type ptypes)
