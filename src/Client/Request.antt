-- ===== src/Client/Request.antt =====
-- `fcall_to_str` of lib/searpc-client.c.
use libsearpc.Prelude.{Option, none, some, List, [], ◌∷◌, Bytes, ℤ, to_int}
use libsearpc.Jansson.{Jansson, compact}
use libsearpc.Utils.{json_array_add_string_or_null_element, json_array_add_json_or_null_element}

module _ (J : Jansson) where
  open J use {Json, json_integer, json_string, json_array, json_array_append_new, json_dumps}

  -- A parameter of a call: the pair of a type name and a value in the variable arguments, by the
  -- type names that the code tests. `int` holds the pointer-sized value, before its cast.
  pub data Param : Type 0 where
    int int64 : ℤ → Param
    string : Option Bytes → Param
    json : Option Json → Param
    other : Param

  -- The loop over the parameters; NULL at a type name that is not known.
  unfoldable pub fcall_params : Json → List Param → Option Json
  unfolding json_array_add_string_or_null_element json_array_add_json_or_null_element
  fcall_params array [] = some array
  fcall_params array (int value ∷ params) =
      fcall_params (json_array_append_new array (some (json_integer (to_int value)))) params
  fcall_params array (int64 value ∷ params) =
      fcall_params (json_array_append_new array (some (json_integer value))) params
  fcall_params array (string value ∷ params) =
      fcall_params (json_array_add_string_or_null_element J array value) params
  fcall_params array (json value ∷ params) =
      fcall_params (json_array_add_json_or_null_element J array value) params
  fcall_params array (other ∷ params) = none

  unfoldable pub fcall_to_str : Bytes → List Param → Option Bytes
  fcall_to_str fname params =
      elim (fcall_params (json_array_append_new json_array (json_string fname)) params) [
        | none ↦ none
        | some array ↦ some (json_dumps compact array)
      ]
