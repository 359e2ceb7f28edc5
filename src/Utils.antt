-- ===== src/Utils.antt =====
-- The inline helpers of lib/searpc-utils.h, and the JSON macro that they share.
use libsearpc.Prelude.{ℕ, Bool, true, false, Option, none, some, Bytes, ℤ}
use libsearpc.Jansson.{Jansson, JsonType}
use libsearpc.Types.{GError, searpc_json}

-- setjetoge: SEARPC_JSON_ERROR_LOAD is 0
unfoldable pub setjetoge : Bytes → GError
setjetoge text = record { domain = searpc_json; code = ℤ.pos 0; message = text }

unfoldable pub is_null_type : JsonType → Bool
is_null_type JsonType.null = true
is_null_type _ = false

module _ (J : Jansson) where
  open J use {
    Json, json_typeof, json_null, json_string, json_object_get, json_object_set_new, json_array_get,
    json_array_append_new, json_string_value, json_integer_value, json_deep_copy,
  }

  -- jansson's macro: false on NULL
  unfoldable pub json_is_null : Option Json → Bool
  unfolding is_null_type
  json_is_null none = false
  json_is_null (some j) = is_null_type (json_typeof j)

  unfoldable pub json_object_get_string_or_null_member : Json → Bytes → Option Bytes
  json_object_get_string_or_null_member object name = elim (json_object_get object name) [
    | some member ↦ json_string_value (some member)
    | none ↦ none
  ]

  unfoldable pub json_object_set_string_or_null_member : Json → Bytes → Option Bytes → Json
  json_object_set_string_or_null_member object name (some value) =
      json_object_set_new object name (json_string value)
  json_object_set_string_or_null_member object name none =
      json_object_set_new object name (some json_null)

  unfoldable pub json_array_get_string_or_null_element : Json → ℕ → Option Bytes
  json_array_get_string_or_null_element array index = elim (json_array_get array index) [
    | some element ↦ json_string_value (some element)
    | none ↦ none
  ]

  unfoldable pub json_array_add_string_or_null_element : Json → Option Bytes → Json
  json_array_add_string_or_null_element array (some value) =
      json_array_append_new array (json_string value)
  json_array_add_string_or_null_element array none = json_array_append_new array (some json_null)

  unfoldable pub json_array_get_int_element : Json → ℕ → ℤ
  json_array_get_int_element array index = json_integer_value (json_array_get array index)

  unfoldable pub json_array_get_json_or_null_element : Json → ℕ → Option Json
  json_array_get_json_or_null_element array index = json_array_get array index

  unfoldable pub json_array_add_json_or_null_element : Json → Option Json → Json
  json_array_add_json_or_null_element array (some value) =
      json_array_append_new array (some (json_deep_copy value))
  json_array_add_json_or_null_element array none = json_array_append_new array (some json_null)
