-- ===== src/Server/Reply.antt =====
-- The construction of a reply: the searpc_set_..._to_ret_object functions,
-- searpc_marshal_set_ret_common and error_to_json of lib/searpc-server.c.
use libsearpc.Prelude.{Option, none, some, List, [], ◌∷◌, Bytes, codes, ℤ}
use libsearpc.Jansson.{Jansson, compact}
use libsearpc.Types.{GError, Objects}
use libsearpc.Utils.{json_object_set_string_or_null_member}

module _ (J : Jansson) where
  open J use {Json, json_null, json_string, json_integer, json_object, json_object_set_new}
  open J use {json_array, json_array_append_new, json_dumps}

  unfoldable pub searpc_set_string_to_ret_object : Json → Option Bytes → Json
  searpc_set_string_to_ret_object object none =
      json_object_set_new object (codes "ret") (some json_null)
  searpc_set_string_to_ret_object object (some ret) =
      json_object_set_new object (codes "ret") (json_string ret)

  unfoldable pub searpc_set_int_to_ret_object : Json → ℤ → Json
  searpc_set_int_to_ret_object object ret =
      json_object_set_new object (codes "ret") (some (json_integer ret))

  unfoldable pub searpc_set_json_to_ret_object : Json → Option Json → Json
  searpc_set_json_to_ret_object object none =
      json_object_set_new object (codes "ret") (some json_null)
  searpc_set_json_to_ret_object object (some ret) =
      json_object_set_new object (codes "ret") (some ret)

  -- The members of an error, if there is one.
  unfoldable pub set_error : Json → Option GError → Json
  set_error object none = object
  set_error object (some error) =
      json_object_set_new
        (json_object_set_new object (codes "err_code") (some (json_integer error.code)))
        (codes "err_msg") (json_string error.message)

  unfoldable pub searpc_marshal_set_ret_common : Json → Option GError → Bytes
  unfolding set_error
  searpc_marshal_set_ret_common object error = json_dumps compact (set_error object error)

  unfoldable pub error_object : ℤ → Option Bytes → Json
  unfolding json_object_set_string_or_null_member
  error_object code msg =
      json_object_set_string_or_null_member J
        (json_object_set_new json_object (codes "err_code") (some (json_integer code)))
        (codes "err_msg") msg

  unfoldable pub error_to_json : ℤ → Option Bytes → Bytes
  unfolding error_object
  error_to_json code msg = json_dumps compact (error_object code msg)

module _ (J : Jansson) (O : Objects J) where
  open J use {Json, json_null, json_array, json_array_append_new, json_object_set_new}
  open O use {GObject, json_gobject_serialize}

  unfoldable pub searpc_set_object_to_ret_object : Json → Option GObject → Json
  searpc_set_object_to_ret_object object none =
      json_object_set_new object (codes "ret") (some json_null)
  searpc_set_object_to_ret_object object (some ret) =
      json_object_set_new object (codes "ret") (some (json_gobject_serialize ret))

  -- The loop that appends every object of the list to the array.
  unfoldable pub append_objects : Json → List GObject → Json
  append_objects array [] = array
  append_objects array (obj ∷ objs) =
      append_objects (json_array_append_new array (some (json_gobject_serialize obj))) objs

  unfoldable pub searpc_set_objlist_to_ret_object : Json → List GObject → Json
  unfolding append_objects
  searpc_set_objlist_to_ret_object object [] =
      json_object_set_new object (codes "ret") (some json_null)
  searpc_set_objlist_to_ret_object object (obj ∷ objs) =
      json_object_set_new object (codes "ret") (some (append_objects json_array (obj ∷ objs)))
