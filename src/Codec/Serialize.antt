-- ===== src/Codec/Serialize.antt =====
-- json_serialize_pspec and json_gobject_serialize. Objects can hold objects: the number is that of
-- the nested calls which the stack has room for, and a cycle of objects takes any of them.
use libsearpc.Prelude.{
  ℕ, zero, suc, Option, none, some, List, [], ◌∷◌, Bytes, if◌then◌else◌, to_int64,
}
use libsearpc.Jansson.{Jansson}
use libsearpc.Types.{Run, done, crash, stack_overflow, ◌>>=◌}
use libsearpc.Codec.System.{GValue, ParamSpec, GObjects}

module _ (J : Jansson) (G : GObjects J) where
  open J use {Json, Real, json_null, json_true, json_false, json_real, json_integer, json_string}
  open J use {json_object, json_object_set_new}
  open G use {GObject, GType, type_of, list_properties, get_property}

  -- The node of a value, or none for the NULL of json_string and json_real. `serialize` is the
  -- recursive call.
  unfoldable pub json_serialize_pspec :
      (GObject → Run Json) → GValue GObject Real → Run (Option Json)
  json_serialize_pspec serialize (GValue.string none) = done (some json_null)
  json_serialize_pspec serialize (GValue.string (some s)) = done (json_string s)
  json_serialize_pspec serialize (GValue.boolean b) =
      done (some (if b then json_true else json_false))
  json_serialize_pspec serialize (GValue.num kind z) = done (some (json_integer (to_int64 z)))
  json_serialize_pspec serialize (GValue.float r) = done (json_real r)
  json_serialize_pspec serialize (GValue.double r) = done (json_real r)
  json_serialize_pspec serialize (GValue.object none) = done (some json_null)
  json_serialize_pspec serialize (GValue.object (some object)) =
      serialize object >>= λ j. done (some j)
  json_serialize_pspec serialize GValue.none = done (some json_null)
  json_serialize_pspec serialize GValue.unsupported = done (some json_null)

  -- json_object_set_new, if there is a node
  unfoldable pub set_node : Json → Bytes → Option Json → Json
  set_node object name none = object
  set_node object name (some node) = json_object_set_new object name (some node)

  -- The loop over the properties of the class; `object` is the result so far.
  unfoldable pub serialize_properties :
      (GObject → Run Json) → GObject → List (ParamSpec GType) → Json → Run Json
  unfolding set_node
  serialize_properties serialize gobject [] object = done object
  serialize_properties serialize gobject (pspec ∷ pspecs) object =
      json_serialize_pspec serialize (get_property gobject pspec) >>= λ node.
      serialize_properties serialize gobject pspecs (set_node object pspec.name node)

  unfoldable pub json_gobject_serialize : ℕ → GObject → Run Json
  json_gobject_serialize zero gobject = crash stack_overflow
  json_gobject_serialize (suc n) gobject =
      serialize_properties (json_gobject_serialize n) gobject (list_properties (type_of gobject))
        json_object
