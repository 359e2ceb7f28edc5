-- ===== src/Codec/Deserialize.antt =====
-- json_deserialize_pspec and json_gobject_deserialize.
use libsearpc.Prelude.{
  ℕ, zero, suc, Bool, true, false, Option, none, some, List, [], ◌∷◌, ◌++◌, Bytes, ℤ, ◌||◌, not,
  if◌then◌else◌,
}
use libsearpc.Jansson.{Jansson, JsonType}
use libsearpc.Types.{Run, done, crash, stack_overflow, ◌>>=◌}
use libsearpc.Codec.Cast.{cast}
use libsearpc.Codec.System.{Fundamental, GValue, ParamSpec, GObjects}

module _ (J : Jansson) (G : GObjects J) where
  open J use {Json, Real, json_typeof, json_string_value, json_integer_value, json_real_value}
  open J use {json_object_entries}
  open G use {GObject, GType, fundamental, is_a_object, find_property, new_object, to_float}

  -- The cases of the node's type, each with the test on the type of the value; none is FALSE.
  unfoldable pub set_string : Fundamental → Option Bytes → Option (GValue GObject Real)
  set_string Fundamental.string s = some (GValue.string s)
  set_string t s = none

  unfoldable pub set_integer : Fundamental → ℤ → Option (GValue GObject Real)
  set_integer (Fundamental.num kind) z = some (GValue.num kind (cast kind z))
  set_integer t z = none

  unfoldable pub set_real : Fundamental → Real → Option (GValue GObject Real)
  set_real Fundamental.float r = some (GValue.float (to_float r))
  set_real Fundamental.double r = some (GValue.double r)
  set_real t r = none

  unfoldable pub set_boolean : Fundamental → Bool → Option (GValue GObject Real)
  set_boolean Fundamental.boolean b = some (GValue.boolean b)
  set_boolean t b = none

  unfoldable pub set_null : Fundamental → Option (GValue GObject Real)
  set_null Fundamental.string = some (GValue.string none)
  set_null Fundamental.object = some (GValue.object none)
  set_null t = none

  -- `deserialize` is the recursive call.
  unfoldable pub json_deserialize_pspec :
      (GType → Json → Run (Option GObject)) → GType → Json → Run (Option (GValue GObject Real))
  unfolding set_string set_integer set_real set_boolean set_null
  json_deserialize_pspec deserialize gtype node = elim (json_typeof node) [
    | JsonType.object ↦
        (if is_a_object gtype
          then (deserialize gtype node >>= λ object. done (some (GValue.object object)))
          else done none)
    | JsonType.string ↦ done (set_string (fundamental gtype) (json_string_value (some node)))
    | JsonType.integer ↦ done (set_integer (fundamental gtype) (json_integer_value (some node)))
    | JsonType.real ↦ done (set_real (fundamental gtype) (json_real_value (some node)))
    | JsonType.true ↦ done (set_boolean (fundamental gtype) true)
    | JsonType.false ↦ done (set_boolean (fundamental gtype) false)
    | JsonType.null ↦ done (set_null (fundamental gtype))
    | JsonType.array ↦ done none
  ]

  abbrev pub Params : Type 0
  Params = List (Bytes × GValue GObject Real)

  -- g_array_append_val, if the value was set
  unfoldable pub add_param : Params → Bytes → Option (GValue GObject Real) → Params
  add_param params name none = params
  add_param params name (some value) = params ++ (name, value) ∷ []

  -- The property of a member, unless it is unknown, construct-only or not writable.
  unfoldable pub settable : Option (ParamSpec GType) → Option (ParamSpec GType)
  settable none = none
  settable (some pspec) = if pspec.construct_only || not pspec.writable then none else some pspec

  -- The loop over the members; `params` is the array so far.
  unfoldable pub deserialize_members :
      (GType → Json → Run (Option GObject)) → GType → List (Bytes × Json) → Params → Run Params
  unfolding settable add_param
  deserialize_members deserialize gtype [] params = done params
  deserialize_members deserialize gtype ((name, val) ∷ members) params =
      elim (settable (find_property gtype name)) [
        | none ↦ deserialize_members deserialize gtype members params
        | some pspec ↦ json_deserialize_pspec deserialize pspec.value_type val >>= λ value.
            deserialize_members deserialize gtype members (add_param params pspec.name value)
      ]

  unfoldable pub json_gobject_deserialize : ℕ → GType → Json → Run (Option GObject)
  json_gobject_deserialize zero gtype object = crash stack_overflow
  json_gobject_deserialize (suc n) gtype object =
      deserialize_members (json_gobject_deserialize n) gtype (json_object_entries object) []
      >>= λ params. done (new_object gtype params)
