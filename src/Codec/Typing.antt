-- ===== src/Codec/Typing.antt =====
-- The values that json_deserialize_pspec of lib/searpc-utils.c sets.
use libsearpc.Prelude.{◌≡◌, ◌⊎◌, true, Option, some, arith}
use libsearpc.Jansson.{Jansson}
use libsearpc.Types.{Run, done}
use libsearpc.Codec.Cast.{InRange, cast-InRange}
use libsearpc.Codec.System.{Fundamental, GValue, GObjects}
use libsearpc.Codec.Deserialize.{json_deserialize_pspec}

module _ (J : Jansson) (G : GObjects J) where
  open J use {Json, Real, json_typeof}
  open G use {GObject, GType, fundamental, is_a_object}

  -- A value has the type of its property, and a number is in that type's range.
  abbrev pub HasType : GType → GValue GObject Real → Type 0
  HasType gtype (GValue.string s) = fundamental gtype ≡ Fundamental.string
  HasType gtype (GValue.boolean b) = fundamental gtype ≡ Fundamental.boolean
  HasType gtype (GValue.num k z) = (fundamental gtype ≡ Fundamental.num k) × InRange k z
  HasType gtype (GValue.float r) = fundamental gtype ≡ Fundamental.float
  HasType gtype (GValue.double r) = fundamental gtype ≡ Fundamental.double
  HasType gtype (GValue.object o) =
      (is_a_object gtype ≡ true) ⊎ (fundamental gtype ≡ Fundamental.object)
  HasType gtype GValue.none = ⊥
  HasType gtype GValue.unsupported = ⊥

  -- A value that json_deserialize_pspec sets, whatever the JSON value, has the type of its
  -- property, and a number is in the range of that type.
  pub json_deserialize_pspec-HasType :
      (des : GType → Json → Run (Option GObject)) (gtype : GType) (node : Json)
      (v : GValue GObject Real)
      → json_deserialize_pspec J G des gtype node ≡ done (some v)
      → HasType gtype v
  unfolding json_deserialize_pspec
  json_deserialize_pspec-HasType des gtype node (GValue.num k z) h =
      ground (arith, cast-InRange k (J.json_integer_value (some node)))
  json_deserialize_pspec-HasType des gtype node (GValue.string s) h = ground arith
  json_deserialize_pspec-HasType des gtype node (GValue.boolean b) h = ground arith
  json_deserialize_pspec-HasType des gtype node (GValue.float r) h = ground arith
  json_deserialize_pspec-HasType des gtype node (GValue.double r) h = ground arith
  json_deserialize_pspec-HasType des gtype node (GValue.object o) h = ground arith
  json_deserialize_pspec-HasType des gtype node GValue.none h = ground arith
  json_deserialize_pspec-HasType des gtype node GValue.unsupported h = ground arith
