-- ===== src/Codec/Fits.antt =====
-- The objects that lib/searpc-utils.c can translate to JSON and back without a loss.
use libsearpc.Prelude.{
  ℕ, zero, suc, ◌≡◌, true, false, none, some, List, [], ◌∷◌, Bytes, str_equal, if◌then◌else◌, ◌||◌,
  not,
}
use libsearpc.Jansson.{Jansson}
use libsearpc.Codec.Cast.{InRange}
use libsearpc.Codec.System.{Fundamental, GValue, ParamSpec, GObjects}

module _ (J : Jansson) (G : GObjects J) where
  open J use {Json, Real, json_string, json_real}
  open G use {GObject, GType, fundamental, is_a_object, type_of, list_properties, find_property}
  open G use {get_property, new_object, to_float}

  -- A value that fits a property of type `gtype`: it has that type, a number is in the type's
  -- range, a string is valid UTF-8, a real is finite (and a float is one), and an object has
  -- exactly the type of the property, and `P`.
  abbrev pub FitsValue : (GObject → Type 0) → GType → GValue GObject Real → Type 0
  FitsValue P gtype (GValue.string none) = fundamental gtype ≡ Fundamental.string
  FitsValue P gtype (GValue.string (some s)) =
      (fundamental gtype ≡ Fundamental.string) × ((j : Json) × (json_string s ≡ some j))
  FitsValue P gtype (GValue.boolean b) = fundamental gtype ≡ Fundamental.boolean
  FitsValue P gtype (GValue.num k z) = (fundamental gtype ≡ Fundamental.num k) × InRange k z
  FitsValue P gtype (GValue.float r) =
      (fundamental gtype ≡ Fundamental.float)
      × ((j : Json) × (json_real r ≡ some j))
      × (to_float r ≡ r)
  FitsValue P gtype (GValue.double r) =
      (fundamental gtype ≡ Fundamental.double) × ((j : Json) × (json_real r ≡ some j))
  FitsValue P gtype (GValue.object none) = fundamental gtype ≡ Fundamental.object
  FitsValue P gtype (GValue.object (some o)) =
      (is_a_object gtype ≡ true) × (type_of o ≡ gtype) × P o
  FitsValue P gtype GValue.none = ⊥
  FitsValue P gtype GValue.unsupported = ⊥

  abbrev pub AllFit : (GObject → Type 0) → GObject → List (ParamSpec GType) → Type 0
  AllFit P o [] = Unit
  AllFit P o (p ∷ ps) = FitsValue P p.value_type (get_property o p) × AllFit P o ps

  -- The name of no property in the list.
  abbrev pub NotIn : Bytes → List (ParamSpec GType) → Type 0
  NotIn name [] = Unit
  NotIn name (p ∷ ps) = (str_equal name p.name ≡ false) × NotIn name ps

  abbrev pub Distinct : List (ParamSpec GType) → Type 0
  Distinct [] = Unit
  Distinct (p ∷ ps) = NotIn p.name ps × Distinct ps

  -- The class finds each of its properties by its name.
  abbrev pub Known : GType → List (ParamSpec GType) → Type 0
  Known gtype [] = Unit
  Known gtype (p ∷ ps) = (find_property gtype p.name ≡ some p) × Known gtype ps

  -- The properties that can be set after construction, with their values.
  abbrev pub settings : GObject → List (ParamSpec GType) → List (Bytes × GValue GObject Real)
  settings o [] = []
  settings o (p ∷ ps) =
      if p.construct_only || not p.writable
      then settings o ps
      else (p.name, get_property o p) ∷ settings o ps

  -- What the codec needs of an object and of its class: GLib's laws on the names of properties,
  -- values that fit, and that the object is the one that its settable properties make.
  pub record FitsClass (P : GObject → Type 0) (o : GObject) : Type 0 where
    pub all_fit : AllFit P o (list_properties (type_of o))
    pub distinct : Distinct (list_properties (type_of o))
    pub known : Known (type_of o) (list_properties (type_of o))
    pub rebuilt : new_object (type_of o) (settings o (list_properties (type_of o))) ≡ some o

  -- Such an object whose nested objects are of the same kind, down to less than `n` levels.
  abbrev pub Fits : ℕ → GObject → Type 0
  Fits zero o = ⊥
  Fits (suc n) o = FitsClass (Fits n) o
