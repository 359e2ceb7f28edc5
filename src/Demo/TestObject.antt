-- ===== src/Demo/TestObject.antt =====
-- demo/test-object.c: the class of the objects that the demos send, as an instance of GLib's
-- interface. What GLib does around the class is chosen here: it makes an object with the class's
-- init function and sets the properties that are valid for their specifications.
use libsearpc.Prelude.{
  ◌≡◌, refl, Bool, true, false, ◌==◌, Option, none, some, List, [], ◌∷◌, Bytes, codes, ℤ, pos,
  negsuc, leb, Within, two31, str_equal, if◌then◌else◌, arith,
}
use libsearpc.Jansson.{Jansson}
use libsearpc.Types.{done}
use libsearpc.Codec.Cast.{IntKind}
use libsearpc.Codec.System.{Fundamental, GValue, ParamSpec, GObjects}
use libsearpc.Codec.Fits.{Fits, FitsValue}
use libsearpc.Codec.Serialize.{json_gobject_serialize}
use libsearpc.Codec.Deserialize.{json_gobject_deserialize}
use libsearpc.Codec.RoundTrip.{deserialize-serialize}

-- struct _TestObject
pub record TestObject : Type 0 where
  pub len : ℤ
  pub str : Option Bytes
  pub equal : Bool

-- The types that the class uses.
pub data TestType : Type 0 where
  test_object gint gchararray gboolean invalid : TestType

-- The property ids, in the order of their installation.
pub data Property : Type 0 where
  prop_len prop_str prop_equ : Property

abbrev hello_world : Option Bytes
hello_world = some (codes "Hello world!")

abbrev pub test_object_init : TestObject
test_object_init = record { len = pos 0; str = hello_world; equal = false }

-- g_param_spec_int and its two siblings, all with G_PARAM_READWRITE.
unfoldable pub test_object_class_init : Property → ParamSpec TestType
test_object_class_init prop_len = record {
  name = codes "len";
  value_type = gint;
  construct_only = false;
  writable = true;
}
test_object_class_init prop_str = record {
  name = codes "str";
  value_type = gchararray;
  construct_only = false;
  writable = true;
}
test_object_class_init prop_equ = record {
  name = codes "equal";
  value_type = gboolean;
  construct_only = false;
  writable = true;
}

-- The minimum -1 and the maximum 256 of "len".
abbrev pub len_valid : ℤ → Bool
len_valid (pos n) = leb n 256
len_valid (negsuc n) = n == 0

abbrev pub type_fundamental : TestType → Fundamental
type_fundamental test_object = Fundamental.object
type_fundamental gint = Fundamental.num IntKind.int
type_fundamental gchararray = Fundamental.string
type_fundamental gboolean = Fundamental.boolean
type_fundamental invalid = Fundamental.other

abbrev pub is_object : TestType → Bool
is_object test_object = true
is_object _ = false

abbrev pub is_invalid : TestType → Bool
is_invalid invalid = true
is_invalid _ = false

unfoldable pub property_named : Bytes → Option Property
unfolding str_equal
property_named name =
    if str_equal name (codes "len")
    then some prop_len
    else if str_equal name (codes "str")
    then some prop_str
    else if str_equal name (codes "equal")
    then some prop_equ
    else none

unfoldable pub class_property : TestType → Bytes → Option (ParamSpec TestType)
unfolding property_named test_object_class_init
class_property test_object name = elim (property_named name) [
  | none ↦ none
  | some property ↦ some (test_object_class_init property)
]
class_property _ name = none

module _ (Real : Type 0) where
  -- The value has the property's type, as GLib has checked.
  unfoldable pub test_object_set_property :
      TestObject → Property → GValue TestObject Real → TestObject
  test_object_set_property self prop_len (GValue.num kind z) = record self { len = z }
  test_object_set_property self prop_str (GValue.string s) = record self { str = s }
  test_object_set_property self prop_equ (GValue.boolean b) = record self { equal = b }
  test_object_set_property self _ _ = self

  unfoldable pub test_object_get_property : TestObject → Property → GValue TestObject Real
  test_object_get_property self prop_len = GValue.num IntKind.int self.len
  test_object_get_property self prop_str = GValue.string self.str
  test_object_get_property self prop_equ = GValue.boolean self.equal

  -- g_param_value_validate finds nothing to change.
  abbrev value_valid : GValue TestObject Real → Bool
  value_valid (GValue.num kind z) = len_valid z
  value_valid _ = true

  abbrev set_valid : TestObject → Option Property → GValue TestObject Real → TestObject
  set_valid self none value = self
  set_valid self (some property) value =
      if value_valid value then test_object_set_property self property value else self

  unfoldable pub set_all : TestObject → List (Bytes × GValue TestObject Real) → TestObject
  unfolding test_object_set_property property_named
  set_all self [] = self
  set_all self ((name, value) ∷ settings) =
      set_all (set_valid self (property_named name) value) settings

  abbrev get_named : TestObject → Option Property → GValue TestObject Real
  get_named self none = GValue.none
  get_named self (some property) = test_object_get_property self property

  unfoldable pub get_value : TestObject → ParamSpec TestType → GValue TestObject Real
  unfolding test_object_get_property property_named
  get_value self pspec = get_named self (property_named pspec.name)

  unfoldable pub new_instance : TestType → List (Bytes × GValue TestObject Real) → Option TestObject
  unfolding set_all
  new_instance test_object settings = some (set_all test_object_init settings)
  new_instance _ settings = none

abbrev pub installed : TestType → List (ParamSpec TestType)
installed test_object =
    test_object_class_init prop_len
    ∷ test_object_class_init prop_str
    ∷ test_object_class_init prop_equ
    ∷ []
installed _ = []

module _ (J : Jansson) where
  abbrev pub test_objects : GObjects J
  test_objects = record {
    GObject = TestObject;
    GType = TestType;
    type_invalid = invalid;
    is_invalid = is_invalid;
    fundamental = type_fundamental;
    is_a_object = is_object;
    type_of = λ o. test_object;
    list_properties = installed;
    find_property = class_property;
    get_property = get_value J.Real;
    new_object = new_instance J.Real;
    to_float = λ r. r;
  }

  -- A string that JSON can hold, or NULL.
  abbrev pub ValidStr : Option Bytes → Type 0
  ValidStr none = Unit
  ValidStr (some s) = (j : J.Json) × (J.json_string s ≡ some j)

  pub len_valid-Within : (z : ℤ) → len_valid z ≡ true → Within two31 z
  len_valid-Within (pos n) h = ground arith
  len_valid-Within (negsuc n) h = ground arith

  str_fits :
      (P : TestObject → Type 0) (s : Option Bytes)
      → ValidStr s
      → FitsValue J test_objects P gchararray (GValue.string s)
  str_fits P none v = refl
  str_fits P (some s) v = (refl, v)

  pub TestObject-Fits :
      (o : TestObject) → len_valid o.len ≡ true → ValidStr o.str → Fits J test_objects 1 o
  unfolding class_property get_value new_instance
  TestObject-Fits o l v = record {
    all_fit = ((refl, len_valid-Within o.len l), (str_fits (λ x. ⊥) o.str v, (refl, tt)));
    distinct = ((refl, (refl, tt)), ((refl, tt), (tt, tt)));
    known = (refl, (refl, (refl, tt)));
    rebuilt = rw l refl;
  }

  pub TestObject-codec :
      (o : TestObject)
      → len_valid o.len ≡ true
      → ValidStr o.str
      → (j : J.Json) × (json_gobject_serialize J test_objects 1 o ≡ done j)
        × (json_gobject_deserialize J test_objects 1 test_object j ≡ done (some o))
  TestObject-codec o l v =
      let (j, s, t, d) = deserialize-serialize J test_objects 1 o (TestObject-Fits o l v) in
      (j, s, d)
