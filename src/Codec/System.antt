-- ===== src/Codec/System.antt =====
-- GLib's object system as lib/searpc-utils.c uses it: an interface, since its code is not part of
-- the repository. An object is read property by property, and a new object is made from the
-- properties that are given. GLib's laws that the codec relies on stand with its theorems.
use libsearpc.Prelude.{Bool, Option, List, Bytes, ℤ}
use libsearpc.Jansson.{Jansson}
use libsearpc.Codec.Cast.{IntKind}

-- G_TYPE_FUNDAMENTAL, by the cases of the code; `other` is any type that it does not name.
pub data Fundamental : Type 0 where
  string boolean float double none object other : Fundamental
  num : IntKind → Fundamental

-- A GValue by its contents; `unsupported` is a value of a type that the code does not name.
pub data GValue (Object Real : Type 0) : Type 0 where
  string : Option Bytes → GValue Object Real
  boolean : Bool → GValue Object Real
  num : IntKind → ℤ → GValue Object Real
  float double : Real → GValue Object Real
  object : Option Object → GValue Object Real
  none unsupported : GValue Object Real

-- GParamSpec: the name, G_PARAM_SPEC_VALUE_TYPE, and two of its flags.
pub record ParamSpec (GType : Type 0) : Type 0 where
  pub name : Bytes
  pub value_type : GType
  pub construct_only : Bool
  pub writable : Bool

module _ (J : Jansson) where
  pub record GObjects : Type 1 where
    pub GObject : Type 0
    pub GType : Type 0
    pub type_invalid : GType
    pub is_invalid : GType → Bool
    pub fundamental : GType → Fundamental
    -- g_type_is_a (type, G_TYPE_OBJECT)
    pub is_a_object : GType → Bool
    -- G_OBJECT_TYPE
    pub type_of : GObject → GType
    -- g_object_class_list_properties and g_object_class_find_property
    pub list_properties : GType → List (ParamSpec GType)
    pub find_property : GType → Bytes → Option (ParamSpec GType)
    -- g_object_get_property, into a value of the property's type
    pub get_property : GObject → ParamSpec GType → GValue GObject J.Real
    -- g_object_newv
    pub new_object : GType → List (Bytes × GValue GObject J.Real) → Option GObject
    -- The conversion of a `double` to `gfloat`.
    pub to_float : J.Real → J.Real
