-- ===== src/Jansson/Plain.antt =====
-- A concrete JSON library that meets the laws of the interface, for tests and examples. Its text
-- is a prefix code. As a stand-in for invalid UTF-8 it refuses texts that start with byte 0xff.
pub mod Value
mod Code
mod Operations
mod Laws
use libsearpc.Prelude.{ℕ, some, refl}
use libsearpc.Jansson.{Jansson}
unfoldable pub use Operations.*
use Laws.*
use Value.{Tree, Items, Fields}

abbrev pub plain : Jansson
plain = record {
  Json = Tree;
  json_typeof = typeof;
  json_null = Tree.null;
  Real = ℕ;
  json_true = Tree.truth;
  json_false = Tree.falsity;
  json_real = λ r. some (Tree.real r);
  json_integer = Tree.integer;
  json_string = new_string;
  json_object = Tree.object Fields.end;
  json_object_set_new = object_set;
  json_object_get = object_get;
  json_object_entries = object_entries;
  json_array = Tree.array Items.nil;
  json_array_append_new = array_append;
  json_array_size = array_size;
  json_array_get = array_get;
  json_string_value = string_value;
  json_integer_value = integer_value;
  json_real_value = real_value;
  json_deep_copy = λ j. j;
  json_dumps = dump;
  json_loadb = load_all;
  Loadable = λ j. Unit;
  typeof-null = typeof_new.0;
  typeof-true = real_laws.0;
  typeof-false = real_laws.1;
  typeof-real = λ r j h. (real_laws.2 r j h).0;
  typeof-integer = typeof_new.1;
  typeof-string = typeof-new_string;
  typeof-object = typeof_new.2;
  typeof-array = typeof_new.3;
  typeof-set = typeof-object_set;
  typeof-append = typeof-array_append;
  get-object = get_new;
  get-other = get_of_other;
  get-set = get-object_set;
  entries-object = entries_new;
  entries-other = entries_of_other;
  entries-set = entries-object_set;
  set-null = set_null;
  get-array = elem_new;
  size-array = size_new;
  size-other = size_of_other;
  size-append = size-array_append;
  get-append = get-array_append;
  append-null = append_null;
  string_value-string = value-new_string;
  string_value-null = value_null.0;
  string_value_other = string_value_of_other;
  integer_value-integer = value-integer;
  real_value-real = λ r j h. (real_laws.2 r j h).1;
  integer_value-null = value_null.1;
  deep_copy_lem = λ j. refl;
  loadb-dumps = λ flags j _. load-write flags j;
  string-dumps = string-write;
}
