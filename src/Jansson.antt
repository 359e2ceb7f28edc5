-- ===== src/Jansson.antt =====
-- The JSON library (jansson) as the program uses it: an interface, since its code is not part of
-- the repository. The operations carry jansson's names, and the laws state its documentation.
-- A pointer that may be NULL is an `Option`. A `json_t` stands for the value that it holds, up to
-- `json_equal`, and a call that changes an object or an array in place returns the new value.
-- Memory allocation does not fail.
pub mod Plain
use libsearpc.Prelude.{
  ℕ, zero, ◌+◌, ◌≡◌, ◌≢◌, Bool, Option, none, some, List, [], ◌∷◌, ◌++◌, Bytes, str_equal, ◌==◌,
  if◌then◌else◌, ℤ, pos, IsInt64,
}

-- `json_type`
pub data JsonType : Type 0 where
  object array string integer real true false null : JsonType

-- What `json_loadb` gives: a value, or the text of its `json_error_t`.
pub data Loaded {ℓ} (A : Type ℓ) : Type ℓ where
  loaded : A → Loaded A
  load_error : Bytes → Loaded A

-- The flags of `json_dumps`.
pub data DumpFlags : Type 0 where
  default compact : DumpFlags

pub record Jansson : Type 1 where
  pub Json : Type 0
  pub json_typeof : Json → JsonType
  pub json_null : Json
  pub json_true : Json
  pub json_false : Json
  pub json_integer : ℤ → Json
  -- `double`, and its value; NULL if it is infinite or not a number
  pub Real : Type 0
  pub json_real : Real → Option Json
  -- NULL if the bytes are not valid UTF-8
  pub json_string : Bytes → Option Json
  pub json_object : Json
  pub json_object_set_new : Json → Bytes → Option Json → Json
  pub json_object_get : Json → Bytes → Option Json
  -- The members by json_object_iter and json_object_iter_next, in the order of their insertion.
  pub json_object_entries : Json → List (Bytes × Json)
  pub json_array : Json
  pub json_array_append_new : Json → Option Json → Json
  pub json_array_size : Json → ℕ
  pub json_array_get : Json → ℕ → Option Json
  pub json_string_value : Option Json → Option Bytes
  pub json_integer_value : Option Json → ℤ
  pub json_real_value : Option Json → Real
  pub json_deep_copy : Json → Json
  pub json_dumps : DumpFlags → Json → Bytes
  pub json_loadb : Bytes → Loaded Json
  -- The values whose nesting stays within the limit of jansson's parser (2048 levels).
  pub Loadable : Json → Type 0
  pub typeof-null : json_typeof json_null ≡ null
  pub typeof-true : json_typeof json_true ≡ true
  pub typeof-false : json_typeof json_false ≡ false
  pub typeof-real : (r : Real) (j : Json) → json_real r ≡ some j → json_typeof j ≡ real
  pub typeof-integer : (z : ℤ) → json_typeof (json_integer z) ≡ integer
  pub typeof-string : (s : Bytes) (j : Json) → json_string s ≡ some j → json_typeof j ≡ string
  pub typeof-object : json_typeof json_object ≡ object
  pub typeof-array : json_typeof json_array ≡ array
  pub typeof-set :
      (o : Json) (k : Bytes) (v : Option Json)
      → json_typeof o ≡ object
      → json_typeof (json_object_set_new o k v) ≡ object
  pub typeof-append :
      (a : Json) (v : Option Json)
      → json_typeof a ≡ array
      → json_typeof (json_array_append_new a v) ≡ array
  pub get-object : (k : Bytes) → json_object_get json_object k ≡ none
  pub get-other : (k : Bytes) (a : Json) → json_typeof a ≢ object → json_object_get a k ≡ none
  pub get-set :
      (o : Json) (k : Bytes) (v : Json) (j : Bytes)
      → json_typeof o ≡ object
      → json_object_get (json_object_set_new o k (some v)) j
        ≡ (if str_equal k j then some v else json_object_get o j)
  pub set-null : (o : Json) (k : Bytes) → json_object_set_new o k none ≡ o
  pub entries-object : json_object_entries json_object ≡ []
  pub entries-other : (j : Json) → json_typeof j ≢ object → json_object_entries j ≡ []
  pub entries-set :
      (o : Json) (k : Bytes) (v : Json)
      → json_typeof o ≡ object
      → json_object_get o k ≡ none
      → json_object_entries (json_object_set_new o k (some v))
        ≡ json_object_entries o ++ (k, v) ∷ []
  pub get-array : (i : ℕ) → json_array_get json_array i ≡ none
  pub size-array : json_array_size json_array ≡ 0
  pub size-other : (j : Json) → json_typeof j ≢ array → json_array_size j ≡ 0
  pub size-append :
      (a v : Json)
      → json_typeof a ≡ array
      → json_array_size (json_array_append_new a (some v)) ≡ json_array_size a + 1
  pub get-append :
      (a v : Json) (i : ℕ)
      → json_typeof a ≡ array
      → json_array_get (json_array_append_new a (some v)) i
        ≡ (if i == json_array_size a then some v else json_array_get a i)
  pub append-null : (a : Json) → json_array_append_new a none ≡ a
  pub string_value-string :
      (s : Bytes) (j : Json) → json_string s ≡ some j → json_string_value (some j) ≡ some s
  pub string_value-null : json_string_value none ≡ none
  pub string_value_other : (j : Json) → json_typeof j ≢ string → json_string_value (some j) ≡ none
  pub integer_value-integer : (z : ℤ) → IsInt64 z → json_integer_value (some (json_integer z)) ≡ z
  pub real_value-real : (r : Real) (j : Json) → json_real r ≡ some j → json_real_value (some j) ≡ r
  pub integer_value-null : json_integer_value none ≡ pos 0
  pub deep_copy_lem : (j : Json) → json_deep_copy j ≡ j
  -- What was dumped is loaded again, with either flags.
  pub loadb-dumps :
      (flags : DumpFlags) (j : Json) → Loadable j → json_loadb (json_dumps flags j) ≡ loaded j
  -- A dumped text is valid UTF-8.
  pub string-dumps :
      (flags : DumpFlags) (j : Json) → (s : Json) × (json_string (json_dumps flags j) ≡ some s)
