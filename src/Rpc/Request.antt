-- ===== src/Rpc/Request.antt =====
-- The parameters of a call on their way from the client's variable arguments to the arguments of
-- the function on the server.
use libsearpc.Prelude.{
  ℕ, ◌+◌, ◌≡◌, refl, none, some, List, [], ◌∷◌, ◌++◌, arith, append_assoc, length, length-append,
  Bytes, ℤ, to_int, to_int-IsInt, to_int_of_IsInt, IsInt64, IsInt-IsInt64,
}
use libsearpc.Jansson.{Jansson}
use libsearpc.Types.{Arg, ArgType}
use libsearpc.Client.Request.{Param, fcall_params}
use libsearpc.Server.Marshal.{get_parameter, get_parameters}
use libsearpc.Rpc.Array.{Holds, build, Holds-array, Holds-build, Holds-get}

module _ (J : Jansson) where
  open J use {Json, json_typeof, json_null, json_integer, json_string, json_array}
  open J use {json_array_append_new, json_array_get, json_dumps, Loadable}

  -- `Accepts p t v a`: the client's parameter `p` is sent as the element `v`, and read with the
  -- parameter type `t` it is the argument `a`. A NULL of type json arrives as the JSON null.
  pub data Accepts : Param J → ArgType → Json → Arg J → Type 0 where
    int : (z : ℤ) → Accepts (Param.int z) ArgType.int (json_integer (to_int z)) (Arg.int (to_int z))
    int64 :
        (z : ℤ) → IsInt64 z → Accepts (Param.int64 z) ArgType.int64 (json_integer z) (Arg.int64 z)
    string :
        (s : Bytes) (j : Json)
        → json_string s ≡ some j
        → Accepts (Param.string (some s)) ArgType.string j (Arg.string (some s))
    no_string : Accepts (Param.string none) ArgType.string json_null (Arg.string none)
    json : (v : Json) → Accepts (Param.json (some v)) ArgType.json v (Arg.json (some v))
    no_json : Accepts (Param.json none) ArgType.json json_null (Arg.json (some json_null))

  pub data AcceptsAll : List (Param J) → List ArgType → List Json → List (Arg J) → Type 0 where
    nil : AcceptsAll [] [] [] []
    cons :
        {p : Param J} {t : ArgType} {v : Json} {a : Arg J} {ps : List (Param J)} {ts : List ArgType}
        {vs : List Json} {bs : List (Arg J)}
        → Accepts p t v a
        → AcceptsAll ps ts vs bs
        → AcceptsAll (p ∷ ps) (t ∷ ts) (v ∷ vs) (a ∷ bs)

  fcall_params-Accepts :
      {p : Param J} {t : ArgType} {v : Json} {a : Arg J} (array : Json) (ps : List (Param J))
      → Accepts p t v a
      → fcall_params J array (p ∷ ps) ≡ fcall_params J (json_array_append_new array (some v)) ps
  unfolding fcall_params
  fcall_params-Accepts array ps (int z) = refl
  fcall_params-Accepts array ps (int64 z h) = refl
  fcall_params-Accepts array ps (string s j e) = ground arith
  fcall_params-Accepts array ps no_string = refl
  fcall_params-Accepts array ps (json v) = ground (arith, J.deep_copy_lem v)
  fcall_params-Accepts array ps no_json = refl

  -- The client's loop appends the elements of the parameters.
  pub fcall_params-build :
      {ps : List (Param J)} {ts : List ArgType} {vs : List Json} {bs : List (Arg J)} (array : Json)
      → AcceptsAll ps ts vs bs
      → fcall_params J array ps ≡ some (build J array vs)
  fcall_params-build array nil = unfold fcall_params in refl
  fcall_params-build array (cons {v} {ps} h hs) =
      rw (fcall_params-Accepts array ps h)
        (fcall_params-build (json_array_append_new array (some v)) hs)

  string_value-null : J.json_string_value (some json_null) ≡ none
  string_value-null = J.string_value_other json_null (λ e. cc (J.typeof-null, e))

module _ (J : Jansson) where
  open J use {Json, json_array, json_array_get}

  get_parameter-Accepts :
      {p : Param J} {t : ArgType} {v : Json} {a : Arg J} (array : Json) (i : ℕ)
      → Accepts J p t v a
      → json_array_get array i ≡ some v
      → get_parameter J array i t ≡ a
  unfolding get_parameter
  get_parameter-Accepts array i (int z) e = ground (
    arith,
    J.integer_value-integer (to_int z) (IsInt-IsInt64 (to_int z) (to_int-IsInt z)),
    to_int_of_IsInt (to_int z) (to_int-IsInt z),
  )
  get_parameter-Accepts array i (int64 z h) e = ground (arith, J.integer_value-integer z h)
  get_parameter-Accepts array i (string s j h) e = ground (arith, J.string_value-string s j h)
  get_parameter-Accepts array i no_string e = ground (arith, string_value-null J)
  get_parameter-Accepts array i (json v) e = rw e
  get_parameter-Accepts array i no_json e = rw e

  -- Read at their places in an array, the elements are the arguments.
  get_parameters-Accepts :
      {ps : List (Param J)} {ts : List ArgType} {vs : List Json} {bs : List (Arg J)} (array : Json)
      (pre : List Json) (i : ℕ)
      → AcceptsAll J ps ts vs bs
      → i ≡ length pre
      → Holds J array (pre ++ vs)
      → get_parameters J array i ts ≡ bs
  unfolding get_parameters
  get_parameters-Accepts array pre i nil e h = refl
  get_parameters-Accepts array pre i (cons {t} {v} {ts} {vs} {bs} p ps) e h = ground (
    arith,
    get_parameter-Accepts array i p (Holds-get J array v pre vs i h e),
    get_parameters-Accepts array (pre ++ v ∷ []) (i + 1) ps
        (omega (arith, length-append pre (v ∷ []))) (rw (append_assoc pre (v ∷ []) vs) h),
  )

  -- The array of a request is read back as the arguments.
  pub get_parameters-build :
      {ps : List (Param J)} {ts : List ArgType} {vs : List Json} {bs : List (Arg J)} (name : Json)
      → AcceptsAll J ps ts vs bs
      → get_parameters J (build J json_array (name ∷ vs)) 1 ts ≡ bs
  get_parameters-build {vs} name h =
      get_parameters-Accepts (build J json_array (name ∷ vs)) (name ∷ []) 1 h refl
        (Holds-build J json_array [] (name ∷ vs) (Holds-array J))
