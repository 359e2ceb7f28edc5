-- ===== src/Rpc/Array.antt =====
-- JSON arrays seen as lists: what a chain of json_array_append_new builds.
use libsearpc.Prelude.{
  ℕ, zero, suc, ◌≡◌, refl, some, List, [], ◌∷◌, ◌++◌, ◌∙◌, arith, append_assoc, append-nil, length,
  get_elem?, length-append, ◌==◌, if◌then◌else◌,
}
use libsearpc.Jansson.{Jansson, JsonType}

get_elem?-append_one {ℓ} :
    {A : Type ℓ} (xs : List A) (v : A) (i : ℕ)
    → get_elem? (xs ++ v ∷ []) i ≡ (if i == length xs then some v else get_elem? xs i)
get_elem?-append_one [] v zero = refl
get_elem?-append_one [] v (suc i) = ground arith
get_elem?-append_one (x ∷ xs) v zero = ground arith
get_elem?-append_one (x ∷ xs) v (suc i) = ground (arith, get_elem?-append_one xs v i)

get_elem?-append_length {ℓ} :
    {A : Type ℓ} (xs : List A) (v : A) (ys : List A) → get_elem? (xs ++ v ∷ ys) (length xs) ≡ some v
get_elem?-append_length [] v ys = refl
get_elem?-append_length (x ∷ xs) v ys = get_elem?-append_length xs v ys

module _ (J : Jansson) where
  open J use {Json, json_typeof, json_array, json_array_append_new, json_array_size}
  open J use {json_array_get, typeof-append, size-append, get-append}

  -- The array holds these elements, in this order.
  pub record Holds (a : Json) (xs : List Json) : Type 0 where
    pub is_array : json_typeof a ≡ JsonType.array
    pub size : json_array_size a ≡ length xs
    pub items : (i : ℕ) → json_array_get a i ≡ get_elem? xs i

  abbrev pub build : Json → List Json → Json
  build a [] = a
  build a (v ∷ vs) = build (json_array_append_new a (some v)) vs

  pub Holds-array : Holds json_array []
  Holds-array = record { is_array = J.typeof-array; size = J.size-array; items = J.get-array }

  Holds-append :
      (a v : Json) (xs : List Json)
      → Holds a xs
      → Holds (json_array_append_new a (some v)) (xs ++ v ∷ [])
  Holds-append a v xs h = record {
    is_array = typeof-append a (some v) h.is_array;
    size = omega (arith, size-append a v h.is_array, h.size, length-append xs (v ∷ []));
    items =
        λ i. rw (get-append a v i h.is_array, h.size, h.items i, get_elem?-append_one xs v i) refl;
  }

  pub Holds-build : (a : Json) (xs vs : List Json) → Holds a xs → Holds (build a vs) (xs ++ vs)
  Holds-build a xs [] h = rw append-nil h
  Holds-build a xs (v ∷ vs) h =
      rw append_assoc at
        (Holds-build (json_array_append_new a (some v)) (xs ++ v ∷ []) vs (Holds-append a v xs h))

  -- The element behind the first elements `pre`.
  pub Holds-get :
      (a v : Json) (pre vs : List Json) (i : ℕ)
      → Holds a (pre ++ v ∷ vs)
      → i ≡ length pre
      → json_array_get a i ≡ some v
  Holds-get a v pre vs i h e = h.items i ∙ at_length
    where
      at_length : get_elem? (pre ++ v ∷ vs) i ≡ some v
      at_length = rw e (get_elem?-append_length pre v vs)
