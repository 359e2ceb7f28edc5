-- ===== src/Codec/RoundTrip.antt =====
-- An object that is serialized and deserialized again: json_gobject_serialize and
-- json_gobject_deserialize of lib/searpc-utils.c together.
use libsearpc.Prelude.{
  ℕ, zero, suc, ◌≡◌, refl, ◌∙◌, sym, ap, true, false, Option, none, some, List, [], ◌∷◌, ◌++◌,
  append_assoc, append-nil, Bytes, ◌||◌, not, to_int64, to_int64-IsInt64, Bool-cases, inl, inr,
}
use libsearpc.Jansson.{Jansson, JsonType}
use libsearpc.Types.{Run, done}
use libsearpc.Codec.Cast.{cast-to_int64}
use libsearpc.Codec.System.{GValue, ParamSpec, GObjects}
use libsearpc.Codec.Serialize.{
  json_serialize_pspec, set_node, serialize_properties, json_gobject_serialize,
}
use libsearpc.Codec.Deserialize.{
  set_string, set_integer, set_real, set_boolean, set_null, json_deserialize_pspec, Params,
  settable, deserialize_members, json_gobject_deserialize,
}
use libsearpc.Codec.Fits.{FitsValue, AllFit, NotIn, Distinct, Known, settings, Fits}

module _ (J : Jansson) (G : GObjects J) where
  open J use {Json, Real, json_typeof, json_string, json_real, json_object_get, json_object_entries}
  open G use {GObject, GType, fundamental, is_a_object, type_of, list_properties, find_property}
  open G use {get_property, new_object, to_float}

  -- The nodes of properties, each of which is read back as the value of its property.
  data Nodes (des : GType → Json → Run (Option GObject)) (o : GObject)
      : List (ParamSpec GType) → List (Bytes × Json) → Type 0 where
    nil : Nodes des o [] []
    cons :
        (p : ParamSpec GType) (node : Json) {ps : List (ParamSpec GType)} {ns : List (Bytes × Json)}
        → json_deserialize_pspec J G des p.value_type node ≡ done (some (get_property o p))
        → Nodes des o ps ns
        → Nodes des o (p ∷ ps) ((p.name, node) ∷ ns)

  -- The members of an object that has none of the names yet.
  abbrev Fresh : Json → List (ParamSpec GType) → Type 0
  Fresh object [] = Unit
  Fresh object (p ∷ ps) = (json_object_get object p.name ≡ none) × Fresh object ps

  Fresh-object : (ps : List (ParamSpec GType)) → Fresh J.json_object ps
  Fresh-object [] = tt
  Fresh-object (p ∷ ps) = (J.get-object p.name, Fresh-object ps)

  Fresh-set :
      (object : Json) (name : Bytes) (node : Json) (ps : List (ParamSpec GType))
      → json_typeof object ≡ JsonType.object
      → NotIn J G name ps
      → Fresh object ps
      → Fresh (J.json_object_set_new object name (some node)) ps
  Fresh-set object name node [] t n f = tt
  Fresh-set object name node (p ∷ ps) t n f =
      (J.get-set object name node p.name t ∙ rw n.0 f.0, Fresh-set object name node ps t n.1 f.1)

  deserialize_members-skip :
      (des : GType → Json → Run (Option GObject)) (gtype : GType) (p : ParamSpec GType)
      (node : Json) (ns : List (Bytes × Json)) (params : Params J G)
      → find_property gtype p.name ≡ some p
      → (p.construct_only || not p.writable) ≡ true
      → deserialize_members J G des gtype ((p.name, node) ∷ ns) params
        ≡ deserialize_members J G des gtype ns params
  unfolding deserialize_members
  deserialize_members-skip des gtype p node ns params k skip =
      rw (deserialize_members, k, settable, skip) refl

  deserialize_members-set :
      (des : GType → Json → Run (Option GObject)) (gtype : GType) (p : ParamSpec GType)
      (node : Json) (ns : List (Bytes × Json)) (params : Params J G) {v : GValue GObject Real}
      → find_property gtype p.name ≡ some p
      → (p.construct_only || not p.writable) ≡ false
      → json_deserialize_pspec J G des p.value_type node ≡ done (some v)
      → deserialize_members J G des gtype ((p.name, node) ∷ ns) params
        ≡ deserialize_members J G des gtype ns (params ++ (p.name, v) ∷ [])
  unfolding deserialize_members
  deserialize_members-set des gtype p node ns params k set e =
      rw (deserialize_members, k, settable, set, e) refl

  deserialize_members-Nodes :
      (des : GType → Json → Run (Option GObject)) (o : GObject) (gtype : GType)
      {ps : List (ParamSpec GType)} {ns : List (Bytes × Json)} (params : Params J G)
      → Nodes des o ps ns
      → Known J G gtype ps
      → deserialize_members J G des gtype ns params ≡ done (params ++ settings J G o ps)
  deserialize_members-Nodes des o gtype params nil k =
      unfold deserialize_members in rw append-nil refl
  deserialize_members-Nodes des o gtype params (cons p node {ps} {ns} e nodes) k =
      elim (Bool-cases (p.construct_only || not p.writable)) [
        | inl skip ↦ rw skip (
            deserialize_members-skip des gtype p node ns params k.0 skip
            ∙ deserialize_members-Nodes des o gtype params nodes k.1)
        | inr set ↦ rw set (
            deserialize_members-set des gtype p node ns params k.0 set e
            ∙ deserialize_members-Nodes des o gtype (params ++ (p.name, get_property o p) ∷ [])
                nodes k.1
            ∙ ap (λ (x : Params J G). done x)
                (append_assoc params ((p.name, get_property o p) ∷ []) (settings J G o ps)))
      ]

  -- What the recursive calls give for the objects that a property can hold.
  abbrev Nested :
      (GObject → Type 0) → (GObject → Run Json) → (GType → Json → Run (Option GObject)) → Type 0
  Nested P ser des =
      (o : GObject)
      → P o
      → (j : Json) × (ser o ≡ done j)
        × (json_typeof j ≡ JsonType.object)
        × (des (type_of o) j ≡ done (some o))

  value_node :
      (P : GObject → Type 0) (ser : GObject → Run Json) (des : GType → Json → Run (Option GObject))
      → Nested P ser des
      → (gtype : GType) (v : GValue GObject Real) → FitsValue J G P gtype v
      → (node : Json) × (json_serialize_pspec J G ser v ≡ done (some node))
        × (json_deserialize_pspec J G des gtype node ≡ done (some v))
  unfolding json_serialize_pspec json_deserialize_pspec
  value_node P ser des ih gtype (GValue.string none) h =
      (J.json_null, refl, rw (json_deserialize_pspec, J.typeof-null, set_null, h) refl)
  value_node P ser des ih gtype (GValue.string (some s)) (h, (j, e)) = (
    j,
    rw (json_serialize_pspec, e) refl,
    rw (json_deserialize_pspec, J.typeof-string s j e, J.string_value-string s j e, set_string, h)
        refl,
  )
  value_node P ser des ih gtype (GValue.boolean true) h =
      (J.json_true, refl, rw (json_deserialize_pspec, J.typeof-true, set_boolean, h) refl)
  value_node P ser des ih gtype (GValue.boolean false) h =
      (J.json_false, refl, rw (json_deserialize_pspec, J.typeof-false, set_boolean, h) refl)
  value_node P ser des ih gtype (GValue.num k z) (h, r) = (
    J.json_integer (to_int64 z),
    refl,
    rw
        (
          json_deserialize_pspec,
          J.typeof-integer,
          J.integer_value-integer (to_int64 z) (to_int64-IsInt64 z),
          set_integer,
          h,
          cast-to_int64 k z r,
        )
        refl,
  )
  value_node P ser des ih gtype (GValue.float r) (h, (j, e), f) = (
    j,
    rw (json_serialize_pspec, e) refl,
    rw (json_deserialize_pspec, J.typeof-real r j e, J.real_value-real r j e, set_real, h, f) refl,
  )
  value_node P ser des ih gtype (GValue.double r) (h, (j, e)) = (
    j,
    rw (json_serialize_pspec, e) refl,
    rw (json_deserialize_pspec, J.typeof-real r j e, J.real_value-real r j e, set_real, h) refl,
  )
  value_node P ser des ih gtype (GValue.object none) h =
      (J.json_null, refl, rw (json_deserialize_pspec, J.typeof-null, set_null, h) refl)
  value_node P ser des ih gtype (GValue.object (some o)) (a, t, p) =
      let (j, s, y, d) = ih o p in
      (j, rw (json_serialize_pspec, s) refl, rw (json_deserialize_pspec, y, a, sym t, d) refl)
  value_node P ser des ih gtype GValue.none h = absurd h
  value_node P ser des ih gtype GValue.unsupported h = absurd h

  -- The loop of the serializer adds a node for each property.
  serialize_properties-Nodes :
      (P : GObject → Type 0) (ser : GObject → Run Json) (des : GType → Json → Run (Option GObject))
      → Nested P ser des
      → (o : GObject) (ps : List (ParamSpec GType)) (object : Json) → AllFit J G P o ps
      → Distinct J G ps
      → Fresh object ps
      → json_typeof object ≡ JsonType.object
      → (j : Json) × (ns : List (Bytes × Json)) × (serialize_properties J G ser o ps object
          ≡ done j)
        × (json_typeof j ≡ JsonType.object)
        × (json_object_entries j ≡ json_object_entries object ++ ns)
        × Nodes des o ps ns
  unfolding serialize_properties
  serialize_properties-Nodes P ser des ih o [] object a d f t =
      (object, [], refl, t, rw append-nil refl, Nodes.nil)
  serialize_properties-Nodes P ser des ih o (p ∷ ps) object a d f t =
      let (node, s, r) = value_node P ser des ih p.value_type (get_property o p) a.0 in
      let object' = J.json_object_set_new object p.name (some node) in
      let (j, ns, e, y, m, nodes) =
        serialize_properties-Nodes P ser des ih o ps object' a.1 d.1
          (Fresh-set object p.name node ps t d.0 f.1) (J.typeof-set object p.name (some node) t) in
      (
        j,
        (p.name, node) ∷ ns,
        rw (s, set_node) e,
        y,
        m
            ∙ ap (λ (xs : List (Bytes × Json)). xs ++ ns) (J.entries-set object p.name node t f.0)
            ∙ append_assoc (json_object_entries object) ((p.name, node) ∷ []) ns,
        Nodes.cons p node r nodes,
      )

  -- For an object that fits the codec (Fits: each property's value has the property's type,
  -- numbers are in range, strings are valid UTF-8, reals are finite, nested objects fit with fewer
  -- levels than the stack has room for, names are distinct and known to the class, and the
  -- settable properties make up the object): json_gobject_serialize gives a JSON object from which
  -- json_gobject_deserialize with the object's type makes the same object.
  pub deserialize-serialize :
      (n : ℕ) (o : GObject)
      → Fits J G n o
      → (j : Json) × (json_gobject_serialize J G n o ≡ done j)
        × (json_typeof j ≡ JsonType.object)
        × (json_gobject_deserialize J G n (type_of o) j ≡ done (some o))
  unfolding json_gobject_serialize json_gobject_deserialize
  deserialize-serialize zero o h = absurd h
  deserialize-serialize (suc n) o h =
      let ps = list_properties (type_of o) in
      let ser = json_gobject_serialize J G n in
      let des = json_gobject_deserialize J G n in
      let (j, ns, e, y, m, nodes) =
        serialize_properties-Nodes (Fits J G n) ser des (deserialize-serialize n) o ps J.json_object
          h.all_fit h.distinct (Fresh-object ps) J.typeof-object in
      (
        j,
        e,
        y,
        rw (m, J.entries-object, deserialize_members-Nodes des o (type_of o) [] nodes h.known)
            (ap (λ (x : Option GObject). done x) h.rebuilt),
      )
