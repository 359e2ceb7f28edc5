-- ===== src/Demo/Checks/Members.antt =====
-- The check of demo/searpc-demo-client.c on the members of an array: what it accepts.
use libsearpc.Prelude.{
  ℕ, ◌+◌, ◌≡◌, refl, ◌∙◌, ap, ◌↔◌, Bool, true, false, not, some, List, [], ◌∷◌, ◌++◌, Bytes, codes,
  length, length-append, append_assoc, map, ℤ, pos, negsuc, IsInt64, to_int64, to_int64_of_IsInt64,
  int_equal, int_equal_iff, str_equal, str_equal_iff, if◌then◌else◌, arith,
}
use libsearpc.Jansson.{Jansson, JsonType}
use libsearpc.Types.{done}
use libsearpc.Codec.Bridge.{codec}
use libsearpc.Codec.Serialize.{
  json_gobject_serialize, serialize_properties, json_serialize_pspec, set_node,
}
use libsearpc.Rpc.Array.{Holds, Holds-get}
use libsearpc.Demo.TestObject.{
  TestObject, test_objects, get_value, test_object_get_property, property_named,
  test_object_class_init,
}
use libsearpc.Demo.Service.{objlist_item, searpc_objlisttest}
use libsearpc.Demo.Checks.{
  succeeds, fails, is_strlen, json_is_false, member_get, array_get, check_str, check_member,
  check_members,
}

module _ (J : Jansson) where
  open J use {Json, json_object_set_new}

  -- The object that the codec makes of a test object with a string.
  abbrev test_json : ℤ → Json → Bool → Json
  test_json len j equal =
      json_object_set_new
        (json_object_set_new
          (json_object_set_new J.json_object (codes "len") (some (J.json_integer (to_int64 len))))
          (codes "str") (some j))
        (codes "equal") (some (if equal then J.json_true else J.json_false))

  serialize-test_object :
      (o : TestObject) (s : Bytes) (j : Json)
      → o.str ≡ some s
      → J.json_string s ≡ some j
      → json_gobject_serialize J (test_objects J) 1 o ≡ done (test_json o.len j o.equal)
  unfolding json_gobject_serialize serialize_properties json_serialize_pspec set_node get_value
      test_object_class_init property_named test_object_get_property str_equal
  serialize-test_object o s j e h = rw (e, h) refl

  members-test_json :
      (len : ℤ) (j : Json) (equal : Bool)
      → (J.json_object_get (test_json len j equal) (codes "len")
          ≡ some (J.json_integer (to_int64 len)))
        × (J.json_object_get (test_json len j equal) (codes "str") ≡ some j)
        × (J.json_object_get (test_json len j equal) (codes "equal")
            ≡ some (if equal then J.json_true else J.json_false))
  unfolding str_equal
  members-test_json len j equal =
      let o1 =
        json_object_set_new J.json_object (codes "len") (some (J.json_integer (to_int64 len))) in
      let o2 = json_object_set_new o1 (codes "str") (some j) in
      let v = if equal then J.json_true else J.json_false in
      let t1 : J.json_typeof o1 ≡ JsonType.object = J.typeof-set _ _ _ J.typeof-object in
      let t2 : J.json_typeof o2 ≡ JsonType.object = J.typeof-set _ _ _ t1 in
      (
        J.get-set o2 (codes "equal") v (codes "len") t2
            ∙ (J.get-set o1 (codes "str") j (codes "len") t1
                ∙ J.get-set J.json_object (codes "len") (J.json_integer (to_int64 len))
                    (codes "len") J.typeof-object),
        J.get-set o2 (codes "equal") v (codes "str") t2
            ∙ J.get-set o1 (codes "str") j (codes "str") t1,
        J.get-set o2 (codes "equal") v (codes "equal") t2,
      )

  json_is_false-if :
      (b : Bool) → json_is_false J (some (if b then J.json_true else J.json_false)) ≡ not b
  unfolding json_is_false
  json_is_false-if true = rw (json_is_false, J.typeof-true) refl
  json_is_false-if false = rw (json_is_false, J.typeof-false) refl

  -- An object whose string is valid UTF-8 and not NULL, and whose length is a 64-bit integer.
  pub record Sendable (o : TestObject) : Type 0 where
    pub text : Bytes
    pub node : Json
    pub has_text : o.str ≡ some text
    pub valid : J.json_string text ≡ some node
    pub in_range : IsInt64 o.len

  abbrev pub serialized : TestObject → Json
  serialized = (codec J (test_objects J) 1).json_gobject_serialize

  check_member-serialized :
      (len : ℤ) (str : Bytes) (o : TestObject) (h : Sendable o)
      → check_member J len str (some (serialized o))
        ≡ (if int_equal o.len len then check_str len str (some h.text) (not o.equal) else fails)
  unfolding check_member member_get
  check_member-serialized len str o h =
      let (m1, m2, m3) = members-test_json o.len h.node o.equal in
      rw
        (
          serialize-test_object o h.text h.node h.has_text h.valid,
          m1,
          m2,
          m3,
          to_int64_of_IsInt64 o.len h.in_range,
          J.integer_value-integer o.len h.in_range,
          J.string_value-string h.text h.node h.valid,
          json_is_false-if o.equal,
        )
        refl

  -- check_str accepts exactly the string and the truth of the comparison.
  check_str_iff :
      (len : ℤ) (str s : Bytes) (equal : Bool)
      → (check_str len str (some s) (not equal) ≡ succeeds)
        ↔ ((s ≡ str) × (equal ≡ is_strlen len str))
  unfolding check_str
  check_str_iff len str s true = ground (arith, str_equal_iff s str)
  check_str_iff len str s false = ground (arith, str_equal_iff s str)

  is_strlen-objlist_item :
      (len : ℤ) (str : Bytes)
      → objlist_item len str ≡ record { len = len; str = some str; equal = is_strlen len str }
  unfolding objlist_item is_strlen
  is_strlen-objlist_item (pos n) str = refl
  is_strlen-objlist_item (negsuc n) str = refl

  same_item :
      (len : ℤ) (str : Bytes) (o : TestObject) (s : Bytes)
      → o.str ≡ some s
      → ((o.len ≡ len) × (s ≡ str) × (o.equal ≡ is_strlen len str)) ↔ (o ≡ objlist_item len str)
  same_item len str o s e = rw (is_strlen-objlist_item len str) (
    (λ (a, b, c). cc (a, b, c, e)),
    (λ p. (
      ap (λ (x : TestObject). x.len) p,
      cc (ap (λ (x : TestObject). x.str) p, e),
      ap (λ (x : TestObject). x.equal) p,
    )),
  )

  check_member_iff :
      (len : ℤ) (str : Bytes) (o : TestObject)
      → Sendable o
      → (check_member J len str (some (serialized o)) ≡ succeeds) ↔ (o ≡ objlist_item len str)
  check_member_iff len str o h = ground (
    arith,
    check_member-serialized len str o h,
    int_equal_iff o.len len,
    check_str_iff len str h.text o.equal,
    same_item len str o h.text h.has_text,
  )

  abbrev pub AllSendable : List TestObject → Type 0
  AllSendable [] = Unit
  AllSendable (o ∷ os) = Sendable o × AllSendable os

  -- The loop over the array of the objects, from the element behind `pre`.
  pub check_members_iff :
      (len : ℤ) (str : Bytes) (array : Json) (pre : List Json) (os : List TestObject) (i : ℕ)
      → Holds J array (pre ++ map serialized os)
      → AllSendable os
      → i ≡ length pre
      → (check_members J len str (some array) (length os) i ≡ succeeds)
        ↔ (os ≡ searpc_objlisttest (length os) len str)
  unfolding check_members array_get searpc_objlisttest
  check_members_iff len str array pre [] i h v e = (λ _. refl, λ _. refl)
  check_members_iff len str array pre (o ∷ os) i h v e = ground (
    arith,
    Holds-get J array (serialized o) pre (map serialized os) i h e,
    check_member_iff len str o v.0,
    check_members_iff len str array (pre ++ serialized o ∷ []) os (i + 1)
        (rw (append_assoc pre (serialized o ∷ []) (map serialized os)) h) v.1
        (omega (arith, e, length-append pre (serialized o ∷ []))),
  )
