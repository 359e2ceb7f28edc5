-- ===== src/Demo/Checks/Laws.antt =====
-- The check of demo/searpc-demo-client.c on a list of objects: what it accepts.
use libsearpc.Prelude.{
  ◌<◌, inl, inr, ℕ, zero, suc, ◌≡◌, refl, sym, ap, ◌↔◌, ◌==◌, none, some, List, [], ◌∷◌, Bytes,
  codes, length, length-map, map, ℤ, str_equal, Bool-cases, arith,
}
use libsearpc.Jansson.{Jansson}
use libsearpc.Types.{done}
use libsearpc.Codec.Bridge.{codec}
use libsearpc.Rpc.Array.{Holds, build, Holds-array, Holds-build}
use libsearpc.Demo.TestObject.{TestObject, test_objects}
use libsearpc.Demo.Service.{searpc_objlisttest}
use libsearpc.Demo.Checks.{
  succeeds, array_size, check_members, check_array, append_list, set_objlist_to_ret_object,
  glist_verdict,
}
use libsearpc.Demo.Checks.Members.{serialized, AllSendable, check_members_iff}

module _ (J : Jansson) where
  open J use {Json}

  append_list-build :
      (array : Json) (os : List TestObject)
      → append_list J (codec J (test_objects J) 1) array os ≡ build J array (map (serialized J) os)
  unfolding append_list
  append_list-build array [] = refl
  append_list-build array (o ∷ os) =
      append_list-build (J.json_array_append_new array (some (serialized J o))) os

  length-objlisttest :
      (count : ℕ) (len : ℤ) (str : Bytes) → length (searpc_objlisttest count len str) ≡ count
  unfolding searpc_objlisttest
  length-objlisttest zero len str = refl
  length-objlisttest (suc count) len str = omega (arith, length-objlisttest count len str)

  -- The list as the array that the check gets.
  ret_array :
      (ans : List TestObject)
      → (array : Json) × (J.json_object_get
            (set_objlist_to_ret_object J (codec J (test_objects J) 1) J.json_object ans)
            (codes "ret")
          ≡ some array)
        × (J.json_array_size array ≡ length ans)
        × ((0 < length ans) → Holds J array (map (serialized J) ans))
  unfolding set_objlist_to_ret_object str_equal
  ret_array [] = (
    J.json_null,
    J.get-set J.json_object (codes "ret") J.json_null (codes "ret") J.typeof-object,
    J.size-other J.json_null (λ e. cc (e, J.typeof-null)),
    λ p. absurd (omega arith),
  )
  ret_array (o ∷ os) =
      let holds : Holds J (append_list J (codec J (test_objects J) 1) J.json_array (o ∷ os))
          (map (serialized J) (o ∷ os)) =
        rw (append_list-build J.json_array (o ∷ os))
          (Holds-build J J.json_array [] (map (serialized J) (o ∷ os)) (Holds-array J)) in
      (
        append_list J (codec J (test_objects J) 1) J.json_array (o ∷ os),
        J.get-set J.json_object (codes "ret") _ (codes "ret") J.typeof-object,
        omega (arith, holds.size, length-map (serialized J) (o ∷ os)),
        λ p. holds,
      )

  check_array_iff :
      (count : ℕ) (len : ℤ) (str : Bytes) (array : Json) (ans : List TestObject)
      → J.json_array_size array ≡ length ans
      → ((0 < length ans) → Holds J array (map (serialized J) ans))
      → AllSendable J ans
      → (check_array J count len str (some array) ≡ succeeds)
        ↔ (ans ≡ searpc_objlisttest count len str)
  unfolding check_array array_size check_members searpc_objlisttest
  check_array_iff zero len str array [] s h v = (λ _. refl, λ _. rw s refl)
  check_array_iff (suc count) len str array [] s h v = ground (arith, s)
  check_array_iff count len str array (o ∷ os) s h v =
      elim (Bool-cases (length (o ∷ os) == count)) [
        | inl e ↦
            let same : length (o ∷ os) ≡ count = ground arith in
            rw (s, e, sym same)
              (check_members_iff J len str array [] (o ∷ os) 0 (h (omega arith)) v refl)
        | inr e ↦
            ground
              (arith, s, ap (λ (xs : List TestObject). length xs), length-objlisttest count len str)
      ]

  -- For a list of objects whose strings are valid UTF-8 and not NULL and whose lengths are 64-bit
  -- integers: the check of rpc_glist_test on that list, through searpc_set_objlist_to_ret_object,
  -- succeeds exactly when the list is the one that searpc_objlisttest makes for the same count,
  -- length and string.
  pub glist_verdict_iff :
      (count : ℕ) (len : ℤ) (str : Bytes) (ans : List TestObject)
      → AllSendable J ans
      → (glist_verdict J (codec J (test_objects J) 1) count len str (done (ans, none)) ≡ succeeds)
        ↔ (ans ≡ searpc_objlisttest count len str)
  unfolding glist_verdict
  glist_verdict_iff count len str ans v =
      let (array, e, s, h) = ret_array ans in rw e (check_array_iff count len str array ans s h v)
