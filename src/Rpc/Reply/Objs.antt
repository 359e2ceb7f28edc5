-- ===== src/Rpc/Reply/Objs.antt =====
-- Replies that carry objects: a GObject, or a list of them, as an array.
use libsearpc.Prelude.{
  ℕ, zero, suc, ◌+◌, ◌≡◌, ◌≢◌, refl, none, some, List, [], ◌∷◌, ◌++◌, reverse, arith, length,
  length-append, length-map, append_assoc, append-nil, map,
}
use mathlib.Core.List.{reverse-append}
use libsearpc.Jansson.{Jansson, JsonType}
use libsearpc.Types.{done, Objects, Value}
use libsearpc.Client.Fret.{searpc_client_fret__object, searpc_client_fret__objlist, objlist_loop}
use libsearpc.Server.Reply.{searpc_marshal_set_ret_common, append_objects}
use libsearpc.Server.Marshal.{convert_ret}
use libsearpc.Rpc.Array.{Holds, build, Holds-array, Holds-build, Holds-get}
use libsearpc.Rpc.Reply.{handle_ret_common-ret, get-ret_object, not_null, reply_object, reply_text}

module _ (J : Jansson) (O : Objects J) where
  open J use {Json, json_typeof, json_null, json_array, json_array_get, json_array_size, Loadable}
  open O use {GObject, GType, json_gobject_serialize, json_gobject_deserialize}

  -- What the codec gives back for an object: it is a JSON object, and deserialized it is `o`.
  pub record RoundTrips (gtype : GType) (o : GObject) : Type 0 where
    pub is_object : json_typeof (json_gobject_serialize o) ≢ JsonType.null
    pub back : json_gobject_deserialize gtype (some (json_gobject_serialize o)) ≡ some o

  abbrev pub AllRoundTrip : GType → List GObject → Type 0
  AllRoundTrip gtype [] = Unit
  AllRoundTrip gtype (o ∷ os) = RoundTrips gtype o × AllRoundTrip gtype os

  pub fret__object-reply :
      (gtype : GType) (o : GObject)
      → RoundTrips gtype o
      → Loadable (reply_object J O (Value.object (some o)) none)
      → searpc_client_fret__object J O gtype
          (reply_text J O (Value.object (some o)) none)
          (length (reply_text J O (Value.object (some o)) none))
        ≡ done (some o, none)
  fret__object-reply gtype o r h =
      unfold searpc_marshal_set_ret_common convert_ret searpc_client_fret__object in
      rw
        (
          handle_ret_common-ret J (json_gobject_serialize o) h,
          get-ret_object J (json_gobject_serialize o),
          not_null J (json_gobject_serialize o) r.is_object,
          r.back,
        )
        refl

  append_objects-build :
      (array : Json) (os : List GObject)
      → append_objects J O array os ≡ build J array (map json_gobject_serialize os)
  unfolding append_objects
  append_objects-build array [] = refl
  append_objects-build array (o ∷ os) =
      append_objects-build (J.json_array_append_new array (some (json_gobject_serialize o))) os

  -- The loop reads the objects in the order of the array, whatever it has read before.
  objlist_loop-Holds :
      (gtype : GType) (array : Json) (pre : List Json) (os : List GObject) (acc : List GObject)
      (n i : ℕ)
      → Holds J array (pre ++ map json_gobject_serialize os)
      → AllRoundTrip gtype os
      → i ≡ length pre
      → n ≡ length os
      → objlist_loop J O gtype array n i acc ≡ (reverse acc ++ os, none)
  unfolding objlist_loop
  objlist_loop-Holds gtype array pre [] acc zero i h r e m = rw append-nil
  objlist_loop-Holds gtype array pre [] acc (suc n) i h r e m = absurd (omega arith)
  objlist_loop-Holds gtype array pre (o ∷ os) acc zero i h r e m = absurd (omega arith)
  objlist_loop-Holds gtype array pre (o ∷ os) acc (suc n) i h r e m =
      let v = json_gobject_serialize o in
      let vs = map json_gobject_serialize os in
      ground (
        arith,
        Holds-get J array v pre vs i h e,
        r.0.back,
        objlist_loop-Holds gtype array (pre ++ v ∷ []) os (o ∷ acc) n (i + 1)
            (rw (append_assoc pre (v ∷ []) vs) h) r.1 (omega (arith, length-append pre (v ∷ [])))
            (omega arith),
        reverse-append (o ∷ []) acc,
        append_assoc (reverse acc) (o ∷ []) os,
      )

  -- A list of objects comes back in order.
  pub fret__objlist-reply :
      (gtype : GType) (o : GObject) (os : List GObject)
      → AllRoundTrip gtype (o ∷ os)
      → Loadable (reply_object J O (Value.objlist (o ∷ os)) none)
      → searpc_client_fret__objlist J O gtype
          (reply_text J O (Value.objlist (o ∷ os)) none)
          (length (reply_text J O (Value.objlist (o ∷ os)) none))
        ≡ done (o ∷ os, none)
  fret__objlist-reply gtype o os r h =
      let array = append_objects J O json_array (o ∷ os) in
      let holds : Holds J array (map json_gobject_serialize (o ∷ os)) =
        rw (append_objects-build json_array (o ∷ os))
          (Holds-build J json_array [] (map json_gobject_serialize (o ∷ os)) (Holds-array J)) in
      unfold searpc_marshal_set_ret_common convert_ret searpc_client_fret__objlist in
      rw
        (
          handle_ret_common-ret J array h,
          get-ret_object J array,
          not_null J array (λ e. cc (holds.is_array, e)),
          objlist_loop-Holds gtype array [] (o ∷ os) [] (json_array_size array) 0 holds r refl
              (omega (arith, holds.size, length-map json_gobject_serialize os)),
        )
        refl
