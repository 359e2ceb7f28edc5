-- ===== src/Rpc/Reply.antt =====
-- The reply of a function on its way from the marshal to the caller of the client.
pub mod Objs
use libsearpc.Prelude.{
  ℕ, ◌≡◌, ◌≢◌, refl, ◌∙◌, Bool, false, Option, none, some, List, [], ◌∷◌, arith, length, take,
  take-length, Bytes, codes, str_equal, ℤ, to_int, to_int_of_IsInt, IsInt, IsInt64, IsInt-IsInt64,
  leb, if◌then◌else◌,
}
use libsearpc.Jansson.{Jansson, JsonType, Loaded, loaded, compact}
use libsearpc.Types.{GError, dft, Run, done, ◌>>=◌, Objects, Value}
use libsearpc.Utils.{json_is_null, is_null_type, json_object_get_string_or_null_member}
use libsearpc.Client.Fret.{
  Common, root, failed, loadb_buffer, handle_loaded, handle_ret_common, fret_json,
  searpc_client_fret__int, searpc_client_fret__int64, searpc_client_fret__string,
  searpc_client_fret__json, format_string,
}
use libsearpc.Server.Reply.{set_error, searpc_marshal_set_ret_common}
use libsearpc.Server.Marshal.{convert_ret}

module _ (J : Jansson) where
  open J use {Json, json_typeof, json_null, json_string, json_integer, json_object}
  open J use {json_object_set_new, json_object_get, json_dumps, json_loadb, Loadable}

  loadb_buffer_whole : (s : Bytes) → loadb_buffer J s (length s) ≡ done (json_loadb s)
  unfolding loadb_buffer
  loadb_buffer_whole s = rw take-length (ground arith)

  -- The text of an object is handled as that object.
  pub handle_ret_common-dumps :
      (o : Json)
      → Loadable o
      → handle_ret_common J (json_dumps compact o) (length (json_dumps compact o))
        ≡ done (handle_loaded J (loaded o))
  unfolding handle_ret_common
  handle_ret_common-dumps o h =
      ground (arith, take-length (json_dumps compact o), J.loadb-dumps compact o h)

  -- { "ret": v }
  abbrev pub ret_object : Json → Json
  ret_object v = json_object_set_new json_object (codes "ret") (some v)

  pub get-ret_object : (v : Json) → json_object_get (ret_object v) (codes "ret") ≡ some v
  unfolding str_equal
  get-ret_object v = J.get-set json_object (codes "ret") v (codes "ret") J.typeof-object

  no_err_code : (v : Json) → json_object_get (ret_object v) (codes "err_code") ≡ none
  unfolding str_equal
  no_err_code v =
      J.get-set json_object (codes "ret") v (codes "err_code") J.typeof-object
      ∙ J.get-object (codes "err_code")

  handle_loaded-ret_object :
      (v : Json) → handle_loaded J (loaded (ret_object v)) ≡ root (ret_object v)
  unfolding handle_loaded
  handle_loaded-ret_object v = ground (arith, no_err_code v)

  -- A reply with the value `v` is the root node with that value.
  pub handle_ret_common-ret :
      (v : Json)
      → Loadable (ret_object v)
      → handle_ret_common J
          (json_dumps compact (ret_object v))
          (length (json_dumps compact (ret_object v)))
        ≡ done (root (ret_object v))
  handle_ret_common-ret v h =
      rw (handle_ret_common-dumps (ret_object v) h, handle_loaded-ret_object v) refl

  -- The members of an error, over an object.
  pub handle_loaded-set_error :
      (o : Json) (e : GError) (j : Json)
      → json_typeof o ≡ JsonType.object
      → IsInt e.code
      → json_string e.message ≡ some j
      → handle_loaded J (loaded (set_error J o (some e)))
        ≡ failed (record { domain = dft; code = e.code; message = e.message })
  unfolding handle_loaded set_error str_equal
  handle_loaded-set_error o e j ob i m =
      let t = J.typeof-set o (codes "err_code") (some (json_integer e.code)) ob in
      let code = json_object_set_new o (codes "err_code") (some (json_integer e.code)) in
      ground (
        arith,
        J.get-set code (codes "err_msg") j (codes "err_code") t,
        J.get-set code (codes "err_msg") j (codes "err_msg") t,
        J.get-set o (codes "err_code") (json_integer e.code) (codes "err_code") ob,
        J.integer_value-integer e.code (IsInt-IsInt64 e.code i),
        to_int_of_IsInt e.code i,
        J.string_value-string e.message j m,
      )

  pub not_null : (v : Json) → json_typeof v ≢ JsonType.null → json_is_null J (some v) ≡ false
  unfolding json_is_null
  not_null v t = ground arith

module _ (J : Jansson) (O : Objects J) where
  open J use {Json, json_typeof, json_null, json_string, json_integer, json_object}
  open J use {json_object_get, json_dumps, Loadable}

  -- The object that a marshal sends back, and its text.
  abbrev pub reply_object : Value J O → Option GError → Json
  reply_object value error = set_error J (convert_ret J O json_object value) error

  abbrev pub reply_text : Value J O → Option GError → Bytes
  reply_text value error = searpc_marshal_set_ret_common J (convert_ret J O json_object value) error

  typeof-convert_ret :
      (value : Value J O) → json_typeof (convert_ret J O json_object value) ≡ JsonType.object
  unfolding convert_ret
  typeof-convert_ret (Value.int z) = J.typeof-set json_object _ _ J.typeof-object
  typeof-convert_ret (Value.int64 z) = J.typeof-set json_object _ _ J.typeof-object
  typeof-convert_ret (Value.string none) = J.typeof-set json_object _ _ J.typeof-object
  typeof-convert_ret (Value.string (some s)) = J.typeof-set json_object _ _ J.typeof-object
  typeof-convert_ret (Value.object none) = J.typeof-set json_object _ _ J.typeof-object
  typeof-convert_ret (Value.object (some o)) = J.typeof-set json_object _ _ J.typeof-object
  typeof-convert_ret (Value.objlist []) = J.typeof-set json_object _ _ J.typeof-object
  typeof-convert_ret (Value.objlist (o ∷ os)) = J.typeof-set json_object _ _ J.typeof-object
  typeof-convert_ret (Value.json none) = J.typeof-set json_object _ _ J.typeof-object
  typeof-convert_ret (Value.json (some v)) = J.typeof-set json_object _ _ J.typeof-object

  -- A reply with an error, whatever the function returned, is that error; its domain is lost.
  pub handle_ret_common-error :
      (value : Value J O) (e : GError) (j : Json)
      → IsInt e.code
      → json_string e.message ≡ some j
      → Loadable (reply_object value (some e))
      → handle_ret_common J (reply_text value (some e)) (length (reply_text value (some e)))
        ≡ done (failed (record { domain = dft; code = e.code; message = e.message }))
  handle_ret_common-error value e j i m h =
      unfold searpc_marshal_set_ret_common in
      rw
        (
          handle_ret_common-dumps J (reply_object value (some e)) h,
          handle_loaded-set_error J (convert_ret J O json_object value) e j
              (typeof-convert_ret value) i m,
        )
        refl

  pub fret__int-reply :
      (z : ℤ)
      → IsInt z
      → Loadable (reply_object (Value.int z) none)
      → searpc_client_fret__int J
          (reply_text (Value.int z) none)
          (length (reply_text (Value.int z) none))
        ≡ done (z, none)
  fret__int-reply z i h =
      unfold searpc_marshal_set_ret_common convert_ret searpc_client_fret__int in
      rw
        (
          handle_ret_common-ret J (json_integer z) h,
          get-ret_object J (json_integer z),
          J.integer_value-integer z (IsInt-IsInt64 z i),
          to_int_of_IsInt z i,
        )
        refl

  pub fret__int64-reply :
      (z : ℤ)
      → IsInt64 z
      → Loadable (reply_object (Value.int64 z) none)
      → searpc_client_fret__int64 J
          (reply_text (Value.int64 z) none)
          (length (reply_text (Value.int64 z) none))
        ≡ done (z, none)
  fret__int64-reply z i h =
      unfold searpc_marshal_set_ret_common convert_ret searpc_client_fret__int64 in
      rw
        (
          handle_ret_common-ret J (json_integer z) h,
          get-ret_object J (json_integer z),
          J.integer_value-integer z i,
        )
        refl

  -- What is sent for a string or a NULL.
  pub fret__string-reply :
      (s : Bytes) (j : Json)
      → json_string s ≡ some j
      → Loadable (reply_object (Value.string (some s)) none)
      → searpc_client_fret__string J
          (reply_text (Value.string (some s)) none)
          (length (reply_text (Value.string (some s)) none))
        ≡ done (some s, none)
  fret__string-reply s j e h =
      unfold searpc_marshal_set_ret_common convert_ret searpc_client_fret__string in
      ground (arith, handle_ret_common-ret J j, get-ret_object J j, J.string_value-string s j e)

  pub fret__string-reply_null :
      Loadable (reply_object (Value.string none) none)
      → searpc_client_fret__string J
          (reply_text (Value.string none) none)
          (length (reply_text (Value.string none) none))
        ≡ done (none, none)
  fret__string-reply_null h =
      unfold searpc_marshal_set_ret_common convert_ret searpc_client_fret__string in
      ground (
        arith,
        handle_ret_common-ret J json_null,
        get-ret_object J json_null,
        J.string_value_other json_null (λ e. cc (J.typeof-null, e)),
      )

  pub fret__json-reply :
      (v : Json)
      → json_typeof v ≢ JsonType.null
      → Loadable (reply_object (Value.json (some v)) none)
      → searpc_client_fret__json J
          (reply_text (Value.json (some v)) none)
          (length (reply_text (Value.json (some v)) none))
        ≡ done (some v, none)
  fret__json-reply v t h =
      unfold searpc_marshal_set_ret_common convert_ret searpc_client_fret__json in
      rw (handle_ret_common-ret J v h, get-ret_object J v, not_null J v t, J.deep_copy_lem v) refl
