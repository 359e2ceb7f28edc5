-- ===== src/Client/Fret.antt =====
-- The decoding of a reply: handle_ret_common and the searpc_client_fret__ functions of
-- lib/searpc-client.c. The out parameter `error` is the second part of the result.
use libsearpc.Prelude.{
  ℕ, zero, suc, ◌+◌, Option, none, some, List, [], ◌∷◌, reverse, Bytes, codes, ℤ, pos, negsuc,
  to_int, leb, length, take, if◌then◌else◌,
}
use libsearpc.Jansson.{Jansson, Loaded, loaded, load_error}
use libsearpc.Types.{GError, dft, Run, done, crash, out_of_bounds, assertion, ◌>>=◌, Objects}
use libsearpc.Utils.{setjetoge, json_is_null, json_object_get_string_or_null_member}

-- "%s" of a NULL string prints "(null)".
unfoldable pub format_string : Option Bytes → Bytes
format_string none = codes "(null)"
format_string (some s) = s

-- What handle_ret_common leaves: the root node (0), or the error that it has set (-1).
pub data Common (Json : Type 0) : Type 0 where
  root : Json → Common Json
  failed : GError → Common Json

module _ (J : Jansson) where
  open J use {Json, json_loadb, json_object_get, json_string_value, json_integer_value}
  open J use {json_array_size, json_array_get, json_deep_copy}

  -- json_loadb (data, len): it reads `len` bytes from the buffer.
  unfoldable pub loadb_buffer : Bytes → ℕ → Run (Loaded Json)
  loadb_buffer buffer len =
      if leb len (length buffer) then done (json_loadb (take len buffer)) else crash out_of_bounds

  -- The error that the members err_code and err_msg describe, if there is an err_code.
  unfoldable pub handle_loaded : Loaded Json → Common Json
  unfolding setjetoge format_string
  handle_loaded (load_error text) = failed (setjetoge text)
  handle_loaded (loaded object) = elim (json_object_get object (codes "err_code")) [
    | some err_code ↦ failed (record {
      domain = dft;
      code = to_int (json_integer_value (some err_code));
      message = format_string (json_string_value (json_object_get object (codes "err_msg")));
    })
    | none ↦ root object
  ]

  unfoldable pub handle_ret_common : Bytes → ℕ → Run (Common Json)
  unfolding loadb_buffer handle_loaded
  handle_ret_common buffer len = loadb_buffer buffer len >>= λ r. done (handle_loaded r)

  -- The pattern of every fret function: the error's default, or what `f` makes of the root.
  abbrev with_root {ℓ} :
      {A : Type ℓ} → A → (Json → Run (A × Option GError)) → Common Json → Run (A × Option GError)
  with_root default f (failed e) = done (default, some e)
  with_root default f (root object) = f object

  unfoldable pub searpc_client_fret__string : Bytes → ℕ → Run (Option Bytes × Option GError)
  unfolding json_object_get_string_or_null_member
  searpc_client_fret__string buffer len =
      handle_ret_common buffer len
      >>= with_root none
          λ object. done (json_object_get_string_or_null_member J object (codes "ret"), none)

  unfoldable pub searpc_client_fret__int : Bytes → ℕ → Run (ℤ × Option GError)
  searpc_client_fret__int buffer len =
      handle_ret_common buffer len
      >>= with_root (negsuc 0)
          λ object. done (to_int (json_integer_value (json_object_get object (codes "ret"))), none)

  unfoldable pub searpc_client_fret__int64 : Bytes → ℕ → Run (ℤ × Option GError)
  searpc_client_fret__int64 buffer len =
      handle_ret_common buffer len
      >>= with_root (negsuc 0)
          λ object. done (json_integer_value (json_object_get object (codes "ret")), none)

  unfoldable pub fret_json : Option Json → Run (Option Json × Option GError)
  fret_json none = done (none, none)
  fret_json (some j) =
      if json_is_null J (some j) then done (none, none) else done (some (json_deep_copy j), none)

  unfoldable pub searpc_client_fret__json : Bytes → ℕ → Run (Option Json × Option GError)
  unfolding fret_json
  searpc_client_fret__json buffer len =
      handle_ret_common buffer len
      >>= with_root none λ object. fret_json (json_object_get object (codes "ret"))

module _ (J : Jansson) (O : Objects J) where
  open J use {Json, json_object_get, json_array_size, json_array_get}
  open O use {GObject, GType, json_gobject_deserialize}

  unfoldable pub fret_object : GType → Option Json → Run (Option GObject × Option GError)
  fret_object gtype member =
      if json_is_null J member
      then done (none, none)
      else done (json_gobject_deserialize gtype member, none)

  unfoldable pub searpc_client_fret__object :
      GType → Bytes → ℕ → Run (Option GObject × Option GError)
  unfolding fret_object
  searpc_client_fret__object gtype buffer len =
      handle_ret_common J buffer len
      >>= with_root J none λ object. fret_object gtype (json_object_get object (codes "ret"))

  abbrev pub null_in_list : GError
  null_in_list = record {
    domain = dft;
    code = pos 503;
    message = codes "Invalid data: object list contains null";
  }

  -- The loop from `i` over the `n` elements that are left; `acc` is the list built by prepending.
  unfoldable pub objlist_loop : GType → Json → ℕ → ℕ → List GObject → List GObject × Option GError
  objlist_loop gtype array zero i acc = (reverse acc, none)
  objlist_loop gtype array (suc n) i acc =
      elim (json_gobject_deserialize gtype (json_array_get array i)) [
        | none ↦ ([], some null_in_list)
        | some obj ↦ objlist_loop gtype array n (i + 1) (obj ∷ acc)
      ]

  unfoldable pub fret_objlist : GType → Option Json → Run (List GObject × Option GError)
  unfolding objlist_loop
  fret_objlist gtype none = crash assertion
  fret_objlist gtype (some array) =
      if json_is_null J (some array)
      then done ([], none)
      else done (objlist_loop gtype array (json_array_size array) 0 [])

  unfoldable pub searpc_client_fret__objlist :
      GType → Bytes → ℕ → Run (List GObject × Option GError)
  unfolding fret_objlist
  searpc_client_fret__objlist gtype buffer len =
      handle_ret_common J buffer len
      >>= with_root J [] λ object. fret_objlist gtype (json_object_get object (codes "ret"))
