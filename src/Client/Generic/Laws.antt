-- ===== src/Client/Generic/Laws.antt =====
-- `searpc_client_call` against the typed calls.
use libsearpc.Prelude.{◌<◌, ◌≡◌, false, Option, some, List, arith, Bytes, length, leb}
use libsearpc.Jansson.{Jansson}
use libsearpc.Types.{GError, Run, crash, out_of_bounds, Objects, RetType, Value}
use libsearpc.Client.Request.{Param, fcall_to_str}
use libsearpc.Client.Fret.{handle_ret_common, loadb_buffer, searpc_client_fret__string}
use libsearpc.Client.Call.{
  SearpcClient, searpc_client_call__int, searpc_client_call__int64, searpc_client_call__json,
  searpc_client_call__object, searpc_client_call__objlist,
}
use libsearpc.Client.Generic.{Stored, store, searpc_client_call}

module _ (J : Jansson) (O : Objects J) (W : Type 0) where
  -- The result of a typed call, as the call by the type's name stores it.
  abbrev pub stored {ℓ} :
      {A : Type ℓ} → (A → Value J O) → Run (A × Option GError) × W → Run (Stored J O) × W
  stored make (r, w) = (store J O make r, w)

  -- Where the request can be built, the transport gives a reply and the object type is valid,
  -- searpc_client_call by the type's name stores, for int, int64, json, object and objlist, what
  -- the typed call returns, with the same error and the same world.
  pub call-typed :
      (client : SearpcClient J O W) (fname text reply : Bytes) (gtype : O.GType)
      (params : List (Param J)) (w w' : W)
      → fcall_to_str J fname params ≡ some text
      → client.send text w ≡ (some reply, w')
      → O.is_invalid gtype ≡ false
      → (searpc_client_call J O W client (some fname) RetType.int gtype params w
          ≡ stored Value.int (searpc_client_call__int J O W client (some fname) params w))
        × (searpc_client_call J O W client (some fname) RetType.int64 gtype params w
            ≡ stored Value.int64 (searpc_client_call__int64 J O W client (some fname) params w))
        × (searpc_client_call J O W client (some fname) RetType.json gtype params w
            ≡ stored Value.json (searpc_client_call__json J O W client (some fname) params w))
        × (searpc_client_call J O W client (some fname) RetType.object gtype params w
            ≡ stored Value.object
                (searpc_client_call__object J O W client (some fname) gtype params w))
        × (searpc_client_call J O W client (some fname) RetType.objlist gtype params w
            ≡ stored Value.objlist
                (searpc_client_call__objlist J O W client (some fname) gtype params w))
  unfolding searpc_client_call searpc_client_call__int searpc_client_call__int64
      searpc_client_call__json searpc_client_call__object searpc_client_call__objlist
  call-typed client fname text reply gtype params w w' t s v =
      (ground arith, ground arith, ground arith, ground arith, ground arith)

  -- Where the request can be built and the transport gives a reply that is shorter than the
  -- request, searpc_client_call for a string reads past the end of the reply.
  pub call-string_overread :
      (client : SearpcClient J O W) (fname text reply : Bytes) (gtype : O.GType)
      (params : List (Param J)) (w w' : W)
      → fcall_to_str J fname params ≡ some text
      → client.send text w ≡ (some reply, w')
      → length reply < length text
      → searpc_client_call J O W client (some fname) RetType.string gtype params w
        ≡ (crash out_of_bounds, w')
  unfolding searpc_client_call searpc_client_fret__string handle_ret_common loadb_buffer
  call-string_overread client fname text reply gtype params w w' t s h =
      let past : leb (length text) (length reply) ≡ false = ground arith in ground arith
