-- ===== src/Client/Async/Laws.antt =====
-- The callback of the asynchronous calls of lib/searpc-client.c against the synchronous calls.
use libsearpc.Prelude.{◌≡◌, false, Option, none, some, List, arith, Bytes, length}
use libsearpc.Jansson.{Jansson}
use libsearpc.Types.{GError, Run, done, ◌>>=◌, Objects, RetType, Value}
use libsearpc.Client.Request.{Param, fcall_to_str}
use libsearpc.Client.Call.{
  SearpcClient, searpc_client_call__int, searpc_client_call__int64, searpc_client_call__string,
  searpc_client_call__json, searpc_client_call__object, searpc_client_call__objlist,
}
use libsearpc.Client.Generic.{store}
use libsearpc.Client.Async.{searpc_client_generic_callback}

module _ (J : Jansson) (O : Objects J) (W : Type 0)
    (callback : Option (Value J O) → Option GError → W → W) (u : W) where
  -- The callback called with what a synchronous call returns.
  abbrev pub called_back {ℓ} : {A : Type ℓ} → (A → Value J O) → Run (A × Option GError) × W → Run W
  called_back make (r, w) = store J O make r >>= λ (result, error). done (callback result error u)

  -- What the transport's reply makes of the call with this return type.
  abbrev pub delivered : RetType → O.GType → Bytes → Run W
  delivered ret_type gtype reply =
      searpc_client_generic_callback J O W
        (record { callback = callback; ret_type = ret_type; gtype = gtype }) reply (length reply)
        none u

  -- Where the request can be built, the synchronous transport gives a reply and the object type is
  -- valid: for each of the six return types, searpc_client_generic_callback on that reply calls
  -- the callback with the value and the error that the synchronous call returns.
  pub callback-call :
      (client : SearpcClient J O W) (fname text reply : Bytes) (gtype : O.GType)
      (params : List (Param J)) (w w' : W)
      → fcall_to_str J fname params ≡ some text
      → client.send text w ≡ (some reply, w')
      → O.is_invalid gtype ≡ false
      → (delivered RetType.int gtype reply
          ≡ called_back Value.int (searpc_client_call__int J O W client (some fname) params w))
        × (delivered RetType.int64 gtype reply
            ≡ called_back Value.int64
                (searpc_client_call__int64 J O W client (some fname) params w))
        × (delivered RetType.string gtype reply
            ≡ called_back Value.string
                (searpc_client_call__string J O W client (some fname) params w))
        × (delivered RetType.json gtype reply
            ≡ called_back Value.json (searpc_client_call__json J O W client (some fname) params w))
        × (delivered RetType.object gtype reply
            ≡ called_back Value.object
                (searpc_client_call__object J O W client (some fname) gtype params w))
        × (delivered RetType.objlist gtype reply
            ≡ called_back Value.objlist
                (searpc_client_call__objlist J O W client (some fname) gtype params w))
  unfolding searpc_client_generic_callback searpc_client_call__int searpc_client_call__int64
      searpc_client_call__string searpc_client_call__json searpc_client_call__object
      searpc_client_call__objlist
  callback-call client fname text reply gtype params w w' t s v =
      (ground arith, ground arith, ground arith, ground arith, ground arith, ground arith)
