-- ===== src/Rpc/AsyncLoopback.antt =====
-- The asynchronous client against the server in one process: `sample_async_send` of tests/searpc.c,
-- which hands the request to searpc_server_call_function and the reply to the callback.
use libsearpc.Prelude.{◌≡◌, false, Option, none, some, List, arith, Bytes, length, ℤ, pos, negsuc}
use libsearpc.Jansson.{Jansson}
use libsearpc.Types.{GError, Run, done, crash, Objects, Value}
use libsearpc.Client.Request.{Param, fcall_to_str}
use libsearpc.Client.Call.{
  SearpcClient, AsyncCallData, searpc_client_call__int, searpc_client_call__int64,
  searpc_client_call__string, searpc_client_call__json, searpc_client_call__object,
  searpc_client_call__objlist,
}
use libsearpc.Client.Async.{
  searpc_client_generic_callback, searpc_client_async_call__int, searpc_client_async_call__int64,
  searpc_client_async_call__string, searpc_client_async_call__json,
  searpc_client_async_call__object, searpc_client_async_call__objlist,
}
use libsearpc.Server.Call.{Server, Called, searpc_server_call_function}
use libsearpc.Rpc.Loopback.{sample_send}

module _ (J : Jansson) (O : Objects J) (W : Type 0) where
  -- The status and the world; a fault of the server or of the decoding is given as a failure.
  unfoldable pub run_async : AsyncCallData J O W → W → Run (Called J O W) → ℤ × W
  unfolding searpc_client_generic_callback
  run_async call w (crash fault) = (negsuc 0, w)
  run_async call w (done called) =
      elim (searpc_client_generic_callback J O W call called.ret (length called.ret) none
        called.world) [ crash fault ↦ (negsuc 0, w) | done w' ↦ (pos 0, w') ]

  unfoldable pub sample_async_send : Server J O W → Bytes → Bytes → AsyncCallData J O W → W → ℤ × W
  unfolding run_async
  sample_async_send server svc_name fcall_str call w =
      run_async call w (searpc_server_call_function J O W server svc_name fcall_str w)

  -- The client of the tests, with both transports.
  abbrev pub in_process : Server J O W → Bytes → SearpcClient J O W
  in_process server svc_name = record {
    send = sample_send J O W server svc_name;
    async_send = sample_async_send server svc_name;
  }

  module _ (callback : Option (Value J O) → Option GError → W → W) where
    -- Where the synchronous call returns, the asynchronous one succeeds and has called the callback
    -- with what it returned, on the world that it left.
    abbrev pub Follows {ℓ} :
        {A : Type ℓ} → (A → Value J O) → Run (A × Option GError) × W → ℤ × W → Type ℓ
    Follows {A} make sync async =
        (a : A) (error : Option GError) (w' : W)
        → sync ≡ (done (a, error), w')
        → async ≡ (pos 0, callback (some (make a)) error w')

    -- Over the in-process transports of the tests, where the request can be built, the server's
    -- call returns and the object type is valid: for each of the six return types, if the
    -- synchronous call returns a value and an error, the asynchronous call gives 0 and has called
    -- the callback with that value and that error, on the world that the synchronous call leaves.
    pub async-sync :
        (server : Server J O W) (svc_name fname text : Bytes) (gtype : O.GType)
        (params : List (Param J)) (w : W) (called : Called J O W)
        → fcall_to_str J fname params ≡ some text
        → searpc_server_call_function J O W server svc_name text w ≡ done called
        → O.is_invalid gtype ≡ false
        → let client = in_process server svc_name in
          let name = some fname in
          Follows Value.int
            (searpc_client_call__int J O W client name params w)
            (searpc_client_async_call__int J O W client name callback params w)
          × Follows Value.int64
              (searpc_client_call__int64 J O W client name params w)
              (searpc_client_async_call__int64 J O W client name callback params w)
          × Follows Value.string
              (searpc_client_call__string J O W client name params w)
              (searpc_client_async_call__string J O W client name callback params w)
          × Follows Value.json
              (searpc_client_call__json J O W client name params w)
              (searpc_client_async_call__json J O W client name callback params w)
          × Follows Value.object
              (searpc_client_call__object J O W client name gtype params w)
              (searpc_client_async_call__object J O W client name callback gtype params w)
          × Follows Value.objlist
              (searpc_client_call__objlist J O W client name gtype params w)
              (searpc_client_async_call__objlist J O W client name callback gtype params w)
    unfolding searpc_client_call__int searpc_client_call__int64 searpc_client_call__string
        searpc_client_call__json searpc_client_call__object searpc_client_call__objlist
        searpc_client_async_call__int searpc_client_async_call__int64
        searpc_client_async_call__string searpc_client_async_call__json
        searpc_client_async_call__object searpc_client_async_call__objlist sample_send
        sample_async_send
    async-sync server svc_name fname text gtype params w called t c v = (
      λ a error w' h. ground (arith, t, c, h),
      λ a error w' h. ground (arith, t, c, h),
      λ a error w' h. ground (arith, t, c, h),
      λ a error w' h. ground (arith, t, c, h),
      λ a error w' h. ground (arith, t, c, v, h),
      λ a error w' h. ground (arith, t, c, v, h),
    )
