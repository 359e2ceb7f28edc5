-- ===== src/Pipe/Client/Typed.antt =====
-- The six typed calls of lib/searpc-client.c over a named pipe against the same calls in one
-- process.
use libsearpc.Prelude.{
  ◌≡◌, refl, ap, false, Option, none, some, List, [], ◌++◌, Bytes, ℕ, length, pos,
}
use libsearpc.Jansson.{Jansson}
use libsearpc.Types.{GError, Run, done, Objects}
use libsearpc.Client.Request.{Param, fcall_to_str}
use libsearpc.Client.Fret.{
  searpc_client_fret__string, searpc_client_fret__int, searpc_client_fret__int64,
  searpc_client_fret__object, searpc_client_fret__objlist, searpc_client_fret__json,
}
use libsearpc.Client.Call.{
  typed_call, searpc_client_call__int, searpc_client_call__int64, searpc_client_call__string,
  searpc_client_call__json, searpc_client_call__object, searpc_client_call__objlist,
}
use libsearpc.Server.Call.{Server, Called, searpc_server_call_function}
use libsearpc.Rpc.Loopback.{loopback, typed_call-replied}
use libsearpc.Pipe.Io.{Fd}
use libsearpc.Pipe.Connection.{Exchanged, sample_send-done}
use libsearpc.Pipe.Handler.{Handler, served, handle_round}
use libsearpc.Pipe.Client.{
  searpc_client_with_named_pipe_transport, pipe-send, Ready, Ready-Exchanged,
}

module _ (J : Jansson) (O : Objects J) (W : Type 0) where
  -- What a call returns over the pipe is what it returns in one process, and each leaves its end.
  abbrev pub Agrees {ℓ} :
      {A : Type ℓ} → Run (A × Option GError) × Fd → Run (A × Option GError) × W → Fd → W → Type ℓ
  Agrees piped local client' world = (piped ≡ (local.0, client')) × (local.1 ≡ world)

  module _ (malloc : ℕ → Bytes) (server : Server J O W) (service fname text : Bytes)
      (ps : List (Param J)) (client peer : Fd) (handler : Handler W) (called : Called J O W)
      (built : fcall_to_str J fname ps ≡ some text)
      (answered : searpc_server_call_function J O W server service text handler.world ≡ done called)
      (x : Exchanged J O W malloc server service text client peer handler called.ret
        called.world) where
    -- A typed call returns the same over the pipe and in one process.
    same {ℓ} :
        {A : Type ℓ} (default : A) (decode : Bytes → ℕ → Run (A × Option GError))
        → (typed_call J O Fd default decode
              (searpc_client_with_named_pipe_transport J O malloc service)
              fname
              ps
              client
            ≡ (decode called.ret (length called.ret), x.client'))
          × (typed_call J O W default decode (loopback J O W server service) fname ps handler.world
              ≡ (decode called.ret (length called.ret), called.world))
    same default decode = (
      typed_call-replied J O Fd ps default decode
          (searpc_client_with_named_pipe_transport J O malloc service) fname client x.client' built
          (pipe-send J O malloc service text called.ret client x.client' x.client_returns),
      typed_call-replied J O W ps default decode (loopback J O W server service) fname handler.world
          called.world built
          (sample_send-done J O W server service text handler.world called answered),
    )

    agrees {ℓ} :
        {A : Type ℓ} (default : A) (decode : Bytes → ℕ → Run (A × Option GError))
        → Agrees
            (typed_call J O Fd default decode
              (searpc_client_with_named_pipe_transport J O malloc service)
              fname
              ps
              client)
            (typed_call J O W default decode (loopback J O W server service) fname ps handler.world)
            x.client'
            called.world
    agrees default decode =
        let (piped, local) = same default decode in (rw local piped, ap (λ r. r.1) local)

  -- A typed call over a named pipe against the same call in one process, where the request can be
  -- built, the server's call on it returns, the object type is valid, and the two ends are ready
  -- (Ready: malloc gives blocks of the size asked for, service and request are valid UTF-8 and
  -- load, the messages' lengths are within the framing, both ends go on moving bytes and suffice,
  -- and the input of each is the framed message of the other): the handler's round is served and
  -- leaves the world of the server's call, both ends have read all of their input, each has
  -- written what the other has read, and each of the six typed calls returns over the pipe the
  -- value and the error, or the fault, that it returns with sample_send, which leaves the same
  -- world.
  pub calls-pipe :
      (malloc : ℕ → Bytes) (server : Server J O W) (service fname text : Bytes) (gtype : O.GType)
      (ps : List (Param J)) (client peer : Fd) (handler : Handler W) (called : Called J O W)
      → fcall_to_str J fname ps ≡ some text
      → searpc_server_call_function J O W server service text handler.world ≡ done called
      → O.is_invalid gtype ≡ false
      → Ready J O W malloc server service text called.ret client peer handler
      → let pipe = searpc_client_with_named_pipe_transport J O malloc service in
        let local = loopback J O W server service in
        let name = some fname in
        (client' peer' : Fd) × (handler' : Handler W) × (handle_round J O W malloc server peer
            handler
          ≡ served peer' handler')
        × (handler'.world ≡ called.world)
        × (client'.input ≡ [])
        × (peer'.input ≡ [])
        × (client'.output ≡ client.output ++ peer.input)
        × (peer'.output ≡ peer.output ++ client.input)
        × Agrees
            (searpc_client_call__int J O Fd pipe name ps client)
            (searpc_client_call__int J O W local name ps handler.world)
            client'
            called.world
        × Agrees
            (searpc_client_call__int64 J O Fd pipe name ps client)
            (searpc_client_call__int64 J O W local name ps handler.world)
            client'
            called.world
        × Agrees
            (searpc_client_call__string J O Fd pipe name ps client)
            (searpc_client_call__string J O W local name ps handler.world)
            client'
            called.world
        × Agrees
            (searpc_client_call__json J O Fd pipe name ps client)
            (searpc_client_call__json J O W local name ps handler.world)
            client'
            called.world
        × Agrees
            (searpc_client_call__object J O Fd pipe name gtype ps client)
            (searpc_client_call__object J O W local name gtype ps handler.world)
            client'
            called.world
        × Agrees
            (searpc_client_call__objlist J O Fd pipe name gtype ps client)
            (searpc_client_call__objlist J O W local name gtype ps handler.world)
            client'
            called.world
  unfolding searpc_client_call__int searpc_client_call__int64 searpc_client_call__string
      searpc_client_call__json searpc_client_call__object searpc_client_call__objlist
  calls-pipe malloc server service fname text gtype ps client peer handler called b c v ready =
      let x =
        Ready-Exchanged J O W malloc server service text called.ret client peer handler called.world
          called c refl refl ready in
      (
        x.client',
        x.peer',
        x.handler',
        x.server_serves,
        x.world_left,
        x.client_read_all,
        x.server_read_all,
        x.client_wrote,
        x.server_wrote,
        agrees malloc server service fname text ps client peer handler called b c x (pos 0)
            (searpc_client_fret__int J),
        agrees malloc server service fname text ps client peer handler called b c x (pos 0)
            (searpc_client_fret__int64 J),
        agrees malloc server service fname text ps client peer handler called b c x none
            (searpc_client_fret__string J),
        agrees malloc server service fname text ps client peer handler called b c x none
            (searpc_client_fret__json J),
        rw v (
            agrees malloc server service fname text ps client peer handler called b c x none
              (searpc_client_fret__object J O gtype)),
        rw v (
            agrees malloc server service fname text ps client peer handler called b c x []
              (searpc_client_fret__objlist J O gtype)),
      )
