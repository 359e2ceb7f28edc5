-- ===== src/Pipe/Client.antt =====
-- A client of lib/searpc-client.c with the transport of lib/searpc-named-pipe-transport.c
-- (searpc_client_with_named_pipe_transport), whose calls reach a server's handler.
pub mod Typed
use libsearpc.Prelude.{
  ℕ, ◌+◌, ◌≤◌, ◌<◌, ◌≡◌, refl, ◌∙◌, sym, ap, min, Option, none, some, List, [], ◌++◌, Bytes, length,
  ℤ, pos, negsuc, IsInt, two31, two32,
}
use libsearpc.Jansson.{Jansson, compact}
use libsearpc.Types.{GError, Run, done, Objects, Value, Arg, ArgType}
use libsearpc.Client.Request.{Param, fcall_to_str}
use libsearpc.Client.Fret.{searpc_client_fret__int}
use libsearpc.Client.Call.{SearpcClient, searpc_client_call__int}
use libsearpc.Server.Registry.{RpcFunc, find_function}
use libsearpc.Server.Call.{Server, Called, searpc_server_call_function}
use libsearpc.Rpc.Request.{AcceptsAll}
use libsearpc.Rpc.Reply.{reply_text, reply_object, fret__int-reply}
use libsearpc.Rpc.Loopback.{
  request_array, marshalled, fcall_to_str-Accepts, typed_call-replied, call_function-serve,
}
use libsearpc.Pipe.Io.{Fd, Io, returned, blocked}
use libsearpc.Pipe.Io.Liveness.{Steady, moving}
use libsearpc.Pipe.Frame.{frame}
use libsearpc.Pipe.Envelope.{request_object, request_to_json}
use libsearpc.Pipe.Send.{searpc_named_pipe_send}
use libsearpc.Pipe.Handler.{Handler, served, handle_round}
use libsearpc.Pipe.Handler.Laws.{Sized}
use libsearpc.Pipe.Connection.{Exchanged, exchange-done}

-- What a transport hands back; a send that never returns is given as one that fails.
unfoldable pub sent_reply : Fd → Io (Option Bytes) → Option Bytes × Fd
sent_reply fd (returned reply fd') = (reply, fd')
sent_reply fd blocked = (none, fd)

module _ (J : Jansson) (O : Objects J) where
  -- The client's `arg` holds the descriptor and the service; the descriptor is the world of the
  -- calls. It has no asynchronous transport.
  unfoldable pub searpc_client_with_named_pipe_transport : (ℕ → Bytes) → Bytes → SearpcClient J O Fd
  unfolding sent_reply
  searpc_client_with_named_pipe_transport malloc service = record {
    send = λ fcall_str fd. sent_reply fd (searpc_named_pipe_send J malloc service fd fcall_str);
    async_send = λ fcall_str call fd. (negsuc 0, fd);
  }

  pub pipe-send :
      (malloc : ℕ → Bytes) (service fcall_str reply : Bytes) (fd fd' : Fd)
      → searpc_named_pipe_send J malloc service fd fcall_str ≡ returned (some reply) fd'
      → (searpc_client_with_named_pipe_transport malloc service).send fcall_str fd
        ≡ (some reply, fd')
  unfolding searpc_client_with_named_pipe_transport
  pipe-send malloc service fcall_str reply fd fd' e = rw e refl

  module _ (W : Type 0) where
    -- The function is on the server under its name, and its call returns; both ends are steady,
    -- the sizes are within the framing, and each end's input is what the other writes.
    pub record Ready (malloc : ℕ → Bytes) (server : Server J O W) (service fcall_str reply : Bytes)
        (client peer : Fd) (handler : Handler W) : Type 0 where
      pub malloc_size : (n : ℕ) → length (malloc n) ≡ n
      pub service_json : J.Json
      pub service_valid : J.json_string service ≡ some service_json
      pub fcall_json : J.Json
      pub fcall_valid : J.json_string fcall_str ≡ some fcall_json
      pub request_loadable : J.Loadable (request_object J service fcall_str)
      pub not_empty : 0 < length (request_to_json J service fcall_str)
      pub request_bound : length (request_to_json J service fcall_str) ≤ two31
      pub reply_bound : length reply < two32
      pub client_steady : Steady client.events
      pub peer_steady : Steady peer.events
      pub enough :
          8 + length (request_to_json J service fcall_str) + length reply
          ≤ min (moving client.events) (moving peer.events)
      pub sized : Sized J O W handler
      pub peer_input : peer.input ≡ frame (request_to_json J service fcall_str)
      pub client_input : client.input ≡ frame reply

    pub Ready-Exchanged :
        (malloc : ℕ → Bytes) (server : Server J O W) (service fcall_str reply : Bytes)
        (client peer : Fd) (handler : Handler W) (world : W) (called : Called J O W)
        → searpc_server_call_function J O W server service fcall_str handler.world ≡ done called
        → called.ret ≡ reply
        → called.world ≡ world
        → Ready malloc server service fcall_str reply client peer handler
        → Exchanged J O W malloc server service fcall_str client peer handler reply world
    Ready-Exchanged malloc server service fcall_str reply client peer handler world called c cr cw
          ready =
        rw (sym cr, sym cw)
          (exchange-done J O W malloc server service fcall_str ready.service_json ready.fcall_json
            client peer handler called ready.malloc_size ready.service_valid ready.fcall_valid
            ready.request_loadable ready.not_empty ready.request_bound (rw cr ready.reply_bound)
            ready.client_steady ready.peer_steady (rw cr ready.enough) ready.sized c
            ready.peer_input (rw cr ready.client_input))

    call-Exchanged :
        {text reply : Bytes} (malloc : ℕ → Bytes) (server : Server J O W) (service fname : Bytes)
        (ps : List (Param J)) (client peer : Fd) (handler : Handler W) (world : W) (z : ℤ)
        → fcall_to_str J fname ps ≡ some text
        → searpc_client_fret__int J reply (length reply) ≡ done (z, none)
        → Exchanged J O W malloc server service text client peer handler reply world
        → (client' peer' : Fd) × (handler' : Handler W) × (searpc_client_call__int J O Fd
              (searpc_client_with_named_pipe_transport malloc service)
              (some fname)
              ps
              client
            ≡ (done (z, none), client'))
          × (handle_round J O W malloc server peer handler ≡ served peer' handler')
          × (handler'.world ≡ world)
          × (client'.input ≡ [])
          × (peer'.input ≡ [])
          × (client'.output ≡ client.output ++ peer.input)
          × (peer'.output ≡ peer.output ++ client.input)
    unfolding searpc_client_call__int
    call-Exchanged {text} {reply} malloc server service fname ps client peer handler world z t d x =
        (
          x.client',
          x.peer',
          x.handler',
          typed_call-replied J O Fd ps (pos 0) (searpc_client_fret__int J)
                (searpc_client_with_named_pipe_transport malloc service) fname client x.client' t
                (pipe-send malloc service text reply client x.client' x.client_returns)
              ∙ ap (λ (r : Run (ℤ × Option GError)). (r, x.client')) d,
          x.server_serves,
          x.world_left,
          x.client_read_all,
          x.server_read_all,
          x.client_wrote,
          x.server_wrote,
        )

    -- A call of searpc_client_call__int over a named pipe, where the function is registered on the
    -- server under the service and its name with the marshal of the call's parameter types, the
    -- name is valid UTF-8, the parameters are those of the call (AcceptsAll), and the request
    -- stays within the parser's limit, the function returns an int without an error, its reply
    -- stays within the parser's limit, and the two ends are ready (Ready: service and request are
    -- valid UTF-8 and load, the messages' lengths are within the framing, both ends go on moving
    -- bytes and suffice, and the input of each is the framed message of the other): the client
    -- gets that int and no error, the handler's round is served and leaves the world that the
    -- function left, both have read all of their input, and each has written what the other has
    -- read: the client the framed request, the server the framed reply.
    pub call__int-pipe :
        {ps : List (Param J)} {ts : List ArgType} {vs : List J.Json} {bs : List (Arg J)}
        (malloc : ℕ → Bytes) (server : Server J O W) (service fname signature : Bytes)
        (func : RpcFunc J O W) (name : J.Json) (client peer : Fd) (handler : Handler W) (z : ℤ)
        (w' : W)
        → find_function J O W server.registry service fname
          ≡ done (some (marshalled J O W func fname ts signature))
        → J.json_string fname ≡ some name
        → AcceptsAll J ps ts vs bs
        → J.Loadable (request_array J O W name vs)
        → func bs handler.world ≡ ((Value.int z, none), w')
        → IsInt z
        → J.Loadable (reply_object J O (Value.int z) none)
        → Ready malloc server service
            (J.json_dumps compact (request_array J O W name vs))
            (reply_text J O (Value.int z) none)
            client
            peer
            handler
        → (client' peer' : Fd) × (handler' : Handler W) × (searpc_client_call__int J O Fd
              (searpc_client_with_named_pipe_transport malloc service)
              (some fname)
              ps
              client
            ≡ (done (z, none), client'))
          × (handle_round J O W malloc server peer handler ≡ served peer' handler')
          × (handler'.world ≡ w')
          × (client'.input ≡ [])
          × (peer'.input ≡ [])
          × (client'.output ≡ client.output ++ peer.input)
          × (peer'.output ≡ peer.output ++ client.input)
    call__int-pipe {ps} {vs} malloc server service fname signature func name client peer handler z
          w' f n a l e i r ready =
        let text = J.json_dumps compact (request_array J O W name vs) in
        let (called, c, cr, cw) =
          call_function-serve J O W server service fname signature func name (Value.int z) none
            handler.world w' f n a l e in
        call-Exchanged malloc server service fname ps client peer handler w' z
          (fcall_to_str-Accepts J O W fname name n a) (fret__int-reply J O z i r)
          (Ready-Exchanged malloc server service text (reply_text J O (Value.int z) none) client
            peer handler w' called c cr cw ready)
