-- ===== src/Pipe/Connection.antt =====
-- searpc_named_pipe_send of lib/searpc-named-pipe-transport.c against its
-- named_pipe_client_handler: the two ends of one connection, next to `sample_send` of
-- tests/searpc.c, which joins client and server without a pipe.
pub mod Session
use libsearpc.Prelude.{
  ℕ, ◌+◌, ◌≤◌, ◌<◌, ◌≡◌, refl, ◌∙◌, sym, min, some, [], ◌++◌, append-nil, arith, Bytes, length,
  two31, two32,
}
use libsearpc.Jansson.{Jansson}
use libsearpc.Types.{done, Objects}
use libsearpc.Server.Call.{Server, Called, searpc_server_call_function}
use libsearpc.Pipe.Io.{Fd, returned}
use libsearpc.Pipe.Io.Liveness.{Steady, moving}
use libsearpc.Pipe.Frame.{frame}
use libsearpc.Pipe.Envelope.{request_object, request_to_json, request_from_json-request_to_json}
use libsearpc.Pipe.Send.{searpc_named_pipe_send}
use libsearpc.Pipe.Send.Laws.{named_pipe_send-Steady}
use libsearpc.Pipe.Handler.{Handler, served, handle_round}
use libsearpc.Pipe.Handler.Laws.{Sized, handle_round-Steady}
use libsearpc.Rpc.Loopback.{sample_send}

module _ (J : Jansson) (O : Objects J) (W : Type 0) where
  open J use {Json, json_string, Loadable}

  pub sample_send-done :
      (server : Server J O W) (service fcall_str : Bytes) (w : W) (called : Called J O W)
      → searpc_server_call_function J O W server service fcall_str w ≡ done called
      → sample_send J O W server service fcall_str w ≡ (some called.ret, called.world)
  unfolding sample_send
  sample_send-done server service fcall_str w called e = ground arith

  -- What both ends of a connection do in one call, and where it leaves them: the client returns
  -- the reply, the handler's round ends with the world.
  pub record Exchanged (malloc : ℕ → Bytes) (server : Server J O W) (service fcall_str : Bytes)
      (client peer : Fd) (handler : Handler W) (reply : Bytes) (world : W) : Type 0 where
    pub client' : Fd
    pub peer' : Fd
    pub handler' : Handler W
    pub client_returns :
        searpc_named_pipe_send J malloc service client fcall_str ≡ returned (some reply) client'
    pub server_serves : handle_round J O W malloc server peer handler ≡ served peer' handler'
    -- Each end has written what the other has read, and nothing stays to be read.
    pub client_wrote : client'.output ≡ client.output ++ peer.input
    pub server_wrote : peer'.output ≡ peer.output ++ client.input
    pub client_read_all : client'.input ≡ []
    pub server_read_all : peer'.input ≡ []
    pub world_left : handler'.world ≡ world

  pub exchange-done :
      (malloc : ℕ → Bytes) (server : Server J O W) (service fcall_str : Bytes) (s f : Json)
      (client peer : Fd) (handler : Handler W) (called : Called J O W)
      → ((n : ℕ) → length (malloc n) ≡ n)
      → json_string service ≡ some s
      → json_string fcall_str ≡ some f
      → Loadable (request_object J service fcall_str)
      → 0 < length (request_to_json J service fcall_str)
      → length (request_to_json J service fcall_str) ≤ two31
      → length called.ret < two32
      → Steady client.events
      → Steady peer.events
      → 8 + length (request_to_json J service fcall_str) + length called.ret
        ≤ min (moving client.events) (moving peer.events)
      → Sized J O W handler
      → searpc_server_call_function J O W server service fcall_str handler.world ≡ done called
      → peer.input ≡ frame (request_to_json J service fcall_str)
      → client.input ≡ frame called.ret
      → Exchanged malloc server service fcall_str client peer handler called.ret called.world
  exchange-done malloc server service fcall_str s f client peer handler called a hs hf l p q b sc sp
        m z c ip ic =
      let text = request_to_json J service fcall_str in
      let (events1, e1) =
        named_pipe_send-Steady J malloc service client fcall_str called.ret [] a sc (omega arith)
          (omega arith) b (ic ∙ sym (append-nil (frame called.ret))) in
      let (events2, handler', e2, s2, m2, z2, w2) =
        handle_round-Steady J O W malloc server peer handler text [] service fcall_str called sp
          (omega arith) p q b z (ip ∙ sym (append-nil (frame text)))
          (request_from_json-request_to_json J service fcall_str s f hs hf l) c in
      record {
        client' = record { events = events1; input = []; output = client.output ++ frame text };
        peer' = record { events = events2; input = []; output = peer.output ++ frame called.ret };
        handler' = handler';
        client_returns = e1;
        server_serves = e2;
        client_wrote = rw ip refl;
        server_wrote = rw ic refl;
        client_read_all = refl;
        server_read_all = refl;
        world_left = w2;
      }

  -- searpc_named_pipe_send and one round of named_pipe_client_handler over one connection give
  -- what sample_send gives without it: where the service and the request are valid UTF-8 and load,
  -- malloc gives blocks of the size asked for, the envelope has 1 to 2 ^ 31 bytes and the reply
  -- less than 2 ^ 32, both ends go on moving bytes and suffice, the handler's buffer size is from
  -- 1 to below 2 ^ 32, the server's call returns and the input of each end is the framed message
  -- of the other, the client returns that reply, the round is served and leaves that world, each
  -- end has written what the other has read, and nothing stays to be read.
  pub exchange-sample_send :
      (malloc : ℕ → Bytes) (server : Server J O W) (service fcall_str : Bytes) (s f : Json)
      (client peer : Fd) (handler : Handler W) (called : Called J O W)
      → ((n : ℕ) → length (malloc n) ≡ n)
      → json_string service ≡ some s
      → json_string fcall_str ≡ some f
      → Loadable (request_object J service fcall_str)
      → 0 < length (request_to_json J service fcall_str)
      → length (request_to_json J service fcall_str) ≤ two31
      → length called.ret < two32
      → Steady client.events
      → Steady peer.events
      → 8 + length (request_to_json J service fcall_str) + length called.ret
        ≤ min (moving client.events) (moving peer.events)
      → Sized J O W handler
      → searpc_server_call_function J O W server service fcall_str handler.world ≡ done called
      → peer.input ≡ frame (request_to_json J service fcall_str)
      → client.input ≡ frame called.ret
      → (reply : Bytes) × (world : W) × (sample_send J O W server service fcall_str handler.world
          ≡ (some reply, world))
        × Exchanged malloc server service fcall_str client peer handler reply world
  exchange-sample_send malloc server service fcall_str s f client peer handler called a hs hf l p q
        b sc sp m z c ip ic =
      (
        called.ret,
        called.world,
        sample_send-done server service fcall_str handler.world called c,
        exchange-done malloc server service fcall_str s f client peer handler called a hs hf l p q b
            sc sp m z c ip ic,
      )
