-- ===== src/Demo/Transport.antt =====
-- The transports of the demo programs: the client's `transport_callback` (demo/searpc-demo-client.c),
-- the asynchronous client's `transport_send` and `transport_read` (demo/demo-async-client.c), and a
-- round of the server's loop (demo/searpc-demo-server.c).
use libsearpc.Prelude.{zero, suc, Option, none, some, [], ◌∷◌, Bytes, codes, length}
use libsearpc.Jansson.{Jansson}
use libsearpc.Types.{Run, done, crash, null_pointer, Objects}
use libsearpc.Client.Call.{AsyncCallData}
use libsearpc.Client.Async.{searpc_client_generic_callback}
use libsearpc.Server.Call.{Server, Called, searpc_server_call_function}
use libsearpc.Pipe.Io.{Fd}
use libsearpc.Demo.Packet.{Demo, goes_on, exits, crashes, ◌>>=◌, read_packet, write_packet}

unfoldable zeros : Bytes → Bytes
zeros [] = []
zeros (c ∷ text) = 0 ∷ zeros text

-- g_strndup (data, n) of n bytes: a NUL ends the copy, and the rest is filled with NUL.
unfoldable pub g_strndup : Bytes → Bytes
unfolding zeros
g_strndup [] = []
g_strndup (zero ∷ text) = 0 ∷ zeros text
g_strndup (suc c ∷ text) = suc c ∷ g_strndup text

-- The reply to a request; NULL from read_packet ends the program.
unfoldable pub packet_text : Option Bytes → Fd → Demo Bytes
unfolding g_strndup
packet_text none fd = exits
packet_text (some bytes) fd = goes_on (g_strndup bytes) fd

unfoldable pub transport_callback : Fd → Bytes → Demo Bytes
unfolding write_packet read_packet packet_text
transport_callback fd fcall_str =
    write_packet fd fcall_str >>= λ sent fd1. read_packet fd1 >>= packet_text

module _ (J : Jansson) (O : Objects J) (W : Type 0) where
  -- struct TcpTransport without the descriptor: the call whose reply is awaited.
  pub record TcpTransport : Type 0 where
    pub rpc_priv : Option (AsyncCallData J O W)

  unfoldable pub transport_send :
      Fd → TcpTransport → Bytes → AsyncCallData J O W → Demo TcpTransport
  unfolding write_packet
  transport_send fd trans fcall_str rpc_priv =
      write_packet fd fcall_str >>= λ sent fd1. goes_on (record { rpc_priv = some rpc_priv }) fd1

  unfoldable pub run_callback : TcpTransport → W → Option Bytes → Fd → Demo (TcpTransport × W)
  run_callback trans w none fd = exits
  run_callback trans w (some bytes) fd = elim trans.rpc_priv [
    | none ↦ crashes null_pointer
    | some call ↦ elim (searpc_client_generic_callback J O W call bytes (length bytes) none w) [
      | crash fault ↦ crashes fault
      | done w' ↦ goes_on (record { rpc_priv = none }, w') fd
    ]
  ]

  -- The callback dereferences the pending call.
  unfoldable pub transport_read : Fd → TcpTransport → W → Demo (TcpTransport × W)
  unfolding read_packet run_callback
  transport_read fd trans w = read_packet fd >>= run_callback trans w

  unfoldable pub send_result : Fd → Run (Called J O W) → Demo W
  unfolding write_packet
  send_result fd (crash fault) = crashes fault
  send_result fd (done called) = write_packet fd called.ret >>= λ sent fd1. goes_on called.world fd1

  unfoldable pub execute : Server J O W → W → Option Bytes → Fd → Demo W
  unfolding send_result
  execute server w none fd = exits
  execute server w (some bytes) fd =
      send_result fd (searpc_server_call_function J O W server (codes "searpc-demo") bytes w)

  -- One round of the server's `while (1)` on the connection that accept returned.
  unfoldable pub serve_connection : Server J O W → Fd → W → Demo W
  unfolding read_packet execute
  serve_connection server fd w = read_packet fd >>= execute server w
