-- ===== src/Demo/Tcp.antt =====
-- The main functions of demo/searpc-demo-client.c and demo/searpc-demo-server.c: their sockets and
-- what they do with the connections. The outcome of each system call is an argument.
pub mod Served
pub mod Rounds
pub mod Mains
pub mod Clients
use libsearpc.Prelude.{
  ℕ, Bool, true, false, Option, none, some, List, [], ◌∷◌, ◌++◌, Bytes, ℤ, pos, negsuc,
  if◌then◌else◌,
}
use libsearpc.Jansson.{Jansson}
use libsearpc.Types.{Fault, Objects}
use libsearpc.Client.Call.{SearpcClient}
use libsearpc.Server.Call.{Server}
use libsearpc.Pipe.Io.{Fd}
use libsearpc.Demo.Packet.{Demo, goes_on, exits, waits, crashes, ◌>>=◌}
use libsearpc.Demo.Transport.{transport_callback, serve_connection}
use libsearpc.Demo.Checks.{Verdict, succeeds, fails, exits_with, rpc_string_test, rpc_glist_test}

pub data SocketCall : Type 0 where
  socket setsockopt connect bind listen : ℤ → SocketCall

-- socket gives a descriptor, or none for a negative number; the other calls succeed or fail.
pub record TcpOutcomes : Type 0 where
  pub socket : Option ℕ
  pub reused : Bool
  pub connected : Bool
  pub bound : Bool
  pub listening : Bool

-- The result of connection_init, the descriptor that it stored, and what it called.
pub record Init : Type 0 where
  pub status : ℤ
  pub sockfd : ℤ
  pub calls : List SocketCall

unfoldable pub connection_init : TcpOutcomes → Init
connection_init os = elim os.socket [
  | none ↦ record { status = negsuc 0; sockfd = negsuc 0; calls = [] }
  | some fd ↦
      let calls = SocketCall.socket (pos fd) ∷ setsockopt (pos fd) ∷ [] in
      let calls' = calls ++ (connect (pos fd) ∷ []) in
      if os.reused
      then (if os.connected
          then record { status = pos 0; sockfd = pos fd; calls = calls' }
          else record { status = negsuc 0; sockfd = pos fd; calls = calls' })
      else record { status = negsuc 0; sockfd = pos fd; calls = calls }
]

-- exit (-1) if the connection was not made
unfoldable pub connected_or_exit {ℓ} : {A : Type ℓ} → TcpOutcomes → Demo A → Demo A
unfolding connection_init
connected_or_exit os rest = elim (connection_init os).status [ pos n ↦ rest | negsuc n ↦ exits ]

-- What the process has come to when a call returns to it; after its end nothing runs.
unfoldable pub transported : Demo Bytes → Option Bytes × Demo {0} Unit
transported (goes_on reply fd) = (some reply, goes_on tt fd)
transported exits = (none, exits)
transported waits = (none, waits)
transported (crashes fault) = (none, crashes fault)

unfoldable pub ended_or : Demo {0} Unit → Verdict → Demo Verdict
ended_or (goes_on u fd) (exits_with error) = exits
ended_or (goes_on u fd) (Verdict.crashes fault) = crashes fault
ended_or (goes_on u fd) succeeds = goes_on succeeds fd
ended_or (goes_on u fd) fails = goes_on fails fd
ended_or exits verdict = exits
ended_or waits verdict = waits
ended_or (crashes fault) verdict = crashes fault

module _ (J : Jansson) (O : Objects J) where
  -- rpc_client with transport_callback as its `send`; `arg` holds the descriptor.
  unfoldable pub tcp_client : SearpcClient J O (Demo {0} Unit)
  unfolding transported transport_callback
  tcp_client = record {
    send = λ fcall_str process. transported (process >>= λ u fd. transport_callback fd fcall_str);
    async_send = λ fcall_str call process. (negsuc 0, process);
  }

  unfoldable pub tested : Verdict × Demo {0} Unit → Demo Verdict
  unfolding ended_or
  tested (verdict, process) = ended_or process verdict

  -- main of the client, with a connection for each of the two tests: what each test prints, and how
  -- it leaves its connection.
  unfoldable pub client_main :
      O.GType → TcpOutcomes → Fd → TcpOutcomes → Fd → Demo (List (Verdict × Fd))
  unfolding connected_or_exit tested rpc_string_test rpc_glist_test tcp_client
  client_main object_type os1 fd1 os2 fd2 = connected_or_exit os1 (
      tested (rpc_string_test J O (Demo {0} Unit) tcp_client (goes_on tt fd1)) >>= λ verdict1 fd.
      connected_or_exit os2 (
        tested (rpc_glist_test J O (Demo {0} Unit) tcp_client object_type (goes_on tt fd2))
        >>= λ verdict2 fd'. goes_on ((verdict1, fd) ∷ (verdict2, fd') ∷ []) fd'))

  module _ (W : Type 0) where
    -- The server waits in accept, with the connections that it has answered: it does not close
    -- them. Or it has called exit (-1), waits for ever in another call, or is undefined.
    pub data Serving : Type 0 where
      accepting : W → List Fd → Serving
      exited stuck : Serving
      undefined : Fault → Serving

    -- while (1) over what accept returns: none is a failure.
    unfoldable pub accept_loop : Server J O W → List (Option Fd) → W → List Fd → Serving
    unfolding serve_connection
    accept_loop server [] w answered = accepting w answered
    accept_loop server (none ∷ connections) w answered = accept_loop server connections w answered
    accept_loop server (some connfd ∷ connections) w answered =
        elim (serve_connection J O W server connfd w) [
          | exits ↦ exited
          | waits ↦ stuck
          | crashes fault ↦ undefined fault
          | goes_on w' connfd' ↦ accept_loop server connections w' (answered ++ (connfd' ∷ []))
        ]

    -- main of the server, behind start_rpc_service.
    unfoldable pub server_main : Server J O W → TcpOutcomes → List (Option Fd) → W → Serving
    unfolding accept_loop
    server_main server os connections w = elim os.socket [
      | none ↦ exited
      | some listenfd ↦
          if os.reused
          then (if os.bound
              then (if os.listening then accept_loop server connections w [] else exited)
              else exited)
          else exited
    ]
