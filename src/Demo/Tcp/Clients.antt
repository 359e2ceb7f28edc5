-- ===== src/Demo/Tcp/Clients.antt =====
-- The loop of demo/searpc-demo-server.c over many connections.
use libsearpc.Prelude.{
  ◌+◌, ◌≤◌, ◌≡◌, refl, ◌∙◌, ap, Option, none, some, List, [], ◌∷◌, ◌++◌, map, append_assoc,
  append-nil, Bytes, length,
}
use libsearpc.Jansson.{Jansson}
use libsearpc.Types.{done, Objects}
use libsearpc.Server.Call.{Server, Called, searpc_server_call_function}
use libsearpc.Pipe.Io.{Fd}
use libsearpc.Pipe.Io.Liveness.{Steady, moving}
use libsearpc.Demo.Packet.{goes_on}
use libsearpc.Demo.Transport.{serve_connection}
use libsearpc.Demo.Laws.{packet, Fitting}
use libsearpc.Demo.Service.{searpc_demo}
use libsearpc.Demo.Session.{serve_connection-Steady}
use libsearpc.Demo.Tcp.{accepting, accept_loop}

module _ (J : Jansson) (O : Objects J) (W : Type 0) where
  -- What accept returns, with what each connection has sent in the end: a failure, or a client whose
  -- request fits a packet and whose call returns a reply that fits one, from the world that the
  -- calls before it have left. Each connection goes on moving bytes and suffices.
  pub data Clients (server : Server J O W) : W → List (Option Fd) → List Bytes → W → Type 0 where
    no_more : (w : W) → Clients server w [] [] w
    accept_fails :
        (w w' : W) (connections : List (Option Fd)) (sent : List Bytes)
        → Clients server w connections sent w'
        → Clients server w (none ∷ connections) sent w'
    client :
        (w w' : W) (fd : Fd) (text rest : Bytes) (called : Called J O W)
        (connections : List (Option Fd)) (sent : List Bytes)
        → Steady fd.events
        → 4 + length text + length called.ret ≤ moving fd.events
        → Fitting text
        → length called.ret ≤ 254
        → fd.input ≡ packet text ++ rest
        → searpc_server_call_function J O W server searpc_demo text w ≡ done called
        → Clients server called.world connections sent w'
        → Clients server w (some fd ∷ connections) ((fd.output ++ packet called.ret) ∷ sent) w'

  accept_loop-served :
      (server : Server J O W) (fd fd' : Fd) (connections : List (Option Fd)) (w w1 : W)
      (answered : List Fd)
      → serve_connection J O W server fd w ≡ goes_on w1 fd'
      → accept_loop J O W server (some fd ∷ connections) w answered
        ≡ accept_loop J O W server connections w1 (answered ++ (fd' ∷ []))
  unfolding accept_loop
  accept_loop-served server fd fd' connections w w1 answered e = rw e refl

  accept_loop-fails :
      (server : Server J O W) (connections : List (Option Fd)) (w : W) (answered : List Fd)
      → accept_loop J O W server (none ∷ connections) w answered
        ≡ accept_loop J O W server connections w answered
  unfolding accept_loop
  accept_loop-fails server connections w answered = refl

  accept_loop-no_more :
      (server : Server J O W) (w : W) (answered : List Fd)
      → accept_loop J O W server [] w answered ≡ accepting w (answered ++ [])
  unfolding accept_loop
  accept_loop-no_more server w answered = rw (append-nil answered) refl

  -- Whatever the calls of accept return, where each connection goes on moving bytes and suffices,
  -- its request has 1 to 254 bytes, and the server's call on it returns a reply of at most 254
  -- bytes, from the world that the calls before it have left (Clients): the demo server's loop
  -- passes over the calls that fail, answers every connection in its turn with the packet of its
  -- reply, and comes back to accept in the world of the last call, with all of the answered
  -- connections still open.
  pub accept_loop-Clients :
      (server : Server J O W) {w w' : W} {connections : List (Option Fd)} {sent : List Bytes}
      (answered : List Fd)
      → Clients server w connections sent w'
      → (fds : List Fd) × (accept_loop J O W server connections w answered
          ≡ accepting w' (answered ++ fds))
        × (map (λ fd. fd.output) fds ≡ sent)
  accept_loop-Clients server answered (no_more w) =
      ([], accept_loop-no_more server w answered, refl)
  accept_loop-Clients server answered (accept_fails w w' connections sent rest) =
      let (fds, e, o) = accept_loop-Clients server answered rest in
      (fds, accept_loop-fails server connections w answered ∙ e, o)
  accept_loop-Clients server answered
        (client w w' fd text left called connections sent s m f q i c rest) =
      let (events', e1) = serve_connection-Steady J O W server fd w text left called s m f q i c in
      let fd' : Fd = record {
        events = events';
        input = left;
        output = fd.output ++ packet called.ret;
      } in
      let (fds, e2, o) = accept_loop-Clients server (answered ++ (fd' ∷ [])) rest in
      (
        fd' ∷ fds,
        accept_loop-served server fd fd' connections w called.world answered e1
            ∙ (e2 ∙ rw (append_assoc answered (fd' ∷ []) fds) refl),
        ap (λ (xs : List Bytes). (fd.output ++ packet called.ret) ∷ xs) o,
      )
