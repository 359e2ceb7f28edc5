-- ===== src/Pipe/Setup/Connect.antt =====
-- Creating the two ends of a pipe and connecting them, in lib/searpc-named-pipe-transport.c.
use libsearpc.Prelude.{
  ℕ, ◌≡◌, ◌≤◌, inl, inr, Bool, true, false, Option, none, some, List, [], ◌∷◌, ◌∙◌, sym, ◌↔◌, Bytes,
  length, ltb, arith, ℤ, pos, Bool-cases,
}
use libsearpc.Types.{done, crash, out_of_bounds}
use libsearpc.Pipe.Setup.{
  Syscall, connect, copy_path, sun_path_max, PipeServer, PipeClient, Outcomes,
  searpc_create_named_pipe_client, searpc_create_named_pipe_server,
  searpc_create_named_pipe_server_with_threadpool, searpc_named_pipe_server_start,
  searpc_named_pipe_client_connect,
}
use libsearpc.Pipe.Setup.Start.{can_start, bound_address, start_succeeds, short}

-- The address that the calls connect to.
abbrev pub connected_address : List Syscall → Option Bytes
connected_address [] = none
connected_address (connect fd address ∷ calls) = some address
connected_address (call ∷ calls) = connected_address calls

-- searpc_create_named_pipe_client, searpc_create_named_pipe_server and
-- searpc_create_named_pipe_server_with_threadpool write past the path of the struct exactly when
-- the given path has 4096 bytes or more.
pub create_bounds :
    (created : Bool) (path : Bytes) (pool_size : ℤ)
    → ((searpc_create_named_pipe_client path ≡ crash out_of_bounds) ↔ (4096 ≤ length path))
      × ((searpc_create_named_pipe_server path ≡ crash out_of_bounds) ↔ (4096 ≤ length path))
      × ((searpc_create_named_pipe_server_with_threadpool created path pool_size
            ≡ crash out_of_bounds)
          ↔ (4096 ≤ length path))
unfolding searpc_create_named_pipe_client searpc_create_named_pipe_server
    searpc_create_named_pipe_server_with_threadpool copy_path
create_bounds created path pool_size = (ground arith, ground arith, ground arith)

created_client-path :
    (path : Bytes) (client : PipeClient)
    → searpc_create_named_pipe_client path ≡ done client
    → client.path ≡ path
unfolding searpc_create_named_pipe_client copy_path
created_client-path path client e = ground arith

created_server-path :
    (path : Bytes) (server : PipeServer)
    → searpc_create_named_pipe_server path ≡ done server
    → server.path ≡ path
unfolding searpc_create_named_pipe_server copy_path
created_server-path path server e = ground arith

-- A client connects to the address that a server with its path has bound, and learns whether the
-- system accepts it.
connect-address :
    (fd : ℤ) (accepts : ℤ → Bytes → Bool) (client : PipeClient)
    → ltb sun_path_max (length client.path) ≡ false
    → let r = searpc_named_pipe_client_connect fd accepts client in
      (connected_address r.calls ≡ some client.path)
      × ((r.status ≡ pos 0) ↔ (accepts fd client.path ≡ true))
unfolding searpc_named_pipe_client_connect
connect-address fd accepts client l =
    let t = short sun_path_max client.path l in
    elim (Bool-cases (accepts fd client.path)) [
      | inl e ↦ (ground (arith, t, e), ground (arith, t, e))
      | inr e ↦ (ground (arith, t, e), ground (arith, t, e))
    ]

-- A client and a server created for the same path, with or without epoll, where the server can
-- start: searpc_named_pipe_client_connect connects to the address that
-- searpc_named_pipe_server_start has bound, and returns 0 exactly when the system accepts a
-- connection to the path.
pub connect-start :
    (path : Bytes) (server : PipeServer) (client : PipeClient) (os : Outcomes) (listen_fd : ℕ)
    (use_epoll : Bool) (fd : ℤ) (accepts : ℤ → Bytes → Bool)
    → searpc_create_named_pipe_server path ≡ done server
    → searpc_create_named_pipe_client path ≡ done client
    → os.socket ≡ some listen_fd
    → can_start os (record server { use_epoll = use_epoll }) ≡ true
    → let r = searpc_named_pipe_client_connect fd accepts client in
      (connected_address r.calls
        ≡ bound_address
            (searpc_named_pipe_server_start os (record server { use_epoll = use_epoll })).calls)
      × ((r.status ≡ pos 0) ↔ (accepts fd path ≡ true))
connect-start path server client os listen_fd use_epoll fd accepts hs hc s c =
    let ps = created_server-path path server hs in
    let pc = created_client-path path client hc in
    let (e1, e2, b, e4, e5) =
      start_succeeds os (record server { use_epoll = use_epoll }) listen_fd s c in
    let short_path : ltb sun_path_max (length server.path) ≡ false = ground arith in
    let (a, i) = connect-address fd accepts client (rw (pc, sym ps) short_path) in
    (a ∙ (rw (pc, sym ps) (sym b)), rw (sym pc) i)
