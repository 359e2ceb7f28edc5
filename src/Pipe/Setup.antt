-- ===== src/Pipe/Setup.antt =====
-- lib/searpc-named-pipe-transport.c (Unix): how a server starts and how a client connects. The
-- outcome of each system call is an argument; what a function calls is its trace.
pub mod Start
pub mod Connect
use libsearpc.Prelude.{
  ℕ, Bool, true, false, not, Option, none, some, List, [], ◌∷◌, ◌++◌, if◌then◌else◌, Bytes, length,
  take, ltb, ℤ, pos, negsuc, ◌&&◌,
}
use libsearpc.Types.{Run, done, crash, out_of_bounds, ◌>>=◌}

pub data Syscall : Type 0 where
  socket close listener_thread : ℤ → Syscall
  unlink chmod : Bytes → Syscall
  bind connect : ℤ → Bytes → Syscall
  listen : ℤ → ℕ → Syscall
  epoll_create : ℤ → Syscall
  nonblocking : ℤ → Syscall
  epoll_add : ℤ → ℤ → Syscall

-- `char path[4096]`, into which the path is copied with its NUL and without a test.
unfoldable pub copy_path : Bytes → Run Bytes
copy_path path = if ltb (length path) 4096 then done path else crash out_of_bounds

-- sizeof(saddr.sun_path) - 1
abbrev pub sun_path_max : ℕ
sun_path_max = 107

-- g_strlcpy (saddr.sun_path, path, sizeof(saddr.sun_path))
abbrev pub sun_path : Bytes → Bytes
sun_path path = take sun_path_max path

pub record PipeServer : Type 0 where
  pub path : Bytes
  pub pipe_fd : ℤ
  pub use_epoll : Bool
  pub epoll_fd : ℤ
  pub thread_pool : Bool
  pub pool_size : ℤ

pub record PipeClient : Type 0 where
  pub path : Bytes
  pub pipe_fd : ℤ

-- g_malloc0 and the copy of the path.
unfoldable pub searpc_create_named_pipe_client : Bytes → Run PipeClient
unfolding copy_path
searpc_create_named_pipe_client path =
    copy_path path >>= λ copied. done (record { path = copied; pipe_fd = pos 0 })

abbrev pub server_at : Bytes → Bool → ℤ → PipeServer
server_at path thread_pool pool_size = record {
  path = path;
  pipe_fd = pos 0;
  use_epoll = false;
  epoll_fd = pos 0;
  thread_pool = thread_pool;
  pool_size = pool_size;
}

unfoldable pub searpc_create_named_pipe_server : Bytes → Run PipeServer
unfolding copy_path
searpc_create_named_pipe_server path =
    copy_path path >>= λ copied. done (server_at copied false (pos 0))

-- `created` is whether g_thread_pool_new gives a pool; none is NULL.
unfoldable pub searpc_create_named_pipe_server_with_threadpool :
    Bool → Bytes → ℤ → Run (Option PipeServer)
unfolding copy_path
searpc_create_named_pipe_server_with_threadpool created path pool_size =
    copy_path path >>= λ copied.
    done (if created then some (server_at copied true pool_size) else none)

-- What the system calls of a start return: a descriptor or none for a negative number, and whether
-- each of the others succeeds. `exists` is g_file_test.
pub record Outcomes : Type 0 where
  pub socket : Option ℕ
  pub exists : Bool
  pub unlinked : Bool
  pub bound : Bool
  pub listening : Bool
  pub permitted : Bool
  pub epoll : Option ℕ
  -- fcntl with F_GETFL and with F_SETFL
  pub flags_read : Bool
  pub flags_set : Bool
  pub added : Bool

-- `false` is the result -1.
unfoldable pub set_nonblocking : Outcomes → Bool
set_nonblocking os = if os.flags_read then os.flags_set else false

pub record Started : Type 0 where
  pub status : ℤ
  pub server : PipeServer
  pub calls : List Syscall

-- failed: close (pipe_fd)
abbrev pub failed : PipeServer → ℕ → List Syscall → Started
failed server fd calls = record {
  status = negsuc 0;
  server = server;
  calls = calls ++ (close (pos fd) ∷ []);
}

-- pthread_create with named_pipe_listen.
abbrev pub started : PipeServer → ℕ → List Syscall → Started
started server fd calls = record {
  status = pos 0;
  server = record server { pipe_fd = pos fd };
  calls = calls ++ (listener_thread (pos fd) ∷ []);
}

-- The epoll instance, where the server uses one.
unfoldable pub start_epoll : Outcomes → PipeServer → ℕ → List Syscall → Started
unfolding set_nonblocking
start_epoll os server fd calls = elim os.epoll [
  | none ↦ failed server fd calls
  | some epoll_fd ↦
      let calls1 = calls ++ (epoll_create (pos epoll_fd) ∷ nonblocking (pos fd) ∷ []) in
      if set_nonblocking os
      then (let calls2 = calls1 ++ (epoll_add (pos epoll_fd) (pos fd) ∷ []) in
          if os.added
          then started (record server { epoll_fd = pos epoll_fd }) fd calls2
          else failed server fd calls2)
      else failed server fd calls1
]

-- From bind on.
unfoldable pub start_bound : Outcomes → PipeServer → ℕ → List Syscall → Started
unfolding start_epoll
start_bound os server fd calls =
    let calls1 = calls ++ (bind (pos fd) (sun_path server.path) ∷ []) in
    let backlog = if server.use_epoll then 1024 else 10 in
    let calls2 = calls1 ++ (listen (pos fd) backlog ∷ []) in
    let calls3 = calls2 ++ (chmod server.path ∷ []) in
    if not os.bound
    then failed server fd calls1
    else if not os.listening
    then failed server fd calls2
    else if not os.permitted
    then failed server fd calls3
    else if server.use_epoll
    then start_epoll os server fd calls3
    else started server fd calls3

-- The socket exists: the test of the path's length, and the removal of an old file.
unfoldable pub start_socket : Outcomes → PipeServer → ℕ → Started
unfolding start_bound
start_socket os server fd =
    let calls = socket (pos fd) ∷ [] in
    if ltb sun_path_max (length server.path)
    then failed server fd calls
    else if os.exists
    then (let calls' = calls ++ (unlink server.path ∷ []) in
        if os.unlinked then start_bound os server fd calls' else failed server fd calls')
    else start_bound os server fd calls

unfoldable pub searpc_named_pipe_server_start : Outcomes → PipeServer → Started
unfolding start_socket
searpc_named_pipe_server_start os server = elim os.socket [
  | none ↦ record { status = negsuc 0; server = server; calls = [] }
  | some fd ↦ start_socket os server fd
]

pub record Connected : Type 0 where
  pub status : ℤ
  pub client : PipeClient
  pub calls : List Syscall

-- The number that socket returns is not tested. `accepts` is whether connect succeeds on a
-- descriptor and an address.
unfoldable pub searpc_named_pipe_client_connect : ℤ → (ℤ → Bytes → Bool) → PipeClient → Connected
searpc_named_pipe_client_connect fd accepts client =
    let client' : PipeClient = record client { pipe_fd = fd } in
    let calls = socket fd ∷ connect fd (sun_path client.path) ∷ [] in
    if accepts fd (sun_path client.path)
    then record { status = pos 0; client = client'; calls = calls }
    else record { status = negsuc 0; client = client'; calls = calls ++ (close fd ∷ []) }

-- What the free of a client closes.
unfoldable pub searpc_free_client_with_pipe_transport : PipeClient → List Syscall
searpc_free_client_with_pipe_transport client = close client.pipe_fd ∷ []
