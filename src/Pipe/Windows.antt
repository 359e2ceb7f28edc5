-- ===== src/Pipe/Windows.antt =====
-- The Windows branches of lib/searpc-named-pipe-transport.c. The outcome of each system call is an
-- argument, with what GetLastError says behind it. A handle is a number; a pipe is in message mode.
pub mod Send
pub mod Laws
pub mod Platforms
use libsearpc.Prelude.{
  ℕ, Bool, true, false, Option, none, some, List, [], ◌∷◌, ◌++◌, ◌==◌, ◌&&◌, Bytes, length, ℤ, pos,
  negsuc, if◌then◌else◌,
}
use libsearpc.Pipe.Setup.{PipeServer, PipeClient}
use libsearpc.Pipe.Listen.{ServerHandlerData, Handed, hand_over}

-- The errors that the code tells apart.
pub data WinError : Type 0 where
  broken_pipe pipe_busy pipe_connected other_error : WinError

abbrev pub is_broken_pipe : WinError → Bool
is_broken_pipe broken_pipe = true
is_broken_pipe _ = false

abbrev pub is_pipe_busy : WinError → Bool
is_pipe_busy pipe_busy = true
is_pipe_busy _ = false

abbrev pub is_pipe_connected : WinError → Bool
is_pipe_connected pipe_connected = true
is_pipe_connected _ = false

-- A call of ReadFile: what it has stored, at most what was asked for.
pub record ReadFile : Type 0 where
  pub success : Bool
  pub stored : Bytes
  pub error : WinError

-- A call of WriteFile, and the number of bytes that it has written.
pub record WriteFile : Type 0 where
  pub success : Bool
  pub bytes_written : ℕ

-- The result of pipe_read_n, and what it has stored.
unfoldable pub pipe_read_n_windows : ReadFile → ℕ → ℤ × Bytes
pipe_read_n_windows call n =
    if call.success && (length call.stored == n)
    then (pos n, call.stored)
    else if is_broken_pipe call.error
    then (pos 0, call.stored)
    else (negsuc 0, call.stored)

-- FlushFileBuffers waits until the peer has read the message.
unfoldable pub pipe_write_n_windows : WriteFile → ℕ → ℤ
pipe_write_n_windows call n = if call.success && (call.bytes_written == n) then pos 0 else negsuc 0

-- One round of the loop that opens the pipe: CreateFile gives a handle or INVALID_HANDLE_VALUE, and
-- WaitNamedPipe succeeds or not.
pub record Attempt : Type 0 where
  pub opened : Option ℕ
  pub error : WinError
  pub waited : Bool

-- The status, the client, and the handles that were opened and closed.
pub record WindowsConnected : Type 0 where
  pub status : ℤ
  pub client : PipeClient
  pub opened : List ℕ
  pub closed : List ℕ

-- Behind the loop: SetNamedPipeHandleState.
unfoldable pub set_mode : Bool → PipeClient → ℕ → WindowsConnected
set_mode mode_set client pipe_fd =
    if mode_set
    then record {
      status = pos 0;
      client = record client { pipe_fd = pos pipe_fd };
      opened = pipe_fd ∷ [];
      closed = [];
    }
    else record { status = negsuc 0; client = client; opened = pipe_fd ∷ []; closed = pipe_fd ∷ [] }

-- for (;;), over the attempts that are made; none where it has not ended with them.
unfoldable pub searpc_named_pipe_client_connect_windows :
    List Attempt → Bool → PipeClient → Option WindowsConnected
unfolding set_mode
searpc_named_pipe_client_connect_windows [] mode_set client = none
searpc_named_pipe_client_connect_windows (attempt ∷ attempts) mode_set client =
    let rest = searpc_named_pipe_client_connect_windows attempts mode_set client in
    elim attempt.opened [
      | some pipe_fd ↦ some (set_mode mode_set client pipe_fd)
      | none ↦
          if is_pipe_busy attempt.error && attempt.waited
          then rest
          else some (record { status = negsuc 0; client = client; opened = []; closed = [] })
    ]

-- One round of the server's loop: CreateNamedPipe gives a handle or INVALID_HANDLE_VALUE, and
-- ConnectNamedPipe succeeds or not.
pub record Instance : Type 0 where
  pub created : Option ℕ
  pub connected : Bool
  pub error : WinError

-- The instances that were created, those handed to a handler, those closed, and whether the loop
-- has ended.
pub record Listened : Type 0 where
  pub created : List ℕ
  pub handed : List Handed
  pub closed : List ℕ
  pub ended : Bool

unfoldable pub listen_round : PipeServer → ℕ → Listened → Listened
unfolding hand_over
listen_round server connfd rest = record {
  created = connfd ∷ rest.created;
  handed = hand_over server (record { connfd = pos connfd; use_epoll = false }) ∷ rest.handed;
  closed = rest.closed;
  ended = rest.ended;
}

-- while (1)
unfoldable pub named_pipe_listen_windows : PipeServer → List Instance → Listened
unfolding listen_round
named_pipe_listen_windows server [] = record {
  created = [];
  handed = [];
  closed = [];
  ended = false;
}
named_pipe_listen_windows server (pipe_instance ∷ instances) =
    let rest = named_pipe_listen_windows server instances in
    elim pipe_instance.created [
      | none ↦ record { created = []; handed = []; closed = []; ended = true }
      | some connfd ↦
          if pipe_instance.connected
          then listen_round server connfd rest
          else if is_pipe_connected pipe_instance.error
          then listen_round server connfd rest
          else record { created = connfd ∷ []; handed = []; closed = connfd ∷ []; ended = true }
    ]
