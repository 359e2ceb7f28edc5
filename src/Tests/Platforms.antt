-- ===== src/Tests/Platforms.antt =====
-- Runs of the theorems on the Windows branches of the pipes.
use libsearpc.Prelude.{◌≡◌, refl, true, false, some, List, [], ◌∷◌, ◌++◌, arith, Bytes, length, pos}
use libsearpc.Jansson.Plain.{plain}
use libsearpc.Pipe.Io.{Fd, returned}
use libsearpc.Pipe.Frame.{u32_bytes, frame}
use libsearpc.Pipe.Setup.{PipeServer}
use libsearpc.Pipe.Send.{searpc_named_pipe_send}
use libsearpc.Pipe.Windows.{Instance, pipe_connected, other_error, named_pipe_listen_windows}
use libsearpc.Pipe.Windows.Laws.{Accounted, listen-Accounted}
use libsearpc.Pipe.Windows.Send.{Pipe, searpc_named_pipe_send_windows}
use libsearpc.Pipe.Windows.Platforms.{writes_all, reads_all, send-platforms}
use libsearpc.Tests.Setting.{svc}
use libsearpc.Tests.Wire.{
  bytes_moved, zeros, length-zeros, call_text, three, length-request_to_json,
}

abbrev unix : Fd
unix = record { events = bytes_moved 60; input = frame three ++ (5 ∷ []); output = [] }

abbrev windows : Pipe
windows = record {
  reads = reads_all (u32_bytes (length three)) other_error ∷ reads_all three other_error ∷ [];
  writes = writes_all 4 ∷ writes_all 30 ∷ [];
  messages = [];
}

send-platforms_example :
    (fd' : Fd) × (pipe' : Pipe) × (word body : Bytes) × (searpc_named_pipe_send plain zeros svc unix
        call_text
      ≡ returned (some three) fd')
    × (searpc_named_pipe_send_windows plain zeros svc windows call_text ≡ some (some three, pipe'))
    × (fd'.output ≡ unix.output ++ (word ++ body))
    × (pipe'.messages ≡ windows.messages ++ (word ∷ body ∷ []))
send-platforms_example =
    send-platforms plain zeros svc call_text three (5 ∷ []) unix windows other_error [] []
      length-zeros (omega (arith, length-request_to_json)) (omega arith) tt
      (omega (arith, length-request_to_json)) refl (rw length-request_to_json refl) refl

abbrev server : PipeServer
server = record {
  path = [];
  pipe_fd = pos 0;
  use_epoll = false;
  epoll_fd = pos 0;
  thread_pool = true;
  pool_size = pos 2;
}

-- The first client is there before ConnectNamedPipe, and the third connection fails.
abbrev instances : List Instance
instances =
    record { created = some 4; connected = false; error = pipe_connected }
    ∷ record { created = some 5; connected = true; error = other_error }
    ∷ record { created = some 6; connected = false; error = other_error }
    ∷ []

listen-Accounted_example : Accounted (length instances) (named_pipe_listen_windows server instances)
listen-Accounted_example = listen-Accounted server instances
