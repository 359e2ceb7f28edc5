-- ===== src/Pipe/Epoll.antt =====
-- The epoll part of lib/searpc-named-pipe-transport.c: `epoll_handler`, which a worker runs for one
-- request of a connection, and in Listener the loop that hands connections to workers.
pub mod Laws
pub mod Listener
use libsearpc.Prelude.{
  ℕ, zero, suc, ◌%◌, ◌==◌, Bool, true, false, Option, none, some, List, [], ◌∷◌, if◌then◌else◌,
  Bytes, length, two32,
}
use libsearpc.Jansson.{Jansson}
use libsearpc.Types.{Fault, Run, done, crash, Objects}
use libsearpc.Server.Call.{Server, Called, searpc_server_call_function}
use libsearpc.Pipe.Io.{Fd, Io, returned, blocked, pipe_read_n}
use libsearpc.Pipe.Frame.{u32_bytes, u32_value, overlay}
use libsearpc.Pipe.Envelope.{request_from_json}
use libsearpc.Pipe.Send.{write_message}

-- How a worker leaves the connection: watched by epoll again, or closed and its data freed; or it
-- waits for ever in a system call, or the process ends.
pub data Outcome (W : Type 0) : Type 0 where
  polled closed : Fd → W → Outcome W
  waiting : Outcome W
  crashed : Fault → Outcome W

-- g_new0 (char, n)
unfoldable pub g_new0 : ℕ → Bytes
g_new0 zero = []
g_new0 (suc n) = 0 ∷ g_new0 n

-- `added` is whether epoll_ctl adds the descriptor.
unfoldable pub poll_again : {W : Type 0} → Bool → W → Io Bool → Outcome W
poll_again added w blocked = waiting
poll_again added w (returned false fd) = closed fd w
poll_again added w (returned true fd) = if added then polled fd w else closed fd w

module _ (J : Jansson) (O : Objects J) (W : Type 0) where
  unfoldable pub epoll_reply : Bool → Fd → Run (Called J O W) → Outcome W
  unfolding poll_again
  epoll_reply added fd (crash fault) = crashed fault
  epoll_reply added fd (done called) =
      poll_again added called.world (write_message fd (length called.ret % two32) called.ret)

  unfoldable pub epoll_serve : Bool → Server J O W → W → Fd → Option (Bytes × Bytes) → Outcome W
  unfolding epoll_reply
  epoll_serve added server w fd none = closed fd w
  epoll_serve added server w fd (some (service, body)) =
      epoll_reply added fd (searpc_server_call_function J O W server service body w)

  -- The buffer is zeroed; a short read leaves zeros behind what it stored.
  unfoldable pub epoll_request : Bool → Server J O W → W → ℕ → Io (Option Bytes) → Outcome W
  unfolding epoll_serve
  epoll_request added server w len blocked = waiting
  epoll_request added server w len (returned none fd) = closed fd w
  epoll_request added server w len (returned (some got) fd) =
      epoll_serve added server w fd (request_from_json J (overlay got (g_new0 len)))

  -- `len` starts as 0, which a read at the end of the input leaves.
  unfoldable pub epoll_size : Bool → Server J O W → W → Io (Option Bytes) → Outcome W
  unfolding epoll_request
  epoll_size added server w blocked = waiting
  epoll_size added server w (returned none fd) = closed fd w
  epoll_size added server w (returned (some got) fd) =
      let len = u32_value (overlay got (u32_bytes 0)) in
      elim (len == 0) [
        | true ↦ closed fd w
        | false ↦ epoll_request added server w len (pipe_read_n fd len)
      ]

  unfoldable pub epoll_handler : Bool → Server J O W → Fd → W → Outcome W
  unfolding epoll_size
  epoll_handler added server fd w = epoll_size added server w (pipe_read_n fd 4)
