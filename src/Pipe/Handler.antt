-- ===== src/Pipe/Handler.antt =====
-- `named_pipe_client_handler`: the server's loop over the requests of one connection.
pub mod Laws
pub mod Session
use libsearpc.Prelude.{
  ℕ, zero, suc, ◌%◌, ◌==◌, Bool, true, false, Option, none, some, ◌++◌, if◌then◌else◌, Bytes,
  length, take, drop, two32,
}
use libsearpc.Jansson.{Jansson}
use libsearpc.Types.{Fault, Run, done, crash, Objects}
use libsearpc.Server.Call.{Server, Called, searpc_server_call_function}
use libsearpc.Pipe.Io.{Fd, Io, returned, blocked, pipe_read_n}
use libsearpc.Pipe.Frame.{u32_bytes, u32_value, overlay}
use libsearpc.Pipe.Envelope.{request_from_json}
use libsearpc.Pipe.Buffer.{grow}
use libsearpc.Pipe.Send.{write_message}

-- The variables of the loop, with what the calls do to the world of the server.
pub record Handler (W : Type 0) : Type 0 where
  pub bufsize : ℕ
  pub buf : Bytes
  pub world : W

-- A round: the loop goes on, or it breaks, or the thread waits for ever in a system call, or the
-- process ends, or the loop that grows the buffer never ends.
pub data Round (W : Type 0) : Type 0 where
  served ended : Fd → Handler W → Round W
  waiting hung : Round W
  crashed : Fault → Round W

-- g_realloc keeps the bytes; `malloc n` is what a fresh block of n bytes holds.
unfoldable pub resize : (ℕ → Bytes) → Bytes → ℕ → Bytes
resize malloc buf size = buf ++ drop (length buf) (malloc size)

unfoldable pub written : {W : Type 0} → Handler W → Io Bool → Round W
written handler blocked = waiting
written handler (returned false fd) = ended fd handler
written handler (returned true fd) = served fd handler

module _ (J : Jansson) (O : Objects J) (W : Type 0) where
  unfoldable pub write_reply : Fd → Handler W → Run (Called J O W) → Round W
  unfolding written
  write_reply fd handler (crash fault) = crashed fault
  write_reply fd handler (done called) =
      written (record handler { world = called.world })
        (write_message fd (length called.ret % two32) called.ret)

  unfoldable pub serve_request : Server J O W → Fd → Handler W → Option (Bytes × Bytes) → Round W
  unfolding write_reply
  serve_request server fd handler none = ended fd handler
  serve_request server fd handler (some (service, body)) =
      write_reply fd handler (searpc_server_call_function J O W server service body handler.world)

  -- The request is the first `len` bytes of the buffer.
  unfoldable pub read_request : Server J O W → ℕ → Handler W → Io (Option Bytes) → Round W
  unfolding serve_request
  read_request server len handler blocked = waiting
  read_request server len handler (returned none fd) = ended fd handler
  read_request server len handler (returned (some got) fd) =
      let buf = overlay got handler.buf in
      serve_request server fd (record handler { buf = buf }) (request_from_json J (take len buf))

  unfoldable pub grow_buffer : (ℕ → Bytes) → Server J O W → Fd → Handler W → ℕ → Option ℕ → Round W
  unfolding read_request resize
  grow_buffer malloc server fd handler len none = hung
  grow_buffer malloc server fd handler len (some bufsize) =
      read_request server len
        (record handler { bufsize = bufsize; buf = resize malloc handler.buf bufsize })
        (pipe_read_n fd len)

  unfoldable pub read_size : (ℕ → Bytes) → Server J O W → Handler W → Io (Option Bytes) → Round W
  unfolding grow_buffer
  read_size malloc server handler blocked = waiting
  read_size malloc server handler (returned none fd) = ended fd handler
  read_size malloc server handler (returned (some got) fd) =
      let len = u32_value (overlay got (u32_bytes 0)) in
      elim (len == 0) [
        | true ↦ ended fd handler
        | false ↦ grow_buffer malloc server fd handler len (grow 32 handler.bufsize len)
      ]

  -- One round of `while (1)`. 32 doublings decide whether the buffer can be made large enough.
  unfoldable pub handle_round : (ℕ → Bytes) → Server J O W → Fd → Handler W → Round W
  unfolding read_size
  handle_round malloc server fd handler = read_size malloc server handler (pipe_read_n fd 4)

  -- At most so many rounds of the loop.
  unfoldable pub handle_rounds : ℕ → (ℕ → Bytes) → Server J O W → Fd → Handler W → Round W
  unfolding handle_round
  handle_rounds zero malloc server fd handler = served fd handler
  handle_rounds (suc n) malloc server fd handler = elim (handle_round malloc server fd handler) [
    | served fd' handler' ↦ handle_rounds n malloc server fd' handler'
    | ended fd' handler' ↦ ended fd' handler'
    | waiting ↦ waiting
    | hung ↦ hung
    | crashed fault ↦ crashed fault
  ]

-- The buffer before the first round.
abbrev pub first_handler : {W : Type 0} → (ℕ → Bytes) → W → Handler W
first_handler malloc w = record { bufsize = 4096; buf = malloc 4096; world = w }
