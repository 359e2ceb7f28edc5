-- ===== src/Pipe/Send.antt =====
-- `searpc_named_pipe_send`: the client's transport over a pipe.
pub mod Laws
pub mod Closed
use libsearpc.Prelude.{ℕ, ◌%◌, Bool, true, false, Option, none, some, Bytes, length, take, two32}
use libsearpc.Jansson.{Jansson}
use libsearpc.Pipe.Io.{Fd, Io, returned, ◌>>=◌, pipe_write_n, pipe_read_n}
use libsearpc.Pipe.Frame.{u32_bytes, u32_value, overlay}
use libsearpc.Pipe.Envelope.{request_to_json}

-- The length word and then the bytes; `false` where one of the writes fails.
unfoldable pub write_message : Fd → ℕ → Bytes → Io Bool
write_message fd len bytes = pipe_write_n fd (u32_bytes len) >>= λ sent fd'. elim sent [
  | false ↦ returned false fd'
  | true ↦ pipe_write_n fd' bytes
]

-- What the buffer of the reply holds after the read, which may store less than asked for.
unfoldable pub filled : Bytes → Option Bytes → Option Bytes
filled buf none = none
filled buf (some got) = some (overlay got buf)

unfoldable pub read_body : Bytes → Fd → ℕ → Io (Option Bytes)
unfolding filled
read_body buf fd len = pipe_read_n fd len >>= λ got fd'. returned (filled buf got) fd'

-- The reply's length is read into `len`, which still holds the length of the request. `malloc n` is
-- what a fresh block of n bytes holds.
unfoldable pub read_reply : (ℕ → Bytes) → Fd → ℕ → Io (Option Bytes)
unfolding read_body
read_reply malloc fd len = pipe_read_n fd 4 >>= λ word fd'. elim word [
  | none ↦ returned none fd'
  | some got ↦
      let len' = u32_value (overlay got (u32_bytes len)) in read_body (malloc len') fd' len'
]

-- The two writes and the two reads of a call.
unfoldable pub exchange : (ℕ → Bytes) → Fd → ℕ → Bytes → Io (Option Bytes)
unfolding write_message read_reply
exchange malloc fd len bytes = write_message fd len bytes >>= λ sent fd'. elim sent [
  | false ↦ returned none fd'
  | true ↦ read_reply malloc fd' len
]

module _ (J : Jansson) where
  -- The reply, whose length is `*ret_len`, or none for NULL.
  unfoldable pub searpc_named_pipe_send : (ℕ → Bytes) → Bytes → Fd → Bytes → Io (Option Bytes)
  searpc_named_pipe_send malloc service fd fcall_str =
      let json_str = request_to_json J service fcall_str in
      let len = length json_str % two32 in exchange malloc fd len (take len json_str)
