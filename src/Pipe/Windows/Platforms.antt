-- ===== src/Pipe/Windows/Platforms.antt =====
-- searpc_named_pipe_send of lib/searpc-named-pipe-transport.c on Windows: next to that on Unix, and
-- where calls fail.
use libsearpc.Prelude.{
  ℕ, ◌+◌, ◌%◌, ◌≡◌, ◌<◌, ◌≤◌, ◌==◌, ◌&&◌, ◌||◌, refl, Bool, true, not, Option, none, some,
  if◌then◌else◌, List, [], ◌∷◌, ◌++◌, Bytes, length, take-length, append_assoc, append-nil,
  drop_all, two32, arith,
}
use libsearpc.Jansson.{Jansson}
use libsearpc.Pipe.Io.{Fd, returned}
use libsearpc.Pipe.Io.Liveness.{Steady, moving}
use libsearpc.Pipe.Frame.{u32_bytes, u32_value, overlay, frame, u32_value-overlay, length-u32_bytes}
use libsearpc.Pipe.Envelope.{request_to_json}
use libsearpc.Pipe.Send
use libsearpc.Pipe.Send.Laws.{named_pipe_send-Steady}
use libsearpc.Pipe.Windows.{
  WinError, ReadFile, WriteFile, is_broken_pipe, pipe_read_n_windows, pipe_write_n_windows,
}
use libsearpc.Pipe.Windows.Send.{
  Pipe, write_message_windows, read_message_windows, read_body_windows, read_reply_windows,
  exchange_windows, searpc_named_pipe_send_windows,
}

-- A call that writes or reads a whole message.
abbrev pub writes_all : ℕ → WriteFile
writes_all n = record { success = true; bytes_written = n }

abbrev pub reads_all : Bytes → WinError → ReadFile
reads_all bytes error = record { success = true; stored = bytes; error = error }

-- A write that pipe_write_n takes for a failure, and a read that pipe_read_n does.
abbrev pub write_fails : WriteFile → ℕ → Bool
write_fails call n = not (call.success && (call.bytes_written == n))

abbrev pub read_fails : ReadFile → ℕ → Bool
read_fails call n =
    not (call.success && (length call.stored == n)) && not (is_broken_pipe call.error)

-- The number that the reply's length variable holds behind its read.
abbrev pub announced : ℕ → ReadFile → ℕ
announced len call = u32_value (overlay call.stored (u32_bytes len))

-- What a call returns, without the pipe that it leaves.
abbrev pub reply_of : Option (Option Bytes × Pipe) → Option (Option Bytes)
reply_of none = none
reply_of (some (reply, pipe)) = some reply

exchange-reply :
    (malloc : ℕ → Bytes) (pipe : Pipe) (len : ℕ) (bytes : Bytes) (w1 w2 : WriteFile)
    (r1 r2 : ReadFile) (ws : List WriteFile) (rs : List ReadFile)
    → pipe.writes ≡ w1 ∷ w2 ∷ ws
    → pipe.reads ≡ r1 ∷ r2 ∷ rs
    → reply_of (exchange_windows malloc pipe len bytes)
      ≡ some (
          if (write_fails w1 4 || write_fails w2 (length bytes))
            || (read_fails r1 4 || read_fails r2 (announced len r1))
          then none
          else some (overlay r2.stored (malloc (announced len r1))))
unfolding exchange_windows write_message_windows read_message_windows read_body_windows
    read_reply_windows pipe_read_n_windows pipe_write_n_windows u32_bytes
exchange-reply malloc pipe len bytes w1 w2 r1 r2 ws rs a b = ground (arith, a, b)

exchange-all :
    (malloc : ℕ → Bytes) (messages : List Bytes) (bytes reply : Bytes) (error : WinError)
    (ws : List WriteFile) (rs : List ReadFile)
    → length (malloc (length reply)) ≡ length reply
    → length reply < two32
    → exchange_windows malloc
        (record {
          reads = reads_all (u32_bytes (length reply)) error ∷ reads_all reply error ∷ rs;
          writes = writes_all 4 ∷ writes_all (length bytes) ∷ ws;
          messages = messages;
        })
        (length bytes)
        bytes
      ≡ some (
        some reply,
        record {
          reads = rs;
          writes = ws;
          messages = (messages ++ (u32_bytes (length bytes) ∷ [])) ++ (bytes ∷ []);
        },
      )
unfolding exchange_windows write_message_windows read_message_windows read_body_windows
    read_reply_windows pipe_read_n_windows pipe_write_n_windows
exchange-all malloc messages bytes reply error ws rs m b = ground (
  arith,
  take-length bytes,
  length-u32_bytes (length bytes),
  length-u32_bytes (length reply),
  take-length (u32_bytes (length bytes)),
  u32_value-overlay (length reply) (length bytes) b,
  drop_all (malloc (length reply)) (length reply) (omega (arith, m)),
  append-nil reply,
)

module _ (J : Jansson) where
  -- Where two calls of WriteFile and two of ReadFile return, whatever they return, and the request
  -- is below 2 ^ 32 bytes: searpc_named_pipe_send returns NULL exactly where a write does not take
  -- the whole message, or a read does not give all that was asked for with another error than
  -- ERROR_BROKEN_PIPE; else it returns a block with what the second read has stored at its front.
  pub send_reply :
      (malloc : ℕ → Bytes) (service fcall_str : Bytes) (pipe : Pipe) (w1 w2 : WriteFile)
      (r1 r2 : ReadFile) (ws : List WriteFile) (rs : List ReadFile)
      → length (request_to_json J service fcall_str) < two32
      → pipe.writes ≡ w1 ∷ w2 ∷ ws
      → pipe.reads ≡ r1 ∷ r2 ∷ rs
      → let len = length (request_to_json J service fcall_str) in
        reply_of (searpc_named_pipe_send_windows J malloc service pipe fcall_str)
        ≡ some (
            if (write_fails w1 4 || write_fails w2 len)
              || (read_fails r1 4 || read_fails r2 (announced len r1))
            then none
            else some (overlay r2.stored (malloc (announced len r1))))
  unfolding searpc_named_pipe_send_windows
  send_reply malloc service fcall_str pipe w1 w2 r1 r2 ws rs l a b =
      let json_str = request_to_json J service fcall_str in
      let len : length json_str % two32 ≡ length json_str = omega arith in
      rw (len, take-length json_str)
        (exchange-reply malloc pipe (length json_str) json_str w1 w2 r1 r2 ws rs a b)

  send-all :
      (malloc : ℕ → Bytes) (service fcall_str reply : Bytes) (pipe : Pipe) (error : WinError)
      (ws : List WriteFile) (rs : List ReadFile)
      → ((n : ℕ) → length (malloc n) ≡ n)
      → length (request_to_json J service fcall_str) < two32
      → length reply < two32
      → pipe.writes ≡ writes_all 4 ∷ writes_all (length (request_to_json J service fcall_str)) ∷ ws
      → pipe.reads ≡ reads_all (u32_bytes (length reply)) error ∷ reads_all reply error ∷ rs
      → let json_str = request_to_json J service fcall_str in
        searpc_named_pipe_send_windows J malloc service pipe fcall_str
        ≡ some (
          some reply,
          record {
            reads = rs;
            writes = ws;
            messages = (pipe.messages ++ (u32_bytes (length json_str) ∷ [])) ++ (json_str ∷ []);
          },
        )
  unfolding searpc_named_pipe_send_windows
  send-all malloc service fcall_str reply pipe error ws rs a l b ew er =
      let json_str = request_to_json J service fcall_str in
      let len : length json_str % two32 ≡ length json_str = omega arith in
      rw (len, take-length json_str, same_pipe ew er)
        (exchange-all malloc pipe.messages json_str reply error ws rs (a (length reply)) b)
    where
      same_pipe :
          {writes : List WriteFile} {reads : List ReadFile}
          → pipe.writes ≡ writes
          → pipe.reads ≡ reads
          → pipe ≡ record { reads = reads; writes = writes; messages = pipe.messages }
      same_pipe p q = cc (p, q)

  -- Where malloc gives blocks of the size asked for, request and reply are below 2 ^ 32 bytes, on
  -- Unix the reads and writes go on moving bytes and suffice and the framed reply arrives, and on
  -- Windows the two writes succeed in full and the two reads bring the length word and the reply:
  -- searpc_named_pipe_send returns the reply on both platforms, and the two messages that it
  -- writes on Windows are, one after the other, the bytes that it writes on Unix.
  pub send-platforms :
      (malloc : ℕ → Bytes) (service fcall_str reply rest : Bytes) (fd : Fd) (pipe : Pipe)
      (error : WinError) (ws : List WriteFile) (rs : List ReadFile)
      → ((n : ℕ) → length (malloc n) ≡ n)
      → length (request_to_json J service fcall_str) < two32
      → length reply < two32
      → Steady fd.events
      → 8 + length (request_to_json J service fcall_str) + length reply ≤ moving fd.events
      → fd.input ≡ frame reply ++ rest
      → pipe.writes ≡ writes_all 4 ∷ writes_all (length (request_to_json J service fcall_str)) ∷ ws
      → pipe.reads ≡ reads_all (u32_bytes (length reply)) error ∷ reads_all reply error ∷ rs
      → (fd' : Fd) × (pipe' : Pipe) × (word body : Bytes) × (Send.searpc_named_pipe_send J malloc
            service fd fcall_str
          ≡ returned (some reply) fd')
        × (searpc_named_pipe_send_windows J malloc service pipe fcall_str
            ≡ some (some reply, pipe'))
        × (fd'.output ≡ fd.output ++ (word ++ body))
        × (pipe'.messages ≡ pipe.messages ++ (word ∷ body ∷ []))
  send-platforms malloc service fcall_str reply rest fd pipe error ws rs a l b s m i ew er =
      let json_str = request_to_json J service fcall_str in
      let (events', e) =
        named_pipe_send-Steady J malloc service fd fcall_str reply rest a s m l b i in
      (
        record { events = events'; input = rest; output = fd.output ++ frame json_str },
        record {
          reads = rs;
          writes = ws;
          messages = (pipe.messages ++ (u32_bytes (length json_str) ∷ [])) ++ (json_str ∷ []);
        },
        u32_bytes (length json_str),
        json_str,
        e,
        send-all malloc service fcall_str reply pipe error ws rs a l b ew er,
        refl,
        append_assoc pipe.messages (u32_bytes (length json_str) ∷ []) (json_str ∷ []),
      )
