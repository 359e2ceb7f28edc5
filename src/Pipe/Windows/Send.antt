-- ===== src/Pipe/Windows/Send.antt =====
-- searpc_named_pipe_send of lib/searpc-named-pipe-transport.c with the Windows versions of
-- pipe_write_n and pipe_read_n.
use libsearpc.Prelude.{
  ℕ, ◌%◌, Option, none, some, List, [], ◌∷◌, ◌++◌, Bytes, length, take, ℤ, pos, negsuc, two32,
}
use libsearpc.Jansson.{Jansson}
use libsearpc.Pipe.Frame.{u32_bytes, u32_value, overlay}
use libsearpc.Pipe.Envelope.{request_to_json}
use libsearpc.Pipe.Windows.{ReadFile, WriteFile, pipe_read_n_windows, pipe_write_n_windows}

-- A pipe: what its next calls of ReadFile and WriteFile do, and the messages that were written.
pub record Pipe : Type 0 where
  pub reads : List ReadFile
  pub writes : List WriteFile
  pub messages : List Bytes

-- none where a call waits for ever
infixl 5 ◌>>=◌
abbrev pub ◌>>=◌ {ℓ κ} : {A : Type ℓ} {B : Type κ} → Option A → (A → Option B) → Option B
none >>= f = none
some a >>= f = f a

unfoldable pub write_message_windows : Pipe → Bytes → Option (ℤ × Pipe)
unfolding pipe_write_n_windows
write_message_windows pipe bytes = elim pipe.writes [
  | [] ↦ none
  | call ∷ calls ↦ some (
    pipe_write_n_windows call (length bytes),
    record pipe {
      writes = calls;
      messages = pipe.messages ++ (take call.bytes_written bytes ∷ []);
    },
  )
]

unfoldable pub read_message_windows : Pipe → ℕ → Option ((ℤ × Bytes) × Pipe)
unfolding pipe_read_n_windows
read_message_windows pipe n = elim pipe.reads [
  | [] ↦ none
  | call ∷ calls ↦ some (pipe_read_n_windows call n, record pipe { reads = calls })
]

-- The buffer of the reply behind its read.
unfoldable pub read_body_windows : Bytes → Pipe → ℕ → Option (Option Bytes × Pipe)
unfolding read_message_windows
read_body_windows buf pipe len = read_message_windows pipe len >>= λ ((got, stored), pipe').
    elim got [ pos n ↦ some (some (overlay stored buf), pipe') | negsuc n ↦ some (none, pipe') ]

unfoldable pub read_reply_windows : (ℕ → Bytes) → Pipe → ℕ → Option (Option Bytes × Pipe)
unfolding read_body_windows
read_reply_windows malloc pipe len = read_message_windows pipe 4 >>= λ ((got, stored), pipe').
    elim got [
      | pos n ↦
          let len' = u32_value (overlay stored (u32_bytes len)) in
          read_body_windows (malloc len') pipe' len'
      | negsuc n ↦ some (none, pipe')
    ]

unfoldable pub exchange_windows : (ℕ → Bytes) → Pipe → ℕ → Bytes → Option (Option Bytes × Pipe)
unfolding write_message_windows read_reply_windows
exchange_windows malloc pipe len bytes =
    write_message_windows pipe (u32_bytes len) >>= λ (sent, pipe'). elim sent [
      | negsuc n ↦ some (none, pipe')
      | pos n ↦ write_message_windows pipe' bytes >>= λ (sent', pipe''). elim sent' [
        | negsuc n ↦ some (none, pipe'')
        | pos n ↦ read_reply_windows malloc pipe'' len
      ]
    ]

module _ (J : Jansson) where
  -- The reply, or none for NULL, and the pipe.
  unfoldable pub searpc_named_pipe_send_windows :
      (ℕ → Bytes) → Bytes → Pipe → Bytes → Option (Option Bytes × Pipe)
  searpc_named_pipe_send_windows malloc service pipe fcall_str =
      let json_str = request_to_json J service fcall_str in
      let len = length json_str % two32 in exchange_windows malloc pipe len (take len json_str)
