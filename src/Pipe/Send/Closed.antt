-- ===== src/Pipe/Send/Closed.antt =====
-- The client's transport when the peer closes the connection instead of answering.
use libsearpc.Prelude.{
  take-length, drop_all, ℕ, zero, suc, ◌+◌, ◌%◌, ◌≤◌, ◌<◌, ◌≡◌, refl, ◌∙◌, sym, true, some, List,
  [], ◌∷◌, ◌++◌, append_assoc, arith, Bytes, length, take, drop, two32,
}
use libsearpc.Jansson.{Jansson}
use libsearpc.Pipe.Io.{
  Event, moves, moves_none, returned, amount, write_loop, pipe_write_n, pipe_read_n,
}
use libsearpc.Pipe.Frame.{u32_bytes, u32_value, frame, u32_value-u32_bytes, length-u32_bytes}
use libsearpc.Pipe.Envelope.{request_to_json}
use libsearpc.Pipe.Send.{read_reply, exchange, searpc_named_pipe_send}

write_loop-moves :
    (events : List Event) (input output : Bytes) (b : ℕ) (left : Bytes) (k : ℕ) {n : ℕ}
    → amount k (length (b ∷ left)) ≡ n
    → write_loop (moves k ∷ events) input output (b ∷ left)
      ≡ write_loop events input (output ++ take n (b ∷ left)) (drop n (b ∷ left))
unfolding write_loop
write_loop-moves events input output b left k e = rw (sym e) refl

write_once :
    (events : List Event) (input output bytes : Bytes) (k : ℕ)
    → 0 < length bytes
    → length bytes ≤ k
    → pipe_write_n (record { events = moves k ∷ events; input = input; output = output }) bytes
      ≡ returned true (record { events = events; input = input; output = output ++ bytes })
unfolding pipe_write_n
write_once events input output [] k p h = absurd (omega arith)
write_once events input output (b ∷ bytes) k p h =
    let n : amount k (length (b ∷ bytes)) ≡ length (b ∷ bytes) = omega arith in
    write_loop-moves events input output b bytes k n
    ∙ rw (take-length bytes, drop_all bytes (length bytes) (omega arith)) refl

read_closed :
    (events : List Event) (input output : Bytes) (n : ℕ)
    → 0 < n
    → pipe_read_n (record { events = moves_none ∷ events; input = input; output = output }) n
      ≡ returned (some []) (record { events = events; input = input; output = output })
unfolding pipe_read_n
read_closed events input output zero p = absurd (omega arith)
read_closed events input output (suc n) p = refl

-- A peer that closes the connection after the request: both reads return 0.
pub exchange_closed :
    (malloc : ℕ → Bytes) (input output bytes : Bytes) (k : ℕ)
    → 0 < length bytes
    → length bytes < two32
    → 4 + length bytes ≤ k
    → exchange malloc
        (record {
          events = moves k ∷ moves k ∷ moves_none ∷ moves_none ∷ [];
          input = input;
          output = output;
        })
        (length bytes)
        bytes
      ≡ returned
          (some (malloc (length bytes)))
          (record { events = []; input = input; output = output ++ frame bytes })
unfolding exchange read_reply
exchange_closed malloc input output bytes k p b h =
    let word = u32_bytes (length bytes) in
    let l4 : length word ≡ 4 = length-u32_bytes (length bytes) in
    let same : u32_value word ≡ length bytes = u32_value-u32_bytes (length bytes) ∙ omega arith in
    rw
      (
        write_once (moves k ∷ moves_none ∷ moves_none ∷ []) input output word k (omega arith)
            (omega arith),
        write_once (moves_none ∷ moves_none ∷ []) input (output ++ word) bytes k p (omega arith),
        read_closed (moves_none ∷ []) input ((output ++ word) ++ bytes) 4 (omega arith),
        same,
        read_closed [] input ((output ++ word) ++ bytes) (length bytes) p,
        append_assoc output word bytes,
      )
      refl

module _ (J : Jansson) where
  -- Over a pipe that takes the request, which is neither empty nor as long as 2 ^ 32 bytes, in two
  -- writes and whose peer then closes it, searpc_named_pipe_send does not return NULL but an
  -- uninitialised block as long as the request.
  pub named_pipe_send_closed :
      (malloc : ℕ → Bytes) (service input output fcall_str : Bytes) (k : ℕ)
      → 0 < length (request_to_json J service fcall_str)
      → length (request_to_json J service fcall_str) < two32
      → 4 + length (request_to_json J service fcall_str) ≤ k
      → searpc_named_pipe_send J malloc service
          (record {
            events = moves k ∷ moves k ∷ moves_none ∷ moves_none ∷ [];
            input = input;
            output = output;
          })
          fcall_str
        ≡ returned (some (malloc (length (request_to_json J service fcall_str)))) (record {
          events = [];
          input = input;
          output = output ++ frame (request_to_json J service fcall_str);
        })
  unfolding searpc_named_pipe_send
  named_pipe_send_closed malloc service input output fcall_str k p b h =
      let json_str = request_to_json J service fcall_str in
      let len : length json_str % two32 ≡ length json_str = omega arith in
      rw (len, take-length json_str) (exchange_closed malloc input output json_str k p b h)
