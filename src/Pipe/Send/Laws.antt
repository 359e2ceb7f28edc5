-- ===== src/Pipe/Send/Laws.antt =====
-- The client's transport: a framed request goes out and a framed reply comes in.
use libsearpc.Prelude.{
  take-length-append, drop-length-append, take-length, drop_all, ℕ, ◌+◌, ◌%◌, ◌≤◌, ◌<◌, ◌≡◌, refl,
  ◌∙◌, sym, true, some, List, ◌++◌, append_assoc, append-nil, arith, Bytes, length, take, drop,
  two32, length-append,
}
use libsearpc.Jansson.{Jansson}
use libsearpc.Pipe.Io.{Event, Fd, returned, pipe_read_n}
use libsearpc.Pipe.Io.Liveness.{Steady, moving, pipe_write_n-Steady, pipe_read_n-Steady}
use libsearpc.Pipe.Frame.{u32_bytes, frame, u32_value-overlay, length-u32_bytes}
use libsearpc.Pipe.Envelope.{request_to_json}
use libsearpc.Pipe.Send.{
  write_message, filled, read_body, read_reply, exchange, searpc_named_pipe_send,
}

-- A message is sent as its frame where the writes go on moving bytes.
pub write_message-Steady :
    (fd : Fd) (len : ℕ) (bytes : Bytes)
    → Steady fd.events
    → 4 + length bytes ≤ moving fd.events
    → (events' : List Event) × (write_message fd len bytes
        ≡ returned true
            (record fd { events = events'; output = fd.output ++ (u32_bytes len ++ bytes) }))
      × Steady events'
      × (moving fd.events ≤ moving events' + (4 + length bytes))
unfolding write_message
write_message-Steady fd len bytes s m =
    let (events1, e1, s1, m1) =
      pipe_write_n-Steady fd (u32_bytes len) s (omega (arith, length-u32_bytes len)) in
    let (events2, e2, s2, m2) =
      pipe_write_n-Steady (record fd { events = events1; output = fd.output ++ u32_bytes len })
        bytes s1 (omega (arith, length-u32_bytes len)) in
    (
      events2,
      rw (e1, e2, append_assoc fd.output (u32_bytes len) bytes) refl,
      s2,
      omega (arith, length-u32_bytes len),
    )

front :
    (events : List Event) (fd : Fd) (xs rest : Bytes) {n : ℕ}
    → length xs ≡ n
    → fd.input ≡ xs ++ rest
    → returned (some (take n fd.input)) (record fd { events = events; input = drop n fd.input })
      ≡ returned (some xs) (record fd { events = events; input = rest })
front events fd xs rest l i =
    rw (i, sym l, take-length-append xs rest, drop-length-append xs rest) refl

pub pipe_read_n_front :
    (fd : Fd) (xs rest : Bytes) {n : ℕ}
    → length xs ≡ n
    → Steady fd.events
    → n ≤ moving fd.events
    → fd.input ≡ xs ++ rest
    → (events' : List Event) × (pipe_read_n fd n
        ≡ returned (some xs) (record fd { events = events'; input = rest }))
      × Steady events'
      × (moving fd.events ≤ moving events' + n)
pipe_read_n_front fd xs rest {n} l s m i =
    let (events', e, s', m') =
      pipe_read_n-Steady fd n s m (rw (i, length-append xs rest) (omega (arith, l))) in
    (events', e ∙ front events' fd xs rest l i, s', m')

read_body-Steady :
    (buf : Bytes) (fd : Fd) (reply rest : Bytes)
    → Steady fd.events
    → length reply ≤ moving fd.events
    → fd.input ≡ reply ++ rest
    → length buf ≡ length reply
    → (events' : List Event) × (read_body buf fd (length reply)
        ≡ returned (some reply) (record fd { events = events'; input = rest }))
      × Steady events'
      × (moving fd.events ≤ moving events' + length reply)
unfolding read_body filled
read_body-Steady buf fd reply rest s m i b =
    let (events', e, s', m') = pipe_read_n_front fd reply rest refl s m i in
    (events', rw (e, drop_all buf (length reply) (omega (arith, b)), append-nil reply) refl, s', m')

-- A framed reply is read whatever the length variable held before.
pub read_reply-Steady :
    (malloc : ℕ → Bytes) (fd : Fd) (len : ℕ) (reply rest : Bytes)
    → ((n : ℕ) → length (malloc n) ≡ n)
    → Steady fd.events
    → 4 + length reply ≤ moving fd.events
    → length reply < two32
    → fd.input ≡ frame reply ++ rest
    → (events' : List Event) × (read_reply malloc fd len
        ≡ returned (some reply) (record fd { events = events'; input = rest }))
      × Steady events'
      × (moving fd.events ≤ moving events' + (4 + length reply))
unfolding read_reply
read_reply-Steady malloc fd len reply rest a s m b i =
    let word = u32_bytes (length reply) in
    let l4 : length word ≡ 4 = length-u32_bytes (length reply) in
    let i' : fd.input ≡ word ++ (reply ++ rest) = i ∙ append_assoc word reply rest in
    let (events1, e1, s1, m1) = pipe_read_n_front fd word (reply ++ rest) l4 s (omega arith) i' in
    let (events2, e2, s2, m2) =
      read_body-Steady (malloc (length reply))
        (record fd { events = events1; input = reply ++ rest }) reply rest s1 (omega arith) refl
        (a (length reply)) in
    (events2, rw (e1, u32_value-overlay (length reply) len b, e2) refl, s2, omega arith)

pub exchange-Steady :
    (malloc : ℕ → Bytes) (fd : Fd) (bytes reply rest : Bytes)
    → ((n : ℕ) → length (malloc n) ≡ n)
    → Steady fd.events
    → 8 + length bytes + length reply ≤ moving fd.events
    → length reply < two32
    → fd.input ≡ frame reply ++ rest
    → (events' : List Event) × (exchange malloc fd (length bytes) bytes
        ≡ returned
            (some reply)
            (record { events = events'; input = rest; output = fd.output ++ frame bytes }))
      × Steady events'
      × (moving fd.events ≤ moving events' + (8 + length bytes + length reply))
unfolding exchange
exchange-Steady malloc fd bytes reply rest a s m b i =
    let (events1, e1, s1, m1) = write_message-Steady fd (length bytes) bytes s (omega arith) in
    let (events2, e2, s2, m2) =
      read_reply-Steady malloc (record fd { events = events1; output = fd.output ++ frame bytes })
        (length bytes) reply rest a s1 (omega arith) b i in
    (events2, rw (e1, e2) refl, s2, omega arith)

module _ (J : Jansson) where
  -- With what is left of the events.
  pub named_pipe_send_next :
      (malloc : ℕ → Bytes) (service : Bytes) (fd : Fd) (fcall_str reply rest : Bytes)
      → ((n : ℕ) → length (malloc n) ≡ n)
      → Steady fd.events
      → 8 + length (request_to_json J service fcall_str) + length reply ≤ moving fd.events
      → length (request_to_json J service fcall_str) < two32
      → length reply < two32
      → fd.input ≡ frame reply ++ rest
      → (events' : List Event) × (searpc_named_pipe_send J malloc service fd fcall_str
          ≡ returned (some reply) (record {
            events = events';
            input = rest;
            output = fd.output ++ frame (request_to_json J service fcall_str);
          }))
        × Steady events'
        × (moving fd.events
            ≤ moving events' + (8 + length (request_to_json J service fcall_str) + length reply))
  unfolding searpc_named_pipe_send
  named_pipe_send_next malloc service fd fcall_str reply rest a s m bq br i =
      let json_str = request_to_json J service fcall_str in
      let len : length json_str % two32 ≡ length json_str = omega arith in
      rw (len, take-length json_str) (exchange-Steady malloc fd json_str reply rest a s m br i)

  -- Over a pipe whose reads and writes go on moving bytes, however they are split or interrupted,
  -- and suffice for the messages, and that brings the framed reply, where request and reply are
  -- below 2 ^ 32 bytes and malloc gives blocks of the size asked for: searpc_named_pipe_send
  -- writes exactly the framed request, returns exactly the reply, and leaves what follows it.
  pub named_pipe_send-Steady :
      (malloc : ℕ → Bytes) (service : Bytes) (fd : Fd) (fcall_str reply rest : Bytes)
      → ((n : ℕ) → length (malloc n) ≡ n)
      → Steady fd.events
      → 8 + length (request_to_json J service fcall_str) + length reply ≤ moving fd.events
      → length (request_to_json J service fcall_str) < two32
      → length reply < two32
      → fd.input ≡ frame reply ++ rest
      → (events' : List Event) × (searpc_named_pipe_send J malloc service fd fcall_str
          ≡ returned (some reply) (record {
            events = events';
            input = rest;
            output = fd.output ++ frame (request_to_json J service fcall_str);
          }))
  named_pipe_send-Steady malloc service fd fcall_str reply rest a s m bq br i =
      let (events', e, s', m') =
        named_pipe_send_next malloc service fd fcall_str reply rest a s m bq br i in
      (events', e)
