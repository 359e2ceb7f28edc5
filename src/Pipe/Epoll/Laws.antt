-- ===== src/Pipe/Epoll/Laws.antt =====
-- epoll_handler of lib/searpc-named-pipe-transport.c on a connection that a request arrives on, and
-- on one that the peer has closed.
use libsearpc.Prelude.{
  ℕ, zero, suc, ◌+◌, ◌%◌, ◌≤◌, ◌<◌, ◌≡◌, refl, ◌∙◌, ap, ◌==◌, Bool, false, some, List, ◌++◌,
  append_assoc, append-nil, arith, Bytes, length, drop_all, two32, if◌then◌else◌,
}
use libsearpc.Jansson.{Jansson}
use libsearpc.Types.{done, Objects}
use libsearpc.Server.Call.{Server, Called, searpc_server_call_function}
use libsearpc.Pipe.Io.{Event, Fd, returned, pipe_read_n}
use libsearpc.Pipe.Io.Liveness.{Steady, moving}
use libsearpc.Pipe.Frame.{u32_bytes, u32_value, overlay, frame, u32_value-overlay, length-u32_bytes}
use libsearpc.Pipe.Envelope.{request_from_json}
use libsearpc.Pipe.Send.Laws.{pipe_read_n_front, write_message-Steady}
use libsearpc.Pipe.Epoll.{
  Outcome, polled, closed, g_new0, poll_again, epoll_reply, epoll_serve, epoll_request, epoll_size,
  epoll_handler,
}

length-g_new0 : (n : ℕ) → length (g_new0 n) ≡ n
unfolding g_new0
length-g_new0 zero = refl
length-g_new0 (suc n) = ap suc (length-g_new0 n)

-- A read that fills the zeroed buffer leaves exactly what it stored.
overlay-g_new0 : (text : Bytes) → overlay text (g_new0 (length text)) ≡ text
overlay-g_new0 text =
    rw (drop_all (g_new0 (length text)) (length text) (omega (arith, length-g_new0 (length text))))
      (append-nil text)

-- Where a worker leaves a connection that it has answered.
abbrev pub left_as : {W : Type 0} → Bool → Fd → W → Outcome W
left_as added fd w = if added then polled fd w else closed fd w

module _ (J : Jansson) (O : Objects J) (W : Type 0) where
  epoll_serve-Steady :
      (added : Bool) (server : Server J O W) (w : W) (fd : Fd) (service body : Bytes)
      (called : Called J O W)
      → Steady fd.events
      → 4 + length called.ret ≤ moving fd.events
      → length called.ret < two32
      → searpc_server_call_function J O W server service body w ≡ done called
      → (events' : List Event) × (epoll_serve J O W added server w fd (some (service, body))
          ≡ left_as added
              (record fd { events = events'; output = fd.output ++ frame called.ret })
              called.world)
        × Steady events'
  unfolding epoll_serve epoll_reply poll_again
  epoll_serve-Steady added server w fd service body called s m b c =
      let len : length called.ret % two32 ≡ length called.ret = omega arith in
      let (events', e, s', m') = write_message-Steady fd (length called.ret) called.ret s m in
      (events', rw (c, len, e) refl, s')

  epoll_request-Steady :
      (added : Bool) (server : Server J O W) (w : W) (fd : Fd) (text rest service body : Bytes)
      (called : Called J O W)
      → Steady fd.events
      → length text + (4 + length called.ret) ≤ moving fd.events
      → length called.ret < two32
      → fd.input ≡ text ++ rest
      → request_from_json J text ≡ some (service, body)
      → searpc_server_call_function J O W server service body w ≡ done called
      → (events' : List Event) × (epoll_request J O W added server w
            (length text)
            (pipe_read_n fd (length text))
          ≡ left_as added
              (record { events = events'; input = rest; output = fd.output ++ frame called.ret })
              called.world)
        × Steady events'
  unfolding epoll_request
  epoll_request-Steady added server w fd text rest service body called s m b i r c =
      let (events1, e1, s1, m1) = pipe_read_n_front fd text rest refl s (omega arith) i in
      let (events2, e2, s2) =
        epoll_serve-Steady added server w (record fd { events = events1; input = rest }) service
          body called s1 (omega arith) b c in
      (events2, rw (e1, overlay-g_new0 text, r, e2) refl, s2)

  epoll_size-some :
      (added : Bool) (server : Server J O W) (w : W) (got : Bytes) (fd : Fd) {len : ℕ}
      → u32_value (overlay got (u32_bytes 0)) ≡ len
      → (len == 0) ≡ false
      → epoll_size J O W added server w (returned (some got) fd)
        ≡ epoll_request J O W added server w len (pipe_read_n fd len)
  unfolding epoll_size
  epoll_size-some added server w got fd e p = ground arith

  not_zero : (n : ℕ) → 0 < n → (n == 0) ≡ false
  not_zero n p = ground arith

  -- On a connection whose reads and writes go on moving bytes and suffice, on which a framed
  -- request of 1 to below 2 ^ 32 bytes arrives with a service and a call that returns a reply
  -- below 2 ^ 32 bytes: epoll_handler answers it with its framed reply, leaves what follows it and
  -- the world of the call, and the connection is watched again where epoll_ctl adds it, and else
  -- closed.
  pub epoll_handler-Steady :
      (added : Bool) (server : Server J O W) (w : W) (fd : Fd) (text rest service body : Bytes)
      (called : Called J O W)
      → Steady fd.events
      → 8 + length text + length called.ret ≤ moving fd.events
      → 0 < length text
      → length text < two32
      → length called.ret < two32
      → fd.input ≡ frame text ++ rest
      → request_from_json J text ≡ some (service, body)
      → searpc_server_call_function J O W server service body w ≡ done called
      → (events' : List Event) × (epoll_handler J O W added server fd w
          ≡ left_as added
              (record { events = events'; input = rest; output = fd.output ++ frame called.ret })
              called.world)
        × Steady events'
  unfolding epoll_handler
  epoll_handler-Steady added server w fd text rest service body called s m p q b i r c =
      let word = u32_bytes (length text) in
      let (events1, e1, s1, m1) =
        pipe_read_n_front fd word (text ++ rest) (length-u32_bytes (length text)) s (omega arith)
          (i ∙ append_assoc word text rest) in
      let fd1 : Fd = record fd { events = events1; input = text ++ rest } in
      let (events2, e2, s2) =
        epoll_request-Steady added server w fd1 text rest service body called s1 (omega arith) b
          refl r c in
      (
        events2,
        rw e1 (
            epoll_size-some added server w word fd1 (u32_value-overlay (length text) 0 q)
              (not_zero (length text) p)
            ∙ e2),
        s2,
      )
