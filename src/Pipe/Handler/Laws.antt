-- ===== src/Pipe/Handler/Laws.antt =====
-- named_pipe_client_handler of lib/searpc-named-pipe-transport.c: a round of its loop that finds a
-- request.
use libsearpc.Prelude.{
  take-length-append, ℕ, ◌+◌, ◌%◌, ◌≤◌, ◌<◌, ◌≡◌, refl, ◌∙◌, ◌==◌, false, some, List, ◌++◌,
  append_assoc, arith, Bytes, length, drop, two31, two32,
}
use libsearpc.Jansson.{Jansson}
use libsearpc.Types.{done, Objects}
use libsearpc.Server.Call.{Server, Called, searpc_server_call_function}
use libsearpc.Pipe.Io.{Event, Fd, returned, pipe_read_n}
use libsearpc.Pipe.Io.Liveness.{Steady, moving}
use libsearpc.Pipe.Frame.{u32_bytes, u32_value, overlay, frame, u32_value-overlay, length-u32_bytes}
use libsearpc.Pipe.Envelope.{request_from_json}
use libsearpc.Pipe.Buffer.{grow, grow_total}
use libsearpc.Pipe.Send.Laws.{pipe_read_n_front, write_message-Steady}
use libsearpc.Pipe.Handler.{
  Handler, served, resize, written, write_reply, serve_request, read_request, grow_buffer,
  read_size, handle_round,
}

not_zero : (n : ℕ) → 0 < n → (n == 0) ≡ false
not_zero n p = ground arith

module _ (J : Jansson) (O : Objects J) (W : Type 0) where
  serve_request-Steady :
      (server : Server J O W) (handler : Handler W) (fd : Fd) (service body : Bytes)
      (called : Called J O W)
      → Steady fd.events
      → 4 + length called.ret ≤ moving fd.events
      → length called.ret < two32
      → searpc_server_call_function J O W server service body handler.world ≡ done called
      → (events' : List Event) × (serve_request J O W server fd handler (some (service, body))
          ≡ served
              (record fd { events = events'; output = fd.output ++ frame called.ret })
              (record handler { world = called.world }))
        × Steady events'
        × (moving fd.events ≤ moving events' + (4 + length called.ret))
  unfolding serve_request write_reply written
  serve_request-Steady server handler fd service body called s m b c =
      let len : length called.ret % two32 ≡ length called.ret = omega arith in
      let (events', e, s', m') = write_message-Steady fd (length called.ret) called.ret s m in
      (events', rw (c, len, e) refl, s', m')

  read_request-Steady :
      (server : Server J O W) (handler : Handler W) (fd : Fd) (text rest service body : Bytes)
      (called : Called J O W)
      → Steady fd.events
      → length text + (4 + length called.ret) ≤ moving fd.events
      → length called.ret < two32
      → fd.input ≡ text ++ rest
      → request_from_json J text ≡ some (service, body)
      → searpc_server_call_function J O W server service body handler.world ≡ done called
      → (events' : List Event) × (read_request J O W server
            (length text)
            handler
            (pipe_read_n fd (length text))
          ≡ served
              (record { events = events'; input = rest; output = fd.output ++ frame called.ret })
              (record handler { buf = overlay text handler.buf; world = called.world }))
        × Steady events'
        × (moving fd.events ≤ moving events' + (length text + (4 + length called.ret)))
  unfolding read_request
  read_request-Steady server handler fd text rest service body called s m b i r c =
      let (events1, e1, s1, m1) = pipe_read_n_front fd text rest refl s (omega arith) i in
      let (events2, e2, s2, m2) =
        serve_request-Steady server (record handler { buf = overlay text handler.buf })
          (record fd { events = events1; input = rest }) service body called s1 (omega arith) b c in
      (
        events2,
        rw (e1, take-length-append text (drop (length text) handler.buf), r, e2) refl,
        s2,
        omega arith,
      )

  read_size-some :
      (malloc : ℕ → Bytes) (server : Server J O W) (handler : Handler W) (got : Bytes) (fd : Fd)
      {len bufsize : ℕ}
      → u32_value (overlay got (u32_bytes 0)) ≡ len
      → (len == 0) ≡ false
      → grow 32 handler.bufsize len ≡ some bufsize
      → read_size J O W malloc server handler (returned (some got) fd)
        ≡ read_request J O W server len
            (record handler { bufsize = bufsize; buf = resize malloc handler.buf bufsize })
            (pipe_read_n fd len)
  unfolding read_size grow_buffer
  read_size-some malloc server handler got fd e p g = ground arith

  -- The size of the handler's buffer is not 0 and fits 32 bits.
  abbrev pub Sized : Handler W → Type 0
  Sized handler = (1 ≤ handler.bufsize) × (handler.bufsize < two32)

  -- A round in which a framed request arrives, of at most 2 ^ 31 bytes.
  pub handle_round-Steady :
      (malloc : ℕ → Bytes) (server : Server J O W) (fd : Fd) (handler : Handler W)
      (text rest service body : Bytes) (called : Called J O W)
      → Steady fd.events
      → 8 + length text + length called.ret ≤ moving fd.events
      → 0 < length text
      → length text ≤ two31
      → length called.ret < two32
      → Sized handler
      → fd.input ≡ frame text ++ rest
      → request_from_json J text ≡ some (service, body)
      → searpc_server_call_function J O W server service body handler.world ≡ done called
      → (events' : List Event) × (handler' : Handler W) × (handle_round J O W malloc server fd
            handler
          ≡ served
              (record { events = events'; input = rest; output = fd.output ++ frame called.ret })
              handler')
        × Steady events'
        × (moving fd.events ≤ moving events' + (8 + length text + length called.ret))
        × Sized handler'
        × (handler'.world ≡ called.world)
  unfolding handle_round
  handle_round-Steady malloc server fd handler text rest service body called s m p q b z i r c =
      let word = u32_bytes (length text) in
      let i' : fd.input ≡ word ++ (text ++ rest) = i ∙ append_assoc word text rest in
      let (events1, e1, s1, m1) =
        pipe_read_n_front fd word (text ++ rest) (length-u32_bytes (length text)) s (omega arith)
          i' in
      let (bufsize, g, le, ge, lt) = grow_total handler.bufsize (length text) z.0 z.1 q in
      let (events2, e2, s2, m2) =
        read_request-Steady server
          (record handler { bufsize = bufsize; buf = resize malloc handler.buf bufsize })
          (record fd { events = events1; input = text ++ rest }) text rest service body called s1
          (omega arith) b refl r c in
      (
        events2,
        record {
          bufsize = bufsize;
          buf = overlay text (resize malloc handler.buf bufsize);
          world = called.world;
        },
        rw e1 (
            read_size-some malloc server handler word
              (record fd { events = events1; input = text ++ rest })
              (u32_value-overlay (length text) 0 (omega arith)) (not_zero (length text) p) g
            ∙ e2),
        s2,
        omega arith,
        (omega (arith, z.0), lt),
        refl,
      )
