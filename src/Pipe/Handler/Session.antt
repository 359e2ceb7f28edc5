-- ===== src/Pipe/Handler/Session.antt =====
-- named_pipe_client_handler of lib/searpc-named-pipe-transport.c: a connection with a sequence of
-- requests.
use libsearpc.Prelude.{
  ℕ, suc, ◌+◌, ◌≤◌, ◌<◌, ◌≡◌, refl, ◌∙◌, sym, some, List, [], ◌∷◌, ◌++◌, append_assoc, append-nil,
  arith, Bytes, length, two31, two32,
}
use libsearpc.Jansson.{Jansson}
use libsearpc.Types.{done, Objects}
use libsearpc.Server.Call.{Server, Called, searpc_server_call_function}
use libsearpc.Pipe.Io.{Event, Fd}
use libsearpc.Pipe.Io.Liveness.{Steady, moving}
use libsearpc.Pipe.Frame.{frame}
use libsearpc.Pipe.Envelope.{request_from_json}
use libsearpc.Pipe.Handler.{Handler, served, handle_round, handle_rounds}
use libsearpc.Pipe.Handler.Laws.{Sized, handle_round-Steady}

abbrev pub framed : List Bytes → Bytes
framed [] = []
framed (message ∷ messages) = frame message ++ framed messages

-- The bytes of messages with their length words.
abbrev pub total : List Bytes → ℕ
total [] = 0
total (message ∷ messages) = 4 + length message + total messages

module _ (J : Jansson) (O : Objects J) (W : Type 0) where
  handle_rounds-served :
      (n : ℕ) (malloc : ℕ → Bytes) (server : Server J O W) (fd fd' : Fd)
      (handler handler' : Handler W)
      → handle_round J O W malloc server fd handler ≡ served fd' handler'
      → handle_rounds J O W (suc n) malloc server fd handler
        ≡ handle_rounds J O W n malloc server fd' handler'
  unfolding handle_rounds
  handle_rounds-served n malloc server fd fd' handler handler' e = ground arith

  -- What a sequence of requests is answered with: each is a request within the limits of the
  -- framing, whose call returns, from the world that the calls before it have left.
  pub data Answered (server : Server J O W) : W → List Bytes → List Bytes → W → Type 0 where
    finished : (w : W) → Answered server w [] [] w
    next :
        (w w' : W) (text service body : Bytes) (called : Called J O W) (texts replies : List Bytes)
        → 0 < length text
        → length text ≤ two31
        → length called.ret < two32
        → request_from_json J text ≡ some (service, body)
        → searpc_server_call_function J O W server service body w ≡ done called
        → Answered server called.world texts replies w'
        → Answered server w (text ∷ texts) (called.ret ∷ replies) w'

  -- On a connection whose reads and writes go on moving bytes and suffice for all messages, on
  -- which framed requests arrive, each of 1 to 2 ^ 31 bytes with a service and a call whose reply
  -- is below 2 ^ 32 bytes, and from a buffer size from 1 to below 2 ^ 32, the handler's loop
  -- answers the requests one after the other, in their order, with their framed replies; it leaves
  -- what follows them, and its world is the one after the last call.
  pub handle_rounds-Steady :
      (malloc : ℕ → Bytes) (server : Server J O W) {w w' : W} {texts replies : List Bytes} (fd : Fd)
      (handler : Handler W) (rest : Bytes)
      → Answered server w texts replies w'
      → Steady fd.events
      → total texts + total replies ≤ moving fd.events
      → Sized J O W handler
      → fd.input ≡ framed texts ++ rest
      → handler.world ≡ w
      → (events' : List Event) × (handler' : Handler W) × (handle_rounds J O W
            (length texts)
            malloc
            server
            fd
            handler
          ≡ served
              (record { events = events'; input = rest; output = fd.output ++ framed replies })
              handler')
        × (handler'.world ≡ w')
  handle_rounds-Steady malloc server fd handler rest (finished w) s m z i e =
      (fd.events, handler, unfold handle_rounds in rw (i, append-nil fd.output) refl, e)
  handle_rounds-Steady malloc server fd handler rest
        (next w w' text service body called texts replies p q b r c answered) s m z i e =
      let (events1, handler1, e1, s1, m1, z1, w1) =
        handle_round-Steady J O W malloc server fd handler text (framed texts ++ rest) service body
          called s (omega arith) p q b z (i ∙ append_assoc (frame text) (framed texts) rest) r
          (rw e c) in
      let fd1 : Fd = record {
        events = events1;
        input = framed texts ++ rest;
        output = fd.output ++ frame called.ret;
      } in
      let (events2, handler2, e2, w2) =
        handle_rounds-Steady malloc server fd1 handler1 rest answered s1 (omega arith) z1 refl w1 in
      (
        events2,
        handler2,
        handle_rounds-served (length texts) malloc server fd fd1 handler handler1 e1
            ∙ rw (sym (append_assoc fd.output (frame called.ret) (framed replies))) e2,
        w2,
      )
