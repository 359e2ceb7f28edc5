-- ===== src/Pipe/Connection/Session.antt =====
-- A sequence of calls of searpc_named_pipe_send over one connection, against the loop of
-- named_pipe_client_handler (lib/searpc-named-pipe-transport.c).
use libsearpc.Prelude.{
  ℕ, ◌+◌, ◌≤◌, ◌<◌, ◌≡◌, refl, ◌∙◌, sym, min, Option, some, List, [], ◌∷◌, ◌++◌, map, append_assoc,
  append-nil, arith, Bytes, length, length-map, two31, two32,
}
use libsearpc.Jansson.{Jansson}
use libsearpc.Types.{done, Objects}
use libsearpc.Server.Call.{Server, Called, searpc_server_call_function}
use libsearpc.Pipe.Io.{Event, Fd, Io, returned, ◌>>=◌}
use libsearpc.Pipe.Io.Liveness.{Steady, moving}
use libsearpc.Pipe.Frame.{frame}
use libsearpc.Pipe.Envelope.{request_object, request_to_json, request_from_json-request_to_json}
use libsearpc.Pipe.Send.{searpc_named_pipe_send}
use libsearpc.Pipe.Send.Laws.{named_pipe_send_next}
use libsearpc.Pipe.Handler.{Handler, served, handle_rounds}
use libsearpc.Pipe.Handler.Laws.{Sized}
use libsearpc.Pipe.Handler.Session.{framed, total, Answered, finished, next, handle_rounds-Steady}

module _ (J : Jansson) where
  -- A client that makes one call after the other.
  unfoldable pub send_all : (ℕ → Bytes) → Bytes → List Bytes → Fd → Io (List (Option Bytes))
  send_all malloc service [] fd = returned [] fd
  send_all malloc service (fcall_str ∷ fcall_strs) fd =
      searpc_named_pipe_send J malloc service fd fcall_str >>= λ reply fd1.
      send_all malloc service fcall_strs fd1 >>= λ replies fd2. returned (reply ∷ replies) fd2

  abbrev pub requests : Bytes → List Bytes → List Bytes
  requests service = map (request_to_json J service)

  -- Each request with its reply is within the limits of the framing.
  abbrev pub AllFit : Bytes → List Bytes → List Bytes → Type 0
  AllFit service [] [] = Unit
  AllFit service (fcall_str ∷ fcall_strs) (reply ∷ replies) =
      (length (request_to_json J service fcall_str) < two32)
      × (length reply < two32)
      × AllFit service fcall_strs replies
  AllFit service _ _ = ⊥

  send_all-Steady :
      (malloc : ℕ → Bytes) (service : Bytes) (fcall_strs replies : List Bytes) (fd : Fd)
      (rest : Bytes)
      → ((n : ℕ) → length (malloc n) ≡ n)
      → AllFit service fcall_strs replies
      → Steady fd.events
      → total (requests service fcall_strs) + total replies ≤ moving fd.events
      → fd.input ≡ framed replies ++ rest
      → (events' : List Event) × (send_all malloc service fcall_strs fd
          ≡ returned (map some replies) (record {
            events = events';
            input = rest;
            output = fd.output ++ framed (requests service fcall_strs);
          }))
  unfolding send_all
  send_all-Steady malloc service [] [] fd rest a f s m i =
      (fd.events, rw (i, append-nil fd.output) refl)
  send_all-Steady malloc service [] (reply ∷ replies) fd rest a f s m i = absurd f
  send_all-Steady malloc service (fcall_str ∷ fcall_strs) [] fd rest a f s m i = absurd f
  send_all-Steady malloc service (fcall_str ∷ fcall_strs) (reply ∷ replies) fd rest a f s m i =
      let text = request_to_json J service fcall_str in
      let (events1, e1, s1, m1) =
        named_pipe_send_next J malloc service fd fcall_str reply (framed replies ++ rest) a s
          (omega arith) f.0 f.1 (i ∙ append_assoc (frame reply) (framed replies) rest) in
      let fd1 : Fd = record {
        events = events1;
        input = framed replies ++ rest;
        output = fd.output ++ frame text;
      } in
      let (events2, e2) =
        send_all-Steady malloc service fcall_strs replies fd1 rest a f.2 s1 (omega arith) refl in
      (
        events2,
        rw (e1, e2, append_assoc fd.output (frame text) (framed (requests service fcall_strs)))
            refl,
      )

module _ (J : Jansson) (O : Objects J) (W : Type 0) where
  -- Calls of a service, one after the other: each is valid UTF-8 and loads in its envelope, the
  -- messages are within the limits of the framing, and the server's call returns, from the world
  -- that the calls before it have left.
  pub data Conversation (server : Server J O W) (service : Bytes)
      : W → List Bytes → List Bytes → W → Type 0 where
    over : (w : W) → Conversation server service w [] [] w
    then_call :
        (w w' : W) (fcall_str : Bytes) (f : J.Json) (called : Called J O W)
        (fcall_strs replies : List Bytes)
        → J.json_string fcall_str ≡ some f
        → J.Loadable (request_object J service fcall_str)
        → 0 < length (request_to_json J service fcall_str)
        → length (request_to_json J service fcall_str) ≤ two31
        → length called.ret < two32
        → searpc_server_call_function J O W server service fcall_str w ≡ done called
        → Conversation server service called.world fcall_strs replies w'
        → Conversation server service w (fcall_str ∷ fcall_strs) (called.ret ∷ replies) w'

  Conversation-Answered :
      (server : Server J O W) (service : Bytes) (s : J.Json) {w w' : W}
      {fcall_strs replies : List Bytes}
      → J.json_string service ≡ some s
      → Conversation server service w fcall_strs replies w'
      → Answered J O W server w (requests J service fcall_strs) replies w'
  Conversation-Answered server service s h (over w) = finished w
  Conversation-Answered server service s h
        (then_call w w' fcall_str f called fcall_strs replies v l p q b c rest) =
      next w w' (request_to_json J service fcall_str) service fcall_str called
        (requests J service fcall_strs) replies p q b
        (request_from_json-request_to_json J service fcall_str s f h v l) c
        (Conversation-Answered server service s h rest)

  Conversation-AllFit :
      (server : Server J O W) (service : Bytes) {w w' : W} {fcall_strs replies : List Bytes}
      → Conversation server service w fcall_strs replies w'
      → AllFit J service fcall_strs replies
  Conversation-AllFit server service (over w) = tt
  Conversation-AllFit server service
        (then_call w w' fcall_str f called fcall_strs replies v l p q b c rest) =
      (omega arith, b, Conversation-AllFit server service rest)

  -- A client that calls searpc_named_pipe_send once after the other over one connection, and the
  -- loop of named_pipe_client_handler on its other end, where malloc gives blocks of the size
  -- asked for, the service is valid UTF-8, the calls are a conversation (Conversation: each call
  -- is valid UTF-8 and loads in its envelope, the envelope has 1 to 2 ^ 31 bytes, and the server's
  -- call on it returns a reply below 2 ^ 32 bytes, from the world that the calls before it have
  -- left), both ends go on moving bytes and suffice for all messages, the handler's buffer has a
  -- size from 1 to below 2 ^ 32 and its world is the first one, and the input of each end is the
  -- framed messages of the other: the client gets the replies in the order of its calls, the
  -- handler has served as many rounds and leaves the world of the last call, both have read all of
  -- their input, and each has written what the other reads.
  pub session-Steady :
      (malloc : ℕ → Bytes) (server : Server J O W) (service : Bytes) (s : J.Json) {w w' : W}
      {fcall_strs replies : List Bytes} (client peer : Fd) (handler : Handler W)
      → ((n : ℕ) → length (malloc n) ≡ n)
      → J.json_string service ≡ some s
      → Conversation server service w fcall_strs replies w'
      → Steady client.events
      → Steady peer.events
      → total (requests J service fcall_strs) + total replies
        ≤ min (moving client.events) (moving peer.events)
      → Sized J O W handler
      → handler.world ≡ w
      → peer.input ≡ framed (requests J service fcall_strs)
      → client.input ≡ framed replies
      → (client' peer' : Fd) × (handler' : Handler W) × (send_all J malloc service fcall_strs client
          ≡ returned (map some replies) client')
        × (handle_rounds J O W (length fcall_strs) malloc server peer handler
            ≡ served peer' handler')
        × (handler'.world ≡ w')
        × (client'.input ≡ [])
        × (peer'.input ≡ [])
        × (client'.output ≡ client.output ++ peer.input)
        × (peer'.output ≡ peer.output ++ client.input)
  session-Steady malloc server service s {fcall_strs} {replies} client peer handler a h talk sc sp m
        z e ip ic =
      let texts = requests J service fcall_strs in
      let (events1, e1) =
        send_all-Steady J malloc service fcall_strs replies client [] a
          (Conversation-AllFit server service talk) sc (omega arith)
          (ic ∙ sym (append-nil (framed replies))) in
      let (events2, handler', e2, w2) =
        handle_rounds-Steady J O W malloc server peer handler []
          (Conversation-Answered server service s h talk) sp (omega arith) z
          (ip ∙ sym (append-nil (framed texts))) e in
      (
        record { events = events1; input = []; output = client.output ++ framed texts },
        record { events = events2; input = []; output = peer.output ++ framed replies },
        handler',
        e1,
        rw (sym (length-map (request_to_json J service) fcall_strs)) e2,
        w2,
        refl,
        refl,
        rw ip refl,
        rw ic refl,
      )
