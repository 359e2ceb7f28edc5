-- ===== src/Demo/Session.antt =====
-- The demo client against the demo server (demo/searpc-demo-client.c, demo/searpc-demo-server.c).
use libsearpc.Prelude.{
  zero, suc, ◌+◌, ◌≤◌, ◌<◌, ◌≡◌, refl, ◌∙◌, sym, ap, min, true, some, List, [], ◌∷◌, ◌++◌,
  append-nil, Bytes, codes, length, ltb, arith,
}
use libsearpc.Jansson.{Jansson}
use libsearpc.Types.{done, out_of_bounds, Objects}
use libsearpc.Server.Call.{Server, Called, searpc_server_call_function}
use libsearpc.Pipe.Io.{Event, Fd}
use libsearpc.Pipe.Io.Liveness.{Steady, moving}
use libsearpc.Pipe.Connection.{sample_send-done}
use libsearpc.Rpc.Loopback.{sample_send}
use libsearpc.Demo.Packet.{goes_on, crashes, write_packet}
use libsearpc.Demo.Transport.{
  g_strndup, packet_text, transport_callback, send_result, execute, serve_connection,
}
use libsearpc.Demo.Laws.{packet, Fitting, write_packet-Steady, read_packet-Steady}

-- No byte is NUL.
abbrev pub NoNul : Bytes → Type 0
NoNul [] = Unit
NoNul (c ∷ text) = (0 < c) × NoNul text

g_strndup-NoNul : (text : Bytes) → NoNul text → g_strndup text ≡ text
unfolding g_strndup
g_strndup-NoNul [] n = refl
g_strndup-NoNul (zero ∷ text) (p, n) = absurd (omega arith)
g_strndup-NoNul (suc c ∷ text) (p, n) = ap (λ (t : Bytes). suc c ∷ t) (g_strndup-NoNul text n)

pub transport_callback-Steady :
    (fd : Fd) (text reply rest : Bytes)
    → Steady fd.events
    → 4 + length text + length reply ≤ moving fd.events
    → length text ≤ 254
    → Fitting reply
    → NoNul reply
    → fd.input ≡ packet reply ++ rest
    → (events' : List Event) × (transport_callback fd text
        ≡ goes_on reply
            (record { events = events'; input = rest; output = fd.output ++ packet text }))
unfolding transport_callback packet_text
transport_callback-Steady fd text reply rest s m q f n i =
    let (events1, e1, s1, m1) = write_packet-Steady fd text s (omega arith) q in
    let fd1 : Fd = record fd { events = events1; output = fd.output ++ packet text } in
    let (events2, e2, s2, m2) = read_packet-Steady fd1 reply rest s1 (omega arith) f i in
    (events2, rw (e1, e2, g_strndup-NoNul reply n) refl)

module _ (J : Jansson) (O : Objects J) (W : Type 0) where
  pub serve_connection-Steady :
      (server : Server J O W) (fd : Fd) (w : W) (text rest : Bytes) (called : Called J O W)
      → Steady fd.events
      → 4 + length text + length called.ret ≤ moving fd.events
      → Fitting text
      → length called.ret ≤ 254
      → fd.input ≡ packet text ++ rest
      → searpc_server_call_function J O W server (codes "searpc-demo") text w ≡ done called
      → (events' : List Event) × (serve_connection J O W server fd w
          ≡ goes_on called.world
              (record { events = events'; input = rest; output = fd.output ++ packet called.ret }))
  unfolding serve_connection execute send_result
  serve_connection-Steady server fd w text rest called s m f q i c =
      let (events1, e1, s1, m1) = read_packet-Steady fd text rest s (omega arith) f i in
      let fd1 : Fd = record fd { events = events1; input = rest } in
      let (events2, e2, s2, m2) = write_packet-Steady fd1 called.ret s1 (omega arith) q in
      (events2, rw (e1, c, e2) refl)

  -- The demo's transport_callback and one round of the demo server's loop over one connection give
  -- what sample_send gives without it: where both ends go on moving bytes and suffice, the input
  -- of each is the packet of the other, request and reply have 1 to 254 bytes, the reply has no
  -- NUL, and the server's call returns, the client returns that reply, the server that world, and
  -- each has written the packet that the other reads.
  pub transport_callback-sample_send :
      (server : Server J O W) (client peer : Fd) (w : W) (text : Bytes) (called : Called J O W)
      → Steady client.events
      → Steady peer.events
      → 4 + length text + length called.ret ≤ min (moving client.events) (moving peer.events)
      → Fitting text
      → Fitting called.ret
      → NoNul called.ret
      → peer.input ≡ packet text
      → client.input ≡ packet called.ret
      → searpc_server_call_function J O W server (codes "searpc-demo") text w ≡ done called
      → (reply : Bytes) × (world : W) × (client' : Fd) × (peer' : Fd) × (sample_send J O W server
            (codes "searpc-demo")
            text
            w
          ≡ (some reply, world))
        × (transport_callback client text ≡ goes_on reply client')
        × (serve_connection J O W server peer w ≡ goes_on world peer')
        × (client'.output ≡ client.output ++ peer.input)
        × (peer'.output ≡ peer.output ++ client.input)
  transport_callback-sample_send server client peer w text called sc sp m ft fr n ip ic c =
      let (events1, e1) =
        transport_callback-Steady client text called.ret [] sc (omega arith) ft.1 fr n
          (ic ∙ sym (append-nil (packet called.ret))) in
      let (events2, e2) =
        serve_connection-Steady server peer w text [] called sp (omega arith) ft fr.1
          (ip ∙ sym (append-nil (packet text))) c in
      let client' : Fd = record {
        events = events1;
        input = [];
        output = client.output ++ packet text;
      } in
      let peer' : Fd = record {
        events = events2;
        input = [];
        output = peer.output ++ packet called.ret;
      } in
      (
        called.ret,
        called.world,
        client',
        peer',
        sample_send-done J O W server (codes "searpc-demo") text w called c,
        e1,
        e2,
        rw ip refl,
        rw ic refl,
      )

  -- Where a packet with 1 to 254 bytes arrives at the demo server on a connection whose reads go
  -- on moving bytes and suffice, and its call returns a reply of more than 254 bytes, the server
  -- copies the reply past the end of its buffer.
  pub serve_connection-overflow :
      (server : Server J O W) (fd : Fd) (w : W) (text rest : Bytes) (called : Called J O W)
      → Steady fd.events
      → 2 + length text ≤ moving fd.events
      → Fitting text
      → fd.input ≡ packet text ++ rest
      → searpc_server_call_function J O W server (codes "searpc-demo") text w ≡ done called
      → 254 < length called.ret
      → serve_connection J O W server fd w ≡ crashes out_of_bounds
  unfolding serve_connection execute send_result write_packet
  serve_connection-overflow server fd w text rest called s m f i c b =
      let (events1, e1, s1, m1) = read_packet-Steady fd text rest s m f i in
      let room : ltb 256 (2 + length called.ret) ≡ true = ground arith in rw (e1, c, room) refl
