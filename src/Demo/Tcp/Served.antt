-- ===== src/Demo/Tcp/Served.antt =====
-- The demo client's main against the demo server's (demo/searpc-demo-client.c,
-- demo/searpc-demo-server.c): the two tests over two connections.
use libsearpc.Prelude.{
  ℕ, ◌+◌, ◌≤◌, ◌≡◌, ◌≢◌, Option-cases, inl, inr, refl, ◌∙◌, sym, min, true, Option, none, some,
  List, [], ◌++◌, append-nil, Bytes, length, pos, arith,
}
use libsearpc.Jansson.{Jansson, compact}
use libsearpc.Types.{GError, Run, done, Objects, Value, Arg, ArgType}
use libsearpc.Client.Request.{Param, fcall_to_str}
use libsearpc.Client.Call.{typed_call}
use libsearpc.Server.Registry.{RpcFunc, find_function}
use libsearpc.Server.Call.{Server}
use libsearpc.Rpc.Request.{AcceptsAll}
use libsearpc.Rpc.Reply.{reply_text}
use libsearpc.Rpc.Loopback.{
  request_array, marshalled, fcall_to_str-Accepts, typed_call-replied, call_function-serve,
}
use libsearpc.Pipe.Io.{Fd}
use libsearpc.Pipe.Io.Liveness.{Steady, moving}
use libsearpc.Demo.Packet.{Demo, goes_on}
use libsearpc.Demo.Transport.{transport_callback, serve_connection}
use libsearpc.Demo.Laws.{packet, Fitting}
use libsearpc.Demo.Session.{NoNul, transport_callback-Steady, serve_connection-Steady}
use libsearpc.Demo.Service.{searpc_demo}
use libsearpc.Demo.Tcp.{
  TcpOutcomes, connection_init, connected_or_exit, tcp_client, transported, server_main,
  accept_loop,
}

-- The connection can be made, and the server can listen.
abbrev pub Connects : TcpOutcomes → Type 0
Connects os = (connection_init os).status ≡ pos 0

abbrev pub Listens : TcpOutcomes → Type 0
Listens os = (os.socket ≢ none) × (os.reused ≡ true) × (os.bound ≡ true) × (os.listening ≡ true)

pub connected_or_exit-Connects {ℓ} :
    {A : Type ℓ} (os : TcpOutcomes) (rest : Demo A) → Connects os → connected_or_exit os rest ≡ rest
unfolding connected_or_exit
connected_or_exit-Connects os rest c = rw (connected_or_exit, c) refl

-- A connection that takes a request and its reply: both ends go on moving bytes, and each one's
-- input is the packet of the other.
pub record Wired (text reply : Bytes) (client peer : Fd) : Type 0 where
  pub client_steady : Steady client.events
  pub peer_steady : Steady peer.events
  pub enough : 4 + length text + length reply ≤ min (moving client.events) (moving peer.events)
  pub text_fits : Fitting text
  pub reply_fits : Fitting reply
  pub no_nul : NoNul reply
  pub peer_input : peer.input ≡ packet text
  pub client_input : client.input ≡ packet reply

module _ (J : Jansson) (O : Objects J) where
  typed_call-tcp :
      {A : Type 0} {text reply : Bytes} (ps : List (Param J)) (default : A)
      (decode : Bytes → ℕ → Run (A × Option GError)) (fname : Bytes) (client client' : Fd)
      → fcall_to_str J fname ps ≡ some text
      → transport_callback client text ≡ goes_on reply client'
      → typed_call J O (Demo {0} Unit) default decode (tcp_client J O) fname ps (goes_on tt client)
        ≡ (decode reply (length reply), goes_on tt client')
  unfolding tcp_client transported
  typed_call-tcp ps default decode fname client client' t e =
      typed_call-replied J O (Demo {0} Unit) ps default decode (tcp_client J O) fname
        (goes_on tt client) (goes_on tt client') t (rw e refl)

  module _ (W : Type 0) where
    pub server_main-Listens :
        (os : TcpOutcomes) (server : Server J O W) (connections : List (Option Fd)) (w : W)
        → Listens os
        → server_main J O W server os connections w ≡ accept_loop J O W server connections w []
    unfolding server_main
    server_main-Listens os server connections w (l1, l2, l3, l4) = elim (Option-cases os.socket) [
      | inl e ↦ absurd (l1 e)
      | inr (fd, e) ↦ rw (e, l2, l3, l4) refl
    ]

    -- One call over a connection: the value that the function returns, and what both ends did.
    pub record Round {A : Type 0} (call : Demo {0} Unit → Run (A × Option GError) × Demo {0} Unit)
        (server : Server J O W) (client peer : Fd) (w w' : W) (a : A) : Type 0 where
      pub client' : Fd
      pub peer' : Fd
      pub returns : call (goes_on tt client) ≡ (done (a, none), goes_on tt client')
      pub serves : serve_connection J O W server peer w ≡ goes_on w' peer'
      pub client_wrote : client'.output ≡ client.output ++ peer.input
      pub peer_wrote : peer'.output ≡ peer.output ++ client.input

    pub call-Round :
        {A : Type 0} {ps : List (Param J)} {ts : List ArgType} {vs : List J.Json}
        {bs : List (Arg J)} (default : A) (decode : Bytes → ℕ → Run (A × Option GError))
        (server : Server J O W) (fname signature : Bytes) (func : RpcFunc J O W) (name : J.Json)
        (value : Value J O) (w w' : W) (a : A) (client peer : Fd)
        → find_function J O W server.registry searpc_demo fname
          ≡ done (some (marshalled J O W func fname ts signature))
        → J.json_string fname ≡ some name
        → AcceptsAll J ps ts vs bs
        → J.Loadable (request_array J O W name vs)
        → func bs w ≡ ((value, none), w')
        → decode (reply_text J O value none) (length (reply_text J O value none)) ≡ done (a, none)
        → Wired
            (J.json_dumps compact (request_array J O W name vs))
            (reply_text J O value none)
            client
            peer
        → Round
            (typed_call J O (Demo {0} Unit) default decode (tcp_client J O) fname ps)
            server
            client
            peer
            w
            w'
            a
    call-Round {ps} {vs} default decode server fname signature func name value w w' a client peer f
          n h l e d z =
        let text = J.json_dumps compact (request_array J O W name vs) in
        let reply = reply_text J O value none in
        let (called, c, cr, cw) =
          call_function-serve J O W server searpc_demo fname signature func name value none w w' f n
            h l e in
        let (events1, e1) =
          transport_callback-Steady client text reply [] z.client_steady (omega (arith, z.enough))
            z.text_fits.1 z.reply_fits z.no_nul
            (z.client_input ∙ sym (append-nil (packet reply))) in
        let (events2, e2) =
          serve_connection-Steady J O W server peer w text [] called z.peer_steady
            (rw cr (omega (arith, z.enough))) z.text_fits (rw cr z.reply_fits.1)
            (z.peer_input ∙ sym (append-nil (packet text))) c in
        record {
          client' = record { events = events1; input = []; output = client.output ++ packet text };
          peer' = record {
            events = events2;
            input = [];
            output = peer.output ++ packet called.ret;
          };
          returns =
              typed_call-tcp ps default decode fname client _
                (fcall_to_str-Accepts J O W fname name n h) e1
              ∙ rw d refl;
          serves = e2 ∙ rw cw refl;
          client_wrote = rw z.peer_input refl;
          peer_wrote = rw (z.client_input, cr) refl;
        }
