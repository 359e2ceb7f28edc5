-- ===== src/Demo/AsyncClient/Served.antt =====
-- What main of demo/demo-async-client.c prints, and its run against the demo server.
use libsearpc.Prelude.{
  ◌+◌, ◌≤◌, ◌≡◌, refl, ◌∙◌, sym, ap, false, Option, none, some, [], ◌∷◌, ◌++◌, append-nil, Bytes,
  length, ℤ, pos, arith, str_equal,
}
use libsearpc.Jansson.{Jansson}
use libsearpc.Types.{GError, done, Objects, RetType}
use libsearpc.Client.Request.{Param, fcall_to_str}
use libsearpc.Client.Fret.{searpc_client_fret__int}
use libsearpc.Client.Async.{
  searpc_client_async_call__int, searpc_client_async_call_v, searpc_client_generic_callback,
  parse_result,
}
use libsearpc.Codec.Bridge.{codec}
use libsearpc.Rpc.Request.{Accepts, AcceptsAll}
use libsearpc.Rpc.Reply.{fret__int-reply}
use libsearpc.Rpc.Loopback.{fcall_to_str-Accepts}
use libsearpc.Pipe.Io.{Fd}
use libsearpc.Pipe.Io.Liveness.{Steady, moving}
use libsearpc.Demo.Packet.{Demo, goes_on, ◌>>=◌, write_packet, read_packet}
use libsearpc.Demo.Transport.{
  TcpTransport, transport_send, transport_read, run_callback, serve_connection,
}
use libsearpc.Demo.Laws.{packet, Fitting, write_packet-Steady, read_packet-Steady}
use libsearpc.Demo.Service.{
  strlen_name, demo_server, signature_int__string, signature_objlist__int_int_string,
}
use libsearpc.Demo.TestObject.{test_objects}
use libsearpc.Demo.Checks.{hello_searpc}
use libsearpc.Demo.Tcp.{TcpOutcomes}
use libsearpc.Demo.Tcp.Served.{Connects, connected_or_exit-Connects, Wired}
use libsearpc.Demo.Tcp.Rounds.{Texts, strlen_request, strlen_reply, string-Round}
use libsearpc.Demo.AsyncClient.{
  Printed, Sending, strlen_callback, async_client, after_read, async_main,
}

module _ (J : Jansson) (O : Objects J) where
  -- What transport_send keeps of the call of main.
  abbrev kept : TcpTransport J O Printed
  kept = record {
    rpc_priv =
        some (record {
          callback = strlen_callback J O;
          ret_type = RetType.int;
          gtype = O.type_invalid;
        });
  }

  async_call-sent :
      (text : Bytes) (fd fd' : Fd)
      → fcall_to_str J strlen_name (Param.string (some hello_searpc) ∷ []) ≡ some text
      → write_packet fd text ≡ goes_on tt fd'
      → (searpc_client_async_call__int J O
          (Sending J O)
          (async_client J O)
          (some strlen_name)
          (λ result error sending. sending)
          (Param.string (some hello_searpc) ∷ [])
          (goes_on (record { rpc_priv = none }) fd)).1
        ≡ goes_on kept fd'
  unfolding searpc_client_async_call__int searpc_client_async_call_v async_client transport_send
  async_call-sent text fd fd' t e = ground (arith, t, e)

  transport_read-int :
      (fd fd' : Fd) (reply : Bytes) (len : ℤ) (error : Option GError)
      → read_packet fd ≡ goes_on (some reply) fd'
      → searpc_client_fret__int J reply (length reply) ≡ done (len, error)
      → transport_read J O Printed fd kept (done [])
        ≡ goes_on (record { rpc_priv = none }, done (len ∷ [])) fd'
  unfolding transport_read run_callback searpc_client_generic_callback parse_result strlen_callback
  transport_read-int fd fd' reply len error e d = ground (arith, e, d)

  -- main on any reply
  async_main-Steady :
      (os : TcpOutcomes) (fd : Fd) (text reply rest : Bytes) (len : ℤ) (error : Option GError)
      → Connects os
      → fcall_to_str J strlen_name (Param.string (some hello_searpc) ∷ []) ≡ some text
      → searpc_client_fret__int J reply (length reply) ≡ done (len, error)
      → Steady fd.events
      → 4 + length text + length reply ≤ moving fd.events
      → length text ≤ 254
      → Fitting reply
      → fd.input ≡ packet reply ++ rest
      → (fd' : Fd) × (async_main J O os fd ≡ goes_on (len ∷ []) fd')
        × (fd'.input ≡ rest)
        × (fd'.output ≡ fd.output ++ packet text)
  unfolding async_main after_read
  async_main-Steady os fd text reply rest len error c t d s m q f i =
      let (events1, e1, s1, m1) = write_packet-Steady fd text s (omega arith) q in
      let fd1 : Fd = record fd { events = events1; output = fd.output ++ packet text } in
      let (events2, e2, s2, m2) = read_packet-Steady fd1 reply rest s1 (omega arith) f i in
      let fd2 : Fd = record { events = events2; input = rest; output = fd1.output } in
      (
        fd2,
        connected_or_exit-Connects os _ c
            ∙ ap
                (λ (sending : Sending J O). sending >>= λ trans fd1.
                  transport_read J O Printed fd1 trans (done []) >>= after_read J O)
                (async_call-sent text fd fd1 t e1)
            ∙ ap (λ (r : Demo (TcpTransport J O Printed × Printed)). r >>= after_read J O)
                (transport_read-int fd1 fd2 reply len error e2 d),
        refl,
        refl,
      )

module _ (J : Jansson) (md5 : Bytes → Bytes) (W : Type 0)
    (distinct : str_equal
        (signature_int__string J md5 W)
        (signature_objlist__int_int_string J md5 W)
      ≡ false)
    (t : Texts J md5 W) where
  -- The asynchronous demo client's main against a round of the demo server's loop, where the two
  -- signatures differ, the texts are valid UTF-8 and stay within the parser's limit, the
  -- connection can be made, both ends go on moving bytes and suffice, request and reply have 1 to
  -- 254 bytes, the reply has no NUL, and the input of each end is the packet of the other: the
  -- client prints the length of the string, has read all of its input, and each end has written
  -- the packet that the other reads.
  pub async_main-serve :
      (os : TcpOutcomes) (client peer : Fd) (w : W)
      → Connects os
      → Wired (strlen_request J md5 W t) (strlen_reply J md5 W) client peer
      → (client' peer' : Fd) × (async_main J (codec J (test_objects J) 1) os client
          ≡ goes_on (pos (length hello_searpc) ∷ []) client')
        × (serve_connection J (codec J (test_objects J) 1) W (demo_server J md5 W) peer w
            ≡ goes_on w peer')
        × (client'.input ≡ [])
        × (client'.output ≡ client.output ++ peer.input)
        × (peer'.output ≡ peer.output ++ client.input)
  async_main-serve os client peer w c z =
      let r = string-Round J md5 W distinct t client peer w z in
      let (fd', e, i, o) =
        async_main-Steady J (codec J (test_objects J) 1) os client (strlen_request J md5 W t)
          (strlen_reply J md5 W) [] (pos 12) none c
          (fcall_to_str-Accepts J (codec J (test_objects J) 1) W strlen_name t.strlen t.strlen_valid
            (AcceptsAll.cons (Accepts.string hello_searpc t.hello t.hello_valid) AcceptsAll.nil))
          (fret__int-reply J (codec J (test_objects J) 1) (pos 12) (omega arith) t.reply1_loadable)
          z.client_steady (omega (arith, z.enough)) z.text_fits.1 z.reply_fits
          (z.client_input ∙ sym (append-nil (packet (strlen_reply J md5 W)))) in
      (fd', r.peer', e, r.serves, i, rw (z.peer_input) o, r.peer_wrote)
