-- ===== src/Demo/Tcp/Mains.antt =====
-- The demo client's main against the demo server's: both tests succeed.
use libsearpc.Prelude.{
  arith, ◌≡◌, refl, ap, ◌∙◌, false, some, List, [], ◌∷◌, ◌++◌, Bytes, ℤ, pos, str_equal, Option,
}
use libsearpc.Jansson.{Jansson}
use libsearpc.Types.{GError, Run}
use libsearpc.Codec.Bridge.{codec}
use libsearpc.Pipe.Io.{Fd}
use libsearpc.Demo.Packet.{Demo, goes_on}
use libsearpc.Demo.TestObject.{TestObject, test_object, test_objects}
use libsearpc.Demo.Service.{signature_int__string, signature_objlist__int_int_string, demo_server}
use libsearpc.Demo.Checks.{
  succeeds, a_rpc_test, is_strlen, string_verdict, glist_verdict, rpc_string_test, rpc_glist_test,
}
use libsearpc.Demo.Tcp.{
  TcpOutcomes, ended_or, tested, client_main, accepting, accept_loop, server_main, tcp_client,
}
use libsearpc.Demo.Tcp.Served.{
  Connects, Listens, connected_or_exit-Connects, server_main-Listens, Wired,
}
use libsearpc.Demo.Tcp.Rounds.{
  Texts, strlen_request, strlen_reply, objlisttest_request, objlisttest_reply,
  glist_verdict-objlisttest, string-Round, glist-Round,
}

module _ (J : Jansson) (md5 : Bytes → Bytes) (W : Type 0) where
  module _
      (distinct : str_equal
          (signature_int__string J md5 W)
          (signature_objlist__int_int_string J md5 W)
        ≡ false)
      (t : Texts J md5 W) where
    string_test-succeeds :
        (client peer : Fd) (w : W)
        (z : Wired (strlen_request J md5 W t) (strlen_reply J md5 W) client peer)
        → tested J (codec J (test_objects J) 1) (
            rpc_string_test J
              (codec J (test_objects J) 1)
              (Demo {0} Unit)
              (tcp_client J (codec J (test_objects J) 1))
              (goes_on tt client))
          ≡ goes_on succeeds (string-Round J md5 W distinct t client peer w z).client'
    unfolding tested ended_or rpc_string_test string_verdict is_strlen
    string_test-succeeds client peer w z =
        ap
          (λ (r : Run (ℤ × Option GError) × Demo {0} Unit).
            tested J (codec J (test_objects J) 1) (string_verdict r.0, r.1))
          (string-Round J md5 W distinct t client peer w z).returns

    glist_test-succeeds :
        (client peer : Fd) (w : W)
        (z : Wired (objlisttest_request J md5 W t) (objlisttest_reply J md5 W) client peer)
        → tested J (codec J (test_objects J) 1) (
            rpc_glist_test J
              (codec J (test_objects J) 1)
              (Demo {0} Unit)
              (tcp_client J (codec J (test_objects J) 1))
              test_object
              (goes_on tt client))
          ≡ goes_on succeeds (glist-Round J md5 W distinct t client peer w z).client'
    unfolding tested ended_or rpc_glist_test
    glist_test-succeeds client peer w z =
        ap
          (λ (r : Run (List TestObject × Option GError) × Demo {0} Unit).
            tested J (codec J (test_objects J) 1)
              (glist_verdict J (codec J (test_objects J) 1) 4 (pos 11) a_rpc_test r.0, r.1))
          (glist-Round J md5 W distinct t client peer w z).returns
        ∙ rw (glist_verdict-objlisttest J 4 11 a_rpc_test t.a_test (omega arith) t.a_test_valid)
            refl

    -- The demo client's main against the demo server's main, where the two signatures differ, the
    -- texts are valid UTF-8 and stay within the parser's limit, both of the client's connections
    -- can be made and the server can listen, and over each connection both ends go on moving bytes
    -- and suffice, request and reply have 1 to 254 bytes, the reply has no NUL, and the input of
    -- each end is the packet of the other: both tests of the client succeed, the server has
    -- answered both connections and waits in accept, and on each connection the client has written
    -- the packet of its request that the server reads, and the server the packet of its reply that
    -- the client reads.
    pub client_main-server_main :
        (os1 os2 os : TcpOutcomes) (client1 client2 peer1 peer2 : Fd) (w : W)
        → Connects os1
        → Connects os2
        → Listens os
        → Wired (strlen_request J md5 W t) (strlen_reply J md5 W) client1 peer1
        → Wired (objlisttest_request J md5 W t) (objlisttest_reply J md5 W) client2 peer2
        → (client1' client2' peer1' peer2' : Fd) × (client_main J
              (codec J (test_objects J) 1)
              test_object
              os1
              client1
              os2
              client2
            ≡ goes_on ((succeeds, client1') ∷ (succeeds, client2') ∷ []) client2')
          × (server_main J
                (codec J (test_objects J) 1)
                W
                (demo_server J md5 W)
                os
                (some peer1 ∷ some peer2 ∷ [])
                w
              ≡ accepting w (peer1' ∷ peer2' ∷ []))
          × (client1'.output ≡ client1.output ++ peer1.input)
          × (client2'.output ≡ client2.output ++ peer2.input)
          × (peer1'.output ≡ peer1.output ++ client1.input)
          × (peer2'.output ≡ peer2.output ++ client2.input)
    unfolding client_main server_main accept_loop
    client_main-server_main os1 os2 os client1 client2 peer1 peer2 w c1 c2 (l1, l2, l3, l4) z1 z2 =
        let r1 = string-Round J md5 W distinct t client1 peer1 w z1 in
        let r2 = glist-Round J md5 W distinct t client2 peer2 w z2 in
        (
          r1.client',
          r2.client',
          r1.peer',
          r2.peer',
          rw
              (
                connected_or_exit-Connects os1 _ c1,
                string_test-succeeds client1 peer1 w z1,
                connected_or_exit-Connects os2 _ c2,
                glist_test-succeeds client2 peer2 w z2,
              )
              refl,
          server_main-Listens J (codec J (test_objects J) 1) W os (demo_server J md5 W)
                (some peer1 ∷ some peer2 ∷ []) w (l1, l2, l3, l4)
              ∙ rw (r1.serves, r2.serves) refl,
          r1.client_wrote,
          r2.client_wrote,
          r1.peer_wrote,
          r2.peer_wrote,
        )
