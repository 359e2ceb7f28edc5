-- ===== src/Demo/Tcp/Rounds.antt =====
-- The two calls of the demo client, each over a connection to the demo server
-- (demo/searpc-demo-client.c, demo/searpc-demo-server.c).
use libsearpc.Prelude.{
  ℕ, zero, suc, ◌<◌, arith, ◌≡◌, refl, false, none, some, [], ◌∷◌, Bytes, pos, str_equal, to_int,
}
use libsearpc.Jansson.{Jansson, compact}
use libsearpc.Types.{done, Value}
use libsearpc.Client.Request.{Param}
use libsearpc.Client.Fret.{searpc_client_fret__int, searpc_client_fret__objlist}
use libsearpc.Client.Call.{searpc_client_call__int, searpc_client_call__objlist}
use libsearpc.Codec.Bridge.{codec}
use libsearpc.Rpc.Request.{Accepts, AcceptsAll}
use libsearpc.Rpc.Reply.{reply_text, reply_object, fret__int-reply}
use libsearpc.Rpc.Reply.Objs.{fret__objlist-reply}
use libsearpc.Rpc.Loopback.{request_array}
use libsearpc.Pipe.Io.{Fd}
use libsearpc.Demo.Packet.{Demo}
use libsearpc.Demo.TestObject.{test_object, test_objects}
use libsearpc.Demo.Service.{
  searpc_objlisttest, searpc_strlen, objlist_item, strlen_name, objlisttest_name, strlen_func,
  objlisttest_func, signature_int__string, signature_objlist__int_int_string, demo_server,
  demo_found,
}
use libsearpc.Demo.Calls.{objlisttest-AllRoundTrip}
use libsearpc.Demo.Checks.{succeeds, hello_searpc, a_rpc_test, glist_verdict}
use libsearpc.Demo.Checks.Members.{AllSendable}
use libsearpc.Demo.Checks.Laws.{glist_verdict_iff}
use libsearpc.Demo.Tcp.{tcp_client}
use libsearpc.Demo.Tcp.Served.{Wired, Round, call-Round}

module _ (J : Jansson) where
  objlisttest-AllSendable :
      (count : ℕ) (n : ℕ) (str : Bytes) (j : J.Json)
      → n < 257
      → J.json_string str ≡ some j
      → AllSendable J (searpc_objlisttest count (pos n) str)
  unfolding searpc_objlisttest objlist_item
  objlisttest-AllSendable zero n str j l h = tt
  objlisttest-AllSendable (suc count) n str j l h = (
    record { text = str; node = j; has_text = refl; valid = h; in_range = omega arith },
    objlisttest-AllSendable count n str j l h,
  )

  pub glist_verdict-objlisttest :
      (count : ℕ) (n : ℕ) (str : Bytes) (j : J.Json)
      → n < 257
      → J.json_string str ≡ some j
      → glist_verdict J
          (codec J (test_objects J) 1)
          count
          (pos n)
          str
          (done (searpc_objlisttest count (pos n) str, none))
        ≡ succeeds
  glist_verdict-objlisttest count n str j l h =
      (glist_verdict_iff J count (pos n) str (searpc_objlisttest count (pos n) str)
          (objlisttest-AllSendable count n str j l h)).1
        refl

module _ (J : Jansson) (md5 : Bytes → Bytes) (W : Type 0) where
  -- The texts of the two tests are valid UTF-8, and their requests and replies stay within the
  -- parser's limit.
  pub record Texts : Type 0 where
    pub hello : J.Json
    pub hello_valid : J.json_string hello_searpc ≡ some hello
    pub a_test : J.Json
    pub a_test_valid : J.json_string a_rpc_test ≡ some a_test
    pub strlen : J.Json
    pub strlen_valid : J.json_string strlen_name ≡ some strlen
    pub objlisttest : J.Json
    pub objlisttest_valid : J.json_string objlisttest_name ≡ some objlisttest
    pub request1_loadable :
        J.Loadable (request_array J (codec J (test_objects J) 1) W strlen (hello ∷ []))
    pub reply1_loadable :
        J.Loadable (reply_object J (codec J (test_objects J) 1) (Value.int (pos 12)) none)
    pub request2_loadable : J.Loadable (
        request_array J
          (codec J (test_objects J) 1)
          W
          objlisttest
          (J.json_integer (pos 4) ∷ J.json_integer (pos 11) ∷ a_test ∷ []))
    pub reply2_loadable : J.Loadable (
        reply_object J
          (codec J (test_objects J) 1)
          (Value.objlist (searpc_objlisttest 4 (pos 11) a_rpc_test))
          none)

  -- The texts on the wire.
  abbrev pub strlen_request : Texts → Bytes
  strlen_request t =
      J.json_dumps compact (request_array J (codec J (test_objects J) 1) W t.strlen (t.hello ∷ []))

  abbrev pub strlen_reply : Bytes
  strlen_reply = reply_text J (codec J (test_objects J) 1) (Value.int (pos 12)) none

  abbrev pub objlisttest_request : Texts → Bytes
  objlisttest_request t = J.json_dumps compact (
      request_array J (codec J (test_objects J) 1) W t.objlisttest
        (J.json_integer (pos 4) ∷ J.json_integer (pos 11) ∷ t.a_test ∷ []))

  abbrev pub objlisttest_reply : Bytes
  objlisttest_reply =
      reply_text J (codec J (test_objects J) 1)
        (Value.objlist (searpc_objlisttest 4 (pos 11) a_rpc_test)) none

  module _
      (distinct : str_equal
          (signature_int__string J md5 W)
          (signature_objlist__int_int_string J md5 W)
        ≡ false)
      (t : Texts) where
    pub string-Round :
        (client peer : Fd) (w : W)
        → Wired (strlen_request t) strlen_reply client peer
        → Round J
            (codec J (test_objects J) 1)
            W
            (searpc_client_call__int J
              (codec J (test_objects J) 1)
              (Demo {0} Unit)
              (tcp_client J (codec J (test_objects J) 1))
              (some strlen_name)
              (Param.string (some hello_searpc) ∷ []))
            (demo_server J md5 W)
            client
            peer
            w
            w
            (pos 12)
    unfolding searpc_client_call__int strlen_func searpc_strlen to_int
    string-Round client peer w z =
        call-Round J (codec J (test_objects J) 1) W (pos 0) (searpc_client_fret__int J)
          (demo_server J md5 W) strlen_name (signature_int__string J md5 W) (strlen_func J md5 W)
          t.strlen (Value.int (pos 12)) w w (pos 12) client peer (demo_found J md5 W distinct).0
          t.strlen_valid
          (AcceptsAll.cons (Accepts.string hello_searpc t.hello t.hello_valid) AcceptsAll.nil)
          t.request1_loadable refl
          (fret__int-reply J (codec J (test_objects J) 1) (pos 12) (omega arith) t.reply1_loadable)
          z

    pub glist-Round :
        (client peer : Fd) (w : W)
        → Wired (objlisttest_request t) objlisttest_reply client peer
        → Round J
            (codec J (test_objects J) 1)
            W
            (searpc_client_call__objlist J
              (codec J (test_objects J) 1)
              (Demo {0} Unit)
              (tcp_client J (codec J (test_objects J) 1))
              (some objlisttest_name)
              test_object
              (Param.int (pos 4) ∷ Param.int (pos 11) ∷ Param.string (some a_rpc_test) ∷ []))
            (demo_server J md5 W)
            client
            peer
            w
            w
            (searpc_objlisttest 4 (pos 11) a_rpc_test)
    unfolding searpc_client_call__objlist objlisttest_func searpc_objlisttest to_int
    glist-Round client peer w z =
        call-Round J (codec J (test_objects J) 1) W []
          (searpc_client_fret__objlist J (codec J (test_objects J) 1) test_object)
          (demo_server J md5 W) objlisttest_name (signature_objlist__int_int_string J md5 W)
          (objlisttest_func J md5 W) t.objlisttest
          (Value.objlist (searpc_objlisttest 4 (pos 11) a_rpc_test)) w w _ client peer
          (demo_found J md5 W distinct).1 t.objlisttest_valid
          (AcceptsAll.cons (Accepts.int (pos 4)) (
            AcceptsAll.cons (Accepts.int (pos 11))
              (AcceptsAll.cons (Accepts.string a_rpc_test t.a_test t.a_test_valid) AcceptsAll.nil)))
          t.request2_loadable refl
          (fret__objlist-reply J (codec J (test_objects J) 1) test_object
            (objlist_item (pos 11) a_rpc_test) (searpc_objlisttest 3 (pos 11) a_rpc_test)
            (objlisttest-AllRoundTrip J 4 (pos 11) a_rpc_test t.a_test refl t.a_test_valid)
            t.reply2_loadable)
          z
