-- ===== src/Demo/Calls.antt =====
-- demo/searpc-demo-client.c and demo/searpc-demo-server.c: what the calls of the demo return.
use libsearpc.Prelude.{
  ℕ, zero, suc, ◌≡◌, refl, true, false, none, some, [], ◌∷◌, Bytes, length, ℤ, pos, to_int,
  to_int_of_IsInt, IsInt, str_equal,
}
use libsearpc.Jansson.{Jansson}
use libsearpc.Types.{done, Value, Arg, ArgType}
use libsearpc.Client.Request.{Param}
use libsearpc.Client.Call.{searpc_client_call__int, searpc_client_call__objlist}
use libsearpc.Codec.Bridge.{codec, codec-RoundTrips}
use libsearpc.Rpc.Request.{Accepts, AcceptsAll}
use libsearpc.Rpc.Reply.{reply_object}
use libsearpc.Rpc.Reply.Objs.{AllRoundTrip}
use libsearpc.Rpc.Loopback.{loopback, request_array}
use libsearpc.Rpc.Loopback.Typed.{call__int-serve, call__objlist-serve}
use libsearpc.Demo.TestObject.{
  test_object, test_objects, len_valid, len_valid-Within, TestObject-Fits,
}
use libsearpc.Demo.Service.{
  objlist_item, searpc_objlisttest, searpc_strlen, searpc_demo, strlen_name, objlisttest_name,
  strlen_func, objlisttest_func, signature_int__string, signature_objlist__int_int_string,
  demo_server, demo_found,
}

module _ (J : Jansson) where
  pub objlisttest-AllRoundTrip :
      (count : ℕ) (len : ℤ) (str : Bytes) (j : J.Json)
      → len_valid len ≡ true
      → J.json_string str ≡ some j
      → AllRoundTrip J (codec J (test_objects J) 1) test_object (searpc_objlisttest count len str)
  unfolding searpc_objlisttest objlist_item
  objlisttest-AllRoundTrip zero len str j l h = tt
  objlisttest-AllRoundTrip (suc count) len str j l h = (
    codec-RoundTrips J (test_objects J) 1 (objlist_item len str)
        (TestObject-Fits J (objlist_item len str) l (j, h)),
    objlisttest-AllRoundTrip count len str j l h,
  )

module _ (J : Jansson) (md5 : Bytes → Bytes) (W : Type 0)
    (distinct : str_equal
        (signature_int__string J md5 W)
        (signature_objlist__int_int_string J md5 W)
      ≡ false) where
  pub call-searpc_strlen :
      (str : Bytes) (j name : J.Json) (w : W)
      → J.json_string str ≡ some j
      → J.json_string strlen_name ≡ some name
      → J.Loadable (request_array J (codec J (test_objects J) 1) W name (j ∷ []))
      → IsInt (pos (length str))
      → J.Loadable (reply_object J (codec J (test_objects J) 1) (Value.int (pos (length str))) none)
      → searpc_client_call__int J
          (codec J (test_objects J) 1)
          W
          (loopback J (codec J (test_objects J) 1) W (demo_server J md5 W) searpc_demo)
          (some strlen_name)
          (Param.string (some str) ∷ [])
          w
        ≡ (done (pos (length str), none), w)
  unfolding strlen_func searpc_strlen
  call-searpc_strlen str j name w h n l i r =
      call__int-serve J (codec J (test_objects J) 1) W (demo_server J md5 W) searpc_demo strlen_name
        (signature_int__string J md5 W) (strlen_func J md5 W) (Param.string (some str) ∷ [])
        (ArgType.string ∷ []) (j ∷ []) (Arg.string (some str) ∷ []) name w w
        (demo_found J md5 W distinct).0 n (AcceptsAll.cons (Accepts.string str j h) AcceptsAll.nil)
        l (pos (length str)) (rw (to_int_of_IsInt (pos (length str)) i) refl) i r

  -- A call of the demo's searpc_objlisttest over the in-process transport to the server that
  -- start_rpc_service sets up, where the two signatures differ, the count is positive and an int,
  -- the length is from -1 to 256, the string and the name are valid UTF-8, and request and reply
  -- stay within the parser's limit: the caller gets the list of the count's many objects that the
  -- function makes, and no error.
  pub call-searpc_objlisttest :
      (count : ℕ) (len : ℤ) (str : Bytes) (j name : J.Json) (w : W)
      → IsInt (pos (suc count))
      → len_valid len ≡ true
      → J.json_string str ≡ some j
      → J.json_string objlisttest_name ≡ some name
      → J.Loadable (
          request_array J
            (codec J (test_objects J) 1)
            W
            name
            (J.json_integer (to_int (pos (suc count))) ∷ J.json_integer (to_int len) ∷ j ∷ []))
      → J.Loadable (
          reply_object J
            (codec J (test_objects J) 1)
            (Value.objlist (searpc_objlisttest (suc count) len str))
            none)
      → searpc_client_call__objlist J
          (codec J (test_objects J) 1)
          W
          (loopback J (codec J (test_objects J) 1) W (demo_server J md5 W) searpc_demo)
          (some objlisttest_name)
          test_object
          (Param.int (pos (suc count)) ∷ Param.int len ∷ Param.string (some str) ∷ [])
          w
        ≡ (done (searpc_objlisttest (suc count) len str, none), w)
  unfolding objlisttest_func searpc_objlisttest
  call-searpc_objlisttest count len str j name w c l h n q r =
      call__objlist-serve J (codec J (test_objects J) 1) W (demo_server J md5 W) searpc_demo
        objlisttest_name (signature_objlist__int_int_string J md5 W) (objlisttest_func J md5 W)
        (Param.int (pos (suc count)) ∷ Param.int len ∷ Param.string (some str) ∷ [])
        (ArgType.int ∷ ArgType.int ∷ ArgType.string ∷ [])
        (J.json_integer (to_int (pos (suc count))) ∷ J.json_integer (to_int len) ∷ j ∷ [])
        (Arg.int (to_int (pos (suc count))) ∷ Arg.int (to_int len) ∷ Arg.string (some str) ∷ [])
        name w w (demo_found J md5 W distinct).1 n
        (AcceptsAll.cons (Accepts.int (pos (suc count))) (
          AcceptsAll.cons (Accepts.int len)
            (AcceptsAll.cons (Accepts.string str j h) AcceptsAll.nil)))
        q test_object (objlist_item len str) (searpc_objlisttest count len str)
        (rw (to_int_of_IsInt (pos (suc count)) c, to_int_of_IsInt len (len_valid-Within J len l))
          refl)
        refl (objlisttest-AllRoundTrip J (suc count) len str j l h) r
