-- ===== src/Tests/Mains.antt =====
-- Runs of the theorems on the demo programs.
use libsearpc.Prelude.{
  map, ℕ, ◌≡◌, ◌+◌, ◌<◌, suc, str_equal, to_int64, ◌↔◌, none, List, negsuc, refl, true, some, [],
  ◌∷◌, ◌++◌, arith, Bytes, length, pos,
}
use libsearpc.Jansson.Plain.{plain, new_string, dump, array_append, object_set}
use libsearpc.Jansson.Plain.Value.{Tree}
use libsearpc.Types.{done}
use libsearpc.Server.Reply.{searpc_marshal_set_ret_common}
use libsearpc.Server.Marshal.{convert_ret}
use libsearpc.Codec.Serialize.{json_gobject_serialize, serialize_properties, json_serialize_pspec}
use libsearpc.Pipe.Io.{Fd}
use libsearpc.Demo.Packet.{goes_on, htons}
use libsearpc.Demo.TestObject.{TestObject, test_object, get_value, test_object_class_init}
use libsearpc.Demo.Service.{searpc_objlisttest, demo_server, strlen_name, objlisttest_name}
use libsearpc.Demo.Laws.{packet}
use libsearpc.Demo.Checks.{succeeds, glist_verdict, hello_searpc, a_rpc_test}
use libsearpc.Demo.Checks.Laws.{glist_verdict_iff}
use libsearpc.Demo.Tcp.{
  TcpOutcomes, connection_init, client_main, accept_loop, server_main, accepting,
}
use libsearpc.Demo.Tcp.Served.{Wired}
use libsearpc.Demo.Tcp.Rounds.{
  Texts, strlen_request, strlen_reply, objlisttest_request, objlisttest_reply,
}
use libsearpc.Demo.Tcp.Mains.{client_main-server_main}
use libsearpc.Demo.Transport.{serve_connection}
use libsearpc.Demo.AsyncClient.{async_main}
use libsearpc.Demo.AsyncClient.Served.{async_main-serve}
use libsearpc.Tests.Wire.{bytes_moved}
use libsearpc.Tests.Demos.{no_md5, signatures_differ, test_codec}
use libsearpc.Server.Registry.{new_registry}
use libsearpc.Demo.Tcp.Clients.{Clients, accept_loop-Clients}
use libsearpc.Tests.Setting.{objects, server_of}
use libsearpc.Tests.Packets.{
  no_function, demo_peer, request, demo_called, length-no_function, demo_answered, no_nul,
  no_nul-NoNul,
}

abbrev texts : Texts plain no_md5 ℕ
texts = record {
  hello = Tree.string hello_searpc;
  hello_valid = unfold new_string in refl;
  a_test = Tree.string a_rpc_test;
  a_test_valid = unfold new_string in refl;
  strlen = Tree.string strlen_name;
  strlen_valid = unfold new_string in refl;
  objlisttest = Tree.string objlisttest_name;
  objlisttest_valid = unfold new_string in refl;
  request1_loadable = tt;
  reply1_loadable = tt;
  request2_loadable = tt;
  reply2_loadable = tt;
}

abbrev outcomes : TcpOutcomes
outcomes = record {
  socket = some 5;
  reused = true;
  connected = true;
  bound = true;
  listening = true;
}

abbrev an_end : Bytes → Fd
an_end text = record { events = bytes_moved 600; input = packet text; output = [] }

abbrev client1 : Fd
client1 = an_end (strlen_reply plain no_md5 ℕ)

abbrev peer1 : Fd
peer1 = an_end (strlen_request plain no_md5 ℕ texts)

abbrev client2 : Fd
client2 = an_end (objlisttest_reply plain no_md5 ℕ)

abbrev peer2 : Fd
peer2 = an_end (objlisttest_request plain no_md5 ℕ texts)

-- Two ends for texts of these lengths.
wired :
    (text reply : Bytes) (m n : ℕ)
    → length text ≡ suc m
    → length reply ≡ suc n
    → m + n < 254
    → no_nul reply ≡ true
    → Wired text reply (an_end reply) (an_end text)
wired text reply m n a b c h = record {
  client_steady = tt;
  peer_steady = tt;
  enough = omega (arith, a, b);
  text_fits = (omega (arith, a), omega (arith, a));
  reply_fits = (omega (arith, b), omega (arith, b));
  no_nul = no_nul-NoNul reply h;
  peer_input = refl;
  client_input = refl;
}

string-Wired :
    Wired (strlen_request plain no_md5 ℕ texts) (strlen_reply plain no_md5 ℕ) client1 peer1
unfolding dump array_append object_set searpc_marshal_set_ret_common convert_ret str_equal
string-Wired = wired _ _ _ _ refl refl (omega arith) refl

glist-Wired :
    Wired
      (objlisttest_request plain no_md5 ℕ texts)
      (objlisttest_reply plain no_md5 ℕ)
      client2
      peer2
unfolding dump array_append object_set searpc_marshal_set_ret_common convert_ret str_equal
    searpc_objlisttest json_gobject_serialize serialize_properties json_serialize_pspec get_value
    test_object_class_init new_string to_int64
glist-Wired = wired _ _ _ _ refl refl (omega arith) refl

client_main-server_main_example :
    (client1' client2' peer1' peer2' : Fd) × (client_main plain test_codec test_object outcomes
        client1 outcomes client2
      ≡ goes_on ((succeeds, client1') ∷ (succeeds, client2') ∷ []) client2')
    × (server_main plain test_codec ℕ
          (demo_server plain no_md5 ℕ)
          outcomes
          (some peer1 ∷ some peer2 ∷ [])
          9
        ≡ accepting 9 (peer1' ∷ peer2' ∷ []))
    × (client1'.output ≡ client1.output ++ peer1.input)
    × (client2'.output ≡ client2.output ++ peer2.input)
    × (peer1'.output ≡ peer1.output ++ client1.input)
    × (peer2'.output ≡ peer2.output ++ client2.input)
unfolding connection_init
client_main-server_main_example =
    client_main-server_main plain no_md5 ℕ signatures_differ texts outcomes outcomes outcomes
      client1 client2 peer1 peer2 9 refl refl (λ e. cc e, refl, refl, refl) string-Wired glist-Wired

-- A list that is not what the function makes.
abbrev other_list : List TestObject
other_list = record { len = negsuc 0; str = some hello_searpc; equal = true } ∷ []

glist_verdict_iff_example :
    (glist_verdict plain test_codec 1 (pos 11) a_rpc_test (done (other_list, none)) ≡ succeeds)
    ↔ (other_list ≡ searpc_objlisttest 1 (pos 11) a_rpc_test)
unfolding new_string
glist_verdict_iff_example = glist_verdict_iff plain 1 (pos 11) a_rpc_test other_list (
  record {
    text = hello_searpc;
    node = Tree.string hello_searpc;
    has_text = refl;
    valid = refl;
    in_range = omega arith;
  },
  tt,
)

async_main-serve_example :
    (client' peer' : Fd) × (async_main plain test_codec outcomes client1
      ≡ goes_on (pos (length hello_searpc) ∷ []) client')
    × (serve_connection plain test_codec ℕ (demo_server plain no_md5 ℕ) peer1 9 ≡ goes_on 9 peer')
    × (client'.input ≡ [])
    × (client'.output ≡ client1.output ++ peer1.input)
    × (peer'.output ≡ peer1.output ++ client1.input)
unfolding connection_init
async_main-serve_example =
    async_main-serve plain no_md5 ℕ signatures_differ texts outcomes client1 peer1 9 refl
      string-Wired

-- A client behind a failure of accept, on the server without functions.
accept_loop-Clients_example :
    (fds : List Fd) × (accept_loop plain objects ℕ
        (server_of (new_registry plain objects ℕ))
        (none ∷ some demo_peer ∷ [])
        3
        []
      ≡ accepting 3 ([] ++ fds))
    × (map (λ fd. fd.output) fds ≡ ([] ++ packet no_function) ∷ [])
unfolding htons
accept_loop-Clients_example =
    accept_loop-Clients plain objects ℕ (server_of (new_registry plain objects ℕ)) [] (
      Clients.accept_fails 3 3 (some demo_peer ∷ []) _ (
        Clients.client 3 3 demo_peer request [] demo_called [] [] tt
          (omega (arith, length-no_function)) (omega arith, omega arith)
          (omega (arith, length-no_function)) refl demo_answered (Clients.no_more 3)))
