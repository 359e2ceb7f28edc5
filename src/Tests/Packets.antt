-- ===== src/Tests/Packets.antt =====
-- Runs of the theorems on the packets of the demos.
use libsearpc.Prelude.{
  ℕ, zero, suc, ◌+◌, ◌≤◌, ◌<◌, ◌≡◌, ◌⊎◌, refl, Bool, true, false, some, List, [], ◌∷◌, ◌++◌, arith,
  Bytes, codes, length, pos, str_equal,
}
use libsearpc.Jansson.{compact}
use libsearpc.Jansson.Plain.{plain, new_string, dump, array_append, object_set}
use libsearpc.Jansson.Plain.Value.{Tree}
use libsearpc.Types.{done, out_of_bounds}
use libsearpc.Server.Table.{g_hash_table_lookup, lookup_live, insert_live}
use libsearpc.Server.Registry.{Registry, new_registry, searpc_create_service}
use libsearpc.Server.Reply.{error_to_json}
use libsearpc.Server.Call.{
  Called, function_error, service_error, snprintf, searpc_server_call_function,
}
use libsearpc.Server.Call.Dispatch.{call_function_missing}
use libsearpc.Rpc.Loopback.{sample_send, request_array, name-request_array}
use libsearpc.Pipe.Io.{Event, Fd}
use libsearpc.Pipe.Io.Liveness.{Steady, moving}
use libsearpc.Demo.Packet.{goes_on, crashes, read_packet}
use libsearpc.Demo.Transport.{transport_callback, serve_connection}
use libsearpc.Demo.Laws.{packet, read_packet_bounds}
use libsearpc.Demo.Session.{NoNul, transport_callback-sample_send}
use libsearpc.Tests.Setting.{objects, server_of}
use libsearpc.Tests.Wire.{bytes_moved}

abbrev three : Bytes
three = 1 ∷ 2 ∷ 3 ∷ []

abbrev packet_end : Fd
packet_end = record { events = bytes_moved 60; input = packet three ++ (5 ∷ []); output = [] }

read_packet_bounds_example :
    ((254 < length three) × (read_packet packet_end ≡ crashes out_of_bounds))
    ⊎ ((length three ≤ 254)
        × ((events' : List Event) × (read_packet packet_end
              ≡ goes_on (some three) (record packet_end { events = events'; input = 5 ∷ [] }))
            × Steady events'
            × (moving packet_end.events ≤ moving events' + (2 + length three))))
read_packet_bounds_example =
    read_packet_bounds packet_end three (5 ∷ []) tt (omega arith) (omega arith) (omega arith) refl

-- A server of the demo service without functions, and a request for one of them.
abbrev demo : Bytes
demo = codes "searpc-demo"

abbrev pub request : Bytes
request = codes "[f]"

abbrev pub no_nul : Bytes → Bool
no_nul [] = true
no_nul (zero ∷ text) = false
no_nul (suc c ∷ text) = no_nul text

pub no_nul-NoNul : (text : Bytes) → no_nul text ≡ true → NoNul text
no_nul-NoNul [] h = tt
no_nul-NoNul (zero ∷ text) h = absurd (cc h)
no_nul-NoNul (suc c ∷ text) h = (omega arith, no_nul-NoNul text h)

abbrev pub no_function : Bytes
no_function = error_to_json plain (pos 501) (some (codes "cannot find service searpc-demo."))

abbrev pub demo_called : Called plain objects ℕ
demo_called = record { ret = no_function; world = 3; logged = [] }

pub demo_answered :
    searpc_server_call_function plain objects ℕ
      (server_of (new_registry plain objects ℕ))
      demo
      request
      3
    ≡ done demo_called
unfolding searpc_server_call_function lookup_live service_error snprintf
demo_answered = refl

no_function-NoNul : NoNul no_function
unfolding error_to_json dump object_set new_string str_equal
no_function-NoNul = no_nul-NoNul no_function refl

abbrev demo_client : Fd
demo_client = record { events = bytes_moved 100; input = packet no_function; output = [] }

abbrev pub demo_peer : Fd
demo_peer = record { events = bytes_moved 100; input = packet request; output = [] }

pub length-no_function : length no_function ≡ 57
unfolding error_to_json dump object_set new_string str_equal
length-no_function = refl

transport_callback-sample_send_example :
    (reply : Bytes) × (world : ℕ) × (client' : Fd) × (peer' : Fd) × (sample_send plain objects ℕ
        (server_of (new_registry plain objects ℕ))
        demo
        request
        3
      ≡ (some reply, world))
    × (transport_callback demo_client request ≡ goes_on reply client')
    × (serve_connection plain objects ℕ (server_of (new_registry plain objects ℕ)) demo_peer 3
        ≡ goes_on world peer')
    × (client'.output ≡ demo_client.output ++ demo_peer.input)
    × (peer'.output ≡ demo_peer.output ++ demo_client.input)
transport_callback-sample_send_example =
    transport_callback-sample_send plain objects ℕ (server_of (new_registry plain objects ℕ))
      demo_client demo_peer 3 request demo_called tt tt (omega (arith, length-no_function))
      (omega arith, omega arith)
      (omega (arith, length-no_function), omega (arith, length-no_function)) no_function-NoNul refl
      refl demo_answered

-- A server of the demo service, and a request for a function whose name is 240 bytes long.
abbrev demo_only : Registry plain objects ℕ
demo_only = (searpc_create_service plain objects ℕ (some demo) (new_registry plain objects ℕ)).1

abbrev letters : ℕ → Bytes
letters zero = []
letters (suc n) = 97 ∷ letters n

abbrev long_request : Bytes
long_request =
    plain.json_dumps compact
      (plain.json_array_append_new plain.json_array (plain.json_string (letters 240)))

abbrev long_called : Called plain objects ℕ
long_called = record {
  ret = error_to_json plain (pos 500) (some (function_error (letters 240)));
  world = 3;
  logged = [];
}

long_answered :
    searpc_server_call_function plain objects ℕ (server_of demo_only) demo long_request 3
    ≡ done long_called
unfolding g_hash_table_lookup searpc_create_service lookup_live insert_live str_equal new_string
long_answered =
    call_function_missing plain objects ℕ (server_of demo_only) demo long_request (letters 240)
      (request_array plain objects ℕ (Tree.string (letters 240)) [])
      (record { name = demo; func_table = [] }) 3
      (plain.loadb-dumps compact (request_array plain objects ℕ (Tree.string (letters 240)) []) tt)
      (name-request_array plain objects ℕ (letters 240) (Tree.string (letters 240)) [] refl) refl
      refl

length-long_request : length long_request ≡ 245
unfolding dump array_append new_string
length-long_request = refl

length-long_ret : length long_called.ret ≡ 279
unfolding error_to_json dump object_set new_string str_equal function_error snprintf
length-long_ret = refl
