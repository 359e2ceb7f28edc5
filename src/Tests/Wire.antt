-- ===== src/Tests/Wire.antt =====
-- Runs of the theorems on the pipe: descriptors with a few events, and a connection with one request.
use libsearpc.Prelude.{
  ℕ, zero, suc, ◌+◌, ◌≤◌, ◌<◌, ◌≡◌, refl, ◌∙◌, true, none, some, List, [], ◌∷◌, ◌++◌, arith, Bytes,
  codes, pos, to_int, length, take, drop, two32, str_equal,
}
use libsearpc.Jansson.{compact}
use libsearpc.Jansson.Plain.{plain, new_string, dump, object_set, array_append}
use libsearpc.Jansson.Plain.Value.{Tree}
use libsearpc.Types.{done, Value}
use libsearpc.Server.Call.{Called, run_function, searpc_server_call_function}
use libsearpc.Server.Call.Dispatch.{call_function_found}
use libsearpc.Server.Marshal.{marshal, convert_ret}
use libsearpc.Server.Reply.{searpc_marshal_set_ret_common}
use libsearpc.Rpc.Reply.{reply_text}
use libsearpc.Rpc.Loopback.{request_array, marshalled, name-request_array}
use libsearpc.Pipe.Io.{
  Event, moves, interrupted, moves_none, Fd, returned, pipe_write_n, pipe_read_n,
}
use libsearpc.Pipe.Io.Liveness.{Steady, moving, pipe_write_n-Steady, pipe_read_n-Steady}
use libsearpc.Pipe.Frame.{frame}
use libsearpc.Pipe.Envelope.{request_to_json, request_from_json, request_from_json-request_to_json}
use libsearpc.Pipe.Buffer.{grow, grow_total, grow_diverges}
use libsearpc.Pipe.Send.{searpc_named_pipe_send}
use libsearpc.Pipe.Send.Closed.{named_pipe_send_closed}
use libsearpc.Pipe.Handler.Session.{framed, Answered}
use libsearpc.Tests.Setting.{
  objects, Func, returns, svc, f, sig, types, elements, f_named, registry, server_of, f_found,
}

abbrev pub three : Bytes
three = 1 ∷ 2 ∷ 3 ∷ []

-- A descriptor whose calls are interrupted once, then move a byte, and then the rest.
abbrev choppy : Fd
choppy = record {
  events = interrupted ∷ moves 0 ∷ moves 5 ∷ moves 0 ∷ [];
  input = 7 ∷ 8 ∷ 9 ∷ [];
  output = 4 ∷ [];
}

abbrev pair : Bytes
pair = 7 ∷ 8 ∷ []

pipe_write_n-Steady_example :
    (events' : List Event) × (pipe_write_n choppy three
      ≡ returned true (record choppy { events = events'; output = (4 ∷ []) ++ three }))
    × Steady events'
    × (moving choppy.events ≤ moving events' + length three)
pipe_write_n-Steady_example = pipe_write_n-Steady choppy three tt (omega arith)

pipe_read_n-Steady_example :
    (events' : List Event) × (pipe_read_n choppy 2
      ≡ returned
          (some (take 2 choppy.input))
          (record choppy { events = events'; input = drop 2 choppy.input }))
    × Steady events'
    × (moving choppy.events ≤ moving events' + 2)
pipe_read_n-Steady_example = pipe_read_n-Steady choppy 2 tt (omega arith) (omega arith)

abbrev pub call_text : Bytes
call_text = codes "[f]"

request_from_json-request_to_json_example :
    request_from_json plain (request_to_json plain svc call_text) ≡ some (svc, call_text)
unfolding new_string
request_from_json-request_to_json_example =
    request_from_json-request_to_json plain svc call_text (Tree.string svc) (Tree.string call_text)
      refl refl tt

grow_total_example :
    (r : ℕ) × (grow 32 4096 100000 ≡ some r) × (100000 ≤ r) × (4096 ≤ r) × (r < two32)
grow_total_example = grow_total 4096 100000 (omega arith) (omega arith) (omega arith)

grow_diverges_example : grow 1000 4096 3000000000 ≡ none
grow_diverges_example = grow_diverges 3000000000 1000 (omega arith)

abbrev pub bytes_moved : ℕ → List Event
bytes_moved zero = []
bytes_moved (suc n) = moves 0 ∷ bytes_moved n

-- A fresh block of zeros.
abbrev pub zeros : ℕ → Bytes
zeros zero = []
zeros (suc n) = 0 ∷ zeros n

pub length-zeros : (n : ℕ) → length (zeros n) ≡ n
length-zeros zero = refl
length-zeros (suc n) = omega (arith, length-zeros n)

abbrev client_fd : Fd
client_fd = record { events = bytes_moved 60; input = frame three ++ (5 ∷ []); output = [] }

pub length-request_to_json : length (request_to_json plain svc call_text) ≡ 30
unfolding request_to_json dump new_string object_set str_equal
length-request_to_json = refl

named_pipe_send_closed_example :
    searpc_named_pipe_send plain zeros svc
      (record {
        events = moves 99 ∷ moves 99 ∷ moves_none ∷ moves_none ∷ [];
        input = [];
        output = [];
      })
      call_text
    ≡ returned (some (zeros (length (request_to_json plain svc call_text)))) (record {
      events = [];
      input = [];
      output = [] ++ frame (request_to_json plain svc call_text);
    })
named_pipe_send_closed_example =
    named_pipe_send_closed plain zeros svc [] [] call_text 99
      (omega (arith, length-request_to_json)) (omega (arith, length-request_to_json))
      (omega (arith, length-request_to_json))

abbrev pub seven : Func
seven = returns (Value.int (pos 7)) none

-- The request of a call of `f` with a string and an int, and the reply to it.
abbrev pub request : Bytes
request = plain.json_dumps compact (request_array plain objects ℕ (Tree.string f) elements)

abbrev pub reply : Bytes
reply = reply_text plain objects (Value.int (pos 7)) none

abbrev pub f_called : Called plain objects ℕ
f_called = record { ret = reply; world = 4; logged = [] }

abbrev pub message : Bytes
message = request_to_json plain svc request

pub length-message : length message ≡ 41
unfolding request_to_json dump new_string object_set str_equal array_append to_int
length-message = refl

pub length-reply : length reply ≡ 9
unfolding dump object_set str_equal searpc_marshal_set_ret_common convert_ret
length-reply = refl

pub request_answered :
    searpc_server_call_function plain objects ℕ (server_of (registry seven)) svc request 3
    ≡ done f_called
unfolding run_function marshal
request_answered =
    call_function_found plain objects ℕ (server_of (registry seven)) svc request f
      (request_array plain objects ℕ (Tree.string f) elements)
      (marshalled plain objects ℕ seven f types sig) 3
      (plain.loadb-dumps compact (request_array plain objects ℕ (Tree.string f) elements) tt)
      (name-request_array plain objects ℕ f (Tree.string f) elements f_named) (f_found seven)
    ∙ refl

pub message_read : request_from_json plain message ≡ some (svc, request)
unfolding new_string dump array_append
message_read =
    request_from_json-request_to_json plain svc request (Tree.string svc) (Tree.string request) refl
      refl tt

one_request : Answered plain objects ℕ (server_of (registry seven)) 3 (message ∷ []) (reply ∷ []) 4
one_request =
    Answered.next 3 4 message svc request f_called [] [] (omega (arith, length-message))
      (omega (arith, length-message)) (omega (arith, length-reply)) message_read request_answered
      (Answered.finished 4)

abbrev server_fd : Fd
server_fd = record {
  events = bytes_moved 100;
  input = framed (message ∷ []) ++ (5 ∷ []);
  output = [];
}
