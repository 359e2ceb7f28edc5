-- ===== src/Tests/Pipes.antt =====
-- A run of the typed calls over a named pipe.
use libsearpc.Prelude.{ℕ, ◌≡◌, ◌∙◌, refl, true, some, [], ◌∷◌, ◌++◌, arith}
use libsearpc.Jansson.{compact}
use libsearpc.Jansson.Plain.{plain, new_string, dump, array_append}
use libsearpc.Jansson.Plain.Value.{Tree}
use libsearpc.Client.Call.{
  SearpcClient, searpc_client_call__int, searpc_client_call__int64, searpc_client_call__string,
  searpc_client_call__json, searpc_client_call__object, searpc_client_call__objlist,
}
use libsearpc.Types.{done}
use libsearpc.Server.Marshal.{marshal}
use libsearpc.Server.Call.{Called, run_function, searpc_server_call_function}
use libsearpc.Server.Call.Dispatch.{call_function_found}
use libsearpc.Rpc.Loopback.{
  loopback, request_array, marshalled, name-request_array, fcall_to_str-Accepts,
}
use libsearpc.Pipe.Io.{Fd, returned}
use libsearpc.Pipe.Handler.{Handler, served, first_handler, handle_round, handle_rounds}
use libsearpc.Pipe.Handler.Session.{framed}
use libsearpc.Pipe.Connection.Session.{send_all, Conversation, over, then_call, session-Steady}
use libsearpc.Pipe.Client.{searpc_client_with_named_pipe_transport}
use libsearpc.Pipe.Client.Typed.{Agrees, calls-pipe}
use libsearpc.Tests.Setting.{
  objects, svc, f, sig, types, elements, f_found, params, params-AcceptsAll, f_named, registry,
  server_of,
}
use libsearpc.Tests.Wire.{
  zeros, length-zeros, bytes_moved, message, length-message, reply, length-reply, request, f_called,
  seven, request_answered,
}
use libsearpc.Tests.Connections.{client_end, server_end, ends-Ready}

abbrev pipe : SearpcClient plain objects Fd
pipe = searpc_client_with_named_pipe_transport plain objects zeros svc

abbrev local : SearpcClient plain objects ℕ
local = loopback plain objects ℕ (server_of (registry seven)) svc

calls-pipe_example :
    (client' peer' : Fd) × (handler' : Handler ℕ) × (handle_round plain objects ℕ zeros
        (server_of (registry seven))
        server_end
        (first_handler zeros 3)
      ≡ served peer' handler')
    × (handler'.world ≡ f_called.world)
    × (client'.input ≡ [])
    × (peer'.input ≡ [])
    × (client'.output ≡ client_end.output ++ server_end.input)
    × (peer'.output ≡ server_end.output ++ client_end.input)
    × Agrees plain objects ℕ
        (searpc_client_call__int plain objects Fd pipe (some f) params client_end)
        (searpc_client_call__int plain objects ℕ local (some f) params 3)
        client'
        f_called.world
    × Agrees plain objects ℕ
        (searpc_client_call__int64 plain objects Fd pipe (some f) params client_end)
        (searpc_client_call__int64 plain objects ℕ local (some f) params 3)
        client'
        f_called.world
    × Agrees plain objects ℕ
        (searpc_client_call__string plain objects Fd pipe (some f) params client_end)
        (searpc_client_call__string plain objects ℕ local (some f) params 3)
        client'
        f_called.world
    × Agrees plain objects ℕ
        (searpc_client_call__json plain objects Fd pipe (some f) params client_end)
        (searpc_client_call__json plain objects ℕ local (some f) params 3)
        client'
        f_called.world
    × Agrees plain objects ℕ
        (searpc_client_call__object plain objects Fd pipe (some f) true params client_end)
        (searpc_client_call__object plain objects ℕ local (some f) true params 3)
        client'
        f_called.world
    × Agrees plain objects ℕ
        (searpc_client_call__objlist plain objects Fd pipe (some f) true params client_end)
        (searpc_client_call__objlist plain objects ℕ local (some f) true params 3)
        client'
        f_called.world
calls-pipe_example =
    calls-pipe plain objects ℕ zeros (server_of (registry seven)) svc f request true params
      client_end server_end (first_handler zeros 3) f_called
      (fcall_to_str-Accepts plain objects ℕ f (Tree.string f) f_named params-AcceptsAll)
      request_answered refl ends-Ready

-- The same request twice, over one connection.
abbrev second : Called plain objects ℕ
second = record { ret = reply; world = 5; logged = [] }

second_answered :
    searpc_server_call_function plain objects ℕ (server_of (registry seven)) svc request 4
    ≡ done second
unfolding run_function marshal
second_answered =
    call_function_found plain objects ℕ (server_of (registry seven)) svc request f
      (request_array plain objects ℕ (Tree.string f) elements)
      (marshalled plain objects ℕ seven f types sig) 4
      (plain.loadb-dumps compact (request_array plain objects ℕ (Tree.string f) elements) tt)
      (name-request_array plain objects ℕ f (Tree.string f) elements f_named) (f_found seven)
    ∙ refl

conversation :
    Conversation plain objects ℕ
      (server_of (registry seven))
      svc
      3
      (request ∷ request ∷ [])
      (reply ∷ reply ∷ [])
      5
unfolding new_string dump array_append
conversation =
    then_call 3 5 request (Tree.string request) f_called (request ∷ []) (reply ∷ []) refl tt
      (omega (arith, length-message)) (omega (arith, length-message)) (omega (arith, length-reply))
      request_answered
      (then_call 4 5 request (Tree.string request) second [] [] refl tt
        (omega (arith, length-message)) (omega (arith, length-message))
        (omega (arith, length-reply)) second_answered (over 5))

abbrev caller : Fd
caller = record { events = bytes_moved 200; input = framed (reply ∷ reply ∷ []); output = [] }

abbrev answerer : Fd
answerer = record { events = bytes_moved 200; input = framed (message ∷ message ∷ []); output = [] }

session-Steady_example :
    (client' peer' : Fd) × (handler' : Handler ℕ) × (send_all plain zeros svc
        (request ∷ request ∷ [])
        caller
      ≡ returned (some reply ∷ some reply ∷ []) client')
    × (handle_rounds plain objects ℕ 2 zeros
          (server_of (registry seven))
          answerer
          (first_handler zeros 3)
        ≡ served peer' handler')
    × (handler'.world ≡ 5)
    × (client'.input ≡ [])
    × (peer'.input ≡ [])
    × (client'.output ≡ caller.output ++ answerer.input)
    × (peer'.output ≡ answerer.output ++ caller.input)
unfolding new_string
session-Steady_example =
    session-Steady plain objects ℕ zeros (server_of (registry seven)) svc (Tree.string svc) caller
      answerer (first_handler zeros 3) length-zeros refl conversation tt tt
      (omega (arith, length-message, length-reply)) (omega arith, omega arith) refl refl refl
