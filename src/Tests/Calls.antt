-- ===== src/Tests/Calls.antt =====
-- Runs of the theorems on calls through the in-process transport.
use libsearpc.Prelude.{
  ℕ, ◌+◌, ◌≡◌, refl, arith, true, Option, none, some, [], ◌∷◌, Bytes, codes, pos, negsuc,
}
use libsearpc.Jansson.{compact}
use libsearpc.Jansson.Plain.{plain, new_string, dump, array_append}
use libsearpc.Jansson.Plain.Value.{Tree}
use libsearpc.Types.{GError, dft, done, crash, out_of_bounds, Value, RetType}
use libsearpc.Client.Request.{fcall_params, fcall_to_str}
use libsearpc.Client.Call.{
  SearpcClient, searpc_client_call__int, searpc_client_call__int64, searpc_client_call__string,
  searpc_client_call__json, searpc_client_call__object, searpc_client_call__objlist,
}
use libsearpc.Rpc.Loopback.{loopback}
use libsearpc.Rpc.Loopback.Typed.{call__int-serve, call__objlist-serve, calls-error}
use libsearpc.Client.Generic.{searpc_client_call}
use libsearpc.Client.Async.Laws.{called_back, delivered, callback-call}
use libsearpc.Client.Generic.Laws.{stored, call-typed, call-string_overread}
use libsearpc.Tests.Setting.{
  objects, objects-RoundTrips, Func, returns, svc, f, sig, params, types, elements, args,
  params-AcceptsAll, f_named, registry, server_of, f_found,
}

abbrev client : Func → SearpcClient plain objects ℕ
client func = loopback plain objects ℕ (server_of (registry func)) svc

abbrev seven : Func
seven = returns (Value.int (pos 7)) none

call__int-serve_example :
    searpc_client_call__int plain objects ℕ (client seven) (some f) params 3
    ≡ (done (pos 7, none), 4)
call__int-serve_example =
    call__int-serve plain objects ℕ (server_of (registry seven)) svc f sig seven params types
      elements args (Tree.string f) 3 4 (f_found seven) f_named params-AcceptsAll tt (pos 7) refl
      (omega arith) tt

abbrev long : Func
long = returns (Value.int64 (negsuc 4294967296)) none

abbrev word : Func
word = returns (Value.string (some (codes "hello"))) none

abbrev tree : Func
tree = returns (Value.json (some (Tree.integer (pos 2)))) none

abbrev one : Func
one = returns (Value.object (some 8)) none

abbrev two : Func
two = returns (Value.objlist (8 ∷ 9 ∷ [])) none

call__objlist-serve_example :
    searpc_client_call__objlist plain objects ℕ (client two) (some f) true params 3
    ≡ (done (8 ∷ 9 ∷ [], none), 4)
call__objlist-serve_example =
    call__objlist-serve plain objects ℕ (server_of (registry two)) svc f sig two params types
      elements args (Tree.string f) 3 4 (f_found two) f_named params-AcceptsAll tt true 8 (9 ∷ [])
      refl refl (objects-RoundTrips 8, (objects-RoundTrips 9, tt)) tt

abbrev denied : GError
denied = record { domain = dft; code = pos 5; message = codes "denied" }

abbrev refuse : Func
refuse = returns (Value.int (pos 1)) (some denied)

calls-error_example :
    (searpc_client_call__int plain objects ℕ (client refuse) (some f) params 3
      ≡ (done (negsuc 0, some denied), 4))
    × (searpc_client_call__int64 plain objects ℕ (client refuse) (some f) params 3
        ≡ (done (negsuc 0, some denied), 4))
    × (searpc_client_call__string plain objects ℕ (client refuse) (some f) params 3
        ≡ (done (none, some denied), 4))
    × (searpc_client_call__json plain objects ℕ (client refuse) (some f) params 3
        ≡ (done (none, some denied), 4))
    × (searpc_client_call__object plain objects ℕ (client refuse) (some f) true params 3
        ≡ (done (none, some denied), 4))
    × (searpc_client_call__objlist plain objects ℕ (client refuse) (some f) true params 3
        ≡ (done ([], some denied), 4))
unfolding new_string
calls-error_example =
    calls-error plain objects ℕ (server_of (registry refuse)) svc f sig refuse params types elements
      args (Tree.string f) 3 4 (f_found refuse) f_named params-AcceptsAll tt (Value.int (pos 1))
      denied (Tree.string (codes "denied")) true refl (omega arith) refl tt refl

-- A client whose transport counts its calls and gives the same reply to all of them.
abbrev constant : Option Bytes → SearpcClient plain objects ℕ
constant reply = record {
  send = λ text w. (reply, w + 1);
  async_send = λ text call w. (negsuc 0, w);
}

abbrev request : Bytes
request =
    plain.json_dumps compact (plain.json_array_append_new plain.json_array (plain.json_string f))

request_lem : fcall_to_str plain f [] ≡ some request
unfolding fcall_to_str fcall_params
request_lem = refl

call-typed_example :
    (searpc_client_call plain objects ℕ (constant (some [])) (some f) RetType.int true [] 3
      ≡ stored plain objects ℕ Value.int
          (searpc_client_call__int plain objects ℕ (constant (some [])) (some f) [] 3))
    × (searpc_client_call plain objects ℕ (constant (some [])) (some f) RetType.int64 true [] 3
        ≡ stored plain objects ℕ Value.int64
            (searpc_client_call__int64 plain objects ℕ (constant (some [])) (some f) [] 3))
    × (searpc_client_call plain objects ℕ (constant (some [])) (some f) RetType.json true [] 3
        ≡ stored plain objects ℕ Value.json
            (searpc_client_call__json plain objects ℕ (constant (some [])) (some f) [] 3))
    × (searpc_client_call plain objects ℕ (constant (some [])) (some f) RetType.object true [] 3
        ≡ stored plain objects ℕ Value.object
            (searpc_client_call__object plain objects ℕ (constant (some [])) (some f) true [] 3))
    × (searpc_client_call plain objects ℕ (constant (some [])) (some f) RetType.objlist true [] 3
        ≡ stored plain objects ℕ Value.objlist
            (searpc_client_call__objlist plain objects ℕ (constant (some [])) (some f) true [] 3))
call-typed_example =
    call-typed plain objects ℕ (constant (some [])) f request [] true [] 3 4 request_lem refl refl

call-string_overread_example :
    searpc_client_call plain objects ℕ (constant (some [])) (some f) RetType.string true [] 3
    ≡ (crash out_of_bounds, 4)
unfolding dump array_append new_string
call-string_overread_example =
    call-string_overread plain objects ℕ (constant (some [])) f request [] true [] 3 4 request_lem
      refl (omega arith)

-- A callback that leaves 5 for a result and 6 for none.
abbrev callback : Option (Value plain objects) → Option GError → ℕ → ℕ
callback none error u = 6
callback (some value) error u = 5

abbrev asked : SearpcClient plain objects ℕ
asked = constant (some (codes "x"))

callback-call_example :
    (delivered plain objects ℕ callback 1 RetType.int true (codes "x")
      ≡ called_back plain objects ℕ callback 1 Value.int
          (searpc_client_call__int plain objects ℕ asked (some f) [] 3))
    × (delivered plain objects ℕ callback 1 RetType.int64 true (codes "x")
        ≡ called_back plain objects ℕ callback 1 Value.int64
            (searpc_client_call__int64 plain objects ℕ asked (some f) [] 3))
    × (delivered plain objects ℕ callback 1 RetType.string true (codes "x")
        ≡ called_back plain objects ℕ callback 1 Value.string
            (searpc_client_call__string plain objects ℕ asked (some f) [] 3))
    × (delivered plain objects ℕ callback 1 RetType.json true (codes "x")
        ≡ called_back plain objects ℕ callback 1 Value.json
            (searpc_client_call__json plain objects ℕ asked (some f) [] 3))
    × (delivered plain objects ℕ callback 1 RetType.object true (codes "x")
        ≡ called_back plain objects ℕ callback 1 Value.object
            (searpc_client_call__object plain objects ℕ asked (some f) true [] 3))
    × (delivered plain objects ℕ callback 1 RetType.objlist true (codes "x")
        ≡ called_back plain objects ℕ callback 1 Value.objlist
            (searpc_client_call__objlist plain objects ℕ asked (some f) true [] 3))
callback-call_example =
    callback-call plain objects ℕ callback 1 asked f request (codes "x") true [] 3 4 request_lem
      refl refl
