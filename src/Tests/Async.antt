-- ===== src/Tests/Async.antt =====
-- A run of the asynchronous calls in one process.
use libsearpc.Prelude.{ℕ, ◌+◌, ◌≡◌, refl, true, Option, none, some, Bytes, pos}
use libsearpc.Jansson.{compact}
use libsearpc.Jansson.Plain.{plain}
use libsearpc.Jansson.Plain.Value.{Tree}
use libsearpc.Types.{GError, Value, done}
use libsearpc.Client.Call.{
  SearpcClient, searpc_client_call__int, searpc_client_call__int64, searpc_client_call__string,
  searpc_client_call__json, searpc_client_call__object, searpc_client_call__objlist,
}
use libsearpc.Client.Async.{
  searpc_client_async_call__int, searpc_client_async_call__int64, searpc_client_async_call__string,
  searpc_client_async_call__json, searpc_client_async_call__object,
  searpc_client_async_call__objlist,
}
use libsearpc.Server.Call.{Called, searpc_server_call_function}
use libsearpc.Rpc.Reply.{reply_text}
use libsearpc.Rpc.Loopback.{request_array, fcall_to_str-Accepts, call_function-serve}
use libsearpc.Rpc.AsyncLoopback.{in_process, Follows, async-sync}
use libsearpc.Tests.Setting.{
  objects, Func, returns, svc, f, sig, params, elements, params-AcceptsAll, f_named, f_found,
  registry, server_of,
}

abbrev seven : Func
seven = returns (Value.int (pos 7)) none

-- The callback leaves a mark in the world.
abbrev callback : Option (Value plain objects) → Option GError → ℕ → ℕ
callback none error u = u + 100
callback (some value) error u = u + 10

abbrev client : SearpcClient plain objects ℕ
client = in_process plain objects ℕ (server_of (registry seven)) svc

abbrev request : Bytes
request = plain.json_dumps compact (request_array plain objects ℕ (Tree.string f) elements)

served :
    (called : Called plain objects ℕ) × (searpc_server_call_function plain objects ℕ
        (server_of (registry seven))
        svc
        request
        3
      ≡ done called)
    × (called.ret ≡ reply_text plain objects (Value.int (pos 7)) none)
    × (called.world ≡ 4)
served =
    call_function-serve plain objects ℕ (server_of (registry seven)) svc f sig seven (Tree.string f)
      (Value.int (pos 7)) none 3 4 (f_found seven) f_named params-AcceptsAll tt refl

async-sync_example :
    Follows plain objects ℕ callback Value.int
      (searpc_client_call__int plain objects ℕ client (some f) params 3)
      (searpc_client_async_call__int plain objects ℕ client (some f) callback params 3)
    × Follows plain objects ℕ callback Value.int64
        (searpc_client_call__int64 plain objects ℕ client (some f) params 3)
        (searpc_client_async_call__int64 plain objects ℕ client (some f) callback params 3)
    × Follows plain objects ℕ callback Value.string
        (searpc_client_call__string plain objects ℕ client (some f) params 3)
        (searpc_client_async_call__string plain objects ℕ client (some f) callback params 3)
    × Follows plain objects ℕ callback Value.json
        (searpc_client_call__json plain objects ℕ client (some f) params 3)
        (searpc_client_async_call__json plain objects ℕ client (some f) callback params 3)
    × Follows plain objects ℕ callback Value.object
        (searpc_client_call__object plain objects ℕ client (some f) true params 3)
        (searpc_client_async_call__object plain objects ℕ client (some f) callback true params 3)
    × Follows plain objects ℕ callback Value.objlist
        (searpc_client_call__objlist plain objects ℕ client (some f) true params 3)
        (searpc_client_async_call__objlist plain objects ℕ client (some f) callback true params 3)
async-sync_example =
    async-sync plain objects ℕ callback (server_of (registry seven)) svc f request true params 3
      served.0 (fcall_to_str-Accepts plain objects ℕ f (Tree.string f) f_named params-AcceptsAll)
      served.1 refl
