-- ===== src/Server/Call.antt =====
-- `searpc_server_call_function` of lib/searpc-server.c.
pub mod Dispatch
use libsearpc.Prelude.{ℕ, ◌-◌, Option, none, some, List, [], ◌∷◌, ◌++◌, Bytes, codes, ℤ, pos, take}
use libsearpc.Jansson.{Jansson, Loaded, loaded, load_error}
use libsearpc.Types.{Run, done, crash, null_pointer, ◌>>=◌, Objects}
use libsearpc.Server.Table.{lookup_live, g_hash_table_lookup}
use libsearpc.Server.Registry.{Registry, SearpcService, FuncItem}
use libsearpc.Server.Reply.{error_to_json}
use libsearpc.Server.SlowLog.{SlowLog, Timeval, LogLine, log_call}

-- snprintf (buf, n, ...): at most n - 1 bytes of the text
unfoldable pub snprintf : ℕ → Bytes → Bytes
snprintf n text = take (n - 1) text

unfoldable pub service_error : Bytes → Bytes
unfolding snprintf
service_error svc_name = snprintf 255 (codes "cannot find service " ++ (svc_name ++ codes "."))

unfoldable pub load_error_text : Bytes → Bytes
unfolding snprintf
load_error_text text = snprintf 511 (codes "failed to load RPC call: " ++ (text ++ (10 ∷ [])))

unfoldable pub function_error : Bytes → Bytes
unfolding snprintf
function_error fname = snprintf 255 (codes "cannot find function " ++ (fname ++ codes "."))

module _ (J : Jansson) (O : Objects J) (W : Type 0) where
  open J use {Json, json_loadb, json_array_get, json_string_value}

  -- The server process: the tables, the slow log, and the two readings of the clock that a call
  -- makes.
  pub record Server : Type 0 where
    pub registry : Registry J O W
    pub slow_log : SlowLog
    pub start : Timeval
    pub end : Timeval

  -- A reply, the world after the call, and what the call wrote to the slow log.
  pub record Called : Type 0 where
    pub ret : Bytes
    pub world : W
    pub logged : List LogLine

  abbrev reply_error : ℤ → Bytes → W → Called
  reply_error code text w = record {
    ret = error_to_json J code (some text);
    world = w;
    logged = [];
  }

  -- mfunc (fitem->func, array, ret_len), and the slow log
  unfoldable pub run_function : Server → Bytes → Bytes → FuncItem J O W → Json → W → Called
  unfolding log_call
  run_function server svc_name func fitem array w =
      let (ret, w') = fitem.marshal.mfunc fitem.func array w in
      record {
        ret = ret;
        world = w';
        logged = log_call server.slow_log svc_name func fitem.fname server.start server.end;
      }

  -- The name of the function may be NULL, which g_str_hash dereferences.
  unfoldable pub call_named :
      Server → Bytes → Bytes → SearpcService J O W → Json → Option Bytes → W → Run Called
  unfolding run_function function_error error_to_json g_hash_table_lookup
  call_named server svc_name func service array none w = crash null_pointer
  call_named server svc_name func service array (some fname) w =
      g_hash_table_lookup service.func_table fname >>= λ found. elim found [
        | none ↦ done (reply_error (pos 500) (function_error fname) w)
        | some fitem ↦ done (run_function server svc_name func fitem array w)
      ]

  unfoldable pub call_loaded :
      Server → Bytes → Bytes → SearpcService J O W → Loaded Json → W → Run Called
  unfolding call_named load_error_text error_to_json
  call_loaded server svc_name func service (load_error text) w =
      done (reply_error (pos 511) (load_error_text text) w)
  call_loaded server svc_name func service (loaded array) w =
      call_named server svc_name func service array (json_string_value (json_array_get array 0)) w

  -- `func` is the request; its length is given by the list.
  unfoldable pub searpc_server_call_function : Server → Bytes → Bytes → W → Run Called
  unfolding call_loaded service_error error_to_json
  searpc_server_call_function server svc_name func w =
      elim (lookup_live server.registry.service_table svc_name) [
        | none ↦ done (reply_error (pos 501) (service_error svc_name) w)
        | some service ↦ call_loaded server svc_name func service (json_loadb func) w
      ]
