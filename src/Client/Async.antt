-- ===== src/Client/Async.antt =====
-- The asynchronous calls of lib/searpc-client.c, and the callback that a transport makes.
pub mod Laws
use libsearpc.Prelude.{ℕ, Option, none, some, List, Bytes, codes, ℤ, pos, negsuc, ◌++◌}
use libsearpc.Jansson.{Jansson}
use libsearpc.Types.{GError, dft, Run, done, ◌>>=◌, Objects, RetType, Value}
use libsearpc.Client.Request.{Param, fcall_to_str}
use libsearpc.Client.Fret.{
  searpc_client_fret__string, searpc_client_fret__int, searpc_client_fret__int64,
  searpc_client_fret__object, searpc_client_fret__objlist, searpc_client_fret__json,
}
use libsearpc.Client.Call.{SearpcClient, AsyncCallData}
use libsearpc.Client.Generic.{Stored, store}

unfoldable pub transport_errstr : Bytes → GError
transport_errstr errstr = record {
  domain = dft;
  code = pos 500;
  message = codes "Transport error: " ++ errstr;
}

-- The test `ret < 0` of the transport's status.
unfoldable pub is_negative : ℤ → ℤ → ℤ → ℤ
is_negative (pos n) then_value else_value = else_value
is_negative (negsuc n) then_value else_value = then_value

module _ (J : Jansson) (O : Objects J) where
  -- The chain of tests on `data->ret_type`. An unknown type leaves the result NULL.
  unfoldable pub parse_result : RetType → O.GType → Bytes → ℕ → Run (Stored J O)
  parse_result RetType.int gtype retstr len =
      store J O Value.int (searpc_client_fret__int J retstr len)
  parse_result RetType.int64 gtype retstr len =
      store J O Value.int64 (searpc_client_fret__int64 J retstr len)
  parse_result RetType.string gtype retstr len =
      store J O Value.string (searpc_client_fret__string J retstr len)
  parse_result RetType.object gtype retstr len =
      store J O Value.object (searpc_client_fret__object J O gtype retstr len)
  parse_result RetType.objlist gtype retstr len =
      store J O Value.objlist (searpc_client_fret__objlist J O gtype retstr len)
  parse_result RetType.json gtype retstr len =
      store J O Value.json (searpc_client_fret__json J retstr len)
  parse_result RetType.other gtype retstr len = done (none, none)

module _ (J : Jansson) (O : Objects J) (W : Type 0) where
  unfoldable pub searpc_client_generic_callback :
      AsyncCallData J O W → Bytes → ℕ → Option Bytes → W → Run W
  unfolding parse_result transport_errstr
  searpc_client_generic_callback call retstr len (some errstr) w =
      done (call.callback none (some (transport_errstr errstr)) w)
  searpc_client_generic_callback call retstr len none w =
      parse_result J O call.ret_type call.gtype retstr len >>= λ (result, error).
      done (call.callback result error w)

  unfoldable pub searpc_client_async_call_v :
      SearpcClient J O W → Bytes → AsyncCallData J O W → List (Param J) → W → ℤ × W
  unfolding is_negative
  searpc_client_async_call_v client fname call params w = elim (fcall_to_str J fname params) [
    | none ↦ (negsuc 0, w)
    | some fstr ↦
        let (ret, w') = client.async_send fstr call w in (is_negative ret (negsuc 0) (pos 0), w')
  ]

  abbrev Callback : Type 0
  Callback = Option (Value J O) → Option GError → W → W

  module _ (client : SearpcClient J O W) (fname : Option Bytes) (callback : Callback) where
    -- The six asynchronous calls differ in the return type and in the object type that they store.
    abbrev async_call : RetType → O.GType → List (Param J) → W → ℤ × W
    async_call ret_type gtype params w = elim fname [
      | none ↦ (negsuc 0, w)
      | some name ↦
          searpc_client_async_call_v client name
            (record { callback = callback; ret_type = ret_type; gtype = gtype }) params w
    ]

    unfoldable pub searpc_client_async_call__int : List (Param J) → W → ℤ × W
    unfolding searpc_client_async_call_v
    searpc_client_async_call__int = async_call RetType.int O.type_invalid

    unfoldable pub searpc_client_async_call__int64 : List (Param J) → W → ℤ × W
    unfolding searpc_client_async_call_v
    searpc_client_async_call__int64 = async_call RetType.int64 O.type_invalid

    unfoldable pub searpc_client_async_call__string : List (Param J) → W → ℤ × W
    unfolding searpc_client_async_call_v
    searpc_client_async_call__string = async_call RetType.string O.type_invalid

    unfoldable pub searpc_client_async_call__object : O.GType → List (Param J) → W → ℤ × W
    unfolding searpc_client_async_call_v
    searpc_client_async_call__object = async_call RetType.object

    unfoldable pub searpc_client_async_call__objlist : O.GType → List (Param J) → W → ℤ × W
    unfolding searpc_client_async_call_v
    searpc_client_async_call__objlist = async_call RetType.objlist

    unfoldable pub searpc_client_async_call__json : List (Param J) → W → ℤ × W
    unfolding searpc_client_async_call_v
    searpc_client_async_call__json = async_call RetType.json O.type_invalid
