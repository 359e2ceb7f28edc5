-- ===== src/Client/Generic.antt =====
-- `searpc_client_call`, which takes the return type at run time.
pub mod Laws
use libsearpc.Prelude.{ℕ, Option, none, some, List, Bytes, length}
use libsearpc.Jansson.{Jansson}
use libsearpc.Types.{GError, Run, done, crash, ◌>>=◌, Objects, RetType, Value}
use libsearpc.Client.Request.{Param}
use libsearpc.Client.Fret.{
  searpc_client_fret__string, searpc_client_fret__int, searpc_client_fret__int64,
  searpc_client_fret__object, searpc_client_fret__objlist, searpc_client_fret__json,
}
use libsearpc.Client.Call.{
  SearpcClient, Sent, invalid_parameter, transport_failed, replied, send_call,
  invalid_parameter_error, transport_error,
}

module _ (J : Jansson) (O : Objects J) where
  -- What was stored through `ret_ptr`, if anything.
  abbrev pub Stored : Type 0
  Stored = Option (Value J O) × Option GError

  abbrev pub store {ℓ} : {A : Type ℓ} → (A → Value J O) → Run (A × Option GError) → Run Stored
  store make (done (a, e)) = done (some (make a), e)
  store make (crash f) = crash f

  -- The chain of tests on `ret_type`. The string is decoded by the length of the request.
  unfoldable pub decode_reply : RetType → O.GType → ℕ → Bytes → Run Stored
  decode_reply RetType.int gtype len fret =
      store Value.int (searpc_client_fret__int J fret (length fret))
  decode_reply RetType.int64 gtype len fret =
      store Value.int64 (searpc_client_fret__int64 J fret (length fret))
  decode_reply RetType.string gtype len fret =
      store Value.string (searpc_client_fret__string J fret len)
  decode_reply RetType.object gtype len fret =
      store Value.object (searpc_client_fret__object J O gtype fret (length fret))
  decode_reply RetType.objlist gtype len fret =
      store Value.objlist (searpc_client_fret__objlist J O gtype fret (length fret))
  decode_reply RetType.json gtype len fret =
      store Value.json (searpc_client_fret__json J fret (length fret))
  decode_reply RetType.other gtype len fret = done (none, none)

  unfoldable pub receive_call : RetType → O.GType → Sent → Run Stored
  unfolding decode_reply
  receive_call ret_type gtype invalid_parameter = done (none, some invalid_parameter_error)
  receive_call ret_type gtype transport_failed = done (none, some transport_error)
  receive_call ret_type gtype (replied len fret) = decode_reply ret_type gtype len fret

  unfoldable pub searpc_client_call :
      (W : Type 0)
      → SearpcClient J O W
      → Option Bytes
      → RetType
      → O.GType
      → List (Param J)
      → W
      → Run Stored × W
  unfolding receive_call send_call
  searpc_client_call W client none ret_type gtype params w = (done (none, none), w)
  searpc_client_call W client (some fname) ret_type gtype params w =
      let (sent, w') = send_call J O W client fname params w in
      (receive_call ret_type gtype sent, w')
