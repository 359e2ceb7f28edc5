-- ===== src/Client/Call.antt =====
-- The synchronous calls of lib/searpc-client.c. A call returns its value with the error that it
-- set, or the fault that ended it, and the world that the transport left. A function pointer of
-- the client stands with its `arg`. Memory is not modelled, so the calls of `g_free` are left out.
use libsearpc.Prelude.{ℕ, Option, none, some, List, [], Bytes, codes, ℤ, pos, length, if◌then◌else◌}
use libsearpc.Jansson.{Jansson}
use libsearpc.Types.{GError, dft, Run, done, Objects, RetType, Value}
use libsearpc.Client.Request.{Param, fcall_to_str}
use libsearpc.Client.Fret.{
  searpc_client_fret__string, searpc_client_fret__int, searpc_client_fret__int64,
  searpc_client_fret__object, searpc_client_fret__objlist, searpc_client_fret__json,
}

abbrev pub invalid_parameter_error : GError
invalid_parameter_error = record { domain = dft; code = pos 0; message = codes "Invalid Parameter" }

-- TRANSPORT_ERROR_CODE and TRANSPORT_ERROR
abbrev pub transport_error : GError
transport_error = record { domain = dft; code = pos 500; message = codes "Transport Error" }

-- How far a call came: no request, no reply, or the reply to a request of the given length.
pub data Sent : Type 0 where
  invalid_parameter transport_failed : Sent
  replied : ℕ → Bytes → Sent

module _ (J : Jansson) (O : Objects J) (W : Type 0) where
  open O use {GObject, GType, is_invalid}
  open J use {Json}

  -- The closure that an asynchronous call passes to its transport. The callback is given NULL or
  -- a result, and the error; it stands with its user data.
  pub record AsyncCallData : Type 0 where
    pub callback : Option (Value J O) → Option GError → W → W
    pub ret_type : RetType
    pub gtype : GType

  -- `struct _SearpcClient`. The reply's length is the length of the returned buffer.
  pub record SearpcClient : Type 0 where
    pub send : Bytes → W → Option Bytes × W
    pub async_send : Bytes → AsyncCallData → W → ℤ × W

  unfoldable pub searpc_client_transport_send : SearpcClient → Bytes → W → Option Bytes × W
  searpc_client_transport_send client fcall_str w = client.send fcall_str w

  abbrev sent_of : ℕ → Option Bytes → Sent
  sent_of len none = transport_failed
  sent_of len (some fret) = replied len fret

  -- The first half of every call: build the request, and send it if there is one.
  unfoldable pub send_call : SearpcClient → Bytes → List (Param J) → W → Sent × W
  unfolding searpc_client_transport_send
  send_call client fname params w = elim (fcall_to_str J fname params) [
    | none ↦ (invalid_parameter, w)
    | some fstr ↦
        let (fret, w') = searpc_client_transport_send client fstr w in
        (sent_of (length fstr) fret, w')
  ]

  -- The second half of a typed call: an error with the default value, or the decoded reply.
  unfoldable pub receive {ℓ} :
      {A : Type ℓ} → A → (Bytes → ℕ → Run (A × Option GError)) → Sent → Run (A × Option GError)
  receive default decode invalid_parameter = done (default, some invalid_parameter_error)
  receive default decode transport_failed = done (default, some transport_error)
  receive default decode (replied len fret) = decode fret (length fret)

  unfoldable pub typed_call {ℓ} :
      {A : Type ℓ}
      → A
      → (Bytes → ℕ → Run (A × Option GError))
      → SearpcClient
      → Bytes
      → List (Param J)
      → W
      → Run (A × Option GError) × W
  unfolding send_call receive
  typed_call default decode client fname params w =
      let (sent, w') = send_call client fname params w in (receive default decode sent, w')

  -- g_return_val_if_fail (fname != NULL, default)
  abbrev if_named {ℓ} :
      {A : Type ℓ}
      → Option Bytes
      → A
      → W
      → (Bytes → Run (A × Option GError) × W)
      → Run (A × Option GError) × W
  if_named none default w call = (done (default, none), w)
  if_named (some fname) default w call = call fname

  module _ (client : SearpcClient) (fname : Option Bytes) where
    unfoldable pub searpc_client_call__int : List (Param J) → W → Run (ℤ × Option GError) × W
    unfolding typed_call
    searpc_client_call__int params w =
        if_named fname (pos 0) w
          λ name. typed_call (pos 0) (searpc_client_fret__int J) client name params w

    unfoldable pub searpc_client_call__int64 : List (Param J) → W → Run (ℤ × Option GError) × W
    unfolding typed_call
    searpc_client_call__int64 params w =
        if_named fname (pos 0) w
          λ name. typed_call (pos 0) (searpc_client_fret__int64 J) client name params w

    unfoldable pub searpc_client_call__string :
        List (Param J) → W → Run (Option Bytes × Option GError) × W
    unfolding typed_call
    searpc_client_call__string params w =
        if_named fname none w
          λ name. typed_call none (searpc_client_fret__string J) client name params w

    unfoldable pub searpc_client_call__json :
        List (Param J) → W → Run (Option Json × Option GError) × W
    unfolding typed_call
    searpc_client_call__json params w =
        if_named fname none w
          λ name. typed_call none (searpc_client_fret__json J) client name params w

    unfoldable pub searpc_client_call__object :
        GType → List (Param J) → W → Run (Option GObject × Option GError) × W
    unfolding typed_call
    searpc_client_call__object object_type params w = if_named fname none w λ name.
        if is_invalid object_type
        then (done (none, none), w)
        else typed_call none (searpc_client_fret__object J O object_type) client name params w

    unfoldable pub searpc_client_call__objlist :
        GType → List (Param J) → W → Run (List GObject × Option GError) × W
    unfolding typed_call
    searpc_client_call__objlist object_type params w = if_named fname [] w λ name.
        if is_invalid object_type
        then (done ([], none), w)
        else typed_call [] (searpc_client_fret__objlist J O object_type) client name params w
