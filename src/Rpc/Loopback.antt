-- ===== src/Rpc/Loopback.antt =====
-- The client against the server in one process: `sample_send` of tests/searpc.c, which hands the
-- request to searpc_server_call_function.
pub mod Typed
pub mod Errors
pub mod ObjectCalls
use libsearpc.Prelude.{
  ℕ, ◌≡◌, refl, ap, Option, none, some, List, [], ◌∷◌, arith, length, Bytes, ℤ, negsuc,
}
use libsearpc.Jansson.{Jansson, Loaded, loaded, compact}
use libsearpc.Types.{GError, Run, done, crash, Fault, Objects, Value, Arg, ArgType}
use libsearpc.Client.Request.{Param, fcall_params, fcall_to_str}
use libsearpc.Client.Call.{
  SearpcClient, send_call, typed_call, replied, searpc_client_transport_send, receive,
}
use libsearpc.Server.Registry.{RpcFunc, FuncItem, find_function}
use libsearpc.Server.Marshal.{marshal, get_parameters, convert_ret}
use libsearpc.Server.Reply.{searpc_marshal_set_ret_common}
use libsearpc.Server.Call.{Server, Called, run_function, searpc_server_call_function}
use libsearpc.Server.Call.Dispatch.{call_function_found}
use libsearpc.Rpc.Array.{build, Holds-array, Holds-build, Holds-get}
use libsearpc.Rpc.Request.{AcceptsAll, fcall_params-build, get_parameters-build}
use libsearpc.Rpc.Reply.{reply_text}

module _ (J : Jansson) (O : Objects J) (W : Type 0) where
  open J use {Json, json_string, json_array, json_array_append_new, json_dumps, Loadable}

  -- What the transport makes of a call: a reply, or none if the call ended the server.
  unfoldable pub answer : W → Run (Called J O W) → Option Bytes × W
  answer w (done called) = (some called.ret, called.world)
  answer w (crash fault) = (none, w)

  unfoldable pub sample_send : Server J O W → Bytes → Bytes → W → Option Bytes × W
  unfolding answer
  sample_send server svc_name fcall_str w =
      answer w (searpc_server_call_function J O W server svc_name fcall_str w)

  -- A client whose transport is `sample_send`; its asynchronous transport always fails.
  abbrev pub loopback : Server J O W → Bytes → SearpcClient J O W
  loopback server svc_name = record {
    send = sample_send server svc_name;
    async_send = λ fcall_str call w. (negsuc 0, w);
  }

  -- The array of a request.
  abbrev pub request_array : Json → List Json → Json
  request_array name vs = build J json_array (name ∷ vs)

  -- The item of a function that is registered with the marshal of its parameter types.
  abbrev pub marshalled : RpcFunc J O W → Bytes → List ArgType → Bytes → FuncItem J O W
  marshalled func fname types signature = record {
    func = func;
    fname = fname;
    marshal = record { mfunc = marshal J O W types; signature = signature };
  }

  pub fcall_to_str-Accepts :
      {ps : List (Param J)} {ts : List ArgType} {vs : List Json} {bs : List (Arg J)} (fname : Bytes)
      (name : Json)
      → json_string fname ≡ some name
      → AcceptsAll J ps ts vs bs
      → fcall_to_str J fname ps ≡ some (json_dumps compact (request_array name vs))
  unfolding fcall_to_str
  fcall_to_str-Accepts {vs} fname name e h =
      ground (arith, fcall_params-build J (json_array_append_new json_array (some name)) h)

  pub name-request_array :
      (fname : Bytes) (name : Json) (vs : List Json)
      → json_string fname ≡ some name
      → J.json_string_value (J.json_array_get (request_array name vs) 0) ≡ some fname
  name-request_array fname name vs e =
      rw
        (Holds-get J (request_array name vs) name [] vs 0
          (Holds-build J json_array [] (name ∷ vs) (Holds-array J)) refl)
        (J.string_value-string fname name e)

  marshal-Accepts :
      {ps : List (Param J)} {ts : List ArgType} {vs : List Json} {bs : List (Arg J)} (name : Json)
      (func : RpcFunc J O W) (value : Value J O) (error : Option GError) (w w' : W)
      → AcceptsAll J ps ts vs bs
      → func bs w ≡ ((value, error), w')
      → marshal J O W ts func (request_array name vs) w ≡ (reply_text J O value error, w')
  unfolding marshal
  marshal-Accepts name func value error w w' h e = ground (arith, get_parameters-build J name h)

  -- What the server makes of a request that names a registered function with the marshal of the
  -- parameters' types.
  pub call_function-serve :
      {ps : List (Param J)} {ts : List ArgType} {vs : List Json} {bs : List (Arg J)}
      (server : Server J O W) (svc_name fname signature : Bytes) (func : RpcFunc J O W)
      (name : Json) (value : Value J O) (error : Option GError) (w w' : W)
      → find_function J O W server.registry svc_name fname
        ≡ done (some (marshalled func fname ts signature))
      → json_string fname ≡ some name
      → AcceptsAll J ps ts vs bs
      → Loadable (request_array name vs)
      → func bs w ≡ ((value, error), w')
      → (called : Called J O W) × (searpc_server_call_function J O W server svc_name
            (json_dumps compact (request_array name vs))
            w
          ≡ done called)
        × (called.ret ≡ reply_text J O value error)
        × (called.world ≡ w')
  unfolding run_function
  call_function-serve {ts} {vs} server svc_name fname signature func name value error w w' f n h l
        e =
      let array = request_array name vs in
      let text = json_dumps compact array in
      let item = marshalled func fname ts signature in
      let m = marshal-Accepts name func value error w w' h e in
      (
        run_function J O W server svc_name text item array w,
        call_function_found J O W server svc_name text fname array item w
            (J.loadb-dumps compact array l) (name-request_array fname name vs n) f,
        ap (λ (p : Bytes × W). p.0) m,
        ap (λ (p : Bytes × W). p.1) m,
      )

  sample_send-found :
      (server : Server J O W) (svc_name text fname reply : Bytes) (array : Json)
      (item : FuncItem J O W) (w w' : W)
      → J.json_loadb text ≡ loaded array
      → J.json_string_value (J.json_array_get array 0) ≡ some fname
      → find_function J O W server.registry svc_name fname ≡ done (some item)
      → item.marshal.mfunc item.func array w ≡ (reply, w')
      → sample_send server svc_name text w ≡ (some reply, w')
  sample_send-found server svc_name text fname reply array item w w' l n f e =
      unfold sample_send in
      rw (call_function_found J O W server svc_name text fname array item w l n f)
        (unfold run_function in rw e refl)

  pub typed_call-replied {ℓ} :
      {A : Type ℓ} {text reply : Bytes} (ps : List (Param J)) (default : A)
      (decode : Bytes → ℕ → Run (A × Option GError)) (client : SearpcClient J O W) (fname : Bytes)
      (w w' : W)
      → fcall_to_str J fname ps ≡ some text
      → client.send text w ≡ (some reply, w')
      → typed_call J O W default decode client fname ps w ≡ (decode reply (length reply), w')
  unfolding typed_call
  typed_call-replied ps default decode client fname w w' t s = ground arith

  -- A call reaches the function with the arguments of its parameters, and decodes its reply.
  pub typed_call-serve {ℓ} :
      {A : Type ℓ} {ps : List (Param J)} {ts : List ArgType} {vs : List Json} {bs : List (Arg J)}
      (default : A) (decode : Bytes → ℕ → Run (A × Option GError)) (server : Server J O W)
      (svc_name fname signature : Bytes) (func : RpcFunc J O W) (name : Json) (value : Value J O)
      (error : Option GError) (w w' : W)
      → find_function J O W server.registry svc_name fname
        ≡ done (some (marshalled func fname ts signature))
      → json_string fname ≡ some name
      → AcceptsAll J ps ts vs bs
      → Loadable (request_array name vs)
      → func bs w ≡ ((value, error), w')
      → typed_call J O W default decode (loopback server svc_name) fname ps w
        ≡ (decode (reply_text J O value error) (length (reply_text J O value error)), w')
  typed_call-serve {ps} {ts} {vs} default decode server svc_name fname signature func name value
        error w w' f n h l e =
      typed_call-replied ps default decode (loopback server svc_name) fname w w'
        (fcall_to_str-Accepts fname name n h)
        (sample_send-found server svc_name (json_dumps compact (request_array name vs)) fname
          (reply_text J O value error) (request_array name vs) (marshalled func fname ts signature)
          w w' (J.loadb-dumps compact (request_array name vs) l)
          (name-request_array fname name vs n) f (marshal-Accepts name func value error w w' h e))
