-- ===== src/Rpc/Loopback/Errors.antt =====
-- Calls that reach no function: the errors that lib/searpc-server.c answers with and those that
-- lib/searpc-client.c makes itself, as the caller of the client sees them.
use libsearpc.Prelude.{
  ◌≡◌, refl, ◌∙◌, ap, length, none, some, List, ◌∷◌, arith, Bytes, ℤ, pos, negsuc, IsInt,
}
use libsearpc.Jansson.{Jansson, loaded, compact}
use libsearpc.Types.{dft, done, Objects, Arg, ArgType}
use libsearpc.Client.Request.{Param, int, int64, string, json, other, fcall_params, fcall_to_str}
use libsearpc.Client.Fret.{handle_ret_common, failed, handle_loaded, searpc_client_fret__int}
use libsearpc.Client.Call.{
  SearpcClient, searpc_client_call__int, invalid_parameter_error, transport_error,
}
use libsearpc.Server.Table.{lookup_live, g_hash_table_lookup}
use libsearpc.Server.Registry.{SearpcService}
use libsearpc.Server.Reply.{error_object, error_to_json, set_error}
use libsearpc.Server.Call.{Server, service_error, function_error, searpc_server_call_function}
use libsearpc.Rpc.Request.{AcceptsAll}
use libsearpc.Rpc.Reply.{handle_loaded-set_error, handle_ret_common-dumps}
use libsearpc.Rpc.Loopback.{
  loopback, sample_send, request_array, typed_call-replied, fcall_to_str-Accepts,
  name-request_array,
}

module _ (J : Jansson) where
  open J use {Json, json_string, json_object, Loadable}

  -- An error reply is the error with that code and message.
  handle_ret_common-error_to_json :
      (code : ℤ) (msg : Bytes) (j : Json)
      → IsInt code
      → json_string msg ≡ some j
      → Loadable (error_object J code (some msg))
      → handle_ret_common J
          (error_to_json J code (some msg))
          (length (error_to_json J code (some msg)))
        ≡ done (failed (record { domain = dft; code = code; message = msg }))
  handle_ret_common-error_to_json code msg j i m h =
      unfold error_to_json in
      rw (handle_ret_common-dumps J (error_object J code (some msg)) h, loaded_error) refl
    where
      loaded_error :
          handle_loaded J (loaded (error_object J code (some msg)))
          ≡ failed (record { domain = dft; code = code; message = msg })
      loaded_error =
          unfold error_object in
          (unfold set_error in
            (handle_loaded-set_error J json_object
              (record { domain = dft; code = code; message = msg }) j J.typeof-object i m))

  -- A parameter of an unknown type is among them.
  pub data HasOther : List (Param J) → Type 0 where
    here : (ps : List (Param J)) → HasOther (other ∷ ps)
    there : (p : Param J) {ps : List (Param J)} → HasOther ps → HasOther (p ∷ ps)

  fcall_params-HasOther :
      {ps : List (Param J)} (array : Json) → HasOther ps → fcall_params J array ps ≡ none
  unfolding fcall_params
  fcall_params-HasOther array (here ps) = refl
  fcall_params-HasOther array (there (int z) h) = fcall_params-HasOther _ h
  fcall_params-HasOther array (there (int64 z) h) = fcall_params-HasOther _ h
  fcall_params-HasOther array (there (string s) h) = fcall_params-HasOther _ h
  fcall_params-HasOther array (there (json v) h) = fcall_params-HasOther _ h
  fcall_params-HasOther array (there other h) = refl

module _ (J : Jansson) (O : Objects J) (W : Type 0) where
  open J use {Json, json_string, Loadable}

  module _ (client : SearpcClient J O W) (fname : Bytes) (ps : List (Param J)) where
    -- A call of searpc_client_call__int with a parameter of an unknown type among its parameters
    -- gives 0 and the error "Invalid Parameter" with code 0, and sends nothing: the world does not
    -- change.
    pub call__int-HasOther :
        (w : W)
        → HasOther J ps
        → searpc_client_call__int J O W client (some fname) ps w
          ≡ (done (pos 0, some invalid_parameter_error), w)
    unfolding searpc_client_call__int fcall_to_str
    call__int-HasOther w h = ground (
      arith,
      fcall_params-HasOther J (J.json_array_append_new J.json_array (json_string fname)) h,
    )

    -- A call of searpc_client_call__int whose request can be built and whose transport gives no
    -- reply gives 0 and the transport error with code 500.
    pub call__int-no_reply :
        (text : Bytes) (w w' : W)
        → fcall_to_str J fname ps ≡ some text
        → client.send text w ≡ (none, w')
        → searpc_client_call__int J O W client (some fname) ps w
          ≡ (done (pos 0, some transport_error), w')
    unfolding searpc_client_call__int
    call__int-no_reply text w w' t s = ground arith

  module _ (server : Server J O W) (svc_name fname : Bytes) (ps : List (Param J))
      (ts : List ArgType) (vs : List Json) (bs : List (Arg J)) (name j : Json) (w : W)
      (named : json_string fname ≡ some name) (accepted : AcceptsAll J ps ts vs bs)
      (loadable : Loadable (request_array J O W name vs)) where
    call__int-answered :
        (code : ℤ) (msg : Bytes)
        → IsInt code
        → json_string msg ≡ some j
        → Loadable (error_object J code (some msg))
        → (let text = J.json_dumps compact (request_array J O W name vs) in
            sample_send J O W server svc_name text w ≡ (some (error_to_json J code (some msg)), w))
        → searpc_client_call__int J O W (loopback J O W server svc_name) (some fname) ps w
          ≡ (done (negsuc 0, some (record { domain = dft; code = code; message = msg })), w)
    unfolding searpc_client_call__int
    call__int-answered code msg i m h s =
        typed_call-replied J O W ps (pos 0) (searpc_client_fret__int J)
          (loopback J O W server svc_name) fname w w
          (fcall_to_str-Accepts J O W fname name named accepted) s
        ∙ ap (λ t. (t, w)) decoded
      where
        decoded :
            searpc_client_fret__int J
              (error_to_json J code (some msg))
              (length (error_to_json J code (some msg)))
            ≡ done (negsuc 0, some (record { domain = dft; code = code; message = msg }))
        decoded =
            unfold searpc_client_fret__int in
            rw (handle_ret_common-error_to_json J code msg j i m h) refl

    -- A call of searpc_client_call__int over the in-process transport to a service that does not
    -- exist, with parameters that the client knows, a name and an error text in valid UTF-8, and a
    -- request and a reply within the parser's limit: the caller gets -1 and error 501 with the
    -- server's text, and the world does not change.
    pub call__int-no_service :
        lookup_live server.registry.service_table svc_name ≡ none
        → json_string (service_error svc_name) ≡ some j
        → Loadable (error_object J (pos 501) (some (service_error svc_name)))
        → searpc_client_call__int J O W (loopback J O W server svc_name) (some fname) ps w ≡ (
          done (
            negsuc 0,
            some (record { domain = dft; code = pos 501; message = service_error svc_name }),
          ),
          w,
        )
    call__int-no_service none' m h =
        call__int-answered (pos 501) (service_error svc_name) (omega arith) m h
          (unfold sample_send searpc_server_call_function in ground arith)

    -- A call of searpc_client_call__int over the in-process transport to a function that the
    -- existing service does not have, with parameters that the client knows, a name and an error
    -- text in valid UTF-8, and a request and a reply within the parser's limit: the caller gets -1
    -- and error 500 with the server's text, and the world does not change.
    pub call__int-no_function :
        (service : SearpcService J O W)
        → lookup_live server.registry.service_table svc_name ≡ some service
        → g_hash_table_lookup service.func_table fname ≡ done none
        → json_string (function_error fname) ≡ some j
        → Loadable (error_object J (pos 500) (some (function_error fname)))
        → searpc_client_call__int J O W (loopback J O W server svc_name) (some fname) ps w ≡ (
          done (
            negsuc 0,
            some (record { domain = dft; code = pos 500; message = function_error fname }),
          ),
          w,
        )
    call__int-no_function service s f m h =
        call__int-answered (pos 500) (function_error fname) (omega arith) m h (
          unfold sample_send searpc_server_call_function in
          ground (
            arith,
            J.loadb-dumps compact (request_array J O W name vs) loadable,
            name-request_array J O W fname name vs named,
          ))
