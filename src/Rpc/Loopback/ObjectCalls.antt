-- ===== src/Rpc/Loopback/ObjectCalls.antt =====
-- searpc_client_call__object of lib/searpc-client.c with the object codec of lib/searpc-utils.c.
use libsearpc.Prelude.{ℕ, ◌≡◌, false, some, none, List, Bytes}
use libsearpc.Jansson.{Jansson}
use libsearpc.Types.{done, Value, Arg, ArgType}
use libsearpc.Client.Request.{Param}
use libsearpc.Client.Call.{searpc_client_call__object}
use libsearpc.Server.Registry.{RpcFunc, find_function}
use libsearpc.Server.Call.{Server}
use libsearpc.Codec.System.{GObjects}
use libsearpc.Codec.Fits.{Fits}
use libsearpc.Codec.Bridge.{codec, codec-RoundTrips}
use libsearpc.Rpc.Request.{AcceptsAll}
use libsearpc.Rpc.Reply.{reply_object}
use libsearpc.Rpc.Loopback.{loopback, request_array, marshalled}
use libsearpc.Rpc.Loopback.Typed.{call__object-serve}

module _ (J : Jansson) (G : GObjects J) (W : Type 0) (stack : ℕ) where
  -- A call of searpc_client_call__object over the in-process transport with the codec of
  -- lib/searpc-utils.c, where the function is registered on the server under the service and its
  -- name with the marshal of the call's parameter types, the name is valid UTF-8, the parameters
  -- are those of the call (AcceptsAll), and the request stays within the parser's limit, the
  -- function returns an object that fits the codec and no error, its type is valid and the reply
  -- stays within the parser's limit: the caller gets that object and no error, and the world is
  -- the one that the function left.
  pub call__object-codec :
      (server : Server J (codec J G stack) W) (svc_name fname signature : Bytes)
      (func : RpcFunc J (codec J G stack) W) (ps : List (Param J)) (ts : List ArgType)
      (vs : List J.Json) (bs : List (Arg J)) (name : J.Json) (w w' : W) (o : G.GObject)
      → find_function J (codec J G stack) W server.registry svc_name fname
        ≡ done (some (marshalled J (codec J G stack) W func fname ts signature))
      → J.json_string fname ≡ some name
      → AcceptsAll J ps ts vs bs
      → J.Loadable (request_array J (codec J G stack) W name vs)
      → func bs w ≡ ((Value.object (some o), none), w')
      → G.is_invalid (G.type_of o) ≡ false
      → Fits J G stack o
      → J.Loadable (reply_object J (codec J G stack) (Value.object (some o)) none)
      → searpc_client_call__object J
          (codec J G stack)
          W
          (loopback J (codec J G stack) W server svc_name)
          (some fname)
          (G.type_of o)
          ps
          w
        ≡ (done (some o, none), w')
  call__object-codec server svc_name fname signature func ps ts vs bs name w w' o f n a l e g h r =
      call__object-serve J (codec J G stack) W server svc_name fname signature func ps ts vs bs name
        w w' f n a l (G.type_of o) o e g (codec-RoundTrips J G stack o h) r
