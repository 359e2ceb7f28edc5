-- ===== src/Rpc/Loopback/Typed.antt =====
-- What the typed calls of lib/searpc-client.c return when the function is registered on the server.
use libsearpc.Prelude.{
  ℕ, ◌≡◌, ◌≢◌, refl, ◌∙◌, ap, length, false, Option, none, some, List, [], ◌∷◌, Bytes, ℤ, pos,
  negsuc, IsInt, IsInt64,
}
use libsearpc.Jansson.{Jansson, JsonType}
use libsearpc.Types.{GError, dft, Run, done, Objects, Value, Arg, ArgType}
use libsearpc.Client.Request.{Param}
use libsearpc.Client.Fret.{
  searpc_client_fret__int, searpc_client_fret__int64, searpc_client_fret__string,
  searpc_client_fret__json, searpc_client_fret__object, searpc_client_fret__objlist,
}
use libsearpc.Client.Call.{
  typed_call, searpc_client_call__int, searpc_client_call__int64, searpc_client_call__string,
  searpc_client_call__json, searpc_client_call__object, searpc_client_call__objlist,
}
use libsearpc.Server.Registry.{RpcFunc, find_function}
use libsearpc.Server.Call.{Server}
use libsearpc.Rpc.Request.{AcceptsAll}
use libsearpc.Rpc.Reply.{
  reply_object, reply_text, handle_ret_common-error, fret__int-reply, fret__int64-reply,
  fret__string-reply, fret__json-reply,
}
use libsearpc.Rpc.Reply.Objs.{RoundTrips, AllRoundTrip, fret__object-reply, fret__objlist-reply}
use libsearpc.Rpc.Loopback.{loopback, request_array, marshalled, typed_call-serve}

module _ (J : Jansson) (O : Objects J) (W : Type 0) (server : Server J O W)
    (svc_name fname signature : Bytes) (func : RpcFunc J O W) where
  open J use {Json, json_typeof, json_string, Loadable}
  open O use {GObject, GType, is_invalid}

  module _ (ps : List (Param J)) (ts : List ArgType) (vs : List Json) (bs : List (Arg J))
      (name : Json) (w w' : W)
      (found : find_function J O W server.registry svc_name fname
        ≡ done (some (marshalled J O W func fname ts signature)))
      (named : json_string fname ≡ some name) (accepted : AcceptsAll J ps ts vs bs)
      (loadable : Loadable (request_array J O W name vs)) where
    serve {ℓ} :
        {A : Type ℓ} (default : A) (decode : Bytes → ℕ → Run (A × Option GError))
        (value : Value J O) (error : Option GError) {r : Run (A × Option GError)}
        → func bs w ≡ ((value, error), w')
        → decode (reply_text J O value error) (length (reply_text J O value error)) ≡ r
        → typed_call J O W default decode (loopback J O W server svc_name) fname ps w ≡ (r, w')
    serve default decode value error e d =
        typed_call-serve J O W default decode server svc_name fname signature func name value error
          w w' found named accepted loadable e
        ∙ ap (λ t. (t, w')) d

    -- A call of searpc_client_call__int over the in-process transport, where the function is
    -- registered on the server under its service and name with the marshal of the call's parameter
    -- types, the name is valid UTF-8, the parameters are those of the call (AcceptsAll), and the
    -- request and the reply stay within the parser's limit, and the function returns an int
    -- without an error: the function gets the arguments of the call, and the caller gets that int
    -- and no error; the world is the one that the function left.
    pub call__int-serve :
        (z : ℤ)
        → func bs w ≡ ((Value.int z, none), w')
        → IsInt z
        → Loadable (reply_object J O (Value.int z) none)
        → searpc_client_call__int J O W (loopback J O W server svc_name) (some fname) ps w
          ≡ (done (z, none), w')
    unfolding searpc_client_call__int
    call__int-serve z e i h =
        serve (pos 0) (searpc_client_fret__int J) (Value.int z) none e (fret__int-reply J O z i h)

    -- A call of searpc_client_call__int64 over the in-process transport, where the function is
    -- registered on the server under its service and name with the marshal of the call's parameter
    -- types, the name is valid UTF-8, the parameters are those of the call (AcceptsAll), and the
    -- request and the reply stay within the parser's limit, and the function returns a 64-bit
    -- integer and no error: the caller gets that integer and no error, and the world is the one
    -- that the function left.
    pub call__int64-serve :
        (z : ℤ)
        → func bs w ≡ ((Value.int64 z, none), w')
        → IsInt64 z
        → Loadable (reply_object J O (Value.int64 z) none)
        → searpc_client_call__int64 J O W (loopback J O W server svc_name) (some fname) ps w
          ≡ (done (z, none), w')
    unfolding searpc_client_call__int64
    call__int64-serve z e i h =
        serve (pos 0) (searpc_client_fret__int64 J) (Value.int64 z) none e
          (fret__int64-reply J O z i h)

    -- A call of searpc_client_call__string over the in-process transport, where the function is
    -- registered on the server under its service and name with the marshal of the call's parameter
    -- types, the name is valid UTF-8, the parameters are those of the call (AcceptsAll), and the
    -- request and the reply stay within the parser's limit, and the function returns a string that
    -- is valid UTF-8 and no error: the caller gets that string and no error, and the world is the
    -- one that the function left.
    pub call__string-serve :
        (s : Bytes) (j : Json)
        → func bs w ≡ ((Value.string (some s), none), w')
        → json_string s ≡ some j
        → Loadable (reply_object J O (Value.string (some s)) none)
        → searpc_client_call__string J O W (loopback J O W server svc_name) (some fname) ps w
          ≡ (done (some s, none), w')
    unfolding searpc_client_call__string
    call__string-serve s j e v h =
        serve none (searpc_client_fret__string J) (Value.string (some s)) none e
          (fret__string-reply J O s j v h)

    -- A call of searpc_client_call__json over the in-process transport, where the function is
    -- registered on the server under its service and name with the marshal of the call's parameter
    -- types, the name is valid UTF-8, the parameters are those of the call (AcceptsAll), and the
    -- request and the reply stay within the parser's limit, and the function returns a JSON value
    -- other than null and no error: the caller gets that value and no error, and the world is the
    -- one that the function left.
    pub call__json-serve :
        (v : Json)
        → func bs w ≡ ((Value.json (some v), none), w')
        → json_typeof v ≢ JsonType.null
        → Loadable (reply_object J O (Value.json (some v)) none)
        → searpc_client_call__json J O W (loopback J O W server svc_name) (some fname) ps w
          ≡ (done (some v, none), w')
    unfolding searpc_client_call__json
    call__json-serve v e t h =
        serve none (searpc_client_fret__json J) (Value.json (some v)) none e
          (fret__json-reply J O v t h)

    -- A call of searpc_client_call__object over the in-process transport, where the function is
    -- registered on the server under its service and name with the marshal of the call's parameter
    -- types, the name is valid UTF-8, the parameters are those of the call (AcceptsAll), and the
    -- request and the reply stay within the parser's limit, the function returns an object and no
    -- error, the object type is valid and the codec restores the object: the caller gets that
    -- object and no error, and the world is the one that the function left.
    pub call__object-serve :
        (gtype : GType) (o : GObject)
        → func bs w ≡ ((Value.object (some o), none), w')
        → is_invalid gtype ≡ false
        → RoundTrips J O gtype o
        → Loadable (reply_object J O (Value.object (some o)) none)
        → searpc_client_call__object J O W (loopback J O W server svc_name) (some fname) gtype ps w
          ≡ (done (some o, none), w')
    unfolding searpc_client_call__object
    call__object-serve gtype o e g r h = rw g (
        serve none (searpc_client_fret__object J O gtype) (Value.object (some o)) none e
          (fret__object-reply J O gtype o r h))

    -- A call of searpc_client_call__objlist over the in-process transport, where the function is
    -- registered on the server under its service and name with the marshal of the call's parameter
    -- types, the name is valid UTF-8, the parameters are those of the call (AcceptsAll), and the
    -- request and the reply stay within the parser's limit, the function returns a list with at
    -- least one object and no error, the object type is valid, and the codec restores each object:
    -- the caller gets the same objects in the same order and no error, and the world is the one
    -- that the function left.
    pub call__objlist-serve :
        (gtype : GType) (o : GObject) (os : List GObject)
        → func bs w ≡ ((Value.objlist (o ∷ os), none), w')
        → is_invalid gtype ≡ false
        → AllRoundTrip J O gtype (o ∷ os)
        → Loadable (reply_object J O (Value.objlist (o ∷ os)) none)
        → searpc_client_call__objlist J O W (loopback J O W server svc_name) (some fname) gtype ps w
          ≡ (done (o ∷ os, none), w')
    unfolding searpc_client_call__objlist
    call__objlist-serve gtype o os e g r h = rw g (
        serve [] (searpc_client_fret__objlist J O gtype) (Value.objlist (o ∷ os)) none e
          (fret__objlist-reply J O gtype o os r h))

    -- A call over the in-process transport of a function that sets an error, whatever value it
    -- returns, where the function is registered on the server under its service and name with the
    -- marshal of the call's parameter types, the name is valid UTF-8, the parameters are those of
    -- the call (AcceptsAll), and the request and the reply stay within the parser's limit, the
    -- error's code is an int, its message is valid UTF-8 and the object type is valid: each of the
    -- six typed calls gives the default of its type and an error with that code and message in the
    -- domain of the library.
    pub calls-error :
        (value : Value J O) (e : GError) (j : Json) (gtype : GType)
        → func bs w ≡ ((value, some e), w')
        → IsInt e.code
        → json_string e.message ≡ some j
        → Loadable (reply_object J O value (some e))
        → is_invalid gtype ≡ false
        → let client = loopback J O W server svc_name in
          let error : GError = record { domain = dft; code = e.code; message = e.message } in
          (searpc_client_call__int J O W client (some fname) ps w
            ≡ (done (negsuc 0, some error), w'))
          × (searpc_client_call__int64 J O W client (some fname) ps w
              ≡ (done (negsuc 0, some error), w'))
          × (searpc_client_call__string J O W client (some fname) ps w
              ≡ (done (none, some error), w'))
          × (searpc_client_call__json J O W client (some fname) ps w
              ≡ (done (none, some error), w'))
          × (searpc_client_call__object J O W client (some fname) gtype ps w
              ≡ (done (none, some error), w'))
          × (searpc_client_call__objlist J O W client (some fname) gtype ps w
              ≡ (done ([], some error), w'))
    unfolding searpc_client_call__int searpc_client_call__int64 searpc_client_call__string
        searpc_client_call__json searpc_client_call__object searpc_client_call__objlist
    calls-error value e j gtype f i m h g =
        let c = handle_ret_common-error J O value e j i m h in
        (
          serve (pos 0) (searpc_client_fret__int J) value (some e) f
              (unfold searpc_client_fret__int in rw c refl),
          serve (pos 0) (searpc_client_fret__int64 J) value (some e) f
              (unfold searpc_client_fret__int64 in rw c refl),
          serve none (searpc_client_fret__string J) value (some e) f
              (unfold searpc_client_fret__string in rw c refl),
          serve none (searpc_client_fret__json J) value (some e) f
              (unfold searpc_client_fret__json in rw c refl),
          rw g (
              serve none (searpc_client_fret__object J O gtype) value (some e) f
                (unfold searpc_client_fret__object in rw c refl)),
          rw g (
              serve [] (searpc_client_fret__objlist J O gtype) value (some e) f
                (unfold searpc_client_fret__objlist in rw c refl)),
        )
