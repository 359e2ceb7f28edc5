-- ===== src/Pipe/Envelope.antt =====
-- request_to_json and request_from_json: the text of a request, an object with the name of the
-- service and the text of the call.
use libsearpc.Prelude.{◌≡◌, Option, none, some, Bytes, codes, arith, str_equal}
use libsearpc.Jansson.{Jansson, loaded, load_error, default}

module _ (J : Jansson) where
  open J use {Json, json_object, json_object_set_new, json_object_get, json_string}
  open J use {json_string_value, json_dumps, json_loadb, Loadable}

  unfoldable pub json_object_set_string_member : Json → Bytes → Bytes → Json
  json_object_set_string_member object key value =
      json_object_set_new object key (json_string value)

  unfoldable pub json_object_get_string_member : Json → Bytes → Option Bytes
  json_object_get_string_member object key = elim (json_object_get object key) [
    | none ↦ none
    | some string ↦ json_string_value (some string)
  ]

  unfoldable pub request_object : Bytes → Bytes → Json
  unfolding json_object_set_string_member
  request_object service fcall_str =
      json_object_set_string_member
        (json_object_set_string_member json_object (codes "service") service) (codes "request")
        fcall_str

  unfoldable pub request_to_json : Bytes → Bytes → Bytes
  unfolding request_object
  request_to_json service fcall_str = json_dumps default (request_object service fcall_str)

  both : Option Bytes → Option Bytes → Option (Bytes × Bytes)
  both (some service) (some fcall_str) = some (service, fcall_str)
  both _ _ = none

  -- The service and the call, or none for the result -1.
  unfoldable pub request_from_json : Bytes → Option (Bytes × Bytes)
  unfolding both json_object_get_string_member
  request_from_json content = elim (json_loadb content) [
    | load_error text ↦ none
    | loaded object ↦
        both (json_object_get_string_member object (codes "service"))
          (json_object_get_string_member object (codes "request"))
  ]

  -- request_from_json reads back the service and the call that request_to_json wrote, where both
  -- are valid UTF-8 and the object stays within the parser's limit.
  pub request_from_json-request_to_json :
      (service fcall_str : Bytes) (s f : Json)
      → json_string service ≡ some s
      → json_string fcall_str ≡ some f
      → Loadable (request_object service fcall_str)
      → request_from_json (request_to_json service fcall_str) ≡ some (service, fcall_str)
  unfolding request_from_json request_to_json str_equal
  request_from_json-request_to_json service fcall_str s f hs hf l =
      let first = json_object_set_new json_object (codes "service") (some s) in
      let t = J.typeof-set json_object (codes "service") (some s) J.typeof-object in
      ground (
        arith,
        J.loadb-dumps default (request_object service fcall_str) l,
        J.get-set first (codes "request") f (codes "service") t,
        J.get-set first (codes "request") f (codes "request") t,
        J.get-set json_object (codes "service") s (codes "service") J.typeof-object,
        J.string_value-string service s hs,
        J.string_value-string fcall_str f hf,
      )
