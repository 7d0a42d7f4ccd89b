-- ===== src/Zmq/Protocol.antt =====
-- zmq/Protocol.py, and the two functions of client/AsyncLabClient.py that build a request and check
-- its response. `F` is the type of floats and `float_is` Python's `==` of a float and an int.
pub mod Exchange
use Prim.Native.String.{String}
use text.Mathlib.Text.{◌==◌}
use snake_lab.Base.{Bool, true, false, not, ◌&&◌, Option, none, some, List, [], ◌∷◌, if◌then◌else◌}
use snake_lab.Base.Int.{ℤ, pos, eqb_ℤ}
use snake_lab.Base.Results.{Result, ok, err, ◌>>=◌, ◌>>◌, require, or_raise}
use snake_lab.Json.{Json, null, bool, int, float, str, obj, Fields, get, of_fields, has_exactly}

-- PROTOCOL_VERSION
abbrev pub protocol_version : ℤ
protocol_version = pos 1

pub record ProtocolError : Type 0 where
  pub code : String
  pub message : String

abbrev pub protocol_error : String → String → ProtocolError
protocol_error code message = record { code = code; message = message }

pub record Request (F : Type 0) : Type 0 where
  pub request_id : String
  pub method : String
  pub payload : Fields F

abbrev pub request_fields : List String
request_fields = "protocol_version" ∷ "request_id" ∷ "method" ∷ "payload" ∷ []

module _ {F : Type 0} where
  -- data[k], where the keys have been checked.
  abbrev pub item : String → Fields F → Result ProtocolError (Json F)
  item k fs = or_raise (get k fs) (protocol_error "key_error" k)

  -- A non-empty string.
  abbrev pub text_or : ProtocolError → Json F → Result ProtocolError String
  text_or e (str s) = if s == "" then err e else ok s
  text_or e _ = err e

  abbrev pub object_or : ProtocolError → Json F → Result ProtocolError (Fields F)
  object_or e (obj fs) = ok fs
  object_or e _ = err e

module _ {F : Type 0} (float_is : F → ℤ → Bool) where
  -- value == n. In Python True is 1, and 1.0 is 1.
  unfoldable pub equals_int : Json F → ℤ → Bool
  equals_int (int m) n = eqb_ℤ m n
  equals_int (bool true) n = eqb_ℤ (pos 1) n
  equals_int (bool false) n = eqb_ℤ (pos 0) n
  equals_int (float x) n = float_is x n
  equals_int _ n = false

  pub request_from_fields : Fields F → Result ProtocolError (Request F)
  request_from_fields fs = do
    require (has_exactly fs request_fields)
        (protocol_error "invalid_request" "Request fields do not match the protocol")
    version ← item "protocol_version" fs
    require (equals_int version protocol_version)
        (protocol_error "unsupported_protocol" "Unsupported protocol version")
    id_value ← item "request_id" fs
    request_id ←
        text_or (protocol_error "invalid_request" "request_id must be a non-empty string") id_value
    method_value ← item "method" fs
    method ←
        text_or (protocol_error "invalid_request" "method must be a non-empty string") method_value
    payload_value ← item "payload" fs
    payload ← object_or (protocol_error "invalid_request" "payload must be an object") payload_value
    ok (record { request_id = request_id; method = method; payload = payload })

  pub request_from_dict : Json F → Result ProtocolError (Request F)
  request_from_dict (obj fs) = request_from_fields fs
  request_from_dict _ = err (protocol_error "invalid_request" "Request must be an object")

  -- What `_validate_response` raises.
  pub data ResponseError : Type 0 where
    not_an_object unsupported_version other_request : ResponseError

  abbrev optional : Option (Json F) → Json F
  optional none = null
  optional (some j) = j

  -- response.get("request_id") == request_id
  abbrev is_text : Json F → String → Bool
  is_text (str s) t = s == t
  is_text _ t = false

  pub validate_response : Json F → String → Result ResponseError (Fields F)
  validate_response (obj fs) request_id = do
    require (equals_int (optional (get "protocol_version" fs)) protocol_version) unsupported_version
    require (is_text (optional (get "request_id" fs)) request_id) other_request
    ok fs
  validate_response _ request_id = err not_an_object

module _ {F : Type 0} where
  -- `_request_message` of the client.
  pub request_message : String → String → Fields F → Json F
  request_message request_id method payload = obj (
      of_fields (
        ("protocol_version", int protocol_version)
        ∷ ("request_id", str request_id)
        ∷ ("method", str method)
        ∷ ("payload", obj payload)
        ∷ []))

  pub success_response : String → Fields F → Json F
  success_response request_id payload = obj (
      of_fields (
        ("protocol_version", int protocol_version)
        ∷ ("request_id", str request_id)
        ∷ ("status", str "ok")
        ∷ ("payload", obj payload)
        ∷ []))

  -- `request_id` is whatever the request held there, null if it held nothing.
  pub error_response : Json F → String → String → Json F
  error_response request_id code message = obj (
      of_fields (
        ("protocol_version", int protocol_version)
        ∷ ("request_id", request_id)
        ∷ ("status", str "error")
        ∷ ("error", obj (of_fields (("code", str code) ∷ ("message", str message) ∷ [])))
        ∷ []))
