-- ===== src/Zmq/Protocol/Exchange.antt =====
-- Requests and responses across the wire.
use Prim.Native.String.{String}
use text.Mathlib.Text.{◌==◌}
use snake_lab.Base.{◌≡◌, Bool, true, false, arith}
use snake_lab.Base.Int.{ℤ}
use snake_lab.Base.Results.{Result, ok, err}
use snake_lab.Json.{Fields, str}
use snake_lab.Zmq.Protocol.{
  equals_int, request_from_fields, request_from_dict, request_message, success_response,
  error_response, validate_response,
}

abbrev pub accepts : {E A : Type 0} → Result E A → Bool
accepts (ok a) = true
accepts (err e) = false

module _ {F : Type 0} (float_is : F → ℤ → Bool) where
  -- A request that a client builds with a name and a method is read back as it was built.
  pub request_from_dict-request_message :
      (request_id method : String) (payload : Fields F)
      → (request_id == "") ≡ false
      → (method == "") ≡ false
      → request_from_dict float_is (request_message request_id method payload)
        ≡ ok (record { request_id = request_id; method = method; payload = payload })
  unfolding request_from_dict request_from_fields request_message equals_int
  request_from_dict-request_message i m p hi hm = ground arith

  -- Both kinds of response are accepted by a client exactly if they answer the request that it sent.
  pub validate_response-responses :
      (request_id sent code message : String) (payload : Fields F)
      → (accepts (validate_response float_is (success_response request_id payload) sent)
          ≡ (request_id == sent))
        × (accepts (validate_response float_is (error_response (str request_id) code message) sent)
            ≡ (request_id == sent))
  unfolding validate_response success_response error_response equals_int
  validate_response-responses i s c m p = (ground arith, ground arith)
