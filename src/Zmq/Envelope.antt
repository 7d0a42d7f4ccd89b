-- ===== src/Zmq/Envelope.antt =====
-- zmq/TelemetryEnvelope.py
pub mod Roundtrip
use Prim.Native.String.{String}
use text.Mathlib.Text.{◌==◌}
use snake_lab.Base.{Bool, true, false, Option, none, some, List, [], ◌∷◌, if◌then◌else◌}
use snake_lab.Base.Int.{ℤ, pos, ltb_ℤ}
use snake_lab.Base.Results.{Result, ok, err, ◌>>=◌, ◌>>◌, require}
use snake_lab.Json.{Json, int, str, obj, Fields, of_fields, has_exactly}
use snake_lab.Zmq.Protocol.{
  ProtocolError, protocol_error, protocol_version, equals_int, item, text_or, object_or,
}

pub record TelemetryEnvelope (F : Type 0) : Type 0 where
  pub sequence : ℤ
  pub run_id : String
  pub payload : Fields F

abbrev pub envelope_fields : List String
envelope_fields = "protocol_version" ∷ "sequence" ∷ "run_id" ∷ "payload" ∷ []

module _ {F : Type 0} where
  -- A non-negative int, and no bool.
  abbrev pub natural_or : ProtocolError → Json F → Result ProtocolError ℤ
  natural_or e (int n) = if ltb_ℤ n (pos 0) then err e else ok n
  natural_or e _ = err e

module _ {F : Type 0} (float_is : F → ℤ → Bool) where
  pub envelope_from_fields : Fields F → Result ProtocolError (TelemetryEnvelope F)
  envelope_from_fields fs = do
    require (has_exactly fs envelope_fields)
        (protocol_error "invalid_telemetry" "telemetry envelope fields do not match the protocol")
    version ← item "protocol_version" fs
    require (equals_int float_is version protocol_version)
        (protocol_error "unsupported_protocol" "Unsupported telemetry protocol")
    sequence_value ← item "sequence" fs
    sequence ←
        natural_or (protocol_error "invalid_telemetry" "sequence must be a non-negative integer")
          sequence_value
    run_value ← item "run_id" fs
    run_id ←
        text_or (protocol_error "invalid_telemetry" "run_id must be a non-empty string") run_value
    payload_value ← item "payload" fs
    payload ←
        object_or (protocol_error "invalid_telemetry" "payload must be an object") payload_value
    ok (record { sequence = sequence; run_id = run_id; payload = payload })

  pub envelope_from_dict : Json F → Result ProtocolError (TelemetryEnvelope F)
  envelope_from_dict (obj fs) = envelope_from_fields fs
  envelope_from_dict _ =
      err (protocol_error "invalid_telemetry" "telemetry envelope must be an object")

pub envelope_to_dict : {F : Type 0} → TelemetryEnvelope F → Json F
envelope_to_dict e = obj (
    of_fields (
      ("protocol_version", int protocol_version)
      ∷ ("sequence", int e.sequence)
      ∷ ("run_id", str e.run_id)
      ∷ ("payload", obj e.payload)
      ∷ []))
