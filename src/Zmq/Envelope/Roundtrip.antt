-- ===== src/Zmq/Envelope/Roundtrip.antt =====
-- An envelope survives the wire.

use text.Mathlib.Text.{◌==◌}
use snake_lab.Base.{◌≡◌, Bool, false, arith}
use snake_lab.Base.Int.{ℤ, pos, ◌≤ℤ◌}
use snake_lab.Base.Results.{ok}
use snake_lab.Json.{Json, obj}
use snake_lab.Zmq.Protocol.{equals_int}
use snake_lab.Zmq.Envelope.{
  TelemetryEnvelope, envelope_from_fields, envelope_from_dict, envelope_to_dict,
}

-- A sequence number of zero or more, and a run that is named.
abbrev pub IsSendable : {F : Type 0} → TelemetryEnvelope F → Type 0
IsSendable e = (pos 0 ≤ℤ e.sequence) × ((e.run_id == "") ≡ false)

module _ {F : Type 0} (float_is : F → ℤ → Bool) where
  -- A sendable envelope is read back as it was sent.
  pub envelope_from_dict-envelope_to_dict :
      (e : TelemetryEnvelope F)
      → IsSendable e
      → envelope_from_dict float_is (envelope_to_dict e) ≡ ok e
  unfolding envelope_from_dict envelope_from_fields envelope_to_dict equals_int
  envelope_from_dict-envelope_to_dict e h = ground arith

  -- Whatever is read as an envelope is sendable.
  pub envelope_from_dict-IsSendable :
      (j : Json F) (e : TelemetryEnvelope F) → envelope_from_dict float_is j ≡ ok e → IsSendable e
  unfolding envelope_from_dict envelope_from_fields
  envelope_from_dict-IsSendable (obj fs) e h = ground arith
  envelope_from_dict-IsSendable _ e h = cc
