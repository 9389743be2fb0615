-- ===== src/Codec.antt =====
-- src/context.rs: the envelope that tags a stored step with the name of its payload's type.
pub mod Laws
use memable.Prelude.{◌≡◌, refl, false, Option, none, some, arith, if◌then◌else◌}
use memable.Text.{Text, text_eq, text_eq_refl}
use memable.Outcome.{Outcome, ok, err, panic, map_err, and_then}
use memable.Error.{EngineError, serialization, type_mismatch}
use memable.Journal.{Bytes, StepData, StepState, StepEnvelope, completed, suspended, failed}
use memable.External.{External, Payload}

abbrev step_state : {T : Type 0} → StepData T → StepState
step_state (StepData.completed _ _) = completed
step_state StepData.suspended = suspended
step_state (StepData.failed _) = failed

abbrev type_tag : {T : Type 0} → Payload T → StepData T → Option Text
type_tag p (StepData.completed _ _) = some p.type_name
type_tag p StepData.suspended = none
type_tag p (StepData.failed _) = none

module _ ⦃x : External⦄ where
  unfoldable pub serialize_step :
      {T : Type 0} → Payload T → StepData T → Text → Outcome EngineError Bytes
  serialize_step p content key =
      and_then (map_err (serialization key) (p.step_data.to_allocvec content)) λ inner.
        map_err (serialization key) (
          x.envelope.to_allocvec
            (record { state = step_state content; type_tag = type_tag p content; payload = inner }))

  unfoldable pub check_tag : Option Text → Text → Text → Outcome EngineError (Unit {0})
  check_tag none expected key = ok tt
  check_tag (some stored) expected key =
      if text_eq stored expected then ok tt else err (type_mismatch key expected stored)

  unfoldable pub deserialize_envelope : Bytes → Text → Outcome EngineError StepEnvelope
  deserialize_envelope bytes key = map_err (serialization key) (x.envelope.from_bytes bytes)

  unfoldable pub deserialize_step :
      {T : Type 0} → Payload T → Bytes → Text → Outcome EngineError (StepData T)
  unfolding check_tag
  deserialize_step p bytes key =
      and_then (map_err (serialization key) (x.envelope.from_bytes bytes)) λ envelope.
        and_then (check_tag envelope.type_tag p.type_name key)
          (λ _. map_err (serialization key) (p.step_data.from_bytes envelope.payload))
