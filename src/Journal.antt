-- ===== src/Journal.antt =====
-- src/context.rs: what the step and timer tables hold.
use memable.Prelude.{Bool, true, false, Option}
use memable.Text.{Text}

-- The bytes that postcard writes.
abbrev pub Bytes : Type 0
Bytes = Text

pub data StepData (T : Type 0) : Type 0 where
  -- the result, and the status message at the time
  completed : T → Option Text → StepData T
  suspended : StepData T
  failed : Text → StepData T

pub data StepState : Type 0 where
  suspended completed failed : StepState

pub record StepEnvelope : Type 0 where
  pub state : StepState
  pub type_tag : Option Text
  pub payload : Bytes

pub record TimerEntry : Type 0 where
  pub workflow_name : Text
  pub instance_id : Text
  pub step_key : Text

unfoldable pub is_suspended : StepState → Bool
is_suspended StepState.suspended = true
is_suspended _ = false
