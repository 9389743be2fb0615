-- ===== src/Error.antt =====
-- src/error.rs: the error types. A boxed source error is kept as its display text.
pub mod Display
use memable.Prelude.{ℕ, Bool}
use memable.Text.{Text}

pub data EngineError : Type 0 where
  storage : Text → EngineError
  serialization : Text → Text → EngineError
  -- the step key, the source, and whether it was retryable
  step_failed : Text → Text → Bool → EngineError
  not_started : EngineError
  workflow_not_found : Text → EngineError
  -- the step key and the timeout, in nanoseconds
  step_timeout : Text → ℕ → EngineError
  -- the label and the value
  invalid_key : Text → Text → EngineError
  -- the key, the expected type and the found one
  type_mismatch : Text → Text → Text → EngineError
  signal_rejected : Text → Text → EngineError
  signal_superseded : Text → EngineError
  suspended_step_conflict : Text → EngineError
  -- the key, the number of attempts and the last source
  retries_exhausted : Text → ℕ → Text → EngineError
  input_missing : Text → EngineError
  output_missing : Text → Text → EngineError
  suspended : Text → EngineError

pub data SubscribeError : Type 0 where
  not_found : Text → Text → SubscribeError
  stale_running : Text → Text → SubscribeError
  storage : Text → SubscribeError

pub data StateError : Type 0 where
  not_found : Text → Text → StateError
  storage : Text → StateError

pub record ChildError : Type 0 where
  pub instance_id : Text
  pub message : Text

-- What a step closure returns on failure: it asks for a retry, or refuses one.
pub data StepError : Type 0 where
  retryable : Text → StepError
  permanent : Text → StepError
