-- ===== src/Tests/Scene.antt =====
-- The inputs of the tests.
use memable.Prelude.{ℕ, true, none, some, [], ◌∷◌}
use memable.Text.{Text}
use memable.Outcome.{ok, err}
use memable.Error.{retryable}
use memable.State
use memable.Status
use memable.Status.{WorkflowMetadata}
use memable.Journal.{TimerEntry}
use memable.Store.{Database}
use memable.Shared.{Shared}
use memable.Context.{Frame}
use memable.Context.Names.{SuspendPoint}
use memable.Context.Step.{StepBuilder, Attempt}
use memable.Prelude.{refl}
use memable.Execution.Finish.{Serialises}
use memable.Tests.Demo.{demo}

abbrev pub wf : Text
wf = b'w' ∷ []

abbrev pub inst : Text
inst = b'i' ∷ []

abbrev pub step_key : Text
step_key = b's' ∷ []

abbrev pub empty_db : Database
empty_db = record { tables = record { steps = []; meta = []; timers = [] }; faults = [] }

abbrev pub engine : Database → Shared
engine db = record {
  db = db;
  workflows = wf ∷ [];
  running = true;
  tasks = [];
  timer_serial = 7;
  default_retry = none;
  senders = [];
  channels = λ _. (State.started, 0);
  next_channel = 1;
}

abbrev pub frame : Database → Frame
frame db = record {
  context = record { workflow_name = wf; instance_id = inst; status_tx = 0; replaying = true };
  shared = engine db;
  effects = [];
}

abbrev pub builder : StepBuilder
builder = record { key = step_key; timeout = none; retry_override = none }

abbrev pub returns_five : ℕ → Attempt ℕ
returns_five n = record { elapsed = 0; result = ok 5 }

abbrev pub fails : ℕ → Attempt ℕ
fails n = record { elapsed = 0; result = err (retryable (b'e' ∷ [])) }

abbrev pub point : SuspendPoint
point = record { key = step_key }

-- Rows as the serialiser of the tests writes them.
abbrev pub five_bytes : Text
five_bytes = 1 ∷ 1 ∷ 1 ∷ b'u' ∷ 3 ∷ 0 ∷ 5 ∷ 0 ∷ []

abbrev pub suspended_bytes : Text
suspended_bytes = 0 ∷ 0 ∷ 2 ∷ 1 ∷ 0 ∷ []

abbrev pub failed_bytes : Text
failed_bytes = 2 ∷ 0 ∷ 4 ∷ 1 ∷ 1 ∷ 1 ∷ b'e' ∷ []

abbrev pub running_bytes : Text
running_bytes = 0 ∷ 0 ∷ []

abbrev pub waiting_bytes : Text
waiting_bytes = 1 ∷ 0 ∷ 1 ∷ b's' ∷ 1 ∷ b's' ∷ 0 ∷ []

abbrev pub done_bytes : Text
done_bytes = 1 ∷ 1 ∷ 0 ∷ 0 ∷ 1 ∷ 10 ∷ []

abbrev pub timer_bytes : Text
timer_bytes = 1 ∷ b'w' ∷ 1 ∷ b'i' ∷ 1 ∷ b's' ∷ []

abbrev pub timer_row : TimerEntry
timer_row = record { workflow_name = wf; instance_id = inst; step_key = step_key }

abbrev pub meta_row : Text
meta_row = b'w' ∷ b'/' ∷ b'i' ∷ []

abbrev pub step_row : Text
step_row = b'w' ∷ b'/' ∷ b'i' ∷ b'/' ∷ b's' ∷ []

-- An instance that waits for the step, and one that is done.
abbrev pub waiting_db : Database
waiting_db = record {
  tables = record {
    steps = (step_row, suspended_bytes) ∷ [];
    meta = (meta_row, waiting_bytes) ∷ [];
    timers = ((3, 7), timer_bytes) ∷ [];
  };
  faults = [];
}

abbrev pub done_db : Database
done_db = record {
  tables = record {
    steps = (step_row, five_bytes) ∷ [];
    meta = (meta_row, done_bytes) ∷ [];
    timers = ((3, 7), timer_bytes) ∷ [];
  };
  faults = [];
}

abbrev pub done : WorkflowMetadata
done = record { status = Status.completed none; completed_at = some 10 }

abbrev pub waiting : WorkflowMetadata
waiting = record { status = Status.suspended step_key step_key; completed_at = none }

pub serialises : Serialises
serialises m = (_, refl)
