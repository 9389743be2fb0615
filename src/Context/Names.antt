-- ===== src/Context/Names.antt =====
-- src/context.rs: the names of workflow definitions and suspend points, and which keys are accepted.
use memable.Prelude.{Bool, ◌||◌, if◌then◌else◌}
use memable.Text.{Text, slash, underscore, contains, starts_with_char}
use memable.Outcome.{Outcome, ok, panic}
use memable.Error.{EngineError}

-- A key that holds a separator, or is reserved for the engine.
unfoldable pub is_refused : Text → Bool
is_refused key = contains key slash || starts_with_char key underscore

pub record WorkflowDef : Type 0 where
  pub name : Text

unfoldable pub workflow_def : Text → Outcome EngineError WorkflowDef
unfolding is_refused
workflow_def name = if is_refused name then panic else ok (record { name = name })

pub record SuspendPoint : Type 0 where
  pub key : Text

unfoldable pub suspend_point : Text → Outcome EngineError SuspendPoint
unfolding is_refused
suspend_point key = if is_refused key then panic else ok (record { key = key })
