-- ===== src/State.antt =====
-- src/engine/state.rs: the observable state of a workflow instance.
use memable.Prelude.{Bool, true, false, Option, none, some, ◌++◌}
use memable.Text.{Text, text}

pub data WorkflowState : Type 0 where
  started : WorkflowState
  in_progress : Text → WorkflowState
  -- the step key and the message
  suspended : Text → Text → WorkflowState
  completed : Option Text → WorkflowState
  failed : Text → WorkflowState

unfoldable pub is_terminal : WorkflowState → Bool
is_terminal (completed _) = true
is_terminal (failed _) = true
is_terminal _ = false

unfoldable pub message : WorkflowState → Option Text
message (in_progress msg) = some msg
message (failed msg) = some msg
message (suspended key status) = some status
message (completed msg) = msg
message started = none

unfoldable pub state_to_string : WorkflowState → Text
state_to_string started = text "started"
state_to_string (in_progress msg) = text "in progress: " ++ msg
state_to_string (suspended key status) = text "suspended (" ++ key ++ text "): " ++ status
state_to_string (completed none) = text "completed"
state_to_string (completed (some msg)) = text "completed: " ++ msg
state_to_string (failed msg) = text "failed: " ++ msg
