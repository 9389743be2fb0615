-- ===== src/Waiting.antt =====
-- src/engine/invocation.rs: invoking a workflow with its input, and waiting on the handle. The states
-- that the receiver sees are an argument: the one at the start, and one for each change until the
-- channel closes.
pub mod First
pub mod Input
use memable.Prelude.{Bool, true, ◌||◌, Option, none, some, List, [], ◌∷◌, ◌++◌, if◌then◌else◌}
use memable.Text.{Text, text}
use memable.Outcome.{Outcome, ok, panic, ◌>>=◌, lift, map_err}
use memable.Error.{EngineError}
use memable.State
use memable.State.{WorkflowState, is_terminal}
use memable.Journal.{Bytes, StepData}
use memable.External.{External, Payload}
use memable.Store.{Db}
use memable.Codec.{serialize_step}
use memable.Shared.{Engine}
use memable.Engine.{Invocation, spawn_workflow}
use memable.Workflow.{read_output}

pub record Completed : Type 0 where
  pub instance_id : Text
  pub status : Option Text
  pub workflow_name : Text

pub data WaitResult : Type 0 where
  completed : Completed → WaitResult
  -- the step key and the message
  suspended : Text → Text → WaitResult
  failed : Text → WaitResult

abbrev pub is_settled : WorkflowState → Bool
is_settled (State.suspended _ _) = true
is_settled s = is_terminal s

-- The loop: `changed` fails once the channel is closed, and the last state is taken.
unfoldable pub last_seen : WorkflowState → List WorkflowState → WorkflowState
last_seen s [] = s
last_seen s (next ∷ rest) = let later = last_seen next rest in if is_settled s then s else later

unfoldable pub result_of : Invocation → WorkflowState → Outcome EngineError WaitResult
result_of inv (State.completed status) = ok (
    WaitResult.completed (record {
      instance_id = inv.instance_id;
      status = status;
      workflow_name = inv.workflow_name;
    }))
result_of inv (State.suspended key status) = ok (WaitResult.suspended key status)
result_of inv (State.failed msg) = ok (WaitResult.failed msg)
result_of inv _ = panic

unfoldable pub wait :
    Invocation → WorkflowState → List WorkflowState → Outcome EngineError WaitResult
unfolding last_seen result_of
wait inv s changes = result_of inv (last_seen s changes)

unfoldable pub unwrap_completed : WaitResult → Outcome EngineError Completed
unwrap_completed (WaitResult.completed c) = ok c
unwrap_completed _ = panic

unfoldable pub wait_result_to_string : WaitResult → Text
wait_result_to_string (WaitResult.completed c) = elim c.status [
  | none ↦ text "completed"
  | some msg ↦ text "completed: " ++ msg
]
wait_result_to_string (WaitResult.suspended key status) =
    text "suspended (" ++ key ++ text "): " ++ status
wait_result_to_string (WaitResult.failed msg) = text "failed: " ++ msg

pub record InvocationBuilder : Type 0 where
  pub workflow_name : Text
  pub input_payload : Outcome EngineError (Option Bytes)

-- `Engine::invoke`.
unfoldable pub invoke : Text → InvocationBuilder
invoke name = record { workflow_name = name; input_payload = ok none }

module _ ⦃x : External⦄ where
  unfoldable pub output : {T : Type 0} → Payload T → Completed → Db T
  unfolding read_output
  output p c = read_output p c.workflow_name c.instance_id

  abbrev some_bytes : Outcome EngineError Bytes → Outcome EngineError (Option Bytes)
  some_bytes (ok bytes) = ok (some bytes)
  some_bytes (Outcome.err e) = Outcome.err e
  some_bytes panic = panic

  unfoldable pub with_input : {I : Type 0} → Payload I → I → InvocationBuilder → InvocationBuilder
  unfolding serialize_step
  with_input p payload b = record b {
    input_payload = some_bytes (serialize_step p (StepData.completed payload none) (text "_input"));
  }

  -- The generated id is an argument.
  unfoldable pub into_future : Text → InvocationBuilder → Engine Invocation
  unfolding spawn_workflow
  into_future instance_id b = do
    input_bytes ← lift b.input_payload
    spawn_workflow b.workflow_name instance_id input_bytes
