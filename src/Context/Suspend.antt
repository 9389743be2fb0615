-- ===== src/Context/Suspend.antt =====
-- src/context.rs: `Context::suspend` and `SuspendBuilder`.
use memable.Prelude.{Option, none, some}
use memable.Text.{Text}
use memable.Outcome.{◌>>=◌, ◌>>◌, pure, fail, lift, gets, modify}
use memable.Error.{EngineError}
use memable.State
use memable.Journal.{Bytes, StepData, completed, suspended, failed}
use memable.External.{External, Payload}
use memable.Codec.{serialize_step, deserialize_step}
use memable.Shared.{with_db}
use memable.Context.{
  Workflow, in_shared, key_of, stop_replaying, set_quietly, read_step, write_step, restore_status,
}
use memable.Context.Names.{SuspendPoint}

pub record SuspendBuilder : Type 0 where
  pub key : Text
  pub status_msg : Option Text

unfoldable pub suspend : SuspendPoint → SuspendBuilder
suspend point = record { key = point.key; status_msg = none }

unfoldable pub status : Text → SuspendBuilder → SuspendBuilder
status msg b = record b { status_msg = some msg }

abbrev pub message_or : Text → Option Text → Text
message_or key none = key
message_or key (some msg) = msg

module _ ⦃x : External⦄ where
  -- The delivered payload, a suspension, or that there is nothing yet.
  unfoldable pub on_signal : {T : Type 0} → Text → StepData T → Workflow (Option T)
  on_signal key (completed result status) = do
    modify stop_replaying
    modify (restore_status status)
    pure (some result)
  on_signal key suspended = fail (EngineError.suspended key)
  on_signal key (failed _) = pure none

  unfoldable pub check_signal : {T : Type 0} → Text → Payload T → Option Bytes → Workflow (Option T)
  unfolding on_signal
  check_signal key p none = pure none
  check_signal key p (some bytes) = do
    content ← lift (deserialize_step p bytes key)
    on_signal key content

  unfoldable pub begin_suspend : {T : Type 0} → Text → Option Text → Payload T → Workflow T
  unfolding write_step
  begin_suspend key status_msg p = do
    bytes ← lift (serialize_step p suspended key)
    composite ← gets (key_of key)
    in_shared (with_db (write_step composite bytes))
    modify (set_quietly (State.suspended key (message_or key status_msg)))
    fail (EngineError.suspended key)

  abbrev pub or_suspend : {T : Type 0} → Workflow T → Option T → Workflow T
  or_suspend m none = m
  or_suspend m (some result) = pure result

  unfoldable pub execute_suspend : {T : Type 0} → Text → Option Text → Payload T → Workflow T
  unfolding read_step check_signal begin_suspend
  execute_suspend key status_msg p = do
    composite ← gets (key_of key)
    bytes ← in_shared (with_db (read_step composite))
    delivered ← check_signal key p bytes
    or_suspend (begin_suspend key status_msg p) delivered
