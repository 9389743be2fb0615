-- ===== src/Execution.antt =====
-- src/engine/execution.rs: how a workflow task ends, how a suspended step is claimed, and the timer
-- poller. The clocks are arguments: seconds for the metadata, milliseconds for the timers.
pub mod Finish
pub mod Claim
pub mod Poll
pub mod LostTimer
pub mod Delivery
pub mod Ready
use memable.Prelude.{
  ℕ, Bool, true, false, Option, none, some, List, [], ◌∷◌, ◌++◌, if◌then◌else◌, not,
}
use memable.Text.{Text, text, slash, contains}
use memable.Text.Decimal.{decimal}
use memable.Outcome.{
  Outcome, ok, err, panic, Exec, ◌>>=◌, ◌>>◌, pure, fail, lift, gets, modify, map_err, and_then,
}
use memable.Error.{
  EngineError, suspended, serialization, invalid_key, signal_rejected, signal_superseded,
  workflow_not_found,
}
use memable.Error.Display.{error_to_string}
use memable.State
use memable.State.{WorkflowState, message}
use memable.Status
use memable.Status.{MetadataStatus, WorkflowMetadata}
use memable.Journal.{Bytes, StepData, StepEnvelope, TimerEntry, completed, is_suspended}
use memable.External.{External, TimerKey}
use memable.Store.{Tables, Db, read_txn, write_txn}
use memable.Keys.{meta_key, composite_key}
use memable.Metadata.{encode_metadata, decode_metadata, put_meta, write_metadata, read_metadata}
use memable.Codec.{serialize_step, deserialize_envelope}
use memable.Retry.{u64_max}
use memable.Shared.{
  Shared, Task, Engine, with_db, borrow, send, is_registered, remove_sender, get_or_create_sender,
  spawn_workflow_task,
}
use memable.Context
use memable.Context.{Frame, Workflow}

unfoldable pub validate_key_component : Text → Text → Outcome EngineError (Unit {0})
validate_key_component value label =
    if contains value slash then err (invalid_key label value) else ok tt

abbrev pub message_or : Text → Option Text → Text
message_or key none = key
message_or key (some msg) = msg

module _ ⦃x : External⦄ where
  -- An error of the metadata write is logged and dropped.
  unfoldable pub publish : ℕ → Text → Text → ℕ → MetadataStatus → WorkflowState → Shared → Shared
  publish now_secs workflow_name instance_id tx status state s =
      let (_, db) = write_metadata workflow_name instance_id (Status.new now_secs status) s.db in
      send tx state (record s { db = db })

  unfoldable pub handle_workflow_result :
      ℕ → Outcome EngineError (Unit {0}) → Text → Text → ℕ → Shared → Shared
  handle_workflow_result now (ok _) w i tx s =
      let last = message (borrow tx s) in
      publish now w i tx (Status.completed last) (State.completed last) s
  handle_workflow_result now (err (suspended key)) w i tx s =
      let status = message_or key (message (borrow tx s)) in
      publish now w i tx (Status.suspended key status) (State.suspended key status) s
  handle_workflow_result now (err e) w i tx s =
      let msg = error_to_string e in publish now w i tx (Status.failed msg) (State.failed msg) s
  -- a panic ends the task before its result is handled
  handle_workflow_result now panic w i tx s = s

  abbrev is_terminal_result : Outcome EngineError (Unit {0}) → Bool
  is_terminal_result (err (suspended _)) = false
  is_terminal_result panic = false
  is_terminal_result _ = true

  unfoldable pub finish_task : ℕ → Outcome EngineError (Unit {0}) → Task → Shared → Shared
  finish_task now result task s =
      let s' = handle_workflow_result now result task.workflow_name task.instance_id task.tx s in
      if is_terminal_result result
      then record s' { senders = remove_sender task.instance_id s'.senders }
      else s'

  -- The spawned future: the workflow in a fresh context, then its result.
  unfoldable pub run_task : ℕ → Workflow (Unit {0}) → Task → Shared → Shared
  run_task now workflow task s =
      let (result, f) = workflow (Context.new task.workflow_name task.instance_id task.tx s) in
      finish_task now result task f.shared

  -- The step that is to be claimed has to be there, and suspended.
  unfoldable pub check_step : Text → Option Bytes → Outcome EngineError (Unit {0})
  check_step key none = err (signal_rejected key (text "step does not exist"))
  check_step key (some bytes) =
      and_then (deserialize_envelope bytes key)
        λ envelope. if is_suspended envelope.state then ok tt else err (signal_superseded key)

  unfoldable pub check_meta : Text → Text → Option Bytes → Outcome EngineError (Unit {0})
  check_meta key meta none = err (signal_rejected key (text "workflow metadata not found"))
  check_meta key meta (some bytes) =
      and_then (decode_metadata meta bytes)
        λ m. if Status.is_suspended m.status then ok tt else err (signal_superseded key)

  unfoldable pub claim_body :
      Text → Text → Text → Bytes → Tables → Outcome EngineError (Unit {0} × Tables)
  claim_body composite meta step_key step_bytes t =
      and_then (check_step step_key (x.texts.get t.steps composite)) λ _.
        and_then (check_meta step_key meta (x.texts.get t.meta meta)) λ _.
          and_then (encode_metadata meta (Status.new 0 Status.running)) λ meta_bytes. ok (
            tt,
            put_meta meta meta_bytes
                (record t { steps = x.texts.insert t.steps composite step_bytes }),
          )

  unfoldable pub claim_suspended_step : Text → Text → Text → Bytes → Db (Unit {0})
  unfolding write_txn
  claim_suspended_step workflow_name instance_id step_key step_bytes = write_txn (
      claim_body (composite_key workflow_name instance_id step_key)
        (meta_key workflow_name instance_id) step_key step_bytes)

  timer_label : TimerKey → Text
  timer_label key = text "timer(" ++ decimal key.0 ++ text "," ++ decimal key.1 ++ text ")"

  unfoldable pub decode_timers :
      List (TimerKey × Bytes) → Outcome EngineError (List (TimerKey × TimerEntry))
  unfolding timer_label
  decode_timers [] = ok []
  decode_timers ((key, bytes) ∷ rest) =
      let others = decode_timers rest in
      and_then (map_err (serialization (timer_label key)) (x.timer_entry.from_bytes bytes))
        λ entry. and_then others (λ expired. ok ((key, entry) ∷ expired))

  unfoldable pub collect_expired_timers : ℕ → Db (List (TimerKey × TimerEntry))
  unfolding read_txn
  collect_expired_timers now =
      read_txn (λ t. decode_timers (x.timers.range_inclusive t.timers (0, 0) (now, u64_max)))

  unfoldable pub signal_timer : TimerEntry → Engine (Unit {0})
  signal_timer entry = do
    step_bytes ← lift (serialize_step x.unit (completed tt none) entry.step_key)
    with_db (claim_suspended_step entry.workflow_name entry.instance_id entry.step_key step_bytes)
    known ← gets (λ s. is_registered entry.workflow_name s.workflows)
    if known then resume_task else fail (workflow_not_found entry.workflow_name)
    where
      resume_task : Engine (Unit {0})
      resume_task s =
          let (tx, s') = get_or_create_sender entry.instance_id s in
          (ok tt, spawn_workflow_task entry.workflow_name entry.instance_id tx s')

  -- A claim that came too late is no error of the poller.
  abbrev pub unless_superseded : Outcome EngineError (Unit {0}) → Outcome EngineError (Unit {0})
  unless_superseded (err (signal_superseded _)) = ok tt
  unless_superseded r = r

  unfoldable pub remove_timer : TimerKey → Db (Unit {0})
  unfolding write_txn
  remove_timer key = write_txn (λ t. ok (tt, record t { timers = x.timers.remove t.timers key }))

  abbrev pub awaits_signal : Option WorkflowMetadata → Bool
  awaits_signal none = false
  awaits_signal (some m) = Status.is_suspended m.status

  unfoldable pub deliver : TimerEntry → Engine (Unit {0})
  deliver entry s = let (r, s') = signal_timer entry s in (unless_superseded r, s')

  -- The timer goes first; an instance that is not suspended is skipped.
  unfoldable pub poll_one : TimerKey × TimerEntry → Engine (Unit {0})
  unfolding remove_timer
  poll_one (key, entry) = do
    with_db (remove_timer key)
    meta ← with_db (read_metadata entry.workflow_name entry.instance_id)
    if awaits_signal meta then deliver entry else pure tt

  unfoldable pub poll_all : List (TimerKey × TimerEntry) → Engine (Unit {0})
  poll_all [] = pure tt
  poll_all (timer ∷ rest) = do poll_one timer; poll_all rest

  unfoldable pub poll_timers : ℕ → Engine (Unit {0})
  unfolding collect_expired_timers
  poll_timers now = do expired ← with_db (collect_expired_timers now); poll_all expired
