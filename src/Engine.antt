-- ===== src/Engine.antt =====
-- src/engine/engine_impl.rs: the engine's operations. An invocation holds the number of its channel,
-- whose receiver it has; the lock on the tasks makes each operation one step. A `HashMap` gives its
-- keys in an order of its own: here the order of registration.
pub mod Spawn
pub mod Resume
pub mod Signal
pub mod Observe
pub mod Queries
pub mod Loops
use memable.Prelude.{
  ℕ, ◌+◌, Bool, true, false, Option, none, some, List, [], ◌∷◌, ◌++◌, if◌then◌else◌,
}
use memable.Text.{Text, text}
use memable.Outcome.{
  Outcome, ok, err, panic, Exec, ◌>>=◌, ◌>>◌, pure, fail, lift, gets, modify, abort, and_then,
}
use memable.Error
use memable.Error.{EngineError, SubscribeError, StateError, not_started, workflow_not_found}
use memable.Error.Display.{error_to_string}
use memable.State
use memable.State.{WorkflowState}
use memable.Status
use memable.Status.{MetadataStatus, WorkflowMetadata, is_running}
use memable.Journal.{Bytes, StepData, completed}
use memable.External.{External, Payload}
use memable.Store.{Tables, Db, write_txn}
use memable.Keys.{meta_key, composite_key}
use memable.Metadata.{encode_metadata, put_meta, read_metadata, list_metadata}
use memable.Codec.{serialize_step}
use memable.Shared.{
  Shared, Engine, with_db, borrow, subscribe, is_registered, find_sender, get_or_create_sender,
  spawn_workflow_task,
}
use memable.Context.Names.{SuspendPoint}
use memable.Execution.{validate_key_component, claim_suspended_step}
use memable.Stream.{StatusStream, initial, snapshot}

pub record Invocation : Type 0 where
  pub workflow_name : Text
  pub instance_id : Text
  pub status : ℕ

module _ ⦃x : External⦄ where
  -- The body of the transaction of `spawn_workflow`.
  abbrev pub put_input : Text → Option Bytes → Tables → Tables
  put_input key none t = t
  put_input key (some input) t = record t { steps = x.texts.insert t.steps key input }

  unfoldable pub write_invocation : Text → Text → Option Bytes → Db (Unit {0})
  unfolding encode_metadata write_txn
  write_invocation workflow_name instance_id input_bytes = do
    let key = meta_key workflow_name instance_id
    meta_bytes ← lift (encode_metadata key (Status.new 0 Status.running))
    write_txn (λ t. ok (
      tt,
      put_input (composite_key workflow_name instance_id (text "_input")) input_bytes
          (put_meta key meta_bytes t),
    ))

  -- The guards under the lock.
  unfoldable pub check_ready : Text → Shared → Outcome EngineError (Unit {0})
  check_ready workflow_name s =
      if s.running
      then (if is_registered workflow_name s.workflows
          then ok tt
          else err (workflow_not_found workflow_name))
      else err not_started

  -- A receiver of the instance's channel, and the task.
  unfoldable pub launch : Text → Text → Engine Invocation
  launch workflow_name instance_id s =
      let (tx, s') = get_or_create_sender instance_id s in
      (
        ok (record { workflow_name = workflow_name; instance_id = instance_id; status = tx }),
        spawn_workflow_task workflow_name instance_id tx (subscribe tx s'),
      )

  unfoldable pub spawn_workflow : Text → Text → Option Bytes → Engine Invocation
  unfolding check_ready write_invocation launch
  spawn_workflow workflow_name instance_id input_bytes = do
    lift (validate_key_component workflow_name (text "workflow_name"))
    ready ← gets (check_ready workflow_name)
    lift ready
    with_db (write_invocation workflow_name instance_id input_bytes)
    launch workflow_name instance_id

  unfoldable pub resume : Text → Text → Engine Invocation
  unfolding spawn_workflow
  resume workflow_name instance_id = do
    lift (validate_key_component instance_id (text "instance_id"))
    spawn_workflow workflow_name instance_id none

  -- The claim comes before the guards.
  unfoldable pub signal :
      {T : Type 0} → Payload T → Text → Text → SuspendPoint → T → Engine Invocation
  unfolding serialize_step claim_suspended_step check_ready launch
  signal p workflow_name instance_id point payload = do
    lift (validate_key_component instance_id (text "instance_id"))
    step_bytes ← lift (serialize_step p (completed payload none) point.key)
    with_db (claim_suspended_step workflow_name instance_id point.key step_bytes)
    ready ← gets (check_ready workflow_name)
    lift ready
    launch workflow_name instance_id

  -- `state` without a live channel.
  abbrev pub stored_state : Text → Text → Option WorkflowMetadata → Outcome StateError WorkflowState
  stored_state w i none = err (StateError.not_found w i)
  stored_state w i (some m) = elim m.status [
    | Status.running ↦ ok State.started
    | Status.suspended key status ↦ ok (State.suspended key status)
    | Status.completed msg ↦ ok (State.completed msg)
    | Status.failed msg ↦ ok (State.failed msg)
  ]

  abbrev state_error : {A : Type 0} → Outcome EngineError A → Outcome StateError A
  state_error (ok a) = ok a
  state_error (err e) = err (StateError.storage (error_to_string e))
  state_error panic = panic

  unfoldable pub state : Text → Text → Exec StateError Shared WorkflowState
  unfolding read_metadata
  state workflow_name instance_id s = elim (find_sender instance_id s.senders) [
    | some tx ↦ (ok (borrow tx s), s)
    | none ↦
        let (meta, db) = read_metadata workflow_name instance_id s.db in
        (and_then (state_error meta) (stored_state workflow_name instance_id), record s { db = db })
  ]

  abbrev pub stored_stream :
      Text → Text → Option WorkflowMetadata → Outcome SubscribeError StatusStream
  stored_stream w i none = err (SubscribeError.not_found w i)
  stored_stream w i (some m) = elim m.status [
    | Status.suspended key status ↦ ok (snapshot (some (State.suspended key status)))
    | Status.completed msg ↦ ok (snapshot (some (State.completed msg)))
    | Status.failed msg ↦ ok (snapshot (some (State.failed msg)))
    | Status.running ↦ err (SubscribeError.stale_running w i)
  ]

  abbrev subscribe_error : {A : Type 0} → Outcome EngineError A → Outcome SubscribeError A
  subscribe_error (ok a) = ok a
  subscribe_error (err e) = err (SubscribeError.storage (error_to_string e))
  subscribe_error panic = panic

  unfoldable pub subscribe_instance : Text → Text → Exec SubscribeError Shared StatusStream
  unfolding read_metadata
  subscribe_instance workflow_name instance_id s = elim (find_sender instance_id s.senders) [
    | some tx ↦ (ok (initial tx), subscribe tx s)
    | none ↦
        let (meta, db) = read_metadata workflow_name instance_id s.db in
        (
          and_then (subscribe_error meta) (stored_stream workflow_name instance_id),
          record s { db = db },
        )
  ]

  -- An instance that fails to spawn is skipped; a panic ends the start.
  abbrev skip_failed : Engine Invocation → Engine (Unit {0})
  skip_failed m s = let (r, s') = m s in elim r [ panic ↦ (panic, s') | _ ↦ (ok tt, s') ]

  unfoldable pub resume_instances : Text → List (Text × WorkflowMetadata) → Engine (Unit {0})
  unfolding spawn_workflow
  resume_instances w [] = pure tt
  resume_instances w ((instance_id, meta) ∷ rest) = do
    (if is_running meta.status then skip_failed (spawn_workflow w instance_id none) else pure tt)
    resume_instances w rest

  unfoldable pub resume_workflows : List Text → Engine (Unit {0})
  resume_workflows [] = pure tt
  resume_workflows (w ∷ ws) = do
    instances ← with_db (list_metadata w)
    resume_instances w instances
    resume_workflows ws

  unfoldable pub resume_running_instances : Engine (Unit {0})
  unfolding resume_workflows
  resume_running_instances = do
    workflow_names ← gets (λ s. s.workflows)
    resume_workflows workflow_names

  -- The pollers that `start` spawns run later.
  unfoldable pub start : Bool → Engine (Unit {0})
  unfolding resume_running_instances
  start resume_on_start s =
      if s.running
      then (panic, s)
      else (let s' = record s { running = true } in
          if resume_on_start then resume_running_instances s' else (ok tt, s'))

  -- While no handle is shared, so that `Arc::get_mut` gives the workflows.
  unfoldable pub register : Text → Engine (Unit {0})
  register name s = if s.running then (panic, s) else (
    ok tt,
    if is_registered name s.workflows then s else record s { workflows = s.workflows ++ name ∷ [] },
  )

  -- The tasks that `wait_all` then joins are already spawned.
  unfoldable pub stop : Shared → Shared
  stop s = record s { running = false }
