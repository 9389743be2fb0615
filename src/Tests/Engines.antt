-- ===== src/Tests/Engines.antt =====
-- Witnesses on the engine's operations.
use memable.Prelude.{◌≡◌, refl, false, none, some, List, [], ◌∷◌, ◌++◌, map}
use memable.Text.{Text}
use memable.Outcome.{ok, err}
use memable.Error
use memable.Error.{EngineError, SubscribeError, invalid_key}
use memable.State
use memable.State.{WorkflowState}
use memable.Status
use memable.Status.{WorkflowMetadata}
use memable.Journal.{Bytes, StepData, completed}
use memable.Store.{Database}
use memable.Shared.{Shared}
use memable.Codec.{serialize_step}
use memable.Metadata.{read_metadata}
use memable.Execution.Claim.{Claimed}
use memable.Stream.{StatusStream, snapshot, Changed, poll_next, item}
use memable.Engine.{Invocation, spawn_workflow, resume_instances, signal, state, subscribe_instance}
use memable.Engine.Spawn.{owner, Accepts, spawn_workflow_err, spawn_workflow-Launched}
use memable.Engine.Resume.{resume_instances-tasks}
use memable.Engine.Signal.{signal_ok-Claimed, signal_not_ready}
use memable.Engine.Observe.{subscribe-state}
use memable.Tests.Demo.{demo, u64}
use memable.Tests.Scene.{
  wf, inst, step_key, empty_db, waiting_db, done_db, waiting, engine, five_bytes, running_bytes,
  meta_row, point, serialises,
}

accepts : Accepts wf (engine empty_db)
unfolding memable.Shared.is_registered memable.Text.text_eq memable.Text.contains
accepts = record { running = refl; registered = refl; component = refl; healthy = refl }

spawn_workflow_err_example :
    let s = (spawn_workflow (b'/' ∷ []) inst none (engine empty_db)).1 in
    (s.db.tables ≡ empty_db.tables)
    × (s.tasks ≡ [])
    × (s.senders ≡ [])
    × (s.channels ≡ (engine empty_db).channels)
unfolding spawn_workflow memable.Execution.validate_key_component memable.Text.contains
spawn_workflow_err_example =
    spawn_workflow_err (b'/' ∷ []) inst none (engine empty_db) (invalid_key _ (b'/' ∷ [])) refl

spawn_workflow-Launched_example :
    let (r, s) = spawn_workflow wf inst none (engine empty_db) in
    ((inv : Invocation) × (r ≡ ok inv))
    × (map owner s.tasks ≡ (wf, inst) ∷ [])
    × ((read_metadata wf inst s.db).0 ≡ ok (some (Status.new 0 Status.running)))
spawn_workflow-Launched_example =
    spawn_workflow-Launched wf inst none (engine empty_db) accepts serialises

-- The row of an inline child, which is running, and of an instance that waits.
abbrev child : Text
child = inst ++ b'/' ∷ step_key

abbrev listing : List (Text × WorkflowMetadata)
listing = (child, record { status = Status.running; completed_at = none }) ∷ (inst, waiting) ∷ []

resume_instances-tasks_example :
    ((resume_instances wf listing (engine empty_db)).0 ≡ ok tt)
    × (map owner (resume_instances wf listing (engine empty_db)).1.tasks ≡ (wf, child) ∷ [])
unfolding Status.is_running
resume_instances-tasks_example =
    resume_instances-tasks wf listing (engine empty_db) accepts serialises

signal_ok-Claimed_example :
    let s = (signal u64 wf inst point 5 (engine waiting_db)).1 in
    ((bytes : Bytes) × (serialize_step u64 (completed 5 none) step_key ≡ ok bytes)
      × Claimed wf inst step_key bytes waiting_db.tables s.db.tables)
    × (map owner s.tasks ≡ (wf, inst) ∷ [])
unfolding signal memable.Execution.validate_key_component memable.Text.contains
    memable.Execution.claim_body memable.Execution.check_step memable.Text.text_eq
    memable.Keys.composite_key memable.Codec.deserialize_envelope memable.Journal.is_suspended
    memable.Execution.check_meta memable.Keys.meta_key memable.Metadata.decode_metadata
    Status.is_suspended memable.Metadata.encode_metadata memable.Shared.is_registered
    memable.Shared.get_or_create_sender memable.Shared.find_sender serialize_step
    memable.Engine.check_ready memable.Engine.launch memable.Execution.claim_suspended_step
    memable.Shared.insert_sender memable.Shared.remove_sender memable.Shared.spawn_workflow_task
    Status.is_terminal Status.new memable.Store.storage_call memable.Store.write_txn
    memable.Text.text
signal_ok-Claimed_example =
    signal_ok-Claimed u64 wf inst point 5 (engine waiting_db)
      (record { workflow_name = wf; instance_id = inst; status = 1 }) refl refl

abbrev stopped : Shared
stopped = record (engine waiting_db) { running = false }

signal_not_ready_example :
    let (r, s) = signal u64 wf inst point 5 stopped in
    (r ≡ err Error.not_started)
    × Claimed wf inst step_key five_bytes waiting_db.tables s.db.tables
    × (s.tasks ≡ [])
unfolding memable.Execution.validate_key_component memable.Text.contains serialize_step
    memable.Execution.claim_suspended_step memable.Execution.claim_body memable.Execution.check_step
    memable.Text.text_eq memable.Keys.composite_key memable.Codec.deserialize_envelope
    memable.Journal.is_suspended memable.Execution.check_meta memable.Keys.meta_key
    memable.Metadata.decode_metadata Status.is_suspended memable.Metadata.encode_metadata
    memable.Engine.check_ready
signal_not_ready_example =
    signal_not_ready u64 wf inst point 5 stopped five_bytes Error.not_started refl refl refl refl

abbrev shown : StatusStream
shown = snapshot (some (State.completed none))

subscribe-state_example :
    (v : WorkflowState) × ((state wf inst (engine done_db)).0 ≡ ok v)
    × ((poll_next Changed.pending State.started shown).0 ≡ item v)
unfolding subscribe_instance memable.Shared.find_sender memable.Text.text_eq memable.Keys.meta_key
subscribe-state_example = subscribe-state wf inst Changed.pending (engine done_db) shown refl

abbrev running_db : Database
running_db = record empty_db {
  tables = record empty_db.tables { meta = (meta_row, running_bytes) ∷ [] };
}
