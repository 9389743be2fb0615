-- ===== src/Workflow.antt =====
-- src/engine/workflow.rs: the wrapper that stores a workflow's output, and reading it back.
pub mod Output
use memable.Prelude.{Option, none, some}
use memable.Text.{Text, text}
use memable.Outcome.{Outcome, ok, err, ◌>>=◌, ◌>>◌, lift, gets, and_then}
use memable.Error.{EngineError, input_missing, output_missing}
use memable.Journal.{Bytes, StepData, completed}
use memable.External.{External, Payload}
use memable.Store.{Db, read_txn, write_txn}
use memable.Keys.{composite_key}
use memable.Codec.{serialize_step, deserialize_step}
use memable.Shared.{with_db}
use memable.Context.{Frame, Workflow, in_shared, input}

-- The workflow functions that can be registered: the two implementations of the trait, which its
-- marker tells apart.
pub data IntoWorkflow ⦃x : External⦄ (I T : Type 0) : Type 0 where
  no_input : Workflow T → IntoWorkflow I T
  -- with the payload of the input
  with_input : Payload I → (I → Workflow T) → IntoWorkflow I T

module _ ⦃x : External⦄ where
  unfoldable pub write_output : {T : Type 0} → Payload T → Text → Text → T → Db (Unit {0})
  unfolding write_txn
  write_output p workflow_name instance_id output = do
    bytes ← lift (serialize_step p (completed output none) (text "_output"))
    let key = composite_key workflow_name instance_id (text "_output")
    write_txn (λ t. ok (tt, record t { steps = x.texts.insert t.steps key bytes }))

  unfoldable pub store_output : {T : Type 0} → Payload T → Text → Text → T → Workflow (Unit {0})
  store_output p workflow_name instance_id output =
      in_shared (with_db (write_output p workflow_name instance_id output))

  abbrev pub required : {A : Type 0} → Text → Option A → Outcome EngineError A
  required name none = err (input_missing name)
  required name (some a) = ok a

  -- The closure that is registered. Its names are those of the context that it is given; an input
  -- is read before the workflow starts.
  unfoldable pub into_workflow_fn :
      {I T : Type 0} → Payload T → IntoWorkflow I T → Workflow (Unit {0})
  unfolding store_output
  into_workflow_fn p (no_input workflow) = do
    w ← gets (λ f. f.context.workflow_name)
    i ← gets (λ f. f.context.instance_id)
    output ← workflow
    store_output p w i output
  into_workflow_fn p (with_input q workflow) = do
    w ← gets (λ f. f.context.workflow_name)
    i ← gets (λ f. f.context.instance_id)
    given ← input q
    value ← lift (required w given)
    output ← workflow value
    store_output p w i output

  unfoldable pub decode_output :
      {T : Type 0} → Payload T → Text → Text → Option Bytes → Outcome EngineError T
  decode_output p w i none = err (output_missing w i)
  decode_output p w i (some bytes) =
      and_then (deserialize_step p bytes (text "_output")) (taken w i)
    where
      taken : {A : Type 0} → Text → Text → StepData A → Outcome EngineError A
      taken w i (completed result _) = ok result
      taken w i _ = err (output_missing w i)

  unfoldable pub read_output : {T : Type 0} → Payload T → Text → Text → Db T
  unfolding decode_output read_txn
  read_output p workflow_name instance_id =
      let key = composite_key workflow_name instance_id (text "_output") in
      read_txn (λ t. decode_output p workflow_name instance_id (x.texts.get t.steps key))
