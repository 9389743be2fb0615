-- ===== src/FanOut/Stored.antt =====
-- What an inline child reports has been stored.
use memable.Prelude.{ℕ, ◌≡◌, arith, none, some}
use memable.Text.{Text, text}
use memable.Outcome.{Outcome, ok}
use memable.Error.{EngineError}
use memable.Journal.{Bytes, completed}
use memable.External.{External, Payload}
use memable.Store.{Database, IsHealthy}
use memable.Keys.{composite_key}
use memable.Codec.{serialize_step}
use memable.Shared.{Shared}
use memable.Context.{Workflow}
use memable.Execution.{handle_workflow_result, publish}

module _ ⦃x : External⦄ where
  -- How a task ends changes no step.
  pub steps-handle :
      (now : ℕ) (r : Outcome EngineError (Unit {0})) (w i : Text) (tx : ℕ) (s : Shared)
      → (handle_workflow_result now r w i tx s).db.steps ≡ s.db.steps
  unfolding handle_workflow_result publish memable.Metadata.write_metadata memable.Store.write_txn
      memable.Store.storage_call
  steps-handle now r w i tx s = ground arith

  -- The table holds this output of the instance.
  pub record HasOutput {T : Type 0} (p : Payload T) (w i : Text) (v : T) (s : Shared) : Type 0 where
    pub bytes : Bytes
    pub written : serialize_step p (completed v none) (text "_output") ≡ ok bytes
    pub found : x.texts.get s.db.steps (composite_key w i (text "_output")) ≡ some bytes
