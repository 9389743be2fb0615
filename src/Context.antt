-- ===== src/Context.antt =====
-- src/context.rs: the execution context of a workflow, its journal and its status. A `Frame` is one
-- context together with the state that it shares; `effects` records, newest first, what a step does
-- outside of both: the calls of its closure and its sleeps.
pub mod Names
pub mod Journal
pub mod Step
pub mod Suspend
pub mod Timer
use memable.Prelude.{ℕ, Bool, true, false, Option, none, some, List, ◌∷◌, if◌then◌else◌}
use memable.Text.{Text, text}
use memable.Outcome.{Exec, ok, ◌>>=◌, ◌>>◌, gets, pure, lift, modify}
use memable.Error.{EngineError}
use memable.State.{WorkflowState, in_progress}
use memable.Journal.{Bytes, StepData, completed}
use memable.External.{External, Payload}
use memable.Store.{Db, read_txn, write_txn}
use memable.Keys.{composite_key}
use memable.Codec.{deserialize_step}
use memable.Shared.{Shared, Engine, with_db, borrow, send, send_quietly}

pub record Context : Type 0 where
  pub workflow_name : Text
  pub instance_id : Text
  pub status_tx : ℕ
  pub replaying : Bool

pub data Effect : Type 0 where
  -- a call of the closure, with the number of the attempt
  called : ℕ → Effect
  slept : ℕ → Effect

pub record Frame ⦃x : External⦄ : Type 0 where
  pub context : Context
  pub shared : Shared
  pub effects : List Effect

module _ ⦃x : External⦄ where
  abbrev pub Workflow : Type 0 → Type 0
  Workflow A = Exec EngineError Frame A

  abbrev pub in_shared : {A : Type 0} → Engine A → Workflow A
  in_shared m f = let (r, s) = m f.shared in (r, record f { shared = s })

  -- `Context::new`.
  unfoldable pub new : Text → Text → ℕ → Shared → Frame
  new workflow_name instance_id status_tx shared = record {
    context = record {
      workflow_name = workflow_name;
      instance_id = instance_id;
      status_tx = status_tx;
      replaying = true;
    };
    shared = shared;
    effects = List.[];
  }

  abbrev pub key_of : Text → Frame → Text
  key_of key f = composite_key f.context.workflow_name f.context.instance_id key

  abbrev pub stop_replaying : Frame → Frame
  stop_replaying f = record f { context = record f.context { replaying = false } }

  abbrev pub set_quietly : WorkflowState → Frame → Frame
  set_quietly v f = record f { shared = send_quietly f.context.status_tx v f.shared }

  abbrev pub note : Effect → Frame → Frame
  note e f = record f { effects = e ∷ f.effects }

  unfoldable pub read_step : Text → Db (Option Bytes)
  unfolding read_txn
  read_step key = read_txn (λ t. ok (x.texts.get t.steps key))

  unfoldable pub write_step : Text → Bytes → Db (Unit {0})
  unfolding write_txn
  write_step key value =
      write_txn (λ t. ok (tt, record t { steps = x.texts.insert t.steps key value }))

  -- While replaying, the observers are not woken.
  unfoldable pub set_status : Text → Frame → Frame
  set_status msg f =
      let value = in_progress msg in
      if f.context.replaying
      then set_quietly value f
      else record f { shared = send f.context.status_tx value f.shared }

  unfoldable pub current_status_string : Frame → Option Text
  current_status_string f = elim (borrow f.context.status_tx f.shared) [
    | in_progress msg ↦ some msg
    | _ ↦ none
  ]

  -- A status that was stored with a result is shown again, without waking the observers.
  unfoldable pub restore_status : Option Text → Frame → Frame
  restore_status none f = f
  restore_status (some status) f = set_quietly (in_progress status) f

  unfoldable pub only_completed : {T : Type 0} → StepData T → Option T
  only_completed (completed result _) = some result
  only_completed _ = none

  unfoldable pub decode_input : {T : Type 0} → Payload T → Option Bytes → Workflow (Option T)
  unfolding only_completed
  decode_input p none = pure none
  decode_input p (some bytes) = do
    content ← lift (deserialize_step p bytes (text "_input"))
    pure (only_completed content)

  unfoldable pub input : {T : Type 0} → Payload T → Workflow (Option T)
  unfolding decode_input read_step
  input p = do
    key ← gets (key_of (text "_input"))
    bytes ← in_shared (with_db (read_step key))
    decode_input p bytes
