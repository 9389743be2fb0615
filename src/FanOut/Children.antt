-- ===== src/FanOut/Children.antt =====
-- src/engine/fan_out.rs: the task of a child, with an inline closure and with a registered workflow.
-- What the runtime decides is an argument: in which order the tasks run, one at a time, under the
-- limit of the semaphore; the text of a panic; and what happens while a task waits for its child.
use memable.Prelude.{
  Bool, ℕ, Option, none, some, List, [], ◌∷◌, ◌++◌, get_elem?, length, false, if◌then◌else◌,
}
use memable.Text.{Text, text}
use memable.Outcome.{Outcome, ok, err, panic, ◌>>=◌, gets, fail, abort}
use memable.Error
use memable.Error.{EngineError, step_failed}
use memable.Error.Display.{error_to_string}
use memable.State
use memable.State.{WorkflowState, is_terminal, state_to_string}
use memable.Status
use memable.Journal.{Bytes}
use memable.External.{External, Payload}
use memable.Metadata.{write_metadata}
use memable.Shared.{Shared, Engine, with_db, remove_sender, get_or_create_sender}
use memable.Context
use memable.Context.{Workflow, in_shared}
use memable.Workflow.{write_output, read_output}
use memable.Execution.{handle_workflow_result}
use memable.Engine.{Invocation, spawn_workflow}
use memable.FanOut.{Joined, finished, failed, panicked}

module _ ⦃x : External⦄ where
  pub record Runtime : Type 0 where
    -- from the permits and the number of tasks
    pub schedule : ℕ → ℕ → List ℕ
    pub join_error : ℕ → Text
    -- the states that the receiver of a handle sees until it ends
    pub watched : Invocation → Shared → (WorkflowState × List WorkflowState) × Shared

  drop_sender : Text → Shared → Shared
  drop_sender cid s = record s { senders = remove_sender cid s.senders }

  -- An error of the write is logged and dropped.
  unfoldable pub note_running : ℕ → Text → Text → Shared → Shared
  unfolding write_metadata
  note_running now w cid s = record s {
    db = (write_metadata w cid (Status.new now Status.running) s.db).1;
  }

  abbrev ended :
      {T : Type 0}
      → ℕ
      → Text
      → Text
      → ℕ
      → Outcome EngineError (Unit {0})
      → Outcome EngineError T
      → Engine T
  ended now w cid tx result r s =
      (r, drop_sender cid (handle_workflow_result now result w cid tx s))

  -- What follows the write of the output.
  unfoldable pub saved :
      {T : Type 0} → ℕ → Text → Text → ℕ → T → Outcome EngineError (Unit {0}) → Engine T
  unfolding drop_sender
  saved now w cid tx value (ok _) = ended now w cid tx (ok tt) (ok value)
  saved now w cid tx value (err e) =
      ended now w cid tx (err e) (err (Error.storage (text "child output write failed")))
  saved now w cid tx value panic = abort

  unfoldable pub finish_child :
      {T : Type 0} → ℕ → Payload T → Text → Text → ℕ → Outcome EngineError T → Engine T
  unfolding drop_sender saved
  finish_child now p w cid tx (ok value) = λ s.
      let (written, s') = with_db (write_output p w cid value) s in
      saved now w cid tx value written s'
  finish_child now p w cid tx (err e) =
      ended now w cid tx (err (step_failed cid (error_to_string e) false)) (err e)
  finish_child now p w cid tx panic = abort

  -- The future that `spawn_inline_tasks` spawns for a child.
  unfoldable pub inline_child :
      {I T : Type 0} → ℕ → Payload T → Text → (I → Workflow T) → Text → I → Engine T
  inline_child now p w closure cid item s =
      let (tx, s1) = get_or_create_sender cid s in
      let (result, f) = closure item (Context.new w cid tx (note_running now w cid s1)) in
      finish_child now p w cid tx result f.shared

  -- `Context::spawn_child`.
  unfoldable pub spawn_child : Text → Text → Option Bytes → Workflow Invocation
  unfolding spawn_workflow
  spawn_child workflow_name child_key input_bytes = do
    parent ← gets (λ f. f.context.instance_id)
    in_shared (spawn_workflow workflow_name (parent ++ text "/" ++ child_key) input_bytes)

  -- The first terminal state, or the last one when the channel closes.
  unfoldable pub last_state : WorkflowState → List WorkflowState → WorkflowState
  last_state state [] = state
  last_state state (next ∷ rest) =
      let later = last_state next rest in if is_terminal state then state else later

  unfoldable pub child_outcome : {T : Type 0} → Payload T → Text → Text → WorkflowState → Engine T
  child_outcome p w cid (State.completed _) = with_db (read_output p w cid)
  child_outcome p w cid (State.failed msg) = fail (step_failed cid msg false)
  child_outcome p w cid other =
      fail (step_failed cid (text "child ended in state: " ++ state_to_string other) false)

  -- The future that `spawn_workflow_tasks` spawns for a child.
  unfoldable pub workflow_child :
      {T : Type 0} → Runtime → Payload T → Text → Text → Bytes → Engine T
  unfolding spawn_workflow last_state child_outcome
  workflow_child runtime p w cid input_bytes = do
    invocation ← spawn_workflow w cid (some input_bytes)
    (first, changes) ← (λ s. let (seen, s') = runtime.watched invocation s in (ok seen, s'))
    child_outcome p w cid (last_state first changes)

  abbrev joined_of : {T : Type 0} → Runtime → ℕ → Outcome EngineError T → Joined T
  joined_of runtime idx (ok value) = finished idx value
  joined_of runtime idx (err e) = failed idx e
  joined_of runtime idx panic = panicked (runtime.join_error idx)

  -- The tasks, in the order in which they run; an index that has no child has no task. The
  -- collection aborts those that are left when a task ends in a way that stops it.
  unfoldable pub run_tasks :
      {A T : Type 0}
      → Runtime
      → (Joined T → Bool)
      → (Text → A → Engine T)
      → List Text
      → List A
      → List ℕ
      → Shared
      → List (Joined T) × Shared
  run_tasks runtime stops task ids items [] s = ([], s)
  run_tasks runtime stops task ids items (idx ∷ order) s = elim (get_elem? ids idx) [
    | none ↦ run_tasks runtime stops task ids items order s
    | some cid ↦ elim (get_elem? items idx) [
      | none ↦ run_tasks runtime stops task ids items order s
      | some item ↦
          let (r, s1) = task cid item s in
          let joined = joined_of runtime idx r in
          let others = run_tasks runtime stops task ids items order s1 in
          let (rest, s2) = if stops joined then ([], s1) else others in (joined ∷ rest, s2)
    ]
  ]

  unfoldable pub spawn_inline_tasks :
      {I T : Type 0}
      → Runtime
      → (Joined T → Bool)
      → ℕ
      → Payload T
      → Text
      → List Text
      → List I
      → (I → Workflow T)
      → ℕ
      → Engine (List (Joined T))
  unfolding run_tasks
  spawn_inline_tasks runtime stops now p w ids items closure concurrency s =
      let order = runtime.schedule concurrency (length ids) in
      let (joined, s') = run_tasks runtime stops (inline_child now p w closure) ids items order s in
      (ok joined, s')

  unfoldable pub spawn_workflow_tasks :
      {T : Type 0}
      → Runtime
      → (Joined T → Bool)
      → Payload T
      → Text
      → List Text
      → List Bytes
      → ℕ
      → Engine (List (Joined T))
  unfolding run_tasks
  spawn_workflow_tasks runtime stops p w ids items_bytes concurrency s =
      let order = runtime.schedule concurrency (length ids) in
      let (joined, s') =
        run_tasks runtime stops (workflow_child runtime p w) ids items_bytes order s in
      (ok joined, s')
