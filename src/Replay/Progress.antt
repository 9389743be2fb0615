-- ===== src/Replay/Progress.antt =====
-- Progress: a task that has ended at a suspend point accepts the signal to it, and the run that the
-- signal queues comes to what follows.
pub mod Timer
use memable.Prelude.{ℕ, ◌≡◌, refl, ap, sym, ◌∙◌, subst, arith}
use memable.Text.{Text}
use memable.Outcome.{err}
use memable.Error
use memable.Error.{EngineError}
use memable.Status
use memable.Status.{new}
use memable.External.{External}
use memable.Store.{IsHealthy}
use memable.Metadata.{read_metadata}
use memable.Metadata.Laws.{write_metadata-IsHealthy}
use memable.Shared.{Shared, Task}
use memable.Context
use memable.Context.{Frame, Workflow}
use memable.Execution.{publish, handle_workflow_result, finish_task, run_task}
use memable.Execution.Finish.{Serialises}
use memable.Execution.LostTimer.{suspend_keeps_tables, suspend_stored}
use memable.Execution.Ready.{Waiting}
use memable.Replay.{Types, Program, interpret}
use memable.Replay.Keeps.{Extends}
use memable.Replay.Parks.{Parked}

module _ ⦃x : External⦄ where
  -- A task that suspends leaves its frame's journal, and stores that its instance is suspended.
  IsHealthy-suspended :
      (now : ℕ) (key w i : Text) (tx : ℕ) (s : Shared)
      → IsHealthy s.db
      → Serialises
      → IsHealthy (handle_workflow_result now (err (Error.suspended key)) w i tx s).db
  unfolding handle_workflow_result publish memable.Metadata.encode_metadata
  IsHealthy-suspended now key w i tx s h enc =
      let m =
        Status.suspended key
          (memable.Execution.message_or key (memable.State.message (memable.Shared.borrow tx s))) in
      let (b, e) = enc (new now m) in
      ground (arith, write_metadata-IsHealthy w i (new now m) s.db h)

  suspended-Waiting :
      (now : ℕ) (key w i : Text) (tx : ℕ) (f : Frame)
      → IsHealthy f.shared.db
      → Serialises
      → f.context.workflow_name ≡ w
      → f.context.instance_id ≡ i
      → Parked key f
      → Waiting w i key (handle_workflow_result now (err (Error.suspended key)) w i tx f.shared).db
  unfolding Status.is_suspended new
  suspended-Waiting now key w i tx f h enc wn id s =
      let (steps, _) = suspend_keeps_tables now key w i tx f.shared in
      let (msg, stored) = suspend_stored now key w i tx f.shared h enc in
      record {
        bytes = s.bytes;
        envelope = s.envelope;
        found = rw (steps, ← wn, ← id) s.found;
        decoded = s.decoded;
        waits = s.waits;
        meta = new now (Status.suspended key msg);
        stored = stored;
        parked = refl;
      }

module _ ⦃x : External⦄ (u : Types) {World : Type 0} where
  -- What a task leaves whose run suspends at a parked step.
  pub run_task-Waiting :
      (w : World) (p : Program u World (Unit {0})) (task : Task) (s : Shared) (now : ℕ) (key : Text)
      (g : Frame)
      → let f = Context.new task.workflow_name task.instance_id task.tx s in
        interpret w p f ≡ (err (Error.suspended key), g)
        → Extends u f g
        → Parked key g
        → IsHealthy g.shared.db
        → Serialises
        → let s1 = run_task now (interpret w p) task s in
          (s1.db.steps ≡ g.shared.db.steps)
          × IsHealthy s1.db
          × Waiting task.workflow_name task.instance_id key s1.db
  unfolding run_task finish_task Context.new
  run_task-Waiting w p task s now key g ends all parked h enc =
      let wn = task.workflow_name in
      let i = task.instance_id in
      let s1 = run_task now (interpret w p) task s in
      let same : s1 ≡ handle_workflow_result now (err (Error.suspended key)) wn i task.tx g.shared =
        ap (λ o. finish_task now o.0 task o.1.shared) ends in
      (
        ap (λ s. s.db.steps) same ∙ (suspend_keeps_tables now key wn i task.tx g.shared).0,
        ap (λ s. s.db.faults) same ∙ IsHealthy-suspended now key wn i task.tx g.shared h enc,
        subst (λ s. Waiting wn i key s.db) (sym same)
            (suspended-Waiting now key wn i task.tx g h enc all.instance.0 all.instance.1 parked),
      )
