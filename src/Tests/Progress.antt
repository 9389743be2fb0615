-- ===== src/Tests/Progress.antt =====
-- Witnesses on steps that return, and on tasks that suspend and go on.
use memable.Prelude.{ℕ, ◌≡◌, ◌≢◌, refl, arith, none, [], ◌∷◌, true}
use memable.Text.{Text, contains}
use memable.Outcome.{ok, err, panic}
use memable.Error
use memable.Error.{EngineError, StepError}
use memable.Journal.{completed}
use memable.Store.{IsHealthy}
use memable.Codec.{serialize_step}
use memable.Shared.{Task}
use memable.Context
use memable.Context.Step.{run, timed}
use memable.Context.Step.Returns.{run-Returns}
use memable.Execution.{run_task, poll_one}
use memable.Replay.{Program, interpret, Reaches, here, stepped}
use memable.Replay.Entries.{Journaled}
use memable.Replay.Recovery.{ComesTo}
use memable.Replay.Progress.Timer.{run_task-poll_one}
use memable.Context.Timer.{timer, timer_entry}
use memable.Shared.{is_registered}
use memable.Tests.Demo.{demo, u64, unit}
use memable.Tests.Scene.{engine, wf, inst, builder, fails, empty_db, frame, serialises}
use memable.Tests.Programs.{types, gives, early_db, stepped_frame, first_run, no_entries}

run-Returns_example : (run builder u64 fails (frame empty_db)).0 ≢ panic
unfolding memable.Context.Step.effective_retry
run-Returns_example =
    run-Returns builder u64 fails (frame empty_db) (omega arith) (λ n e. ground arith)

abbrev parks : ℕ → Program types ℕ (Unit {0})
parks v = Program.suspend true (b't' ∷ []) none (λ a. Program.done tt)

abbrev parking : Program types ℕ (Unit {0})
parking = Program.step true builder gives parks

abbrev task : Task
task = record { workflow_name = wf; instance_id = inst; tx = 0 }

abbrev fired_bytes : Text
fired_bytes = 1 ∷ 1 ∷ 1 ∷ 40 ∷ 2 ∷ 0 ∷ 0 ∷ []

abbrev seven_bytes : Text
seven_bytes = 1 ∷ 1 ∷ 1 ∷ b'u' ∷ 3 ∷ 0 ∷ 7 ∷ 0 ∷ []

-- The same with a timer in place of the suspend point.
abbrev sleeps : ℕ → Program types ℕ (Unit {0})
sleeps v = Program.timer (λ w. w) (b't' ∷ []) 1 (Program.done tt)

abbrev sleeping : Program types ℕ (Unit {0})
sleeping = Program.step true builder gives sleeps

slept_there :
    Reaches {u = types} 5 sleeping
      (Context.new wf inst 0 (engine early_db))
      (sleeps 5)
      stepped_frame
unfolding Context.new
slept_there = stepped true builder gives sleeps 5 first_run here

sleep_suspends : (timer 5 (b't' ∷ []) 1 stepped_frame).0 ≡ err (Error.suspended (b't' ∷ []))
unfolding timer memable.Context.Names.is_refused contains memable.Text.starts_with_char
    memable.Text.text_eq memable.Keys.composite_key serialize_step
sleep_suspends = refl

sleep_suspends_soundly : IsHealthy (timer 5 (b't' ∷ []) 1 stepped_frame).1.shared.db
unfolding timer memable.Context.Names.is_refused contains memable.Text.starts_with_char
    memable.Text.text_eq memable.Keys.composite_key serialize_step
sleep_suspends_soundly = refl

fired_written : serialize_step unit (completed tt none) (b't' ∷ []) ≡ ok fired_bytes
unfolding serialize_step
fired_written = refl

known : is_registered wf (run_task 3 (interpret 5 sleeping) task (engine early_db)).workflows ≡ true
unfolding is_registered run_task memable.Execution.finish_task interpret run Context.new
    memable.Context.Step.execute memable.Context.Step.attempts memable.Context.Step.effective_retry
    timed memable.Context.Step.settle serialize_step timer memable.Text.text_eq
    memable.Keys.composite_key memable.Execution.handle_workflow_result memable.Execution.publish
    memable.Context.Names.is_refused contains memable.Text.starts_with_char
known = refl

run_task-poll_one_example :
    let f = Context.new wf inst 0 (engine early_db) in
    let s1 = run_task 3 (interpret 5 sleeping) task (engine early_db) in
    let (r, s2) = poll_one ((5, 7), timer_entry (b't' ∷ []) f) s1 in
    (r ≡ ok tt)
    × ComesTo types 9 sleeping (Program.done tt) (Context.new wf inst 0 s2)
    × Journaled types s2.db.steps
run_task-poll_one_example =
    run_task-poll_one types 5 9 sleeping (Program.done tt) task (engine early_db) 3 0 stepped_frame
      (λ w. w) (b't' ∷ []) 1 (5, 7) fired_bytes no_entries slept_there sleep_suspends
      sleep_suspends_soundly serialises fired_written known
