-- ===== src/Tests/Steps.antt =====
-- Witnesses on steps, timers and outputs.
use memable.Prelude.{ℕ, ◌+◌, ◌≤◌, ◌≡◌, refl, arith, none, some, [], ◌∷◌, true}
use memable.Text.{text}
use memable.Outcome.{ok, err, panic, pure}
use memable.Error.{step_failed}
use memable.Keys.{composite_key}
use memable.Codec.{serialize_step}
use memable.Retry.{RetryPolicy, fixed, u32_max}
use memable.Context.{Frame, key_of, read_step}
use memable.Context.Names.{is_refused}
use memable.Context.Journal.{put_in_frame}
use memable.Context.Step.{
  StepBuilder, custom, persist, settle, attempts, check_journal, execute, run, timed,
}
use memable.Context.Step.Memo.{run-run}
use memable.Context.Step.Attempts.{calls, calls-run-le, run-exhausted, run_overflow}
use memable.Context.Timer.{timer_entry, deadline_of, timer}
use memable.Context.Timer.Setting.{TimerSet, timer-TimerSet}
use memable.Workflow.{IntoWorkflow, with_input, write_output, into_workflow_fn, read_output}
use memable.Store.{Database, IsHealthy}
use memable.Workflow.Output.{Computes, into_workflow_fn-read_output}
use memable.Tests.Demo.{demo, u64}
use memable.Tests.Scene.{
  five_bytes, wf, inst, step_key, empty_db, frame, builder, returns_five, fails, suspended_bytes,
  failed_bytes, timer_bytes,
}

run-run_example :
    let g = (run builder u64 returns_five (frame empty_db)).1 in
    ((run builder u64 fails g).0 ≡ ok 5)
    × ((run builder u64 fails g).1.effects ≡ g.effects)
    × ((run builder u64 fails g).1.shared.db ≡ g.shared.db)
unfolding run execute attempts settle persist serialize_step read_step check_journal timed
    is_refused composite_key memable.Context.Step.effective_retry
run-run_example = run-run builder u64 returns_five fails (frame empty_db) 5 refl refl

calls-run-le_example : calls (run builder u64 fails (frame empty_db)).1.effects ≤ 1
unfolding memable.Context.Step.effective_retry
calls-run-le_example = calls-run-le builder u64 fails (frame empty_db)

run-exhausted_example :
    ((run builder u64 fails (frame empty_db)).0 ≡ err (step_failed step_key (b'e' ∷ []) true))
    × (calls (run builder u64 fails (frame empty_db)).1.effects ≡ 1)
    × ((run builder u64 fails (frame empty_db)).1.shared.db
        ≡ (put_in_frame step_key failed_bytes (frame empty_db)).shared.db)
unfolding timed serialize_step composite_key memable.Context.Step.effective_retry
run-exhausted_example =
    run-exhausted builder u64 none fails (λ n. b'e' ∷ []) failed_bytes (frame empty_db) refl refl
      refl (omega arith) (λ n. refl) refl

abbrev endless : RetryPolicy
endless = record { max_retries = u32_max; backoff = fixed 0 }

abbrev endless_step : StepBuilder
endless_step = record { key = step_key; timeout = none; retry_override = some (custom endless) }

run_overflow_example :
    ((run endless_step u64 fails (frame empty_db)).0 ≡ panic)
    × ((run endless_step u64 fails (frame empty_db)).1.effects ≡ [])
unfolding composite_key memable.Context.Step.effective_retry
run_overflow_example =
    run_overflow endless_step u64 endless fails (frame empty_db) refl refl refl refl

timer-TimerSet_example :
    TimerSet step_key
      (deadline_of 3 0)
      suspended_bytes
      timer_bytes
      (frame empty_db)
      (timer 3 step_key 5 (frame empty_db))
unfolding is_refused composite_key serialize_step timer_entry memable.Text.contains
    memable.Text.starts_with_char
timer-TimerSet_example =
    timer-TimerSet 3 step_key 5 suspended_bytes timer_bytes (frame empty_db) refl refl refl
      (omega arith) (omega arith) refl refl

-- A workflow with an input, and the journal that holds 5 as the input.
abbrev doubles : IntoWorkflow ℕ ℕ
doubles = with_input u64 (λ n. pure (n + n))

abbrev input_db : Database
input_db = record {
  tables = record {
    steps = (composite_key wf inst (text "_input"), five_bytes) ∷ [];
    meta = [];
    timers = [];
  };
  faults = [];
}

returns_ok : (into_workflow_fn u64 doubles (frame input_db)).0 ≡ ok tt
unfolding into_workflow_fn memable.Context.input memable.Text.text_eq composite_key text
    memable.Codec.deserialize_step write_output serialize_step
returns_ok = refl

sound_after : IsHealthy (into_workflow_fn u64 doubles (frame input_db)).1.shared.db
unfolding into_workflow_fn memable.Context.input memable.Text.text_eq composite_key text
    memable.Codec.deserialize_step write_output serialize_step
sound_after = refl

into_workflow_fn-read_output_example :
    (v : ℕ) × (g : Frame) × Computes doubles (frame input_db) v g
    × ((read_output u64 wf inst (into_workflow_fn u64 doubles (frame input_db)).1.shared.db).0
        ≡ ok v)
into_workflow_fn-read_output_example =
    into_workflow_fn-read_output u64 doubles (frame input_db) returns_ok sound_after
