-- ===== src/Tests/Handles.antt =====
-- Witnesses on invocation handles and fan-out.
use memable.Prelude.{ℕ, zero, suc, ◌<◌, ◌≡◌, refl, arith, true, none, some, List, [], ◌∷◌}
use memable.Text.{Text, text}
use memable.Outcome.{ok, err, panic}
use memable.Error
use memable.Error.{EngineError, ChildError}
use memable.Error.Display.{error_to_string}
use memable.State
use memable.State.{WorkflowState}
use memable.Engine.{Invocation}
use memable.Engine.Spawn.{Accepts}
use memable.Codec.{serialize_step}
use memable.Context.{input}
use memable.Waiting.{WaitResult, result_of, wait, invoke, with_input, into_future}
use memable.Waiting.First.{first_settled, wait-first_settled}
use memable.Waiting.Input.{into_future-input}
use memable.FanOut.{Joined, finished, failed, Collected, collect_all, collect_fail_fast, child_ids}
use memable.FanOut.Collect.{is_joined, collect_all-AllReport}
use memable.FanOut.FailFast.{collect_fail_fast-failed}
use memable.FanOut.Ids.{child_ids-injective}
use memable.Tests.Demo.{demo, u64}
use memable.Tests.Scene.{wf, inst, step_key, empty_db, engine, frame, five_bytes, serialises}

abbrev handle : Invocation
handle = record { workflow_name = wf; instance_id = inst; status = 0 }

abbrev changes : List WorkflowState
changes = State.in_progress step_key ∷ State.completed none ∷ []

wait-first_settled_example :
    ((v : WorkflowState)
      → first_settled (State.started ∷ changes) ≡ some v
      → (r : WaitResult) × (result_of handle v ≡ ok r) × (wait handle State.started changes ≡ ok r))
    × (first_settled (State.started ∷ changes) ≡ none → wait handle State.started changes ≡ panic)
wait-first_settled_example = wait-first_settled handle State.started changes

invocable : Accepts wf (engine empty_db)
unfolding memable.Shared.is_registered memable.Text.text_eq memable.Text.contains
invocable = record { running = refl; registered = refl; component = refl; healthy = refl }

into_future-input_example :
    let db = (into_future inst (with_input u64 5 (invoke wf)) (engine empty_db)).1.db in
    input u64 (frame db) ≡ (ok (some 5), frame db)
unfolding serialize_step
into_future-input_example =
    let db = (into_future inst (with_input u64 5 (invoke wf)) (engine empty_db)).1.db in
    into_future-input u64 5 wf inst five_bytes (engine empty_db) (frame db) invocable serialises
      refl refl refl refl

abbrev ids : List Text
ids = inst ∷ step_key ∷ []

abbrev results : List (Collected ℕ)
results =
    ok 5 ∷ err (record { instance_id = step_key; message = error_to_string Error.not_started }) ∷ []

-- The second child is the first to finish.
abbrev joined : List (Joined ℕ)
joined = failed 1 Error.not_started ∷ finished 0 5 ∷ []

both_joined : (k : ℕ) → k < 2 → is_joined ids results k joined ≡ true
both_joined zero h = refl
both_joined (suc zero) h = refl
both_joined (suc (suc k)) h = absurd (omega arith)

collect_all-AllReport_example : collect_all joined 2 ids ≡ ok results
collect_all-AllReport_example =
    collect_all-AllReport ids results joined ((step_key, refl, refl), (refl, tt)) both_joined

child_ids-injective_example : ◌≡◌ {A = ℕ} 1 1
unfolding child_ids text memable.Text.Decimal.decimal
child_ids-injective_example =
    child_ids-injective inst step_key 2 1 1 (b'i' ∷ b'/' ∷ b's' ∷ b'-' ∷ b'1' ∷ []) (omega arith)
      (omega arith) refl refl

collect_fail_fast-failed_example :
    collect_fail_fast {T = ℕ} (finished 0 5 ∷ failed 1 Error.not_started ∷ []) 2
    ≡ err Error.not_started
collect_fail_fast-failed_example =
    collect_fail_fast-failed (finished 0 5 ∷ []) [] 2 1 Error.not_started (omega arith, tt)
