-- ===== src/Tests/Replays.antt =====
-- Witnesses on programs: what a run keeps, and how a later run goes on.
use memable.Prelude.{
  Bool-cases, inl, subst, ℕ, ◌+◌, ◌≡◌, refl, ap, arith, true, none, some, inr, [], ◌∷◌,
}
use memable.Text.{Text, text_eq}
use memable.Outcome.{ok, continue, pure}
use memable.Journal.{completed, Bytes, suspended, failed}
use memable.Store.{Database}
use memable.Shared.{Shared}
use memable.Context
use memable.Context.{Frame, called}
use memable.Context.Names.{SuspendPoint}
use memable.Context.Step.{Attempt, run}
use memable.Engine.{Invocation, signal}
use memable.Replay.{Program, interpret, Reaches, here, stepped}
use memable.Replay.Entries.{Journaled, Written}
use memable.Replay.Keeps.{Kept, Extends, interpret-Extends}
use memable.Replay.Again.{Unmoved}
use memable.Replay.Recovery.{ComesTo, Reaches-Reaches}
use memable.Replay.Rerun.{interpret-interpret}
use memable.Replay.Cycle.{Reaches-signal}
use memable.Replay.Waking.{Reaches-signal_timer}
use memable.Execution.{signal_timer}
use memable.Context.Timer.{timer_entry}
use memable.Codec.{serialize_step}
use memable.Tests.Demo.{demo, u64}
use memable.Tests.Scene.{
  step_key, engine, five_bytes, suspended_bytes, step_row, wf, inst, builder, empty_db, frame,
  meta_row, waiting_bytes,
}
use memable.Tests.Programs.{
  types, gives, point_t, adds, program, short, point_row, early_db, stepped_db, stepped_frame,
  first_run, reached, no_entries,
}

-- A database whose second call fails: the step is run, and its result is lost.
abbrev failing_db : Database
failing_db = record empty_db { faults = none ∷ some (b'e' ∷ []) ∷ [] }

interpret-Extends_example :
    Extends types (frame failing_db) (interpret 5 program (frame failing_db)).1
interpret-Extends_example = interpret-Extends types 5 program (frame failing_db)

Reaches-Reaches_example :
    ComesTo types 9 program (adds 5) (Context.new wf inst 0 stepped_frame.shared)
unfolding Context.new run memable.Context.Step.execute memable.Context.Step.attempts
Reaches-Reaches_example =
    Reaches-Reaches types 5 9 program (adds 5) (frame early_db) stepped_frame
      (Context.new wf inst 0 stepped_frame.shared) no_entries reached
      ((refl, refl), refl, λ k b q d. q)

short_run : interpret {u = types} 5 short (frame early_db) ≡ (ok 5, stepped_frame)
unfolding interpret
short_run = ap (λ o. continue o.0 (λ v. pure v) o.1) first_run

interpret-interpret_example :
    let g = Context.new wf inst 0 stepped_frame.shared in
    ((interpret 9 short g).0 ≡ ok 5) × Unmoved g (interpret 9 short g).1
unfolding Context.new
interpret-interpret_example =
    interpret-interpret types 5 9 short (frame early_db) stepped_frame
      (Context.new wf inst 0 stepped_frame.shared) 5 no_entries short_run (refl, refl) refl
      (λ k b q d. q)

-- The database with the entry of the suspend point.
abbrev suspended_db : Database
suspended_db = record {
  tables = record {
    steps = (step_row, five_bytes) ∷ (point_row, suspended_bytes) ∷ [];
    meta = (meta_row, waiting_bytes) ∷ [];
    timers = [];
  };
  faults = [];
}

still_there : Kept types stepped_db.steps suspended_db.steps
still_there k b q d = ground arith

abbrev handle : Invocation
handle = record { workflow_name = wf; instance_id = inst; status = 1 }

sent : (signal u64 wf inst point_t 7 (engine suspended_db)).0 ≡ ok handle
unfolding signal memable.Execution.validate_key_component memable.Text.contains
    memable.Execution.claim_body memable.Execution.check_step memable.Text.text_eq
    memable.Keys.composite_key memable.Codec.deserialize_envelope memable.Journal.is_suspended
    memable.Execution.check_meta memable.Keys.meta_key memable.Metadata.decode_metadata
    memable.Status.is_suspended memable.Metadata.encode_metadata memable.Shared.is_registered
    memable.Shared.get_or_create_sender memable.Shared.find_sender memable.Codec.serialize_step
    memable.Engine.check_ready memable.Engine.launch memable.Execution.claim_suspended_step
    memable.Shared.insert_sender memable.Shared.remove_sender memable.Shared.spawn_workflow_task
    memable.Status.is_terminal memable.Status.new memable.Store.storage_call memable.Store.write_txn
    memable.Text.text
sent = refl

-- Its two entries are those of a completed step and of a suspended one.
five_written : serialize_step u64 (completed 5 none) step_key ≡ ok five_bytes
unfolding serialize_step
five_written = refl

suspension_written : serialize_step u64 suspended step_key ≡ ok suspended_bytes
unfolding serialize_step
suspension_written = refl

all_written : Journaled types suspended_db.steps
all_written k b q = elim (Bool-cases (text_eq step_row k)) [
  | inl e ↦ subst (Written types) (ground arith) (record {
    type = true;
    content = completed 5 none;
    key = step_key;
    serialized = five_written;
  })
  | inr e ↦
      subst (Written types) (ground arith) (record {
        type = true;
        content = suspended;
        key = step_key;
        serialized = suspension_written;
      })
]

Reaches-signal_example :
    let s = (signal u64 wf inst point_t 7 (engine suspended_db)).1 in
    ComesTo types 9 program (Program.done 12) (Context.new wf inst 0 s) × Journaled types s.db.steps
Reaches-signal_example =
    Reaches-signal types 5 9 program (frame early_db) stepped_frame true point_t none
      (λ a. Program.done (5 + a)) 7 (engine suspended_db) handle 0 no_entries reached refl
      all_written still_there sent

-- The same with a timer in place of the suspend point.
abbrev waits : ℕ → Program types ℕ ℕ
waits v = Program.timer (λ w. w) (b't' ∷ []) 1 (Program.done v)

abbrev timed_program : Program types ℕ ℕ
timed_program = Program.step true builder gives waits

reached_timer : Reaches {u = types} 5 timed_program (frame early_db) (waits 5) stepped_frame
reached_timer = stepped true builder gives waits 5 first_run here

fires : (signal_timer (timer_entry (b't' ∷ []) (frame early_db)) (engine suspended_db)).0 ≡ ok tt
unfolding signal_timer serialize_step memable.Execution.claim_suspended_step
    memable.Execution.claim_body memable.Execution.check_step text_eq memable.Keys.composite_key
    timer_entry memable.Codec.deserialize_envelope memable.Journal.is_suspended
    memable.Execution.check_meta memable.Keys.meta_key memable.Metadata.decode_metadata
    memable.Status.is_suspended memable.Metadata.encode_metadata memable.Shared.is_registered
fires = refl

Reaches-signal_timer_example :
    let s = (signal_timer (timer_entry (b't' ∷ []) (frame early_db)) (engine suspended_db)).1 in
    ComesTo types 9 timed_program (Program.done 5) (Context.new wf inst 0 s)
    × Journaled types s.db.steps
unfolding memable.Context.Names.is_refused memable.Text.contains memable.Text.starts_with_char
Reaches-signal_timer_example =
    Reaches-signal_timer types 5 9 timed_program (Program.done 5) (frame early_db) stepped_frame
      (λ w. w) (b't' ∷ []) 1 (engine suspended_db) 0 no_entries reached_timer refl refl all_written
      still_there fires
