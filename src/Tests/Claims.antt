-- ===== src/Tests/Claims.antt =====
-- Witnesses on claims, the end of a task, and the timer poller.
use memable.Prelude.{◌≤◌, ◌≡◌, ◌≢◌, refl, arith, none, some, inr, List, [], ◌∷◌, ◌∈◌, if◌then◌else◌}
use memable.Text.{Text, text}
use memable.Outcome.{Outcome, ok, err, panic}
use memable.Error.{EngineError, signal_superseded}
use memable.Status
use memable.Journal.{Bytes, TimerEntry, StepData, completed, suspended}
use memable.External.{TimerKey, timer_eq}
use memable.Keys.{composite_key, meta_key}
use memable.Codec.{serialize_step}
use memable.Metadata.{read_metadata}
use memable.Context.{Frame, key_of, stop_replaying, set_status}
use memable.Context.Timer.{timer_entry, deadline_of, timer}
use memable.Execution.{
  claim_body, claim_suspended_step, handle_workflow_result, poll_one, collect_expired_timers,
}
use memable.Execution.Claim.{Claimed, claim_ok-Claimed, claim_twice}
use memable.Execution.Finish.{Settled, handle_workflow_result-Settled, set_status-completed}
use memable.Execution.Poll.{collect_expired_timers-exact}
use memable.Execution.LostTimer.{timer_lost}
use memable.Tests.Demo.{demo, u64}
use memable.Tests.Scene.{
  wf, inst, step_key, empty_db, waiting_db, engine, frame, five_bytes, suspended_bytes,
  failed_bytes, timer_bytes, timer_row, serialises,
}

claim_ok-Claimed_example :
    Claimed wf inst step_key five_bytes waiting_db.tables
      (claim_suspended_step wf inst step_key five_bytes waiting_db).1.tables
unfolding claim_suspended_step claim_body memable.Execution.check_step memable.Text.text_eq
    composite_key memable.Codec.deserialize_envelope memable.Journal.is_suspended
    memable.Execution.check_meta meta_key memable.Metadata.decode_metadata Status.is_suspended
    memable.Metadata.encode_metadata
claim_ok-Claimed_example = claim_ok-Claimed wf inst step_key five_bytes waiting_db refl

claim_twice_example :
    let d = (claim_suspended_step wf inst step_key five_bytes waiting_db).1 in
    claim_suspended_step wf inst step_key failed_bytes d ≡ (err (signal_superseded step_key), d)
unfolding serialize_step claim_suspended_step claim_body memable.Execution.check_step
    memable.Text.text_eq composite_key memable.Codec.deserialize_envelope
    memable.Journal.is_suspended memable.Execution.check_meta meta_key
    memable.Metadata.decode_metadata Status.is_suspended memable.Metadata.encode_metadata
claim_twice_example =
    claim_twice u64 wf inst step_key 5 none five_bytes failed_bytes waiting_db refl refl refl

abbrev fine : Outcome EngineError (Unit {0})
fine = ok tt

fine-ne-panic : fine ≢ panic
fine-ne-panic e = cc

handle_workflow_result-Settled_example :
    Settled 10 fine wf inst 0
      (engine empty_db)
      (handle_workflow_result 10 fine wf inst 0 (engine empty_db))
handle_workflow_result-Settled_example =
    handle_workflow_result-Settled 10 fine wf inst 0 (engine empty_db) fine-ne-panic refl serialises

set_status-completed_example :
    (read_metadata wf inst
      (handle_workflow_result 10
        (ok tt)
        wf
        inst
        0
        (set_status step_key (frame empty_db)).shared).db).0
    ≡ ok (some (record { status = Status.completed (some step_key); completed_at = some 10 }))
unfolding set_status handle_workflow_result read_metadata Status.new
set_status-completed_example = set_status-completed 10 step_key (frame empty_db) refl serialises

collect_expired_timers-exact_example :
    let es : List (TimerKey × TimerEntry) = ((3, 7), timer_row) ∷ [] in
    (((3, 7), timer_row) ∈ es
      → (b : Bytes) × (demo.timers.get waiting_db.timers (3, 7) ≡ some b)
        × (demo.timer_entry.from_bytes b ≡ inr timer_row)
        × (3 ≤ 5))
    × ((b : Bytes)
        → demo.timers.get waiting_db.timers (3, 7) ≡ some b
        → demo.timer_entry.from_bytes b ≡ inr timer_row
        → 3 ≤ 5
        → ((3, 7), timer_row) ∈ es)
unfolding collect_expired_timers memable.Execution.decode_timers
collect_expired_timers-exact_example =
    collect_expired_timers-exact 5 (3, 7) timer_row waiting_db (((3, 7), timer_row) ∷ []) refl
      (omega arith) refl

timer_lost_example :
    let (r, g) = timer 3 step_key 5 (frame empty_db) in
    let row : TimerKey = (deadline_of 3 0, 7) in
    let (polled, s) = poll_one (row, timer_row) g.shared in
    let s' = handle_workflow_result 10 r wf inst 0 s in
    (polled ≡ ok tt)
    × ((msg : Text) × ((read_metadata wf inst s'.db).0
          ≡ ok (some (Status.new 10 (Status.suspended step_key msg)))))
    × (demo.texts.get s'.db.steps (key_of step_key (frame empty_db)) ≡ some suspended_bytes)
    × ((k : TimerKey) → demo.timers.get s'.db.timers k ≡ (if timer_eq row k then none else none))
unfolding memable.Context.Names.is_refused memable.Text.contains memable.Text.starts_with_char
    serialize_step timer_entry read_metadata
timer_lost_example =
    timer_lost 3 10 step_key 5 suspended_bytes timer_bytes none (frame empty_db) refl serialises
      refl refl (omega arith) (omega arith) refl refl refl refl
