-- ===== src/Context/Timer.antt =====
-- src/context.rs: `Context::timer`. The system clock's milliseconds are an argument.
pub mod Setting
use memable.Prelude.{
  ℕ, ◌+◌, ◌/◌, ◌%◌, Bool, true, false, Option, none, some, ◌++◌, if◌then◌else◌, ltb, ◌≤◌,
}
use memable.Text.{Text, text}
use memable.Text.Decimal.{decimal}
use memable.Outcome.{
  Outcome, ok, panic, map_err, ◌>>=◌, ◌>>◌, pure, fail, abort, lift, gets, modify,
}
use memable.Error.{EngineError, invalid_key, serialization}
use memable.State
use memable.Journal.{Bytes, StepData, completed, suspended, failed, TimerEntry}
use memable.External.{External, Payload, TimerKey}
use memable.Store.{Db, write_txn}
use memable.Codec.{serialize_step, deserialize_step}
use memable.Retry.{u64_max}
use memable.Shared.{Shared, with_db}
use memable.Context.{Frame, Workflow, in_shared, key_of, set_quietly, read_step}
use memable.Context.Names.{is_refused}

-- `u64::try_from(..).expect(..)`.
abbrev to_u64 : ℕ → Outcome EngineError ℕ
to_u64 n = if ltb u64_max n then panic else ok n

module _ ⦃x : External⦄ where
  -- `true`: the timer has fired. `false`: there is none yet.
  unfoldable pub on_timer : Text → StepData (Unit {0}) → Workflow Bool
  on_timer key (completed _ _) = pure true
  on_timer key suspended = fail (EngineError.suspended key)
  on_timer key (failed _) = pure false

  unfoldable pub check_timer : Text → Option Bytes → Workflow Bool
  unfolding on_timer
  check_timer key none = pure false
  check_timer key (some bytes) = do
    content ← lift (deserialize_step x.unit bytes key)
    on_timer key content

  unfoldable pub timer_entry : Text → Frame → TimerEntry
  timer_entry key f = record {
    workflow_name = f.context.workflow_name;
    instance_id = f.context.instance_id;
    step_key = key;
  }

  -- `fetch_add` on the serial, which wraps.
  unfoldable pub next_serial : Shared → Shared
  next_serial s = record s { timer_serial = (s.timer_serial + 1) % 18446744073709551616 }

  -- The step and the timer are written in one transaction.
  unfoldable pub write_timer : Text → Bytes → TimerKey → Bytes → Db (Unit {0})
  unfolding write_txn
  write_timer composite step_bytes key timer_bytes = write_txn (λ t. ok (
    tt,
    record t {
      steps = x.texts.insert t.steps composite step_bytes;
      timers = x.timers.insert t.timers key timer_bytes;
    },
  ))

  -- `u64` addition of the deadline, as a release build computes it.
  abbrev pub deadline_of : ℕ → ℕ → ℕ
  deadline_of now_ms millis = (now_ms + millis) % 18446744073709551616

  unfoldable pub set_timer : ℕ → Text → ℕ → Workflow (Unit {0})
  unfolding next_serial write_timer timer_entry
  set_timer now_ms key duration = do
    now ← lift (to_u64 now_ms)
    millis ← lift (to_u64 (duration / 1000000))
    let deadline = deadline_of now millis
    step_bytes ← lift (serialize_step x.unit suspended key)
    serial ← gets (λ f. f.shared.timer_serial)
    modify (λ f. record f { shared = next_serial f.shared })
    entry ← gets (timer_entry key)
    timer_bytes ← lift (map_err (serialization key) (x.timer_entry.to_allocvec entry))
    composite ← gets (key_of key)
    in_shared (with_db (write_timer composite step_bytes (deadline, serial) timer_bytes))
    let msg = text "timer " ++ key ++ text " (deadline " ++ decimal deadline ++ text ")"
    modify (set_quietly (State.suspended key msg))
    fail (EngineError.suspended key)

  abbrev pub unless_fired : Workflow (Unit {0}) → Bool → Workflow (Unit {0})
  unless_fired m true = pure tt
  unless_fired m false = m

  unfoldable pub timer : ℕ → Text → ℕ → Workflow (Unit {0})
  unfolding read_step check_timer set_timer
  timer now_ms key duration =
      let body = (do
        composite ← gets (key_of key)
        bytes ← in_shared (with_db (read_step composite))
        fired ← check_timer key bytes
        unless_fired (set_timer now_ms key duration) fired) in
      if is_refused key then fail (invalid_key (text "step_key") key) else body
