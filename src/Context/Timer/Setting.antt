-- ===== src/Context/Timer/Setting.antt =====
-- Setting a timer: the suspended step and its timer are written together.
use memable.Prelude.{ℕ, ◌/◌, ◌≤◌, ◌≡◌, arith, false, none, inr}
use memable.Text.{Text}
use memable.Outcome.{Outcome, ok, err}
use memable.Error.{EngineError}
use memable.Journal.{Bytes, suspended}
use memable.External.{External, TimerKey}
use memable.Store.{Database, IsHealthy}
use memable.Codec.{serialize_step}
use memable.Retry.{u64_max}
use memable.Context.{Frame, key_of}
use memable.Context.Journal.{read_step-IsHealthy}
use memable.Context.Names.{is_refused}
use memable.Context.Timer.{timer_entry, deadline_of, write_timer, timer}

module _ ⦃x : External⦄ where
  -- What setting a timer with this deadline returns and writes.
  pub record TimerSet (key : Text) (deadline : ℕ) (step_bytes timer_bytes : Bytes) (f : Frame)
      (o : Outcome EngineError (Unit {0}) × Frame) : Type 0 where
    pub error : o.0 ≡ err (EngineError.suspended key)
    pub steps : o.1.shared.db.steps ≡ x.texts.insert f.shared.db.steps (key_of key f) step_bytes
    pub timers :
        o.1.shared.db.timers
        ≡ x.timers.insert f.shared.db.timers (deadline, f.shared.timer_serial) timer_bytes
    pub meta : o.1.shared.db.meta ≡ f.shared.db.meta
    pub healthy : IsHealthy o.1.shared.db
    pub context : o.1.context ≡ f.context

  pub write_timer-IsHealthy :
      (composite : Text) (step_bytes : Bytes) (key : TimerKey) (timer_bytes : Bytes) (d : Database)
      → IsHealthy d
      → write_timer composite step_bytes key timer_bytes d ≡ (
        ok tt,
        record d {
          tables = record d.tables {
            steps = x.texts.insert d.steps composite step_bytes;
            timers = x.timers.insert d.timers key timer_bytes;
          };
        },
      )
  unfolding write_timer
  write_timer-IsHealthy composite step_bytes key timer_bytes d h = ground arith

  -- On storage that does not fail, for a key that is accepted and has no entry in the journal, a
  -- clock and a duration that fit a `u64` of milliseconds, and entries that serialise, a timer
  -- returns a suspension at its key, and writes the suspended step and the row of its deadline and
  -- serial; the metadata and the context stay as they are.
  pub timer-TimerSet :
      (now_ms : ℕ) (key : Text) (duration : ℕ) (step_bytes timer_bytes : Bytes) (f : Frame)
      → IsHealthy f.shared.db
      → is_refused key ≡ false
      → x.texts.get f.shared.db.steps (key_of key f) ≡ none
      → now_ms ≤ u64_max
      → duration / 1000000 ≤ u64_max
      → serialize_step x.unit suspended key ≡ ok step_bytes
      → x.timer_entry.to_allocvec (timer_entry key f) ≡ inr timer_bytes
      → TimerSet key
          (deadline_of now_ms (duration / 1000000))
          step_bytes
          timer_bytes
          f
          (timer now_ms key duration f)
  unfolding timer
  timer-TimerSet now_ms key duration step_bytes timer_bytes f h good miss small short e te =
      ground (
        arith,
        read_step-IsHealthy (key_of key f) f.shared.db h,
        write_timer-IsHealthy (key_of key f) step_bytes
            (deadline_of now_ms (duration / 1000000), f.shared.timer_serial) timer_bytes f.shared.db
            h,
      )
