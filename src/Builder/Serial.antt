-- ===== src/Builder/Serial.antt =====
-- The serial of the timers starts again with each engine.
use memable.Prelude.{ℕ, ◌/◌, ◌≤◌, ◌≡◌, arith, false, Option, none, some, inr, ◌≢◌}
use memable.Text.{Text}
use memable.Outcome.{ok}
use memable.Journal.{Bytes, suspended}
use memable.External.{External, TimerKey}
use memable.Store.{Database, IsHealthy}
use memable.Codec.{serialize_step}
use memable.Retry.{u64_max}
use memable.Context.{Frame, key_of}
use memable.Context.Names.{is_refused}
use memable.Context.Timer.{timer_entry, deadline_of, timer}
use memable.Context.Timer.Setting.{timer-TimerSet}
use memable.Builder.{EngineBuilder, build}

module _ ⦃x : External⦄ where
  -- On storage that does not fail, for a timer that is set as in `timer-TimerSet` before any other by
  -- an engine that was just built, a row that an earlier engine left in the table with the same
  -- deadline and the serial 0 is overwritten: no row of that key holds the earlier timer any more.
  pub build-timer_overwritten :
      (env : Option Text) (b : EngineBuilder Database) (now_ms : ℕ) (key : Text) (duration : ℕ)
      (step_bytes timer_bytes earlier : Bytes) (f : Frame)
      → IsHealthy f.shared.db
      → f.shared.timer_serial ≡ (build env b).shared.timer_serial
      → is_refused key ≡ false
      → x.texts.get f.shared.db.steps (key_of key f) ≡ none
      → now_ms ≤ u64_max
      → duration / 1000000 ≤ u64_max
      → serialize_step x.unit suspended key ≡ ok step_bytes
      → x.timer_entry.to_allocvec (timer_entry key f) ≡ inr timer_bytes
      → let row : TimerKey = (deadline_of now_ms (duration / 1000000), 0) in
        x.timers.get f.shared.db.timers row ≡ some earlier
        → earlier ≢ timer_bytes
        → let db = (timer now_ms key duration f).1.shared.db in
          (x.timers.get db.timers row ≡ some timer_bytes)
          × (x.timers.get db.timers row ≢ some earlier)
  unfolding build
  build-timer_overwritten env b now key duration sb tb earlier f h serial good miss small short e te
        there ne =
      let s = timer-TimerSet now key duration sb tb f h good miss small short e te in
      let row : TimerKey = (deadline_of now (duration / 1000000), 0) in
      let now_there : x.timers.get (timer now key duration f).1.shared.db.timers row ≡ some tb =
        ground (
          arith,
          s.timers,
          x.timers.get-insert f.shared.db.timers
              (deadline_of now (duration / 1000000), f.shared.timer_serial) row tb,
        ) in
      (now_there, λ q. ne (cc (now_there, q)))
