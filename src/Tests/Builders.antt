-- ===== src/Tests/Builders.antt =====
-- Witnesses on building an engine.
use memable.Prelude.{◌*◌, ◌≡◌, ◌≢◌, refl, arith, true, none, some, [], ◌∷◌}
use memable.Text.{Text}
use memable.Text.Decimal.{decimal}
use memable.Store.{Database}
use memable.Retry.{second}
use memable.Context.{Frame}
use memable.Context.Timer.{timer}
use memable.Builder
use memable.Builder.{EngineBuilder, build}
use memable.Builder.Timeout.{build-shutdown_timeout}
use memable.Builder.Serial.{build-timer_overwritten}
use memable.Tests.Demo.{demo}
use memable.Tests.Scene.{step_key, engine, frame, suspended_bytes, timer_bytes}

-- A row of an earlier engine, and a configuration on its database.
abbrev crowded_db : Database
crowded_db = record {
  tables = record { steps = []; meta = []; timers = ((3, 0), 9 ∷ []) ∷ [] };
  faults = [];
}

abbrev configured : EngineBuilder Database
configured = record {
  store = crowded_db;
  default_retry = none;
  resume_on_start = true;
  shutdown_timeout = none;
  retention = none;
}

abbrev first_frame : Frame
first_frame = record (frame crowded_db) { shared = record (engine crowded_db) { timer_serial = 0 } }

build-shutdown_timeout_example :
    ((build none (Builder.shutdown_timeout 7 configured)).shutdown_timeout ≡ 7)
    × ((build (some (decimal 5)) configured).shutdown_timeout ≡ 5 * second)
    × ((build (some (b'x' ∷ [])) configured).shutdown_timeout ≡ 30 * second)
    × ((build none configured).shutdown_timeout ≡ 30 * second)
unfolding memable.Text.Parse.parse
build-shutdown_timeout_example =
    build-shutdown_timeout none 7 5 (b'x' ∷ []) configured (omega arith) refl refl

build-timer_overwritten_example :
    let db = (timer 3 step_key 0 first_frame).1.shared.db in
    (demo.timers.get db.timers (3, 0) ≡ some timer_bytes)
    × (demo.timers.get db.timers (3, 0) ≢ some (9 ∷ []))
unfolding build memable.Context.Names.is_refused memable.Text.contains memable.Text.starts_with_char
    memable.Codec.serialize_step memable.Context.Timer.timer_entry
build-timer_overwritten_example =
    build-timer_overwritten none configured 3 step_key 0 suspended_bytes timer_bytes (9 ∷ [])
      first_frame refl refl refl refl (omega arith) (omega arith) refl refl refl (λ e. ground arith)
