-- ===== src/Engine/Loops.antt =====
-- src/engine/engine_impl.rs: the loops that `start` spawns, and how `stop` and `wait_all` end. What
-- the rest of the program does to the shared state during a second of sleep, and what the tasks do
-- until they are joined, are arguments. A loop that runs out of seconds is still asleep.
use memable.Prelude.{ℕ, List, [], ◌∷◌, if◌then◌else◌}
use memable.Text.{Text}
use memable.Outcome.{Outcome, panic}
use memable.Error.{EngineError}
use memable.External.{External}
use memable.Shared.{Shared, with_db}
use memable.Execution.{poll_timers}
use memable.Retention.{cleanup_expired}
use memable.Engine.{stop}

module _ ⦃x : External⦄ where
  -- The seconds of sleep, each with the clock after it.
  abbrev pub Second : Type 0
  Second = (Shared → Shared) × ℕ

  -- An error of a round is logged and dropped.
  unfoldable pub timer_poller : List Second → Shared → Shared
  unfolding poll_timers
  timer_poller [] s = s
  timer_poller ((meanwhile, now) ∷ rest) s =
      let (result, polled) = poll_timers now (meanwhile s) in
      let later = timer_poller rest polled in if s.running then after result polled later else s
    where
      after : Outcome EngineError (Unit {0}) → Shared → Shared → Shared
      after panic polled later = polled
      after _ polled later = later

  -- The sleep of a minute, second by second, while the engine runs.
  unfoldable pub sleep_minute : List (Shared → Shared) → Shared → Shared
  sleep_minute [] s = s
  sleep_minute (meanwhile ∷ rest) s =
      let later = sleep_minute rest (meanwhile s) in if s.running then later else s

  -- The minutes of sleep, each with the clock after it. The retentions are durations.
  unfoldable pub retention_cleanup :
      ℕ → List (Text × ℕ) → List (List (Shared → Shared) × ℕ) → Shared → Shared
  unfolding sleep_minute cleanup_expired
  retention_cleanup default overrides [] s = s
  retention_cleanup default overrides ((minute, now) ∷ rest) s =
      let slept = sleep_minute minute s in
      let cleaned = (with_db (cleanup_expired now default overrides) slept).1 in
      let later = retention_cleanup default overrides rest cleaned in
      if s.running then (if slept.running then later else slept) else s

  -- `drained` is what the tasks do until the last one is joined.
  unfoldable pub wait_all : (Shared → Shared) → Shared → Shared
  wait_all drained s = record (drained (stop s)) { tasks = [] }

  -- `drained` is what they do until the last one is joined or this time is over, when the rest is
  -- aborted.
  unfoldable pub stop_and_drain : (ℕ → Shared → Shared) → ℕ → Shared → Shared
  stop_and_drain drained shutdown_timeout s = record (drained shutdown_timeout (stop s)) {
    tasks = [];
  }
