-- ===== src/Context/Step.antt =====
-- src/context.rs: `Context::step` and `StepBuilder`.
pub mod Rounds
pub mod Memo
pub mod Attempts
pub mod Returns
use memable.Prelude.{
  ℕ, zero, suc, ◌+◌, ◌%◌, Bool, true, false, Option, none, some, ltb, leb, ◌==◌, if◌then◌else◌,
}
use memable.Text.{Text}
use memable.Outcome.{Outcome, ok, err, panic, ◌>>=◌, ◌>>◌, pure, fail, abort, lift, gets, modify}
use memable.Error.{
  EngineError, StepError, retryable, permanent, step_failed, step_timeout, suspended_step_conflict,
  retries_exhausted,
}
use memable.Journal.{Bytes, StepData, completed, suspended, failed}
use memable.External.{External, Payload}
use memable.Codec.{serialize_step, deserialize_step}
use memable.Retry.{RetryPolicy, delay_for}
use memable.Shared.{with_db}
use memable.Context.{
  Context, Frame, Workflow, in_shared, Effect, called, slept, key_of, stop_replaying, note,
  read_step, write_step, current_status_string, restore_status,
}
use memable.Context.Names.{is_refused}

pub data RetryOverride : Type 0 where
  disabled : RetryOverride
  custom : RetryPolicy → RetryOverride

pub record StepBuilder : Type 0 where
  pub key : Text
  pub timeout : Option ℕ
  pub retry_override : Option RetryOverride

-- One call of the closure: how long it runs, and what it returns if it is not cut off.
pub record Attempt (T : Type 0) : Type 0 where
  pub elapsed : ℕ
  pub result : Outcome StepError T

-- The builder, behind the two assertions on the key.
unfoldable pub step : Text → Outcome EngineError StepBuilder
step key =
    if is_refused key
    then panic
    else ok (record { key = key; timeout = none; retry_override = none })

unfoldable pub timeout : ℕ → StepBuilder → StepBuilder
timeout duration b = record b { timeout = some duration }

unfoldable pub retry : RetryPolicy → StepBuilder → StepBuilder
retry policy b = record b { retry_override = some (custom policy) }

unfoldable pub no_retry : StepBuilder → StepBuilder
no_retry b = record b { retry_override = some disabled }

unfoldable pub effective_retry : StepBuilder → Option RetryPolicy → Option RetryPolicy
effective_retry b default_retry = elim b.retry_override [
  | none ↦ default_retry
  | some disabled ↦ none
  | some (custom policy) ↦ some policy
]

abbrev pub max_retries_of : Option RetryPolicy → ℕ
max_retries_of none = 0
max_retries_of (some policy) = policy.max_retries

-- `max_retries + 1` on `u32`, as a release build computes it.
abbrev pub total_of : ℕ → ℕ
total_of max_retries = (max_retries + 1) % 4294967296

-- `tokio::time::timeout` cuts a call off that runs longer than the limit.
unfoldable pub timed :
    {T : Type 0} → StepBuilder → Attempt T → Outcome EngineError (Outcome StepError T)
timed b a = elim b.timeout [
  | none ↦ ok a.result
  | some duration ↦
      if ltb duration a.elapsed then err (step_timeout b.key duration) else ok a.result
]

module _ ⦃x : External⦄ where
  -- What the journal holds decides: a result, a refusal, or that the step has to run.
  unfoldable pub on_cached : {T : Type 0} → Text → StepData T → Workflow (Option T)
  on_cached key (completed result status) = do modify (restore_status status); pure (some result)
  on_cached key suspended = fail (suspended_step_conflict key)
  on_cached key (failed _) = pure none

  unfoldable pub check_journal :
      {T : Type 0} → Text → Payload T → Option Bytes → Workflow (Option T)
  unfolding on_cached
  check_journal key p none = pure none
  check_journal key p (some bytes) = do
    content ← lift (deserialize_step p bytes key)
    on_cached key content

  unfoldable pub persist : {T : Type 0} → Text → Payload T → StepData T → Workflow (Unit {0})
  unfolding write_step
  persist key p content = do
    bytes ← lift (serialize_step p content key)
    composite ← gets (key_of key)
    in_shared (with_db (write_step composite bytes))

  -- The last retryable error: a dead letter, and the error of a step without or with retries.
  unfoldable pub give_up : {T : Type 0} → Text → Payload T → ℕ → Text → Workflow T
  unfolding persist
  give_up key p max_retries inner = do
    persist key p (failed inner)
    if max_retries == 0
        then fail (step_failed key inner true)
        else fail (retries_exhausted key (total_of max_retries) inner)

  unfoldable pub back_off : Option RetryPolicy → ℕ → Frame → Frame
  back_off none attempt f = f
  back_off (some policy) attempt f = note (slept (delay_for policy attempt)) f

  -- What follows a call of the closure; `next` is the next round of the loop.
  unfoldable pub settle :
      {T : Type 0}
      → Text
      → Payload T
      → Option RetryPolicy
      → ℕ
      → Workflow T
      → Outcome StepError T
      → Workflow T
  unfolding persist give_up back_off
  settle key p policy attempt next (ok result) = do
    status ← gets current_status_string
    persist key p (completed result status)
    pure result
  settle key p policy attempt next (err (permanent inner)) = do
    persist key p (failed inner)
    fail (step_failed key inner false)
  settle key p policy attempt next (err (retryable inner)) =
      let max_retries = max_retries_of policy in
      let again = (do modify (back_off policy attempt); next) in
      if leb (total_of max_retries) (attempt + 1) then give_up key p max_retries inner else again
  settle key p policy attempt next panic = abort

  -- `for attempt in 0..total_attempts`, with `left` rounds to go; past its end is `unreachable!`.
  unfoldable pub attempts :
      {T : Type 0}
      → StepBuilder
      → Payload T
      → Option RetryPolicy
      → (ℕ → Attempt T)
      → ℕ
      → ℕ
      → Workflow T
  attempts b p policy closure zero attempt = abort
  attempts b p policy closure (suc left) attempt = do
    modify (note (called attempt))
    result ← lift (timed b (closure attempt))
    settle b.key p policy attempt (attempts b p policy closure left (attempt + 1)) result

  unfoldable pub execute : {T : Type 0} → StepBuilder → Payload T → (ℕ → Attempt T) → Workflow T
  execute b p closure = do
    modify stop_replaying
    policy ← gets (λ f. effective_retry b f.shared.default_retry)
    attempts b p policy closure (total_of (max_retries_of policy)) 0

  abbrev pub or_execute : {T : Type 0} → Workflow T → Option T → Workflow T
  or_execute m none = m
  or_execute m (some result) = pure result

  unfoldable pub run : {T : Type 0} → StepBuilder → Payload T → (ℕ → Attempt T) → Workflow T
  unfolding read_step check_journal
  run b p closure = do
    composite ← gets (key_of b.key)
    bytes ← in_shared (with_db (read_step composite))
    cached ← check_journal b.key p bytes
    or_execute (execute b p closure) cached
