-- ===== src/Context/Step/Rounds.antt =====
-- One round of the attempt loop on storage that does not fail, and the ways into the loop.
use memable.Prelude.{
  ℕ, suc, ◌+◌, ◌≡◌, ap, arith, Option, none, some, inl, inr, leb, if◌then◌else◌, true, false,
}
use memable.Text.{Text}
use memable.Outcome.{Outcome, ok, err, panic, Outcome-cases}
use memable.Error.{EngineError, StepError, retryable}
use memable.Journal.{Bytes, StepData, failed}
use memable.External.{External, Payload}
use memable.Store.{IsHealthy}
use memable.Codec.{serialize_step, deserialize_step}
use memable.Retry.{RetryPolicy}
use memable.Context.{Frame, Workflow, note, called, key_of}
use memable.Context.Journal.{put_in_frame, read_step-IsHealthy, write_step-IsHealthy}
use memable.Context.Step.{
  StepBuilder, Attempt, persist, give_up, back_off, settle, attempts, execute, run, timed, total_of,
  max_retries_of,
}

module _ ⦃x : External⦄ where
  abbrev pub persisted :
      Text → Outcome EngineError Bytes → Frame → Outcome EngineError (Unit {0}) × Frame
  persisted key (ok bytes) f = (ok tt, put_in_frame key bytes f)
  persisted key (err e) f = (err e, f)
  persisted key panic f = (panic, f)

  pub persist-IsHealthy :
      {T : Type 0} (p : Payload T) (key : Text) (content : StepData T) (f : Frame)
      → IsHealthy f.shared.db
      → persist key p content f ≡ persisted key (serialize_step p content key) f
  unfolding persist
  persist-IsHealthy p key content f h = elim (Outcome-cases (serialize_step p content key)) [
    | inl (bytes, e) ↦ ground (arith, write_step-IsHealthy (key_of key f) bytes f.shared.db h)
    | inr (inl (c, e)) ↦ ground arith
    | inr (inr e) ↦ ground arith
  ]

  pub back_off-IsHealthy :
      (policy : Option RetryPolicy) (attempt : ℕ) (f : Frame)
      → (back_off policy attempt f).shared.db ≡ f.shared.db
  unfolding back_off
  back_off-IsHealthy policy attempt f = ground arith

  pub settle_again :
      {T : Type 0} (key : Text) (p : Payload T) (policy : Option RetryPolicy) (attempt : ℕ)
      (next : Workflow T) (inner : Text) (f : Frame)
      → leb (total_of (max_retries_of policy)) (attempt + 1) ≡ false
      → settle key p policy attempt next (err (retryable inner)) f
        ≡ next (back_off policy attempt f)
  unfolding settle
  settle_again key p policy attempt next inner f more =
      ap
        (λ b.
          (if b
              then give_up key p (max_retries_of policy) inner
              else (λ g. next (back_off policy attempt g)))
            f)
        more

  pub settle_last :
      {T : Type 0} (key : Text) (p : Payload T) (policy : Option RetryPolicy) (attempt : ℕ)
      (next : Workflow T) (inner : Text) (f : Frame)
      → leb (total_of (max_retries_of policy)) (attempt + 1) ≡ true
      → settle key p policy attempt next (err (retryable inner)) f
        ≡ give_up key p (max_retries_of policy) inner f
  unfolding settle
  settle_last key p policy attempt next inner f last = rw last

  pub attempts_round :
      {T : Type 0} (b : StepBuilder) (p : Payload T) (policy : Option RetryPolicy)
      (closure : ℕ → Attempt T) (left attempt : ℕ) (f : Frame) (r : Outcome StepError T)
      → timed b (closure attempt) ≡ ok r
      → attempts b p policy closure (suc left) attempt f
        ≡ settle b.key p policy attempt
            (attempts b p policy closure left (attempt + 1))
            r
            (note (called attempt) f)
  unfolding attempts
  attempts_round b p policy closure left attempt f r q = rw q

  pub run-miss :
      {T : Type 0} (b : StepBuilder) (p : Payload T) (closure : ℕ → Attempt T) (f : Frame)
      → IsHealthy f.shared.db
      → x.texts.get f.shared.db.steps (key_of b.key f) ≡ none
      → run b p closure f ≡ execute b p closure f
  unfolding run
  run-miss b p closure f h e = ground (arith, read_step-IsHealthy (key_of b.key f) f.shared.db h)

  -- A dead letter is run again, as a step with no entry is.
  pub run-failed :
      {T : Type 0} (b : StepBuilder) (p : Payload T) (closure : ℕ → Attempt T) (f : Frame)
      (bytes : Bytes) (inner : Text)
      → IsHealthy f.shared.db
      → x.texts.get f.shared.db.steps (key_of b.key f) ≡ some bytes
      → deserialize_step p bytes b.key ≡ ok (failed inner)
      → run b p closure f ≡ execute b p closure f
  unfolding run
  run-failed b p closure f bytes inner h q d =
      ground (arith, read_step-IsHealthy (key_of b.key f) f.shared.db h)
