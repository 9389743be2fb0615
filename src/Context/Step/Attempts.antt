-- ===== src/Context/Step/Attempts.antt =====
-- How often a step calls its closure, and how it ends when every attempt fails.
use memable.Prelude.{
  ℕ, zero, suc, ◌+◌, ◌≤◌, ◌<◌, ◌≡◌, ap, ◌∙◌, arith, Option, none, some, inl, inr, List, [], ◌∷◌,
  true, ◌==◌, if◌then◌else◌,
}
use memable.Text.{Text}
use memable.Outcome.{Outcome, ok, err, panic, Outcome-cases}
use memable.Error.{EngineError, StepError, retryable, step_failed, retries_exhausted}
use memable.Journal.{Bytes, StepData, failed}
use memable.External.{External, Payload}
use memable.Store.{IsHealthy}
use memable.Codec.{serialize_step}
use memable.Retry.{RetryPolicy, u32_max}
use memable.Context.{
  Frame, Workflow, Effect, called, slept, key_of, note, stop_replaying, read_step, restore_status,
}
use memable.Context.Journal.{put_in_frame}
use memable.Context.Step.{
  StepBuilder, Attempt, persist, give_up, back_off, settle, check_journal, attempts, execute, run,
  timed, total_of, max_retries_of, effective_retry,
}
use memable.Context.Step.Rounds.{
  persist-IsHealthy, back_off-IsHealthy, settle_last, settle_again, attempts_round, run-miss,
}

abbrev pub calls : List Effect → ℕ
calls [] = 0
calls (called _ ∷ es) = suc (calls es)
calls (slept _ ∷ es) = calls es

module _ ⦃x : External⦄ where
  effects-persist :
      {T : Type 0} (p : Payload T) (key : Text) (content : StepData T) (f : Frame)
      → (persist key p content f).1.effects ≡ f.effects
  unfolding persist
  effects-persist p key content f = ground arith

  calls-back_off :
      (policy : Option RetryPolicy) (attempt : ℕ) (f : Frame)
      → (calls (back_off policy attempt f).effects ≡ calls f.effects)
        × ((back_off policy attempt f).shared.db ≡ f.shared.db)
        × ((back_off policy attempt f).context ≡ f.context)
  unfolding back_off
  calls-back_off policy attempt f = ground arith

  -- Only a returned result touches the frame.
  check_journal_keeps :
      {T : Type 0} (key : Text) (p : Payload T) (bytes : Option Bytes) (f : Frame)
      → ((check_journal key p bytes f).1.effects ≡ f.effects)
        × ((check_journal key p bytes f).0 ≡ ok none → (check_journal key p bytes f).1 ≡ f)
  unfolding check_journal restore_status
  check_journal_keeps key p bytes f = ground arith

  calls-settle :
      {T : Type 0} (key : Text) (p : Payload T) (policy : Option RetryPolicy) (attempt left : ℕ)
      (next : Workflow T) (r : Outcome StepError T) (f : Frame)
      → ((g : Frame) → calls (next g).1.effects ≤ calls g.effects + left)
      → calls (settle key p policy attempt next r f).1.effects ≤ calls f.effects + left
  unfolding settle
  calls-settle key p policy attempt left next r f h =
      ground (arith, h (back_off policy attempt f), calls-back_off policy attempt f)

  calls-attempts :
      {T : Type 0} (b : StepBuilder) (p : Payload T) (policy : Option RetryPolicy)
      (closure : ℕ → Attempt T) (left attempt : ℕ) (f : Frame)
      → calls (attempts b p policy closure left attempt f).1.effects ≤ calls f.effects + left
  unfolding attempts
  calls-attempts b p policy closure zero attempt f = omega arith
  calls-attempts b p policy closure (suc left) attempt f =
      elim (Outcome-cases (timed b (closure attempt))) [
        | inl (r, q) ↦ rw (attempts_round b p policy closure left attempt f r q) (
            omega (
              arith,
              calls-settle b.key p policy attempt left
                  (attempts b p policy closure left (attempt + 1)) r (note (called attempt) f)
                  (calls-attempts b p policy closure left (attempt + 1)),
            ))
        | inr (inl (c, q)) ↦ ground arith
        | inr (inr q) ↦ ground arith
      ]

  abbrev exhausted : Text → ℕ → Text → EngineError
  exhausted key max inner =
      if max == 0 then step_failed key inner true else retries_exhausted key (max + 1) inner

  give_up-IsHealthy :
      {T : Type 0} (key : Text) (p : Payload T) (max : ℕ) (inner : Text) (bytes : Bytes) (f : Frame)
      → IsHealthy f.shared.db
      → max < u32_max
      → serialize_step p (failed inner) key ≡ ok bytes
      → give_up key p max inner f ≡ (err (exhausted key max inner), put_in_frame key bytes f)
  unfolding give_up
  give_up-IsHealthy key p max inner bytes f h small e =
      ground (arith, persist-IsHealthy p key (failed inner) f h)

  -- What a run with nothing but retryable errors ends with.
  record Exhausted {T : Type 0} (key : Text) (max left : ℕ) (inner : Text) (bytes : Bytes)
      (f : Frame) (o : Outcome EngineError T × Frame) : Type 0 where
    error : o.0 ≡ err (exhausted key max inner)
    count : calls o.1.effects ≡ calls f.effects + suc left
    letter : o.1.shared.db ≡ (put_in_frame key bytes f).shared.db

  module _ {T : Type 0} (b : StepBuilder) (p : Payload T) (policy : Option RetryPolicy)
      (closure : ℕ → Attempt T) (inner : ℕ → Text) (bytes : Bytes)
      (small : max_retries_of policy < u32_max)
      (fails : (n : ℕ) → timed b (closure n) ≡ ok (err (retryable (inner n))))
      (writes : serialize_step p (failed (inner (max_retries_of policy))) b.key ≡ ok bytes) where
    attempts-Exhausted :
        (left attempt : ℕ) (f : Frame)
        → left + attempt ≡ max_retries_of policy
        → IsHealthy f.shared.db
        → Exhausted b.key
            (max_retries_of policy)
            left
            (inner (max_retries_of policy))
            bytes
            f
            (attempts b p policy closure (suc left) attempt f)
    attempts-Exhausted zero attempt f e h = ground (
      arith,
      attempts_round b p policy closure 0 attempt f _ (fails attempt),
      settle_last b.key p policy attempt (attempts b p policy closure 0 (attempt + 1))
          (inner attempt) (note (called attempt) f),
      give_up-IsHealthy b.key p (max_retries_of policy) (inner (max_retries_of policy)) bytes
          (note (called attempt) f) h small writes,
    )
    attempts-Exhausted (suc left) attempt f e h =
        let g = back_off policy attempt (note (called attempt) f) in
        let rest =
          attempts-Exhausted left (attempt + 1) g (omega arith) (
            ap (λ d. d.faults) (back_off-IsHealthy policy attempt (note (called attempt) f)) ∙ h) in
        ground (
          arith,
          attempts_round b p policy closure (suc left) attempt f _ (fails attempt),
          settle_again b.key p policy attempt (attempts b p policy closure (suc left) (attempt + 1))
              (inner attempt) (note (called attempt) f),
          calls-back_off policy attempt (note (called attempt) f),
          rest,
        )

  calls-execute :
      {T : Type 0} (b : StepBuilder) (p : Payload T) (closure : ℕ → Attempt T) (f : Frame)
      → calls (execute b p closure f).1.effects
        ≤ calls f.effects + total_of (max_retries_of (effective_retry b f.shared.default_retry))
  unfolding execute
  calls-execute b p closure f = calls-attempts b p _ closure _ 0 (stop_replaying f)

  -- The closure is called at most once more than the policy of the step has retries, whatever the
  -- journal holds, the closure does and the storage refuses.
  pub calls-run-le :
      {T : Type 0} (b : StepBuilder) (p : Payload T) (closure : ℕ → Attempt T) (f : Frame)
      → calls (run b p closure f).1.effects
        ≤ calls f.effects + (max_retries_of (effective_retry b f.shared.default_retry) + 1)
  unfolding run
  calls-run-le b p closure f =
      let policy = effective_retry b f.shared.default_retry in
      let read = read_step (key_of b.key f) f.shared.db in
      let g : Frame = record f { shared = record f.shared { db = read.1 } } in
      elim (Outcome-cases read.0) [
        | inl (bytes, q) ↦
            let kept = check_journal_keeps b.key p bytes g in
            elim (Outcome-cases (check_journal b.key p bytes g).0) [
              | inl (none, r) ↦ ground (arith, kept, calls-execute b p closure g)
              | inl (some v, r) ↦ ground (arith, kept)
              | inr (inl (c, r)) ↦ ground (arith, kept)
              | inr (inr r) ↦ ground (arith, kept)
            ]
        | inr (inl (c, q)) ↦ ground arith
        | inr (inr q) ↦ ground arith
      ]

  -- On storage that does not fail, when the journal has no entry, the policy has fewer than
  -- `u32::MAX` retries, every attempt fails with a retryable error and the last one serialises, the
  -- closure is called once more than the policy has retries, the last error is written as a dead
  -- letter, and the step fails for want of retries or because they are used up.
  pub run-exhausted :
      {T : Type 0} (b : StepBuilder) (p : Payload T) (policy : Option RetryPolicy)
      (closure : ℕ → Attempt T) (inner : ℕ → Text) (bytes : Bytes) (f : Frame)
      → IsHealthy f.shared.db
      → x.texts.get f.shared.db.steps (key_of b.key f) ≡ none
      → effective_retry b f.shared.default_retry ≡ policy
      → max_retries_of policy < u32_max
      → ((n : ℕ) → timed b (closure n) ≡ ok (err (retryable (inner n))))
      → serialize_step p (failed (inner (max_retries_of policy))) b.key ≡ ok bytes
      → ((run b p closure f).0
          ≡ err (exhausted b.key (max_retries_of policy) (inner (max_retries_of policy))))
        × (calls (run b p closure f).1.effects ≡ calls f.effects + (max_retries_of policy + 1))
        × ((run b p closure f).1.shared.db ≡ (put_in_frame b.key bytes f).shared.db)
  unfolding execute
  run-exhausted b p policy closure inner bytes f h miss e small fails writes =
      let ends =
        attempts-Exhausted b p policy closure inner bytes small fails writes (max_retries_of policy)
          0 (stop_replaying f) (omega arith) h in
      ground (arith, run-miss b p closure f h miss, ends)

  -- On storage that does not fail, with no entry in the journal and `u32::MAX` retries, the number
  -- of attempts wraps to none: the closure is never called, and the step panics.
  pub run_overflow :
      {T : Type 0} (b : StepBuilder) (p : Payload T) (policy : RetryPolicy)
      (closure : ℕ → Attempt T) (f : Frame)
      → IsHealthy f.shared.db
      → x.texts.get f.shared.db.steps (key_of b.key f) ≡ none
      → effective_retry b f.shared.default_retry ≡ some policy
      → policy.max_retries ≡ u32_max
      → ((run b p closure f).0 ≡ panic) × ((run b p closure f).1.effects ≡ f.effects)
  unfolding execute attempts
  run_overflow b p policy closure f h miss e m = ground (arith, run-miss b p closure f h miss)
