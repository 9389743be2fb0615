-- ===== src/Context/Step/Returns.antt =====
-- The attempt loop of a step ends by returning: its `unreachable!` is not reached.
use memable.Prelude.{
  ℕ, zero, suc, ◌+◌, ◌<◌, ◌≡◌, ◌≢◌, ap, sym, ◌∙◌, arith, Option, none, some, inl, inr, leb, false,
  Bool-cases,
}
use memable.Text.{Text}
use memable.Outcome.{Outcome, ok, err, panic, Outcome-cases}
use memable.Error.{StepError, retryable, permanent}
use memable.Journal.{Bytes, StepData}
use memable.External.{External, Payload}
use memable.Store.{Database}
use memable.Codec.{serialize_step, deserialize_step}
use memable.Retry.{RetryPolicy, u32_max}
use memable.Context.{
  Frame, Workflow, note, called, stop_replaying, key_of, read_step, current_status_string,
}
use memable.Context.Step.{
  StepBuilder, Attempt, persist, give_up, back_off, settle, check_journal, on_cached, attempts,
  execute, run, timed, total_of, max_retries_of, effective_retry,
}
use memable.Context.Step.Rounds.{settle_last, settle_again, attempts_round}

module _ ⦃x : External⦄ where
  serialize_step-ne-panic :
      {T : Type 0} (p : Payload T) (c : StepData T) (key : Text) → serialize_step p c key ≢ panic
  unfolding serialize_step
  serialize_step-ne-panic p c key e = ground arith

  -- The workflow does not panic.
  abbrev pub Returns : {A : Type 0} → Workflow A → Frame → Type 0
  Returns m f = (m f).0 ≢ panic

  persist-Returns :
      {T : Type 0} (key : Text) (p : Payload T) (c : StepData T) (f : Frame)
      → Returns (persist key p c) f
  unfolding persist serialize_step memable.Context.write_step memable.Store.write_txn
      memable.Store.storage_call memable.Store.fault
  persist-Returns key p c f e = ground arith

  give_up-Returns :
      {T : Type 0} (key : Text) (p : Payload T) (max : ℕ) (inner : Text) (f : Frame)
      → Returns (give_up key p max inner) f
  unfolding give_up
  give_up-Returns key p max inner f e =
      ground (arith, persist-Returns key p (StepData.failed inner) f)

  settle-Returns :
      {T : Type 0} (key : Text) (p : Payload T) (policy : Option RetryPolicy) (attempt : ℕ)
      (next : Workflow T) (r : Outcome StepError T) (f : Frame)
      → r ≢ panic
      → (leb (total_of (max_retries_of policy)) (attempt + 1) ≡ false
          → (g : Frame) → Returns next g)
      → Returns (settle key p policy attempt next r) f
  unfolding settle
  settle-Returns key p policy attempt next (ok v) f ne more e =
      ground (arith, persist-Returns key p (StepData.completed v (current_status_string f)) f)
  settle-Returns key p policy attempt next (err (permanent inner)) f ne more e =
      ground (arith, persist-Returns key p (StepData.failed inner) f)
  settle-Returns key p policy attempt next panic f ne more e = ground arith
  settle-Returns key p policy attempt next (err (retryable inner)) f ne more e =
      elim (Bool-cases (leb (total_of (max_retries_of policy)) (attempt + 1))) [
        | inl last ↦
            give_up-Returns key p (max_retries_of policy) inner f
              (sym (ap (λ o. o.0) (settle_last key p policy attempt next inner f last)) ∙ e)
        | inr again ↦
            more again (back_off policy attempt f)
              (sym (ap (λ o. o.0) (settle_again key p policy attempt next inner f again)) ∙ e)
      ]

  module _ {T : Type 0} (b : StepBuilder) (p : Payload T) (policy : Option RetryPolicy)
      (closure : ℕ → Attempt T) (small : max_retries_of policy < u32_max)
      (sound : (n : ℕ) → (closure n).result ≢ panic) where
    timed_result :
        (n : ℕ)
        → ((timed b (closure n)) ≢ panic)
          × ((r : Outcome StepError T) → timed b (closure n) ≡ ok r → r ≢ panic)
    unfolding timed
    timed_result n = (λ e. ground arith, λ r e q. absurd (ground (arith, sound n)))

    round-Returns :
        (left attempt : ℕ) (f : Frame)
        → (leb (total_of (max_retries_of policy)) (attempt + 1) ≡ false
            → (g : Frame) → Returns (attempts b p policy closure left (attempt + 1)) g)
        → Returns (attempts b p policy closure (suc left) attempt) f
    unfolding attempts
    round-Returns left attempt f more q =
        let next = attempts b p policy closure left (attempt + 1) in
        elim (Outcome-cases (timed b (closure attempt))) [
          | inl (r, t) ↦
              settle-Returns b.key p policy attempt next r (note (called attempt) f)
                ((timed_result attempt).1 r t) more
                (sym (ap (λ o. o.0) (attempts_round b p policy closure left attempt f r t)) ∙ q)
          | inr (inl (c, t)) ↦ ground arith
          | inr (inr t) ↦ (timed_result attempt).0 t
        ]

    attempts-Returns :
        (left attempt : ℕ) (f : Frame)
        → suc left + attempt ≡ total_of (max_retries_of policy)
        → Returns (attempts b p policy closure (suc left) attempt) f
    attempts-Returns zero attempt f e = round-Returns 0 attempt f (λ l g q. absurd (ground arith))
    attempts-Returns (suc left) attempt f e =
        round-Returns (suc left) attempt f
          (λ l g. attempts-Returns left (attempt + 1) g (omega arith))

    all_rounds-Returns :
        (f : Frame) → Returns (attempts b p policy closure (total_of (max_retries_of policy)) 0) f
    all_rounds-Returns f q =
        let n = max_retries_of policy in
        let count : total_of n ≡ suc n = omega arith in
        let there : suc n + 0 ≡ total_of n = omega arith in
        attempts-Returns n 0 f there
          (ap (λ k. (attempts b p policy closure k 0 f).0) (sym count) ∙ q)

  check_journal-Returns :
      {T : Type 0} (key : Text) (p : Payload T) (o : Option Bytes) (f : Frame)
      → Returns (check_journal key p o) f
  unfolding check_journal on_cached deserialize_step memable.Codec.check_tag
  check_journal-Returns key p o f e = ground arith

  default_retry-check_journal :
      {T : Type 0} (key : Text) (p : Payload T) (o : Option Bytes) (f : Frame)
      → (check_journal key p o f).1.shared.default_retry ≡ f.shared.default_retry
  unfolding check_journal on_cached memable.Context.restore_status
  default_retry-check_journal key p o f = ground arith

  read_step-ne-panic : (key : Text) (d : Database) → (read_step key d).0 ≢ panic
  unfolding read_step memable.Store.read_txn memable.Store.storage_call memable.Store.fault
  read_step-ne-panic key d e = ground arith

  -- When the policy of a step has fewer than `u32::MAX` retries and its closure never panics, the
  -- step returns: whatever the journal holds and whatever the storage and postcard refuse, it ends
  -- with a result or an error, and never past the end of its attempt loop.
  pub run-Returns :
      {T : Type 0} (b : StepBuilder) (p : Payload T) (closure : ℕ → Attempt T) (f : Frame)
      → max_retries_of (effective_retry b f.shared.default_retry) < u32_max
      → ((n : ℕ) → (closure n).result ≢ panic)
      → Returns (run b p closure) f
  unfolding run execute
  run-Returns b p closure f small sound e =
      let policy = effective_retry b f.shared.default_retry in
      let read = read_step (key_of b.key f) f.shared.db in
      let g : Frame = record f { shared = record f.shared { db = read.1 } } in
      elim (Outcome-cases read.0) [
        | inl (bytes, q) ↦ elim (Outcome-cases (check_journal b.key p bytes g).0) [
          | inl (none, r) ↦
              let g1 = (check_journal b.key p bytes g).1 in
              all_rounds-Returns b p policy closure small sound (stop_replaying g1)
                (ground (arith, default_retry-check_journal b.key p bytes g))
          | inl (some v, r) ↦ ground arith
          | inr (inl (c, r)) ↦ ground arith
          | inr (inr r) ↦ check_journal-Returns b.key p bytes g r
        ]
        | inr (inl (c, q)) ↦ ground arith
        | inr (inr q) ↦ read_step-ne-panic (key_of b.key f) f.shared.db q
      ]
