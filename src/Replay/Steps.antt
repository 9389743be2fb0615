-- ===== src/Replay/Steps.antt =====
-- What a step writes to the journal, on storage that may fail.
use memable.Prelude.{
  ℕ, zero, suc, ◌+◌, ◌≡◌, refl, sym, subst, arith, Option, none, some, inl, inr, Bool-cases, leb,
}
use memable.Text.{Text}
use memable.Outcome.{Outcome, ok, err, panic, Outcome-cases}
use memable.Error.{StepError, retryable, permanent}
use memable.Journal.{Bytes, completed, failed}
use memable.External.{External, Payload}
use memable.Retry.{RetryPolicy}
use memable.Context.{
  Frame, Workflow, key_of, note, called, stop_replaying, restore_status, current_status_string,
}
use memable.Context.Journal.{Idle}
use memable.Context.Step.{
  StepBuilder, Attempt, persist, give_up, back_off, settle, attempts, execute, run, timed, total_of,
  max_retries_of, check_journal, on_cached, or_execute,
}
use memable.Context.Step.Rounds.{settle_last, settle_again, attempts_round}
use memable.Replay.Entries.{ReadsAsDone}
use memable.Replay.Writes.{
  Wrote, Writes, Wrote-along, Wrote-same, persist-Wrote, look-Wrote, look-Idle,
}

module _ ⦃x : External⦄ where
  give_up-Wrote :
      {T : Type 0} (key : Text) (p : Payload T) (max : ℕ) (inner : Text)
      → Writes p key (give_up key p max inner)
  unfolding give_up
  give_up-Wrote key p max inner f =
      Wrote-same p key f (persist key p (failed inner) f).1 (give_up key p max inner f).1
        (ground arith) (persist-Wrote p key (failed inner) f)

  back_off-Wrote :
      {T : Type 0} (p : Payload T) (key : Text) (policy : Option RetryPolicy) (attempt : ℕ)
      (next : Workflow T)
      → Writes p key next
      → (f : Frame) → Wrote p key f (next (back_off policy attempt f)).1
  unfolding back_off
  back_off-Wrote p key none attempt next k f = k f
  back_off-Wrote p key (some policy) attempt next k f = k _

  settle-Wrote :
      {T : Type 0} (key : Text) (p : Payload T) (policy : Option RetryPolicy) (attempt : ℕ)
      (next : Workflow T) (r : Outcome StepError T)
      → Writes p key next
      → Writes p key (settle key p policy attempt next r)
  unfolding settle
  settle-Wrote key p policy attempt next (ok value) k f =
      Wrote-same p key f (persist key p (completed value (current_status_string f)) f).1
        (settle key p policy attempt next (ok value) f).1 (ground arith) (persist-Wrote p key _ f)
  settle-Wrote key p policy attempt next (err (permanent inner)) k f =
      Wrote-same p key f (persist key p (failed inner) f).1
        (settle key p policy attempt next (err (permanent inner)) f).1 (ground arith)
        (persist-Wrote p key (failed inner) f)
  settle-Wrote key p policy attempt next panic k f = ((refl, refl), inl refl)
  settle-Wrote key p policy attempt next (err (retryable inner)) k f =
      elim (Bool-cases (leb (total_of (max_retries_of policy)) (attempt + 1))) [
        | inl last ↦
            Wrote-along p key f _ _ (settle_last key p policy attempt next inner f last)
              (give_up-Wrote key p (max_retries_of policy) inner f)
        | inr more ↦
            Wrote-along p key f _ _ (settle_again key p policy attempt next inner f more)
              (back_off-Wrote p key policy attempt next k f)
      ]

  attempts-Wrote :
      {T : Type 0} (b : StepBuilder) (p : Payload T) (policy : Option RetryPolicy)
      (closure : ℕ → Attempt T) (left attempt : ℕ)
      → Writes p b.key (attempts b p policy closure left attempt)
  unfolding attempts
  attempts-Wrote b p policy closure zero attempt f = ((refl, refl), inl refl)
  attempts-Wrote b p policy closure (suc left) attempt f =
      elim (Outcome-cases (timed b (closure attempt))) [
        | inl (r, q) ↦
            Wrote-along p b.key f _ _ (attempts_round b p policy closure left attempt f r q) (
              settle-Wrote b.key p policy attempt _ r
                (attempts-Wrote b p policy closure left (attempt + 1)) (note (called attempt) f))
        | inr (inl (c, q)) ↦
            Wrote-along p b.key f (attempts b p policy closure (suc left) attempt f)
              (err c, note (called attempt) f) (rw q) ((refl, refl), inl refl)
        | inr (inr q) ↦
            Wrote-along p b.key f (attempts b p policy closure (suc left) attempt f)
              (panic, note (called attempt) f) (rw q) ((refl, refl), inl refl)
      ]

  execute-Wrote :
      {T : Type 0} (b : StepBuilder) (p : Payload T) (closure : ℕ → Attempt T)
      → Writes p b.key (execute b p closure)
  unfolding execute
  execute-Wrote b p closure f = attempts-Wrote b p _ closure _ 0 (stop_replaying f)

  check_journal-Idle :
      {T : Type 0} (key : Text) (p : Payload T) (o : Option Bytes) (f : Frame)
      → Idle f (check_journal key p o f).1
  unfolding check_journal on_cached restore_status
  check_journal-Idle key p o f = ((ground arith, ground arith), ground arith)

  pub run-Wrote :
      {T : Type 0} (b : StepBuilder) (p : Payload T) (closure : ℕ → Attempt T)
      → Writes p b.key (run b p closure)
  unfolding run
  run-Wrote {T} b p closure f =
      look-Wrote p b.key (check_journal b.key p) (or_execute (execute b p closure)) f
        (check_journal-Idle b.key p) or_execute-Wrote
    where
      or_execute-Wrote :
          (cached : Option T) → Writes p b.key (or_execute (execute b p closure) cached)
      or_execute-Wrote none g = execute-Wrote b p closure g
      or_execute-Wrote (some v) g = ((refl, refl), inl refl)

  -- An entry that is complete, or of another type, is never run.
  check_journal_done :
      {T : Type 0} (key : Text) (p : Payload T) (bytes : Bytes) (o : Option T) (f : Frame)
      → ReadsAsDone p key bytes
      → (check_journal key p (some bytes) f).0 ≡ ok o
      → (v : T) × (o ≡ some v)
  unfolding check_journal on_cached
  check_journal_done key p bytes o f (inl (v, status, d)) e = (v, ground arith)
  check_journal_done key p bytes o f (inr (c, d)) e = absurd (ground arith)

  pub run-ReadsAsDone :
      {T : Type 0} (b : StepBuilder) (p : Payload T) (closure : ℕ → Attempt T) (f : Frame)
      (bytes : Bytes)
      → x.texts.get f.shared.db.steps (key_of b.key f) ≡ some bytes
      → ReadsAsDone p b.key bytes
      → Idle f (run b p closure f).1
  unfolding run
  run-ReadsAsDone b p closure f bytes q r =
      look-Idle (key_of b.key f) (check_journal b.key p) (or_execute (execute b p closure)) f bytes
        q (check_journal-Idle b.key p)
        λ cached g d h.
          let (v, same) = check_journal_done b.key p bytes cached g r d in
          subst (λ c. Idle h (or_execute (execute b p closure) c h).1) (sym same)
            ((refl, refl), refl)
