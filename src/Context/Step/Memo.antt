-- ===== src/Context/Step/Memo.antt =====
-- Memoisation: a step whose result is in the journal is not run again.
use memable.Prelude.{
  ℕ, zero, suc, ◌+◌, ◌≡◌, ap, sym, ◌∙◌, subst, arith, Option, none, some, inl, inr, Bool-cases, leb,
}
use memable.Text.{Text}
use memable.Outcome.{Outcome, ok, err, panic, bind_ok, ok-injective, ◌>>=◌, pure, lift, gets}
use memable.Error.{StepError, retryable, permanent}
use memable.Journal.{Bytes, completed}
use memable.External.{External, Payload}
use memable.Store.{IsHealthy}
use memable.Codec.{serialize_step, deserialize_step}
use memable.Retry.{RetryPolicy}
use memable.Context.{
  Frame, Workflow, note, called, stop_replaying, key_of, restore_status, current_status_string,
}
use memable.Context.Journal.{
  Stored, journal_read, journal_write, read-Stored, write-Stored, read_step-IsHealthy,
}
use memable.Context.Step.Rounds.{settle_last, settle_again}
use memable.Context.Step.{
  StepBuilder, Attempt, give_up, back_off, settle, attempts, execute, run, timed, total_of,
  max_retries_of, persist, check_journal, on_cached, or_execute,
}

module _ ⦃x : External⦄ where
  -- A completed entry is returned: the closure is not called, nothing is written, and the status
  -- that was stored with the result is shown again.
  pub run-Stored :
      {T : Type 0} (b : StepBuilder) (p : Payload T) (closure : ℕ → Attempt T) (result : T)
      (f : Frame)
      → IsHealthy f.shared.db
      → (s : Stored p b.key result f) → run b p closure f ≡ (ok result, restore_status s.status f)
  unfolding run
  run-Stored b p closure result f h s =
      ground (arith, read_step-IsHealthy (key_of b.key f) f.shared.db h, s.found, s.decoded)

  -- What the rounds of the loop keep: a result that they return is in the journal.
  abbrev Keeps : {T : Type 0} → Payload T → Text → Workflow T → Type 0
  Keeps {T} p key m = (f g : Frame) (result : T) → m f ≡ (ok result, g) → Stored p key result g

  give_up-Keeps :
      {T : Type 0} (key : Text) (p : Payload T) (max : ℕ) (inner : Text)
      → Keeps p key (give_up key p max inner)
  unfolding give_up
  give_up-Keeps key p max inner f g result e = absurd (ground arith)

  persist-Stored :
      {T : Type 0} (key : Text) (p : Payload T) (value : T) (status : Option Text) (f g : Frame)
      → persist key p (completed value status) f ≡ (ok tt, g)
      → Stored p key value g
  unfolding persist
  persist-Stored key p value status f g e =
      let (bytes, f1, written, rest) =
        bind_ok f g (lift (serialize_step p (completed value status) key))
          (λ bytes. gets (key_of key) >>= λ composite. journal_write composite bytes) tt e in
      let same : f ≡ f1 = ap (λ o. o.1) written in
      write-Stored p key value status bytes f g (ap (λ o. o.0) written)
        (ap (λ f. journal_write (key_of key f) bytes f) same ∙ rest)

  settle-Keeps :
      {T : Type 0} (key : Text) (p : Payload T) (policy : Option RetryPolicy) (attempt : ℕ)
      (next : Workflow T) (r : Outcome StepError T)
      → Keeps p key next
      → Keeps p key (settle key p policy attempt next r)
  unfolding settle
  settle-Keeps key p policy attempt next (ok value) k f g result e =
      let (_, f1, saved, rest) =
        bind_ok f g (persist key p (completed value (current_status_string f))) (λ _. pure value)
          result e in
      subst (λ v. Stored p key v g) (ok-injective value result (ap (λ o. o.0) rest))
        (subst (Stored p key value) (ap (λ o. o.1) rest)
          (persist-Stored key p value (current_status_string f) f f1 saved))
  settle-Keeps key p policy attempt next (err (permanent inner)) k f g result e =
      absurd (ground arith)
  settle-Keeps key p policy attempt next panic k f g result e = absurd (ground arith)
  settle-Keeps key p policy attempt next (err (retryable inner)) k f g result e =
      elim (Bool-cases (leb (total_of (max_retries_of policy)) (attempt + 1))) [
        | inl last ↦
            give_up-Keeps key p (max_retries_of policy) inner f g result
              (sym (settle_last key p policy attempt next inner f last) ∙ e)
        | inr more ↦
            k (back_off policy attempt f) g result
              (sym (settle_again key p policy attempt next inner f more) ∙ e)
      ]

  attempts-Keeps :
      {T : Type 0} (b : StepBuilder) (p : Payload T) (policy : Option RetryPolicy)
      (closure : ℕ → Attempt T) (left attempt : ℕ)
      → Keeps p b.key (attempts b p policy closure left attempt)
  unfolding attempts
  attempts-Keeps b p policy closure zero attempt f g result e = absurd (ground arith)
  attempts-Keeps b p policy closure (suc left) attempt f g result e =
      let again = attempts b p policy closure left (attempt + 1) in
      let (r, f1, ran, rest) =
        bind_ok (note (called attempt) f) g (lift (timed b (closure attempt)))
          (settle b.key p policy attempt again) result e in
      settle-Keeps b.key p policy attempt again r
        (attempts-Keeps b p policy closure left (attempt + 1)) f1 g result rest

  execute-Keeps :
      {T : Type 0} (b : StepBuilder) (p : Payload T) (closure : ℕ → Attempt T)
      → Keeps p b.key (execute b p closure)
  unfolding execute
  execute-Keeps b p closure f g result e =
      attempts-Keeps b p _ closure _ 0 (stop_replaying f) g result e

  pub restore_status-Stored :
      {T : Type 0} (p : Payload T) (key : Text) (result : T) (status : Option Text) (f : Frame)
      → Stored p key result f
      → Stored p key result (restore_status status f)
  unfolding restore_status
  restore_status-Stored p key result none f s = s
  restore_status-Stored p key result (some msg) f s = record {
    bytes = s.bytes;
    status = s.status;
    found = s.found;
    decoded = s.decoded;
  }

  pub restore_status_keeps :
      (status : Option Text) (f : Frame)
      → ((restore_status status f).effects ≡ f.effects)
        × ((restore_status status f).shared.db ≡ f.shared.db)
  unfolding restore_status
  restore_status_keeps status f = ground arith

  -- Only a completed entry gives a result.
  check_journal-some :
      {T : Type 0} (key : Text) (p : Payload T) (o : Option Bytes) (result : T) (f g : Frame)
      → check_journal key p o f ≡ (ok (some result), g)
      → (bytes : Bytes) × (status : Option Text) × (o ≡ some bytes)
        × (deserialize_step p bytes key ≡ ok (completed result status))
        × (restore_status status f ≡ g)
  unfolding check_journal on_cached
  check_journal-some key p o result f g e = ground arith

  -- A result that a step returns, from the journal or from its closure, is in the journal.
  pub run_ok-Stored :
      {T : Type 0} (b : StepBuilder) (p : Payload T) (closure : ℕ → Attempt T)
      → Keeps p b.key (run b p closure)
  unfolding run
  run_ok-Stored {T} b p closure f g result e =
      let (o, f1, read, e1) =
        bind_ok f g (journal_read (key_of b.key f))
          (λ bytes. check_journal b.key p bytes >>= or_execute (execute b p closure)) result e in
      let (cached, f2, checked, e2) =
        bind_ok f1 g (check_journal b.key p o) (or_execute (execute b p closure)) result e1 in
      of o cached f1 f2 read checked e2
    where
      of :
          (o : Option Bytes) (cached : Option T) (f1 f2 : Frame)
          → journal_read (key_of b.key f) f ≡ (ok o, f1)
          → check_journal b.key p o f1 ≡ (ok cached, f2)
          → or_execute (execute b p closure) cached f2 ≡ (ok result, g)
          → Stored p b.key result g
      of o none f1 f2 read checked e2 = execute-Keeps b p closure f2 g result e2
      of o (some v) f1 f2 read checked e2 =
          let (bytes, status, there, decoded, shown) =
            check_journal-some b.key p o v f1 f2 checked in
          let s =
            read-Stored p b.key v status bytes f f1
              (subst (λ o. journal_read (key_of b.key f) f ≡ (ok o, f1)) there read) decoded in
          subst (λ v. Stored p b.key v g) (ok-injective v result (ap (λ o. o.0) e2))
            (subst (Stored p b.key v) (shown ∙ ap (λ o. o.1) e2)
              (restore_status-Stored p b.key v status f1 s))

  -- When a step has returned a result, whatever faults the storage had, and the storage does not
  -- fail from then on, running it again returns the same result with any closure, calls no closure,
  -- does not sleep, and leaves the database as it is.
  pub run-run :
      {T : Type 0} (b : StepBuilder) (p : Payload T) (closure other : ℕ → Attempt T) (f : Frame)
      (result : T)
      → (run b p closure f).0 ≡ ok result
      → let g = (run b p closure f).1 in
        IsHealthy g.shared.db
        → ((run b p other g).0 ≡ ok result)
          × ((run b p other g).1.effects ≡ g.effects)
          × ((run b p other g).1.shared.db ≡ g.shared.db)
  run-run b p closure other f result e h =
      let g = (run b p closure f).1 in
      let s = run_ok-Stored b p closure f g result (ap (λ r. (r, g)) e) in
      let again = run-Stored b p other result g h s in
      let (effects, db) = restore_status_keeps s.status g in
      (
        ap (λ o. o.0) again,
        ap (λ o. o.1.effects) again ∙ effects,
        ap (λ o. o.1.shared.db) again ∙ db,
      )
