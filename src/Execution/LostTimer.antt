-- ===== src/Execution/LostTimer.antt =====
-- A timer may be lost: `timer` commits it before `handle_workflow_result` stores that the instance is
-- suspended, and a poll between the two removes it.
use memable.Prelude.{
  ℕ, ◌/◌, ◌≤◌, ◌≡◌, refl, ap, ◌∙◌, arith, false, Option, none, some, inr, if◌then◌else◌,
}
use memable.Text.{Text, text_eq_refl}
use memable.Outcome.{ok, err}
use memable.Error
use memable.Error.{EngineError}
use memable.Status
use memable.Status.{MetadataStatus, WorkflowMetadata, new}
use memable.Journal.{Bytes, suspended}
use memable.External.{External, TimerKey, timer_eq}
use memable.Store.{Database, IsHealthy}
use memable.Codec.{serialize_step}
use memable.Retry.{u64_max}
use memable.Metadata.{read_metadata}
use memable.Metadata.Laws.{read_metadata-IsHealthy, write_metadata_keeps}
use memable.Shared.{Shared}
use memable.Context.{Frame, key_of}
use memable.Context.Names.{is_refused}
use memable.Context.Timer.{timer_entry, deadline_of, timer}
use memable.Context.Timer.Setting.{TimerSet, timer-TimerSet}
use memable.Execution.{awaits_signal, poll_one, publish, handle_workflow_result}
use memable.Execution.Finish.{Serialises, handle_workflow_result-Settled}
use memable.Execution.Poll.{without_timer, poll_one_skips}

module _ ⦃x : External⦄ where
  -- Only the metadata table changes when a task suspends.
  pub suspend_keeps_tables :
      (now : ℕ) (key w i : Text) (tx : ℕ) (s : Shared)
      → let s' = handle_workflow_result now (err (Error.suspended key)) w i tx s in
        (s'.db.steps ≡ s.db.steps) × (s'.db.timers ≡ s.db.timers)
  unfolding handle_workflow_result publish
  suspend_keeps_tables now key w i tx s = write_metadata_keeps w i _ s.db

  -- A suspended result is stored as a suspension at its key.
  pub suspend_stored :
      (now : ℕ) (key w i : Text) (tx : ℕ) (s : Shared)
      → IsHealthy s.db
      → Serialises
      → (msg : Text) × ((read_metadata w i
            (handle_workflow_result now (err (Error.suspended key)) w i tx s).db).0
          ≡ ok (some (new now (Status.suspended key msg))))
  suspend_stored now key w i tx s h enc =
      let end =
        handle_workflow_result-Settled now (err (Error.suspended key)) w i tx s (λ e. cc) h enc in
      let (msg, same, _) = end.fits in (msg, end.stored ∙ ap (λ m. ok (some (new now m))) same)

  read_metadata-same_meta :
      (w i : Text) (d d' : Database)
      → IsHealthy d
      → IsHealthy d'
      → d'.meta ≡ d.meta
      → (read_metadata w i d').0 ≡ (read_metadata w i d).0
  read_metadata-same_meta w i d d' h h' e =
      ground (arith, read_metadata-IsHealthy w i d h, read_metadata-IsHealthy w i d' h')

  -- On storage that does not fail, with a timer that is set as in `timer-TimerSet` for an instance
  -- that is not stored as suspended yet, when the poller takes the new row between the call of
  -- `timer` and the end of the workflow's task, the instance is stored as suspended at the timer's
  -- key, the step stays suspended, and the timer table is what it was before, less that row.
  pub timer_lost :
      (now_ms now_secs : ℕ) (key : Text) (duration : ℕ) (step_bytes timer_bytes : Bytes)
      (meta : Option WorkflowMetadata) (f : Frame)
      → IsHealthy f.shared.db
      → Serialises
      → is_refused key ≡ false
      → x.texts.get f.shared.db.steps (key_of key f) ≡ none
      → now_ms ≤ u64_max
      → duration / 1000000 ≤ u64_max
      → serialize_step x.unit suspended key ≡ ok step_bytes
      → x.timer_entry.to_allocvec (timer_entry key f) ≡ inr timer_bytes
      → (read_metadata f.context.workflow_name f.context.instance_id f.shared.db).0 ≡ ok meta
      → awaits_signal meta ≡ false
      → let w = f.context.workflow_name in
        let i = f.context.instance_id in
        let (r, g) = timer now_ms key duration f in
        let row : TimerKey = (deadline_of now_ms (duration / 1000000), f.shared.timer_serial) in
        let (polled, s) = poll_one (row, timer_entry key f) g.shared in
        let s' = handle_workflow_result now_secs r w i f.context.status_tx s in
        (polled ≡ ok tt)
        × ((msg : Text) × ((read_metadata w i s'.db).0
              ≡ ok (some (new now_secs (Status.suspended key msg)))))
        × (x.texts.get s'.db.steps (key_of key f) ≡ some step_bytes)
        × ((k : TimerKey)
            → x.timers.get s'.db.timers k
              ≡ (if timer_eq row k then none else x.timers.get f.shared.db.timers k))
  unfolding timer_entry
  timer_lost now_ms now_secs key duration step_bytes timer_bytes meta f h enc good miss small short
        e te m idle =
      rw (set.error, skip)
        (
          refl,
          suspend_stored now_secs key w i tx left set.healthy enc,
          ap (λ t. x.texts.get t (key_of key f)) kept.0 ∙ there,
          λ k. ap (λ t. x.timers.get t k) kept.1 ∙ gone k,
        )
    where
      w : Text
      w = f.context.workflow_name

      i : Text
      i = f.context.instance_id

      tx : ℕ
      tx = f.context.status_tx

      row : TimerKey
      row = (deadline_of now_ms (duration / 1000000), f.shared.timer_serial)

      set : TimerSet key row.0 step_bytes timer_bytes f (timer now_ms key duration f)
      set = timer-TimerSet now_ms key duration step_bytes timer_bytes f h good miss small short e te

      g : Frame
      g = (timer now_ms key duration f).1

      left : Shared
      left = without_timer row g.shared

      skip : poll_one (row, timer_entry key f) g.shared ≡ (ok tt, left)
      skip =
          poll_one_skips row (timer_entry key f) meta g.shared set.healthy
            (read_metadata-same_meta w i f.shared.db g.shared.db h set.healthy set.meta ∙ m) idle

      kept :
          let s' = handle_workflow_result now_secs (err (Error.suspended key)) w i tx left in
          (s'.db.steps ≡ left.db.steps) × (s'.db.timers ≡ left.db.timers)
      kept = suspend_keeps_tables now_secs key w i tx left

      there : x.texts.get left.db.steps (key_of key f) ≡ some step_bytes
      there = ground (
        arith,
        set.steps,
        x.texts.get-insert f.shared.db.steps (key_of key f) (key_of key f) step_bytes,
        text_eq_refl (key_of key f),
      )

      gone :
          (k : TimerKey)
          → x.timers.get left.db.timers k
            ≡ (if timer_eq row k then none else x.timers.get f.shared.db.timers k)
      gone k = ground (
        arith,
        set.timers,
        x.timers.get-remove (timer now_ms key duration f).1.shared.db.timers row k,
        x.timers.get-insert f.shared.db.timers row k timer_bytes,
      )
