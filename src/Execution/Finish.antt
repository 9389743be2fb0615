-- ===== src/Execution/Finish.antt =====
-- What a task leaves behind when its workflow ends: the stored metadata and the watched state agree.
use memable.Prelude.{
  ℕ, ◌≡◌, ◌≢◌, refl, ap, ◌∙◌, arith, ◌||◌, Option, none, some, inl, inr, ◌⊎◌, not, ◌==◌,
  if◌then◌else◌,
}
use memable.Text.{Text, text_eq_refl}
use memable.Outcome.{Outcome, ok, err, panic}
use memable.Error.{EngineError}
use memable.Error
use memable.State
use memable.State.{WorkflowState, message, in_progress}
use memable.Status
use memable.Status.{MetadataStatus, WorkflowMetadata, new}
use memable.Journal.{Bytes}
use memable.External.{External}
use memable.Store.{Database, IsHealthy}
use memable.Keys.{meta_key}
use memable.Metadata.{encode_metadata, write_metadata, read_metadata}
use memable.Metadata.Laws.{read-write_metadata, write_metadata-IsHealthy}
use memable.Shared.{Shared, borrow}
use memable.Context.{Frame, set_status}
use memable.Error.Display.{error_to_string}
use memable.Execution.{message_or, publish, handle_workflow_result}

-- The state that `Engine::state` and `Engine::subscribe` show for a stored status.
abbrev pub state_of : MetadataStatus → WorkflowState
state_of Status.running = State.started
state_of (Status.suspended key status) = State.suspended key status
state_of (Status.completed msg) = State.completed msg
state_of (Status.failed msg) = State.failed msg

module _ ⦃x : External⦄ where
  -- postcard serialises every metadata record.
  abbrev pub Serialises : Type 0
  Serialises = (m : WorkflowMetadata) → (b : Bytes) × (x.metadata.to_allocvec m ≡ inr b)

  pub write_metadata_ok :
      (w i : Text) (m : WorkflowMetadata) (d : Database)
      → IsHealthy d
      → Serialises
      → (write_metadata w i m d).0 ≡ ok tt
  unfolding encode_metadata
  write_metadata_ok w i m d h s =
      let (b, e) = s m in ground (arith, write_metadata-IsHealthy w i m d h)

  pub read_metadata-write_self :
      (w i : Text) (m : WorkflowMetadata) (d : Database)
      → IsHealthy d
      → Serialises
      → (read_metadata w i (write_metadata w i m d).1).0 ≡ ok (some m)
  read_metadata-write_self w i m d h s = ground (
    arith,
    read-write_metadata w i w i m d h (write_metadata_ok w i m d h s),
    text_eq_refl (meta_key w i),
  )

  read-publish :
      (now : ℕ) (w i : Text) (tx : ℕ) (status : MetadataStatus) (state : WorkflowState) (s : Shared)
      → IsHealthy s.db
      → Serialises
      → (read_metadata w i (publish now w i tx status state s).db).0 ≡ ok (some (new now status))
  unfolding publish
  read-publish now w i tx status state s h enc =
      read_metadata-write_self w i (new now status) s.db h enc

  borrow-publish :
      (now : ℕ) (w i : Text) (tx : ℕ) (status : MetadataStatus) (state : WorkflowState) (s : Shared)
      → borrow tx (publish now w i tx status state s)
        ≡ (if x.watch.receiver_count (s.channels tx) == 0 then borrow tx s else state)
  unfolding publish
  borrow-publish now w i tx status state s =
      ground (arith, x.watch.borrow-send (s.channels tx) state)

  -- Which status a result stands for, given the state that was shown last.
  abbrev pub Fits : Outcome EngineError (Unit {0}) → WorkflowState → MetadataStatus → Type 0
  Fits (ok _) shown status = status ≡ Status.completed (message shown)
  Fits (err (Error.suspended key)) shown status =
      (msg : Text) × (status ≡ Status.suspended key msg)
      × ((message shown ≡ some msg) ⊎ ((message shown ≡ none) × (msg ≡ key)))
  Fits (err e) shown status = status ≡ Status.failed (error_to_string e)
  Fits panic shown status = ⊥

  -- What a task has left for its instance: one status that fits its result, stored with the time if
  -- it is terminal, and shown to the watchers, if there are any.
  pub record Settled (now : ℕ) (r : Outcome EngineError (Unit {0})) (w i : Text) (tx : ℕ)
      (before after : Shared) : Type 0 where
    pub status : MetadataStatus
    pub fits : Fits r (borrow tx before) status
    pub stored : (read_metadata w i after.db).0 ≡ ok (some (new now status))
    pub watched : borrow tx after ≡ (
        if x.watch.receiver_count (before.channels tx) == 0
        then borrow tx before
        else state_of status)

  publish-Settled :
      (now : ℕ) (r : Outcome EngineError (Unit {0})) (w i : Text) (tx : ℕ) (status : MetadataStatus)
      (s : Shared)
      → IsHealthy s.db
      → Serialises
      → Fits r (borrow tx s) status
      → Settled now r w i tx s (publish now w i tx status (state_of status) s)
  publish-Settled now r w i tx status s h enc fits = record {
    status = status;
    fits = fits;
    stored = read-publish now w i tx status (state_of status) s h enc;
    watched = borrow-publish now w i tx status (state_of status) s;
  }

  suspended-Fits :
      (key : Text) (o : Option Text)
      → (msg : Text) × (Status.suspended key (message_or key o) ≡ Status.suspended key msg)
        × ((o ≡ some msg) ⊎ ((o ≡ none) × (msg ≡ key)))
  suspended-Fits key none = (key, refl, inr (refl, refl))
  suspended-Fits key (some msg) = (msg, refl, inl refl)

  -- On storage that does not fail, when postcard serialises every metadata record, a result that is
  -- not a panic leaves one status that fits it: the metadata holds it, with the time if it is
  -- terminal, and so does the channel, as the state that stands for it, unless nobody holds a
  -- receiver.
  pub handle_workflow_result-Settled :
      (now : ℕ) (r : Outcome EngineError (Unit {0})) (w i : Text) (tx : ℕ) (s : Shared)
      → r ≢ panic
      → IsHealthy s.db
      → Serialises
      → Settled now r w i tx s (handle_workflow_result now r w i tx s)
  unfolding handle_workflow_result
  handle_workflow_result-Settled now (ok _) w i tx s ne h enc =
      publish-Settled now (ok tt) w i tx _ s h enc refl
  handle_workflow_result-Settled now (err (Error.suspended key)) w i tx s ne h enc =
      publish-Settled now (err (Error.suspended key)) w i tx _ s h enc
        (suspended-Fits key (message (borrow tx s)))
  handle_workflow_result-Settled now panic w i tx s ne h enc = absurd (ne refl)
  handle_workflow_result-Settled now (err e) w i tx s ne h enc =
      publish-Settled now (err e) w i tx _ s h enc refl

  db-set_status : (msg : Text) (f : Frame) → (set_status msg f).shared.db ≡ f.shared.db
  unfolding set_status
  db-set_status msg f = ground arith

  message-set_status :
      (msg : Text) (f : Frame)
      → message (borrow f.context.status_tx (set_status msg f).shared) ≡ (
          if f.context.replaying
            || not (x.watch.receiver_count (f.shared.channels f.context.status_tx) == 0)
          then some msg
          else message (borrow f.context.status_tx f.shared))
  unfolding set_status message
  message-set_status msg f =
      let c = f.shared.channels f.context.status_tx in
      ground (
        arith,
        x.watch.borrow-send c (in_progress msg),
        x.watch.borrow-send_quietly c (in_progress msg),
      )

  -- On storage that does not fail, when postcard serialises every metadata record, a status set
  -- just before a workflow completes is stored with the completion if the workflow is replaying or
  -- somebody holds a receiver, and otherwise what was shown before is stored.
  pub set_status-completed :
      (now : ℕ) (msg : Text) (f : Frame)
      → IsHealthy f.shared.db
      → Serialises
      → let w = f.context.workflow_name in
        let i = f.context.instance_id in
        let tx = f.context.status_tx in
        let s = (set_status msg f).shared in
        (read_metadata w i (handle_workflow_result now (ok tt) w i tx s).db).0
        ≡ ok (
            some (
              new now (
                Status.completed (
                  if f.context.replaying || not (x.watch.receiver_count (f.shared.channels tx) == 0)
                  then some msg
                  else message (borrow tx f.shared)))))
  unfolding handle_workflow_result
  set_status-completed now msg f h enc =
      let w = f.context.workflow_name in
      let i = f.context.instance_id in
      read-publish now w i f.context.status_tx _ _ (set_status msg f).shared
        (ap (λ d. d.faults) (db-set_status msg f) ∙ h) enc
      ∙ ap (λ o. ok (some (new now (Status.completed o)))) (message-set_status msg f)
