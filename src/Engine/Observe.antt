-- ===== src/Engine/Observe.antt =====
-- `Engine::state` and `Engine::subscribe` show the same.
use memable.Prelude.{ℕ, ◌≡◌, refl, sym, ap, arith, Option, none, some, inl, inr, Option-cases}
use memable.Text.{Text}
use memable.Outcome.{ok, err, Outcome-cases, ok-injective}
use memable.Error.{SubscribeError}
use memable.State
use memable.State.{WorkflowState}
use memable.External.{External}
use memable.Shared.{Shared, find_sender, borrow}
use memable.Metadata.{read_metadata}
use memable.Stream.{StatusStream, initial, snapshot, Changed, poll_next, item}
use memable.Status
use memable.Status.{MetadataStatus, WorkflowMetadata}
use memable.Engine.{stored_state, stored_stream, state, subscribe_instance}

module _ ⦃x : External⦄ where
  -- The value of the channel that a new stream watches.
  abbrev pub watched : StatusStream → Shared → WorkflowState
  watched (initial tx) s = borrow tx s
  watched _ s = State.started

  of_status :
      (w i : Text) (status : MetadataStatus) (at : Option ℕ) (stream : StatusStream)
      → stored_stream w i (some (record { status = status; completed_at = at })) ≡ ok stream
      → (v : WorkflowState) × (stored_state w i
            (some (record { status = status; completed_at = at }))
          ≡ ok v)
        × (stream ≡ snapshot (some v))
  of_status w i Status.running at stream h = ground arith
  of_status w i (Status.suspended key msg) at stream h = (
    State.suspended key msg,
    refl,
    sym (ok-injective (snapshot (some (State.suspended key msg))) stream h),
  )
  of_status w i (Status.completed msg) at stream h = (
    State.completed msg,
    refl,
    sym (ok-injective (snapshot (some (State.completed msg))) stream h),
  )
  of_status w i (Status.failed msg) at stream h =
      (State.failed msg, refl, sym (ok-injective (snapshot (some (State.failed msg))) stream h))

  of_meta :
      (w i : Text) (m : Option WorkflowMetadata) (stream : StatusStream)
      → stored_stream w i m ≡ ok stream
      → (v : WorkflowState) × (stored_state w i m ≡ ok v) × (stream ≡ snapshot (some v))
  of_meta w i none stream h = ground arith
  of_meta w i (some m) stream h = of_status w i m.status m.completed_at stream h

  stored_both :
      (w i : Text) (s : Shared) (stream : StatusStream)
      → find_sender i s.senders ≡ none
      → (subscribe_instance w i s).0 ≡ ok stream
      → (v : WorkflowState) × ((state w i s).0 ≡ ok v) × (stream ≡ snapshot (some v))
  unfolding subscribe_instance state
  stored_both w i s stream e h = elim (Outcome-cases (read_metadata w i s.db).0) [
    | inl (m, q) ↦
        let (v, shown, same) = of_meta w i m stream (ground arith) in (v, ground arith, same)
    | inr (inl (c, q)) ↦ ground arith
    | inr (inr q) ↦ ground arith
  ]

  -- The first item of a stream that `subscribe` returns is the state that `state` returns.
  pub subscribe-state :
      (w i : Text) (changed : Changed) (s : Shared) (stream : StatusStream)
      → (subscribe_instance w i s).0 ≡ ok stream
      → (v : WorkflowState) × ((state w i s).0 ≡ ok v)
        × ((poll_next changed (watched stream (subscribe_instance w i s).1) stream).0 ≡ item v)
  unfolding subscribe_instance state poll_next
  subscribe-state w i changed s stream h = elim (Option-cases (find_sender i s.senders)) [
    | inl e ↦
        let (v, shown, same) = stored_both w i s stream e h in
        (v, shown, ap (λ t. (poll_next changed (watched t (subscribe_instance w i s).1) t).0) same)
    | inr (tx, e) ↦
        (borrow tx s, ground arith, ground (arith, x.watch.borrow-subscribe (s.channels tx)))
  ]

  -- Where `subscribe` refuses an instance as stale, `state` says that it has started.
  pub subscribe_stale-state :
      (w i : Text) (s : Shared)
      → (subscribe_instance w i s).0 ≡ err (SubscribeError.stale_running w i)
      → (state w i s).0 ≡ ok State.started
  unfolding subscribe_instance state
  subscribe_stale-state w i s h = elim (Option-cases (find_sender i s.senders)) [
    | inl e ↦ elim (Outcome-cases (read_metadata w i s.db).0) [
      | inl (m, q) ↦ ground arith
      | inr (inl (c, q)) ↦ ground arith
      | inr (inr q) ↦ ground arith
    ]
    | inr (tx, e) ↦ ground arith
  ]
