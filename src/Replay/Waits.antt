-- ===== src/Replay/Waits.antt =====
-- What a suspend point writes to the journal, and when it returns, on storage that may fail.
use memable.Prelude.{◌≡◌, refl, ap, ◌∙◌, sym, subst, arith, Option, none, some, inl, inr}
use memable.Text.{Text}
use memable.Outcome.{
  Outcome, ok, err, panic, ok-injective, bind_ok, continue, ◌>>=◌, ◌>>◌, gets, modify, fail,
}
use memable.Error.{EngineError}
use memable.State
use memable.Journal.{Bytes, completed, suspended}
use memable.External.{External, Payload}
use memable.Store.{IsHealthy}
use memable.Codec.{serialize_step, deserialize_step}
use memable.Context.{Frame, Workflow, key_of, stop_replaying, set_quietly, restore_status}
use memable.Context.Journal.{
  Idle, Stored, journal_read, journal_write, read-Stored, read_step-IsHealthy,
}
use memable.Context.Step.Memo.{restore_status-Stored}
use memable.Context.Suspend.{
  check_signal, on_signal, begin_suspend, execute_suspend, message_or, or_suspend,
}
use memable.Replay.Entries.{ReadsAsDone}
use memable.Replay.Writes.{Wrote, Writes, then-Idle, write-Wrote, look-Wrote, look-Idle}

module _ ⦃x : External⦄ {T : Type 0} (key : Text) (msg : Option Text) (p : Payload T) where
  check_signal-Idle : (o : Option Bytes) (f : Frame) → Idle f (check_signal key p o f).1
  unfolding check_signal on_signal restore_status
  check_signal-Idle o f = ((ground arith, ground arith), ground arith)

  begin_suspend-Wrote : Writes p key (begin_suspend key msg p)
  unfolding begin_suspend
  begin_suspend-Wrote f = of (serialize_step p suspended key) refl
    where
      show : Workflow T
      show = do
        modify (set_quietly (State.suspended key (message_or key msg)))
        fail (EngineError.suspended key)

      of :
          (r : Outcome EngineError Bytes)
          → serialize_step p suspended key ≡ r
          → Wrote p key f
              (continue r
                (λ bytes. gets (key_of key) >>= λ composite. journal_write composite bytes >> show)
                f).1
      of (ok bytes) e =
          then-Idle p key (journal_write (key_of key f) bytes) (λ _. show) f
            (write-Wrote p key suspended bytes f e) (λ _ g. ((refl, refl), refl))
      of (err c) e = ((refl, refl), inl refl)
      of panic e = ((refl, refl), inl refl)

  pub execute_suspend-Wrote : Writes p key (execute_suspend key msg p)
  unfolding execute_suspend
  execute_suspend-Wrote f =
      look-Wrote p key (check_signal key p) (or_suspend (begin_suspend key msg p)) f
        check_signal-Idle finish
    where
      finish : (o : Option T) → Writes p key (or_suspend (begin_suspend key msg p) o)
      finish none g = begin_suspend-Wrote g
      finish (some v) g = ((refl, refl), inl refl)

  check_signal_done :
      (bytes : Bytes) (o : Option T) (f : Frame)
      → ReadsAsDone p key bytes
      → (check_signal key p (some bytes) f).0 ≡ ok o
      → (v : T) × (o ≡ some v)
  unfolding check_signal on_signal
  check_signal_done bytes o f (inl (v, status, d)) e = (v, ground arith)
  check_signal_done bytes o f (inr (c, d)) e = absurd (ground arith)

  pub execute_suspend-ReadsAsDone :
      (f : Frame) (bytes : Bytes)
      → x.texts.get f.shared.db.steps (key_of key f) ≡ some bytes
      → ReadsAsDone p key bytes
      → Idle f (execute_suspend key msg p f).1
  unfolding execute_suspend
  execute_suspend-ReadsAsDone f bytes q r =
      look-Idle (key_of key f) (check_signal key p) (or_suspend (begin_suspend key msg p)) f bytes q
        check_signal-Idle
        λ o g d h.
          let (v, same) = check_signal_done bytes o g r d in
          subst (λ o. Idle h (or_suspend (begin_suspend key msg p) o h).1) (sym same)
            ((refl, refl), refl)

  -- Only a delivered payload gives a result.
  check_signal-some :
      (o : Option Bytes) (v : T) (f g : Frame)
      → check_signal key p o f ≡ (ok (some v), g)
      → (bytes : Bytes) × (status : Option Text) × (o ≡ some bytes)
        × (deserialize_step p bytes key ≡ ok (completed v status))
        × (restore_status status (stop_replaying f) ≡ g)
  unfolding check_signal on_signal
  check_signal-some o v f g e = ground arith

  begin_suspend-ne-ok : (f g : Frame) (v : T) → begin_suspend key msg p f ≡ (ok v, g) → ⊥
  unfolding begin_suspend
  begin_suspend-ne-ok f g v e = ground arith

  -- A suspend point that returns has its payload in the journal.
  pub execute_suspend_ok-Stored :
      (f g : Frame) (v : T) → execute_suspend key msg p f ≡ (ok v, g) → Stored p key v g
  unfolding execute_suspend
  execute_suspend_ok-Stored f g v e =
      let (o, f1, read, e1) =
        bind_ok f g (journal_read (key_of key f))
          (λ bytes. check_signal key p bytes >>= or_suspend (begin_suspend key msg p)) v e in
      let (delivered, f2, checked, e2) =
        bind_ok f1 g (check_signal key p o) (or_suspend (begin_suspend key msg p)) v e1 in
      of o delivered f1 f2 read checked e2
    where
      of :
          (o : Option Bytes) (delivered : Option T) (f1 f2 : Frame)
          → journal_read (key_of key f) f ≡ (ok o, f1)
          → check_signal key p o f1 ≡ (ok delivered, f2)
          → or_suspend (begin_suspend key msg p) delivered f2 ≡ (ok v, g)
          → Stored p key v g
      of o none f1 f2 read checked e2 = absurd (begin_suspend-ne-ok f2 g v e2)
      of o (some a) f1 f2 read checked e2 =
          let (bytes, status, there, decoded, shown) = check_signal-some o a f1 f2 checked in
          let s =
            read-Stored p key a status bytes f f1
              (subst (λ o. journal_read (key_of key f) f ≡ (ok o, f1)) there read) decoded in
          let stopped : Stored p key a (stop_replaying f1) = record {
            bytes = s.bytes;
            status = s.status;
            found = s.found;
            decoded = s.decoded;
          } in
          subst (λ a. Stored p key a g) (ok-injective a v (ap (λ o. o.0) e2))
            (subst (Stored p key a) (shown ∙ ap (λ o. o.1) e2)
              (restore_status-Stored p key a status (stop_replaying f1) stopped))

  -- A payload that is in the journal is returned.
  pub execute_suspend-Stored :
      (f : Frame) (v : T)
      → IsHealthy f.shared.db
      → (s : Stored p key v f)
      → execute_suspend key msg p f ≡ (ok v, restore_status s.status (stop_replaying f))
  unfolding execute_suspend check_signal on_signal
  execute_suspend-Stored f v h s =
      ground (arith, read_step-IsHealthy (key_of key f) f.shared.db h, s.found, s.decoded)
