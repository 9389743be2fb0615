-- ===== src/Replay/Timers.antt =====
-- What a timer writes to the journal, and when it returns, on storage that may fail.
use memable.Prelude.{
  ℕ, ◌≡◌, ◌⊎◌, refl, ap, ◌∙◌, sym, subst, arith, Bool, true, false, Option, none, some, inl, inr,
  Bool-cases,
}
use memable.Text.{Text, text}
use memable.Outcome.{Outcome, ok, err, panic, Outcome-cases, bind_ok, ◌>>=◌}
use memable.Error.{EngineError, invalid_key}
use memable.Journal.{Bytes, StepData, completed, suspended, failed}
use memable.External.{External}
use memable.Store.{IsHealthy}
use memable.Codec.{serialize_step, deserialize_step}
use memable.Context.{Frame, Workflow, key_of}
use memable.Context.Journal.{
  Idle, SameInstance, Stored, journal_read, read-Stored, read_step-IsHealthy,
}
use memable.Context.Names.{is_refused}
use memable.Context.Timer.{set_timer, timer, check_timer, unless_fired}
use memable.Replay.Entries.{ReadsAsDone}
use memable.Replay.Writes.{Writes, Wrote-along, look-Wrote, look-Idle}

module _ ⦃x : External⦄ (now_ms : ℕ) (key : Text) (duration : ℕ) where
  check_timer-Idle : (o : Option Bytes) (f : Frame) → Idle f (check_timer key o f).1
  unfolding check_timer memable.Context.Timer.on_timer
  check_timer-Idle o f = ((ground arith, ground arith), ground arith)

  set_timer_steps :
      (f : Frame) (bytes : Bytes)
      → serialize_step x.unit suspended key ≡ ok bytes
      → ((set_timer now_ms key duration f).1.shared.db.steps ≡ f.shared.db.steps)
        ⊎ ((set_timer now_ms key duration f).1.shared.db.steps
            ≡ x.texts.insert f.shared.db.steps (key_of key f) bytes)
  unfolding set_timer memable.Context.Timer.write_timer memable.Store.write_txn
      memable.Store.storage_call
  set_timer_steps f bytes e = ground arith

  set_timer_unwritten :
      (f : Frame)
      → ((c : EngineError) × (serialize_step x.unit suspended key ≡ err c))
        ⊎ (serialize_step x.unit suspended key ≡ panic)
      → (set_timer now_ms key duration f).1.shared.db.steps ≡ f.shared.db.steps
  unfolding set_timer
  set_timer_unwritten f (inl (c, e)) = ground arith
  set_timer_unwritten f (inr e) = ground arith

  pub set_timer_keeps : (f : Frame) → SameInstance f (set_timer now_ms key duration f).1
  unfolding set_timer memable.Context.Timer.write_timer memable.Store.write_txn
      memable.Store.storage_call
  set_timer_keeps f = (ground arith, ground arith)

  set_timer-Wrote : Writes x.unit key (set_timer now_ms key duration)
  set_timer-Wrote f = (
    set_timer_keeps f,
    elim (Outcome-cases (serialize_step x.unit suspended key)) [
      | inl (bytes, e) ↦ elim (set_timer_steps f bytes e) [
        | inl same ↦ inl same
        | inr put ↦ inr (suspended, bytes, e, put)
      ]
      | inr other ↦ inl (set_timer_unwritten f other)
    ],
  )

  -- What a timer of an accepted key does.
  abbrev pub accepted : Workflow (Unit {0})
  accepted f =
      (journal_read (key_of key f) >>= λ o.
      check_timer key o >>= unless_fired (set_timer now_ms key duration))
        f

  pub timer_cases :
      (f : Frame)
      → ((is_refused key ≡ true)
          × (timer now_ms key duration f ≡ (err (invalid_key (text "step_key") key), f)))
        ⊎ ((is_refused key ≡ false) × (timer now_ms key duration f ≡ accepted f))
  unfolding timer
  timer_cases f = elim (Bool-cases (is_refused key)) [
    | inl e ↦ inl (e, rw e)
    | inr e ↦ inr (e, rw e)
  ]

  pub timer-Wrote : Writes x.unit key (timer now_ms key duration)
  timer-Wrote f = elim (timer_cases f) [
    | inl (_, e) ↦ Wrote-along x.unit key f _ _ e ((refl, refl), inl refl)
    | inr (_, e) ↦ Wrote-along x.unit key f _ _ e (
        look-Wrote x.unit key (check_timer key) (unless_fired (set_timer now_ms key duration)) f
          check_timer-Idle finish)
  ]
    where
      finish :
          (fired : Bool) → Writes x.unit key (unless_fired (set_timer now_ms key duration) fired)
      finish true g = ((refl, refl), inl refl)
      finish false g = set_timer-Wrote g

  check_timer_done :
      (bytes : Bytes) (fired : Bool) (f : Frame)
      → ReadsAsDone x.unit key bytes
      → (check_timer key (some bytes) f).0 ≡ ok fired
      → fired ≡ true
  unfolding check_timer memable.Context.Timer.on_timer
  check_timer_done bytes fired f (inl (v, status, d)) e = ground arith
  check_timer_done bytes fired f (inr (c, d)) e = absurd (ground arith)

  pub timer-ReadsAsDone :
      (f : Frame) (bytes : Bytes)
      → x.texts.get f.shared.db.steps (key_of key f) ≡ some bytes
      → ReadsAsDone x.unit key bytes
      → Idle f (timer now_ms key duration f).1
  timer-ReadsAsDone f bytes q r = elim (timer_cases f) [
    | inl (_, e) ↦ subst (λ o. Idle f o.1) (sym e) ((refl, refl), refl)
    | inr (_, e) ↦
        subst (λ o. Idle f o.1) (sym e)
          (look-Idle (key_of key f) (check_timer key) (unless_fired (set_timer now_ms key duration))
            f bytes q check_timer-Idle
            λ fired g d h.
              subst (λ b. Idle h (unless_fired (set_timer now_ms key duration) b h).1)
                (sym (check_timer_done bytes fired g r d)) ((refl, refl), refl))
  ]

  set_timer-ne-ok : (f g : Frame) → set_timer now_ms key duration f ≡ (ok tt, g) → ⊥
  unfolding set_timer
  set_timer-ne-ok f g e = ground arith

  -- Only a completed entry makes a timer return.
  check_timer-true :
      (o : Option Bytes) (f g : Frame)
      → check_timer key o f ≡ (ok true, g)
      → (bytes : Bytes) × (status : Option Text) × (o ≡ some bytes)
        × (deserialize_step x.unit bytes key ≡ ok (completed tt status))
        × (f ≡ g)
  unfolding check_timer memable.Context.Timer.on_timer
  check_timer-true none f g e = absurd (ground arith)
  check_timer-true (some bytes) f g e = of (deserialize_step x.unit bytes key) refl
    where
      of :
          (r : Outcome EngineError (StepData (Unit {0})))
          → deserialize_step x.unit bytes key ≡ r
          → (b : Bytes) × (status : Option Text) × (some bytes ≡ some b)
            × (deserialize_step x.unit b key ≡ ok (completed tt status))
            × (f ≡ g)
      of (ok (completed tt status)) d = (bytes, status, refl, d, ground arith)
      of (ok suspended) d = absurd (ground arith)
      of (ok (failed c)) d = absurd (ground arith)
      of (err c) d = absurd (ground arith)
      of panic d = absurd (ground arith)

  refused-ne-ok :
      (c : EngineError) (f g : Frame)
      → ◌≡◌ {A = Outcome EngineError (Unit {0}) × Frame} (err c, f) (ok tt, g)
      → ⊥
  refused-ne-ok c f g e = ground arith

  accepted-Stored : (f g : Frame) → accepted f ≡ (ok tt, g) → Stored x.unit key tt g
  accepted-Stored f g e =
      let finish = unless_fired (set_timer now_ms key duration) in
      let (o, f1, read, e1) =
        bind_ok f g (journal_read (key_of key f)) (λ o. check_timer key o >>= finish) tt e in
      let (fired, f2, checked, e2) = bind_ok f1 g (check_timer key o) finish tt e1 in
      of o fired f1 f2 read checked e2
    where
      of :
          (o : Option Bytes) (fired : Bool) (f1 f2 : Frame)
          → journal_read (key_of key f) f ≡ (ok o, f1)
          → check_timer key o f1 ≡ (ok fired, f2)
          → unless_fired (set_timer now_ms key duration) fired f2 ≡ (ok tt, g)
          → Stored x.unit key tt g
      of o false f1 f2 read checked e2 = absurd (set_timer-ne-ok f2 g e2)
      of o true f1 f2 read checked e2 =
          let (bytes, status, there, decoded, same) = check_timer-true o f1 f2 checked in
          subst (Stored x.unit key tt) (same ∙ ap (λ o. o.1) e2) (
            read-Stored x.unit key tt status bytes f f1
              (subst (λ o. journal_read (key_of key f) f ≡ (ok o, f1)) there read) decoded)

  -- A timer that returns has an accepted key and a completed entry.
  pub timer_ok-Stored :
      (f g : Frame)
      → timer now_ms key duration f ≡ (ok tt, g)
      → (is_refused key ≡ false) × Stored x.unit key tt g
  timer_ok-Stored f g e = elim (timer_cases f) [
    | inl (_, r) ↦ absurd (refused-ne-ok _ f g (sym r ∙ e))
    | inr (good, r) ↦ (good, accepted-Stored f g (sym r ∙ e))
  ]

  -- A timer whose entry is completed returns.
  pub timer-Stored :
      (f : Frame)
      → IsHealthy f.shared.db
      → is_refused key ≡ false
      → Stored x.unit key tt f
      → timer now_ms key duration f ≡ (ok tt, f)
  unfolding timer check_timer memable.Context.Timer.on_timer
  timer-Stored f h good s =
      ground (arith, read_step-IsHealthy (key_of key f) f.shared.db h, s.found, s.decoded)
