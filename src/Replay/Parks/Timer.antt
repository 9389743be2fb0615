-- ===== src/Replay/Parks/Timer.antt =====
-- A timer that suspends its workflow leaves a suspended step in the journal.
use memable.Prelude.{
  ℕ, ◌≡◌, ◌≢◌, sym, ◌∙◌, subst, arith, Bool, true, false, Option, some, none, inl, inr,
}
use memable.Text.{Text, text, text_eq_refl}
use memable.Outcome.{Outcome, ok, err, Outcome-cases}
use memable.Error.{EngineError, invalid_key}
use memable.Journal.{Bytes, suspended}
use memable.External.{External}
use memable.Codec.{serialize_step, deserialize_step, check_tag}
use memable.Context.{Frame, key_of}
use memable.Context.Journal.{SameInstance, journal_read}
use memable.Context.Names.{is_refused}
use memable.Context.Timer.{set_timer, timer, check_timer, unless_fired, on_timer, write_timer}
use memable.Replay.{Types}
use memable.Replay.Entries.{Journaled, from_unit}
use memable.Replay.Timers.{timer_cases, set_timer_keeps}
use memable.Replay.Parks.{
  Parked, suspended-Parked, look_suspended, read_suspended-Parked, ok-ne-suspended,
  serialize_step-ne-suspended,
}

module _ ⦃x : External⦄ (now_ms : ℕ) (key : Text) (duration : ℕ) where
  check_timer-suspended :
      (o : Option Bytes) (k : Text) (f g : Frame)
      → check_timer key o f ≡ (err (EngineError.suspended k), g)
      → (bytes : Bytes) × (o ≡ some bytes)
        × (deserialize_step x.unit bytes key ≡ ok suspended)
        × (f ≡ g)
        × (k ≡ key)
  unfolding check_timer on_timer deserialize_step check_tag
  check_timer-suspended o k f g e = ground arith

  -- A timer that is set has written its suspended step.
  set_timer-suspended :
      (k : Text) (f g : Frame)
      → set_timer now_ms key duration f ≡ (err (EngineError.suspended k), g)
      → (bytes : Bytes) × (serialize_step x.unit suspended key ≡ ok bytes)
        × (g.shared.db.steps ≡ x.texts.insert f.shared.db.steps (key_of key f) bytes)
        × (k ≡ key)
  unfolding set_timer write_timer memable.Store.write_txn memable.Store.storage_call
      memable.Store.fault
  set_timer-suspended k f g e = elim (Outcome-cases (serialize_step x.unit suspended key)) [
    | inl (bytes, w) ↦ (bytes, w, ground arith, ground arith)
    | inr (inl (c, w)) ↦ absurd (ground (arith, serialize_step-ne-suspended key none x.unit k))
    | inr (inr w) ↦ absurd (ground arith)
  ]

  set_timer-Parked :
      (k : Text) (f g : Frame)
      → SameInstance f g
      → set_timer now_ms key duration f ≡ (err (EngineError.suspended k), g)
      → (k ≡ key) × Parked key g
  set_timer-Parked k f g same e =
      let (bytes, w, put, own) = set_timer-suspended k f g e in
      (
        own,
        suspended-Parked x.unit key key bytes g w (
            rw (same.0, same.1)
              (ground (
                arith,
                x.texts.get-insert f.shared.db.steps (key_of key f) (key_of key f) bytes,
                text_eq_refl (key_of key f),
              ))),
      )

module _ ⦃x : External⦄ (u : Types) where
  -- A timer that suspends its workflow, whatever faults the storage has, does so at its own
  -- accepted key, and has left a suspended step there.
  pub timer-Parked :
      (now_ms : ℕ) (key : Text) (duration : ℕ) (k : Text) (f g : Frame)
      → Journaled u f.shared.db.steps
      → timer now_ms key duration f ≡ (err (EngineError.suspended k), g)
      → (is_refused key ≡ false) × (k ≡ key) × Parked key g
  timer-Parked now_ms key duration k f g j e = elim (timer_cases now_ms key duration f) [
    | inl (_, r) ↦ absurd (refused (sym r ∙ e))
    | inr (good, r) ↦
        let finish = unless_fired (set_timer now_ms key duration) in
        let (own, parked) =
          look_suspended (key_of key f) k (check_timer key) finish f g seen ended (sym r ∙ e) in
        (good, own, parked)
  ]
    where
      refused :
          ◌≢◌ {A = Outcome EngineError (Unit {0}) × Frame}
            (err (invalid_key (text "step_key") key), f)
            (err (EngineError.suspended k), g)
      refused q = ground arith

      seen :
          (o : Option Bytes) (f1 : Frame)
          → journal_read (key_of key f) f ≡ (ok o, f1)
          → check_timer key o f1 ≡ (err (EngineError.suspended k), g)
          → (k ≡ key) × Parked key g
      seen o f1 read c =
          let (bytes, there, d, same, own) = check_timer-suspended now_ms key duration o k f1 g c in
          (
            own,
            subst (Parked key) same (
                read_suspended-Parked u u.unit key o bytes f f1 j read there
                  (from_unit u (λ T p. deserialize_step p bytes key ≡ ok suspended) d)),
          )

      ended :
          (fired : Bool) (f2 : Frame)
          → unless_fired (set_timer now_ms key duration) fired f2
            ≡ (err (EngineError.suspended k), g)
          → (k ≡ key) × Parked key g
      ended true f2 c = absurd (ok-ne-suspended tt k f2 g c)
      ended false f2 c =
          set_timer-Parked now_ms key duration k f2 g
            (subst (λ o. SameInstance f2 o.1) c (set_timer_keeps now_ms key duration f2)) c
