-- ===== src/Replay/Parks.antt =====
-- A suspend point or a timer that suspends its workflow leaves a suspended step in the journal.
pub mod Timer
use memable.Prelude.{
  ◌≡◌, ◌≢◌, refl, ap, sym, ◌∙◌, subst, arith, true, Bool, Option, none, some, inl, inr, Bool-cases,
}
use memable.Text.{Text, text_eq, text_eq_refl}
use memable.Outcome.{Outcome, ok, err, panic, bind_err, ◌>>=◌, ◌>>◌, lift, gets, modify, fail}
use memable.Error.{EngineError}
use memable.State
use memable.Journal
use memable.Journal.{Bytes, StepData, StepEnvelope, completed, suspended, failed}
use memable.External.{External, Payload}
use memable.Codec.{serialize_step, deserialize_step, deserialize_envelope, check_tag}
use memable.Codec.Laws.{
  serialize_step_ok, deserialize-serialize_step, deserialize_step_other_type,
  deserialize_envelope-serialize_step,
}
use memable.Context.{Frame, Workflow, key_of, set_quietly}
use memable.Context.Journal.{
  journal_write, journal_read, journal_read-Idle, journal_read_there, journal_read-ne-suspended,
  journal_write_there, journal_write-ne-suspended,
}
use memable.Context.Suspend.{
  check_signal, on_signal, begin_suspend, message_or, or_suspend, execute_suspend,
}
use memable.Replay.{Types}
use memable.Replay.Entries.{Written, Journaled}

module _ ⦃x : External⦄ where
  -- The journal of the frame has a suspended step at the key.
  pub record Parked (key : Text) (f : Frame) : Type 0 where
    pub bytes : Bytes
    pub envelope : StepEnvelope
    pub found : x.texts.get f.shared.db.steps (key_of key f) ≡ some bytes
    pub decoded : deserialize_envelope bytes key ≡ ok envelope
    pub waits : Journal.is_suspended envelope.state ≡ true

  pub suspended-Parked :
      {T : Type 0} (p : Payload T) (key key' : Text) (bytes : Bytes) (f : Frame)
      → serialize_step p suspended key' ≡ ok bytes
      → x.texts.get f.shared.db.steps (key_of key f) ≡ some bytes
      → Parked key f
  unfolding Journal.is_suspended
  suspended-Parked p key key' bytes f w q =
      let (e, d, s) = deserialize_envelope-serialize_step p suspended key' key bytes w in
      record { bytes = bytes; envelope = e; found = q; decoded = d; waits = rw s refl }

module _ ⦃x : External⦄ (u : Types) where
  -- What reads as a suspended step was written as one.
  by_content :
      (s t : u.Ty) (c : StepData (u.El s)) (k key : Text) (bytes : Bytes)
      → serialize_step (u.payload s) c k ≡ ok bytes
      → deserialize_step (u.payload t) bytes key ≡ ok suspended
      → c ≡ suspended
  unfolding deserialize_step
  by_content s t suspended k key bytes w r = refl
  by_content s t (failed e) k key bytes w r =
      let (inner, a, b) = serialize_step_ok (u.payload s) (failed e) k bytes w in
      absurd (ground (arith, x.envelope.round_trip _ bytes b, u.failed_as s t e inner))
  by_content s t (completed v st) k key bytes w r =
      elim (Bool-cases (text_eq (u.payload s).type_name (u.payload t).type_name)) [
        | inl e ↦ absurd (same t (u.name_injective s t e) r)
        | inr other ↦
            let e =
              deserialize_step_other_type (u.payload s) (u.payload t) v st k key bytes w other in
            absurd (ground arith)
      ]
    where
      itself : deserialize_step (u.payload s) bytes key ≢ ok suspended
      itself r =
          let back = deserialize-serialize_step (u.payload s) (completed v st) k key bytes w in
          absurd (ground arith)

      same : (t : u.Ty) → s ≡ t → deserialize_step (u.payload t) bytes key ≢ ok suspended
      same t e = subst (λ t. deserialize_step (u.payload t) bytes key ≢ ok suspended) e itself

  pub reads_suspended-Parked :
      (t : u.Ty) (key : Text) (bytes : Bytes) (f : Frame)
      → Journaled u f.shared.db.steps
      → x.texts.get f.shared.db.steps (key_of key f) ≡ some bytes
      → deserialize_step (u.payload t) bytes key ≡ ok suspended
      → Parked key f
  reads_suspended-Parked t key bytes f j q r =
      let w = j (key_of key f) bytes q in
      let same = by_content w.type t w.content w.key key bytes w.serialized r in
      suspended-Parked (u.payload w.type) key w.key bytes f
        (ap (λ c. serialize_step (u.payload w.type) c w.key) (sym same) ∙ w.serialized) q

module _ ⦃x : External⦄ {T : Type 0} (key : Text) (msg : Option Text) (p : Payload T) where
  check_signal-suspended :
      (o : Option Bytes) (k : Text) (f g : Frame)
      → check_signal key p o f ≡ (err (EngineError.suspended k), g)
      → (bytes : Bytes) × (o ≡ some bytes)
        × (deserialize_step p bytes key ≡ ok suspended)
        × (f ≡ g)
        × (k ≡ key)
  unfolding check_signal on_signal deserialize_step check_tag
  check_signal-suspended o k f g e = ground arith

  pub serialize_step-ne-suspended :
      (k : Text) → serialize_step p suspended key ≢ err (EngineError.suspended k)
  unfolding serialize_step
  serialize_step-ne-suspended k q = ground arith

  begin_suspend-Parked :
      (k : Text) (f g : Frame)
      → begin_suspend key msg p f ≡ (err (EngineError.suspended k), g)
      → (k ≡ key) × Parked key g
  unfolding begin_suspend
  begin_suspend-Parked k f g e =
      elim (bind_err f g (lift (serialize_step p suspended key))
        (λ bytes. gets (key_of key) >>= λ composite. journal_write composite bytes >> show)
        (EngineError.suspended k) e) [
          | inl c ↦ absurd (serialize_step-ne-suspended k (ap (λ o. o.0) c))
          | inr (bytes, f1, w, rest) ↦
              elim (bind_err f1 g (journal_write (key_of key f1) bytes) (λ _. show)
                (EngineError.suspended k) rest) [
                  | inl c ↦ absurd (journal_write-ne-suspended (key_of key f1) k bytes f1 g c)
                  | inr (_, f2, wrote, end) ↦ (
                    same (ap (λ o. o.0) end),
                    subst (Parked key) (ap (λ o. o.1) end) (
                        shown f2 (
                          suspended-Parked p key key bytes f2 (ap (λ o. o.0) w)
                            (journal_write_there key bytes f1 f2 wrote))),
                  )
                ]
        ]
    where
      show : Workflow T
      show = do
        modify (set_quietly (State.suspended key (message_or key msg)))
        fail (EngineError.suspended key)

      same :
          ◌≡◌ {A = Outcome EngineError T}
            (err (EngineError.suspended key))
            (err (EngineError.suspended k))
          → k ≡ key
      same q = ground arith

      shown :
          (f : Frame)
          → Parked key f
          → Parked key (set_quietly (State.suspended key (message_or key msg)) f)
      shown f s = record {
        bytes = s.bytes;
        envelope = s.envelope;
        found = s.found;
        decoded = s.decoded;
        waits = s.waits;
      }

module _ ⦃x : External⦄ where
  -- Where a read, a look at what it found, and the end of an operation suspend the workflow.
  pub look_suspended :
      {A B P : Type 0} (key k : Text) (look : Option Bytes → Workflow A) (finish : A → Workflow B)
      (f g : Frame)
      → ((o : Option Bytes) (f1 : Frame)
          → journal_read key f ≡ (ok o, f1)
          → look o f1 ≡ (err (EngineError.suspended k), g)
          → P)
      → ((a : A) (f2 : Frame) → finish a f2 ≡ (err (EngineError.suspended k), g) → P)
      → (journal_read key >>= λ o. look o >>= finish) f ≡ (err (EngineError.suspended k), g)
      → P
  look_suspended key k look finish f g seen ended e =
      let e0 = EngineError.suspended k in
      elim (bind_err f g (journal_read key) (λ o. look o >>= finish) e0 e) [
        | inl c ↦ absurd (journal_read-ne-suspended key k f g c)
        | inr (o, f1, read, rest) ↦ elim (bind_err f1 g (look o) finish e0 rest) [
          | inl c ↦ seen o f1 read c
          | inr (a, f2, _, end) ↦ ended a f2 end
        ]
      ]

  pub ok-ne-suspended :
      {T : Type 0} (v : T) (k : Text) (f g : Frame)
      → ◌≢◌ {A = Outcome EngineError T × Frame} (ok v, f) (err (EngineError.suspended k), g)
  ok-ne-suspended v k f g q = ground arith

module _ ⦃x : External⦄ (u : Types) where
  -- What is read to be suspended is parked.
  pub read_suspended-Parked :
      (t : u.Ty) (key : Text) (o : Option Bytes) (bytes : Bytes) (f f1 : Frame)
      → Journaled u f.shared.db.steps
      → journal_read (key_of key f) f ≡ (ok o, f1)
      → o ≡ some bytes
      → deserialize_step (u.payload t) bytes key ≡ ok suspended
      → Parked key f1
  read_suspended-Parked t key o bytes f f1 j read there d =
      reads_suspended-Parked u t key bytes f1
        (subst (λ o. Journaled u o.1.shared.db.steps) read
          (subst (Journaled u) (sym (journal_read-Idle (key_of key f) f).1) j))
        (journal_read_there key bytes f f1
          (subst (λ o. journal_read (key_of key f) f ≡ (ok o, f1)) there read))
        d

  -- A suspend point that suspends its workflow, whatever faults the storage has, does so at its own
  -- key, and has left a suspended step there.
  pub execute_suspend-Parked :
      (t : u.Ty) (key : Text) (msg : Option Text) (k : Text) (f g : Frame)
      → Journaled u f.shared.db.steps
      → execute_suspend key msg (u.payload t) f ≡ (err (EngineError.suspended k), g)
      → (k ≡ key) × Parked key g
  unfolding execute_suspend
  execute_suspend-Parked t key msg k f g j e =
      let p = u.payload t in
      look_suspended (key_of key f) k (check_signal key p) (or_suspend (begin_suspend key msg p)) f
        g
        (λ o f1 read c.
          let (bytes, there, d, same, own) = check_signal-suspended key msg p o k f1 g c in
          (own, subst (Parked key) same (read_suspended-Parked t key o bytes f f1 j read there d)))
        ended e
    where
      ended :
          (delivered : Option (u.El t)) (f2 : Frame)
          → or_suspend (begin_suspend key msg (u.payload t)) delivered f2
            ≡ (err (EngineError.suspended k), g)
          → (k ≡ key) × Parked key g
      ended none f2 end = begin_suspend-Parked key msg (u.payload t) k f2 g end
      ended (some v) f2 end = absurd (ok-ne-suspended v k f2 g end)
