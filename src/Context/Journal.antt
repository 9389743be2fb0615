-- ===== src/Context/Journal.antt =====
-- The journal of a workflow: what reads and writes of a step do, on storage that may fail and on
-- storage that does not.
use memable.Prelude.{
  ◌≡◌, ◌≢◌, refl, sym, ap, ◌∙◌, subst, arith, Option, none, some, ◌⊎◌, inl, inr, List, [], ◌∷◌,
}
use memable.Error.{EngineError}
use memable.Shared.{with_db}
use memable.Text.{Text, text_eq_refl}
use memable.Outcome.{Outcome, ok, err, ok-injective}
use memable.Journal.{Bytes, completed}
use memable.External.{External, Payload}
use memable.Store.{Database, IsHealthy}
use memable.Store.Laws.{read_txn-IsHealthy}
use memable.Codec.{serialize_step, deserialize_step}
use memable.Codec.Laws.{deserialize-serialize_step}
use memable.Context.{Frame, Workflow, in_shared, key_of, read_step, write_step}

module _ ⦃x : External⦄ where
  abbrev pub put_step : Text → Bytes → Database → Database
  put_step key bytes d = record d {
    tables = record d.tables { steps = x.texts.insert d.steps key bytes };
  }

  pub read_step-IsHealthy :
      (key : Text) (d : Database)
      → IsHealthy d
      → read_step key d ≡ (ok (x.texts.get d.steps key), d)
  unfolding read_step
  read_step-IsHealthy key d h = read_txn-IsHealthy _ d h

  pub write_step-IsHealthy :
      (key : Text) (bytes : Bytes) (d : Database)
      → IsHealthy d
      → write_step key bytes d ≡ (ok tt, put_step key bytes d)
  unfolding write_step
  write_step-IsHealthy key bytes d h = ground arith

  abbrev pub put_in_frame : Text → Bytes → Frame → Frame
  put_in_frame key bytes f = record f {
    shared = record f.shared { db = put_step (key_of key f) bytes f.shared.db };
  }

  abbrev pub SameInstance : Frame → Frame → Type 0
  SameInstance f g =
      (g.context.workflow_name ≡ f.context.workflow_name)
      × (g.context.instance_id ≡ f.context.instance_id)

  -- Nothing was written to the journal.
  abbrev pub Idle : Frame → Frame → Type 0
  Idle f g = SameInstance f g × (g.shared.db.steps ≡ f.shared.db.steps)

  abbrev pub journal_read : Text → Workflow (Option Bytes)
  journal_read key = in_shared (with_db (read_step key))

  abbrev pub journal_write : Text → Bytes → Workflow (Unit {0})
  journal_write key bytes = in_shared (with_db (write_step key bytes))

  -- Whatever the storage does, a read changes nothing, and it gives what is there or an error.
  pub journal_read-Idle : (key : Text) (f : Frame) → Idle f (journal_read key f).1
  unfolding read_step memable.Store.read_txn memable.Store.storage_call
  journal_read-Idle key f = ((ground arith, ground arith), ground arith)

  pub journal_read_result :
      (key : Text) (f : Frame)
      → ((journal_read key f).0 ≡ ok (x.texts.get f.shared.db.steps key))
        ⊎ ((e : EngineError) × ((journal_read key f).0 ≡ err e))
  unfolding read_step memable.Store.read_txn memable.Store.storage_call memable.Store.fault
  journal_read_result key f = of f.shared.db.faults refl
    where
      of :
          (faults : List (Option Text))
          → f.shared.db.faults ≡ faults
          → ((journal_read key f).0 ≡ ok (x.texts.get f.shared.db.steps key))
            ⊎ ((e : EngineError) × ((journal_read key f).0 ≡ err e))
      of [] q = inl (ground arith)
      of (none ∷ rest) q = inl (ground arith)
      of (some e ∷ rest) q = inr (EngineError.storage e, ground arith)

  pub journal_write-SameInstance :
      (key : Text) (bytes : Bytes) (f : Frame) → SameInstance f (journal_write key bytes f).1
  unfolding write_step memable.Store.write_txn memable.Store.storage_call
  journal_write-SameInstance key bytes f = (ground arith, ground arith)

  pub journal_write_steps :
      (key : Text) (bytes : Bytes) (f : Frame)
      → let o = journal_write key bytes f in
        (o.1.shared.db.steps ≡ f.shared.db.steps)
        ⊎ (o.1.shared.db.steps ≡ x.texts.insert f.shared.db.steps key bytes)
  unfolding write_step memable.Store.write_txn memable.Store.storage_call
  journal_write_steps key bytes f = ground arith

  pub journal_write_ok :
      (key : Text) (bytes : Bytes) (f g : Frame)
      → journal_write key bytes f ≡ (ok tt, g)
      → g.shared.db.steps ≡ x.texts.insert f.shared.db.steps key bytes
  unfolding write_step memable.Store.write_txn memable.Store.storage_call
  journal_write_ok key bytes f g e = ground arith

  -- The journal of the frame holds a completed step with this result.
  pub record Stored {T : Type 0} (p : Payload T) (key : Text) (result : T) (f : Frame)
      : Type 0 where
    pub bytes : Bytes
    pub status : Option Text
    pub found : x.texts.get f.shared.db.steps (key_of key f) ≡ some bytes
    pub decoded : deserialize_step p bytes key ≡ ok (completed result status)

  pub journal_read_there :
      (key : Text) (bytes : Bytes) (f g : Frame)
      → journal_read (key_of key f) f ≡ (ok (some bytes), g)
      → x.texts.get g.shared.db.steps (key_of key g) ≡ some bytes
  journal_read_there key bytes f g e = rw (idle.0.0, idle.0.1, idle.1) here
    where
      idle : Idle f g
      idle = subst (λ o. Idle f o.1) e (journal_read-Idle (key_of key f) f)

      clash :
          (c : EngineError)
          → ◌≡◌ {A = Outcome EngineError (Option Bytes)} (err c) (ok (some bytes))
          → ⊥
      clash c q = ground arith

      here : x.texts.get f.shared.db.steps (key_of key f) ≡ some bytes
      here = elim (journal_read_result (key_of key f) f) [
        | inl q ↦ ok-injective _ _ (sym q ∙ ap (λ o. o.0) e)
        | inr (c, q) ↦ absurd (clash c (sym q ∙ ap (λ o. o.0) e))
      ]

  pub journal_write_there :
      (key : Text) (bytes : Bytes) (f g : Frame)
      → journal_write (key_of key f) bytes f ≡ (ok tt, g)
      → x.texts.get g.shared.db.steps (key_of key g) ≡ some bytes
  journal_write_there key bytes f g e =
      rw (same.0, same.1)
        (ground (
          arith,
          journal_write_ok (key_of key f) bytes f g e,
          x.texts.get-insert f.shared.db.steps (key_of key f) (key_of key f) bytes,
          text_eq_refl (key_of key f),
        ))
    where
      same : SameInstance f g
      same = subst (λ o. SameInstance f o.1) e (journal_write-SameInstance (key_of key f) bytes f)

  -- The storage gives errors of its own.
  pub journal_read-ne-suspended :
      (key k : Text) (f g : Frame) → journal_read key f ≢ (err (EngineError.suspended k), g)
  unfolding read_step memable.Store.read_txn memable.Store.storage_call memable.Store.fault
  journal_read-ne-suspended key k f g e = ground arith

  pub journal_write-ne-suspended :
      (key k : Text) (bytes : Bytes) (f g : Frame)
      → journal_write key bytes f ≢ (err (EngineError.suspended k), g)
  unfolding write_step memable.Store.write_txn memable.Store.storage_call memable.Store.fault
  journal_write-ne-suspended key k bytes f g e = ground arith

  -- What a read has found to be complete.
  pub read-Stored :
      {T : Type 0} (p : Payload T) (key : Text) (result : T) (status : Option Text) (bytes : Bytes)
      (f g : Frame)
      → journal_read (key_of key f) f ≡ (ok (some bytes), g)
      → deserialize_step p bytes key ≡ ok (completed result status)
      → Stored p key result g
  read-Stored p key result status bytes f g e d = record {
    bytes = bytes;
    status = status;
    found = journal_read_there key bytes f g e;
    decoded = d;
  }

  -- What a write has left.
  pub write-Stored :
      {T : Type 0} (p : Payload T) (key : Text) (result : T) (status : Option Text) (bytes : Bytes)
      (f g : Frame)
      → serialize_step p (completed result status) key ≡ ok bytes
      → journal_write (key_of key f) bytes f ≡ (ok tt, g)
      → Stored p key result g
  write-Stored p key result status bytes f g w e = record {
    bytes = bytes;
    status = status;
    found = journal_write_there key bytes f g e;
    decoded = deserialize-serialize_step p _ key key bytes w;
  }
