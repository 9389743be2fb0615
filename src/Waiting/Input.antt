-- ===== src/Waiting/Input.antt =====
-- The input of an invocation reaches its workflow.
use memable.Prelude.{◌≡◌, ap, ◌∙◌, arith, none, some}
use memable.Text.{Text, text, text_eq_refl}
use memable.Outcome.{ok}
use memable.Status
use memable.Status.{new}
use memable.Journal.{Bytes, completed}
use memable.External.{External, Payload}
use memable.Store.{IsHealthy}
use memable.Keys.{meta_key, composite_key}
use memable.Metadata.{encode_metadata, put_meta}
use memable.Codec.{serialize_step, deserialize_step}
use memable.Codec.Laws.{deserialize-serialize_step}
use memable.Shared.{Shared}
use memable.Context.{Frame, only_completed, decode_input, input}
use memable.Context.Journal.{read_step-IsHealthy}
use memable.Engine.{put_input, spawn_workflow}
use memable.Engine.Spawn.{Accepts, encodes, db-launch, spawn_workflow-launch}
use memable.Execution.Finish.{Serialises}
use memable.Waiting.{invoke, with_input, into_future}

module _ ⦃x : External⦄ where
  abbrev input_key : Text → Text → Text
  input_key w i = composite_key w i (text "_input")

  -- The database that an accepted invocation leaves.
  db-spawn_workflow :
      (w i : Text) (bytes meta : Bytes) (s : Shared)
      → Accepts w s
      → encode_metadata (meta_key w i) (new 0 Status.running) ≡ ok meta
      → (spawn_workflow w i (some bytes) s).1.db ≡ record s.db {
        tables = put_input (input_key w i) (some bytes) (put_meta (meta_key w i) meta s.db.tables);
      }
  db-spawn_workflow w i bytes meta s a e =
      ap (λ o. o.1.db) (spawn_workflow-launch w i (some bytes) meta s a e) ∙ db-launch w i _

  invoked :
      {I : Type 0} (p : Payload I) (v : I) (w i : Text) (bytes : Bytes) (s : Shared)
      → serialize_step p (completed v none) (text "_input") ≡ ok bytes
      → into_future i (with_input p v (invoke w)) s ≡ spawn_workflow w i (some bytes) s
  unfolding into_future with_input invoke
  invoked p v w i bytes s e = ground arith

  input_of :
      {I : Type 0} (p : Payload I) (v : I) (bytes : Bytes) (f : Frame)
      → IsHealthy f.shared.db
      → x.texts.get f.shared.db.steps (input_key f.context.workflow_name f.context.instance_id)
        ≡ some bytes
      → deserialize_step p bytes (text "_input") ≡ ok (completed v none)
      → input p f ≡ (ok (some v), f)
  unfolding input decode_input only_completed
  input_of p v bytes f h there e = ground (
    arith,
    read_step-IsHealthy (input_key f.context.workflow_name f.context.instance_id) f.shared.db h,
  )

  -- On an engine that accepts the workflow, when postcard serialises every metadata record and the
  -- input, a context of the invoked instance whose database is the one that the invocation left
  -- reads exactly the input that the invocation was given, and changes nothing.
  pub into_future-input :
      {I : Type 0} (p : Payload I) (v : I) (w i : Text) (bytes : Bytes) (s : Shared) (f : Frame)
      → Accepts w s
      → Serialises
      → serialize_step p (completed v none) (text "_input") ≡ ok bytes
      → f.shared.db ≡ (into_future i (with_input p v (invoke w)) s).1.db
      → f.context.workflow_name ≡ w
      → f.context.instance_id ≡ i
      → input p f ≡ (ok (some v), f)
  into_future-input p v w i bytes s f a enc e db name instance =
      let (meta, m) = encodes enc w i in
      let left =
        db
        ∙ ap (λ o. o.1.db) (invoked p v w i bytes s e)
        ∙ db-spawn_workflow w i bytes meta s a m in
      input_of p v bytes f (ap (λ d. d.faults) left ∙ a.healthy)
        (ap (λ d. x.texts.get d.steps (input_key f.context.workflow_name f.context.instance_id))
            left
          ∙ rw (name, instance)
              (ground (
                arith,
                x.texts.get-insert s.db.steps (input_key w i) (input_key w i) bytes,
                text_eq_refl (input_key w i),
              )))
        (deserialize-serialize_step p (completed v none) (text "_input") (text "_input") bytes e)
