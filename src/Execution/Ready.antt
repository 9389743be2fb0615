-- ===== src/Execution/Ready.antt =====
-- A claim of a step that is suspended, of an instance that is stored as suspended, succeeds, and so
-- does the signal that makes it.
use memable.Prelude.{◌≡◌, ap, sym, ◌∙◌, arith, true, Option, some}
use memable.Text.{Text}
use memable.Outcome.{ok}
use memable.Status
use memable.Status.{WorkflowMetadata, new}
use memable.Journal
use memable.Journal.{Bytes, StepEnvelope, completed}
use memable.External.{External}
use memable.Store.{Database, IsHealthy}
use memable.Keys.{meta_key, composite_key}
use memable.Metadata.{encode_metadata, decode_metadata, decode_entry, read_metadata}
use memable.Metadata.Laws.{read_metadata-IsHealthy}
use memable.Codec.{deserialize_envelope}
use memable.Execution.{check_step, check_meta, claim_body, claim_suspended_step}
use memable.Execution.Claim.{claim-IsHealthy}
use memable.Execution.Finish.{Serialises}

module _ ⦃x : External⦄ where
  -- The instance waits at the step, for a signal or for its timer.
  pub record Waiting (w i key : Text) (d : Database) : Type 0 where
    pub bytes : Bytes
    pub envelope : StepEnvelope
    pub found : x.texts.get d.steps (composite_key w i key) ≡ some bytes
    pub decoded : deserialize_envelope bytes key ≡ ok envelope
    pub waits : Journal.is_suspended envelope.state ≡ true
    pub meta : WorkflowMetadata
    pub stored : (read_metadata w i d).0 ≡ ok (some meta)
    pub parked : Status.is_suspended meta.status ≡ true

  decode_entry-some :
      (key : Text) (o : Option Bytes) (m : WorkflowMetadata)
      → decode_entry key o ≡ ok (some m)
      → (bytes : Bytes) × (o ≡ some bytes) × (decode_metadata key bytes ≡ ok m)
  unfolding decode_entry
  decode_entry-some key o m e = ground arith

  -- On storage that does not fail, when postcard serialises every metadata record, a step at which
  -- its instance waits can be claimed, with whatever bytes.
  pub Waiting-claim :
      (w i key : Text) (bytes : Bytes) (d : Database)
      → IsHealthy d
      → Serialises
      → Waiting w i key d
      → (claim_suspended_step w i key bytes d).0 ≡ ok tt
  unfolding claim_body check_step check_meta encode_metadata
  Waiting-claim w i key bytes d h enc s =
      let read = read_metadata-IsHealthy w i d h in
      let (old, there, decoded) =
        decode_entry-some (meta_key w i) _ s.meta (ap (λ o. o.0) (sym read) ∙ s.stored) in
      let (running, e) = enc (new 0 Status.running) in
      ground (arith, claim-IsHealthy w i key bytes d h, s.found, s.decoded, s.waits, s.parked)
