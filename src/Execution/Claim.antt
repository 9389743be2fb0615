-- ===== src/Execution/Claim.antt =====
-- Claiming a suspended step: it is claimed at most once, and the payload reaches the workflow.
use memable.Prelude.{◌≡◌, arith, true, Option, some}
use memable.Text.{Text, text_eq_refl}
use memable.Outcome.{ok, err}
use memable.Error.{EngineError, signal_superseded}
use memable.Status
use memable.Status.{WorkflowMetadata}
use memable.Journal
use memable.Journal.{Bytes, StepData, StepEnvelope, completed}
use memable.External.{External, Payload}
use memable.Store.{Tables, Database, IsHealthy}
use memable.Store.Laws.{write_txn_ok, write_txn_err, commit}
use memable.Keys.{meta_key, composite_key}
use memable.Metadata.{encode_metadata, decode_metadata}
use memable.Codec.{serialize_step, deserialize_envelope}
use memable.Codec.Laws.{deserialize_envelope-serialize_step}
use memable.Execution.{check_step, check_meta, claim_body, claim_suspended_step}

module _ ⦃x : External⦄ where
  -- What a successful claim has found and written.
  pub record Claimed (w i key : Text) (bytes : Bytes) (before after : Tables) : Type 0 where
    pub envelope : StepEnvelope
    pub old : Bytes
    pub was_there : x.texts.get before.steps (composite_key w i key) ≡ some old
    pub decoded : deserialize_envelope old key ≡ ok envelope
    pub was_suspended : Journal.is_suspended envelope.state ≡ true
    pub meta : WorkflowMetadata
    pub meta_old : Bytes
    pub meta_there : x.texts.get before.meta (meta_key w i) ≡ some meta_old
    pub meta_decoded : decode_metadata (meta_key w i) meta_old ≡ ok meta
    pub meta_suspended : Status.is_suspended meta.status ≡ true
    pub running : Bytes
    pub encoded : encode_metadata (meta_key w i) (Status.new 0 Status.running) ≡ ok running
    pub steps : after.steps ≡ x.texts.insert before.steps (composite_key w i key) bytes
    pub metas : after.meta ≡ x.texts.insert before.meta (meta_key w i) running
    pub timers : after.timers ≡ before.timers

  check_step_ok :
      (key : Text) (o : Option Bytes)
      → check_step key o ≡ ok tt
      → (old : Bytes) × (envelope : StepEnvelope) × (o ≡ some old)
        × (deserialize_envelope old key ≡ ok envelope)
        × (Journal.is_suspended envelope.state ≡ true)
  unfolding check_step
  check_step_ok key o h = ground arith

  check_meta_ok :
      (key meta : Text) (o : Option Bytes)
      → check_meta key meta o ≡ ok tt
      → (old : Bytes) × (m : WorkflowMetadata) × (o ≡ some old)
        × (decode_metadata meta old ≡ ok m)
        × (Status.is_suspended m.status ≡ true)
  unfolding check_meta
  check_meta_ok key meta o h = ground arith

  claim_parts :
      (w i key : Text) (bytes : Bytes) (t u : Tables)
      → claim_body (composite_key w i key) (meta_key w i) key bytes t ≡ ok (tt, u)
      → (check_step key (x.texts.get t.steps (composite_key w i key)) ≡ ok tt)
        × (check_meta key (meta_key w i) (x.texts.get t.meta (meta_key w i)) ≡ ok tt)
        × (running : Bytes) × (encode_metadata (meta_key w i) (Status.new 0 Status.running)
            ≡ ok running)
        × (u.steps ≡ x.texts.insert t.steps (composite_key w i key) bytes)
        × (u.meta ≡ x.texts.insert t.meta (meta_key w i) running)
        × (u.timers ≡ t.timers)
  unfolding claim_body
  claim_parts w i key bytes t u h = ground arith

  claim_body_ok :
      (w i key : Text) (bytes : Bytes) (t u : Tables)
      → claim_body (composite_key w i key) (meta_key w i) key bytes t ≡ ok (tt, u)
      → Claimed w i key bytes t u
  claim_body_ok w i key bytes t u h =
      let (step, meta, running, encoded, steps, metas, timers) = claim_parts w i key bytes t u h in
      let (old, envelope, there, decoded, suspended) = check_step_ok key _ step in
      let (meta_old, m, meta_there, meta_decoded, meta_suspended) = check_meta_ok key _ _ meta in
      record {
        envelope = envelope;
        old = old;
        was_there = there;
        decoded = decoded;
        was_suspended = suspended;
        meta = m;
        meta_old = meta_old;
        meta_there = meta_there;
        meta_decoded = meta_decoded;
        meta_suspended = meta_suspended;
        running = running;
        encoded = encoded;
        steps = steps;
        metas = metas;
        timers = timers;
      }

  -- A claim that succeeds has found the step and its instance suspended, has written the payload to
  -- the step and the running status to the instance, and has touched nothing else.
  pub claim_ok-Claimed :
      (w i key : Text) (bytes : Bytes) (d : Database)
      → (claim_suspended_step w i key bytes d).0 ≡ ok tt
      → Claimed w i key bytes d.tables (claim_suspended_step w i key bytes d).1.tables
  unfolding claim_suspended_step
  claim_ok-Claimed w i key bytes d h =
      claim_body_ok w i key bytes d.tables _ (write_txn_ok _ d tt h)

  -- A claim that fails, for whatever reason, has written nothing.
  pub claim_err_unchanged :
      (w i key : Text) (bytes : Bytes) (d : Database) (e : EngineError)
      → (claim_suspended_step w i key bytes d).0 ≡ err e
      → (claim_suspended_step w i key bytes d).1.tables ≡ d.tables
  unfolding claim_suspended_step
  claim_err_unchanged w i key bytes d e h = write_txn_err _ d e h

  pub claim-IsHealthy :
      (w i key : Text) (bytes : Bytes) (d : Database)
      → IsHealthy d
      → claim_suspended_step w i key bytes d
        ≡ commit (claim_body (composite_key w i key) (meta_key w i) key bytes d.tables) d
  unfolding claim_suspended_step
  claim-IsHealthy w i key bytes d h = ground arith

  pub IsHealthy-claim :
      (w i key : Text) (bytes : Bytes) (d : Database)
      → IsHealthy d
      → IsHealthy (claim_suspended_step w i key bytes d).1
  IsHealthy-claim w i key bytes d h = ground (arith, claim-IsHealthy w i key bytes d h)

  pub Claimed-entry :
      (w i key : Text) (bytes : Bytes) (t u : Tables)
      → Claimed w i key bytes t u
      → x.texts.get u.steps (composite_key w i key) ≡ some bytes
  Claimed-entry w i key bytes t u c =
      let k = composite_key w i key in
      ground (arith, c.steps, x.texts.get-insert t.steps k k bytes, text_eq_refl k)

  superseded_body :
      {T : Type 0} (p : Payload T) (w i key : Text) (value : T) (status : Option Text)
      (bytes other : Bytes) (t : Tables)
      → serialize_step p (completed value status) key ≡ ok bytes
      → x.texts.get t.steps (composite_key w i key) ≡ some bytes
      → claim_body (composite_key w i key) (meta_key w i) key other t ≡ err (signal_superseded key)
  unfolding claim_body check_step Journal.is_suspended
  superseded_body p w i key value status bytes other t e there =
      let (envelope, decoded, state) =
        deserialize_envelope-serialize_step p (completed value status) key key bytes e in
      ground arith

  -- On storage that does not fail, after a claim that delivered a payload every further claim of
  -- that step, with whatever bytes, is superseded and writes nothing.
  pub claim_twice :
      {T : Type 0} (p : Payload T) (w i key : Text) (value : T) (status : Option Text)
      (bytes other : Bytes) (d : Database)
      → IsHealthy d
      → serialize_step p (completed value status) key ≡ ok bytes
      → (claim_suspended_step w i key bytes d).0 ≡ ok tt
      → let d' = (claim_suspended_step w i key bytes d).1 in
        claim_suspended_step w i key other d' ≡ (err (signal_superseded key), d')
  claim_twice p w i key value status bytes other d h e first =
      let d' = (claim_suspended_step w i key bytes d).1 in
      let c = claim_ok-Claimed w i key bytes d first in
      ground (
        arith,
        claim-IsHealthy w i key other d' (IsHealthy-claim w i key bytes d h),
        superseded_body p w i key value status bytes other d'.tables e
            (Claimed-entry w i key bytes d.tables d'.tables c),
      )
