-- ===== src/Engine/Signal.antt =====
-- `Engine::signal`: what a signal that succeeds leaves behind, and what one to a stopped engine does.
use memable.Prelude.{◌≡◌, refl, arith, none, inl, inr, [], ◌∷◌, ◌++◌, map}
use memable.Text.{Text, text}
use memable.Outcome.{ok, err, Outcome-cases}
use memable.Error.{EngineError}
use memable.Journal.{Bytes, completed}
use memable.External.{External, Payload}
use memable.Store.{IsHealthy}
use memable.Codec.{serialize_step}
use memable.Shared.{Shared}
use memable.Context.Names.{SuspendPoint}
use memable.Execution.{validate_key_component, claim_suspended_step}
use memable.Execution.Claim.{Claimed, claim_ok-Claimed, IsHealthy-claim}
use memable.Engine.{Invocation, check_ready, launch, signal}
use memable.Engine.Spawn.{owner, db-launch, launch-Launched}

module _ ⦃x : External⦄ where
  signal_ok_parts :
      {T : Type 0} (p : Payload T) (w i : Text) (point : SuspendPoint) (v : T) (s : Shared)
      (inv : Invocation)
      → (signal p w i point v s).0 ≡ ok inv
      → (bytes : Bytes) × (serialize_step p (completed v none) point.key ≡ ok bytes)
        × ((claim_suspended_step w i point.key bytes s.db).0 ≡ ok tt)
        × (signal p w i point v s
            ≡ launch w i (record s { db = (claim_suspended_step w i point.key bytes s.db).1 }))
  unfolding signal
  signal_ok_parts p w i point v s inv h =
      elim (Outcome-cases (serialize_step p (completed v none) point.key)) [
        | inl (bytes, q) ↦ elim (Outcome-cases (claim_suspended_step w i point.key bytes s.db).0) [
          | inl (a, c) ↦ (bytes, q, ground arith, ground arith)
          | inr (inl (e, c)) ↦ ground arith
          | inr (inr c) ↦ ground arith
        ]
        | inr (inl (e, q)) ↦ ground arith
        | inr (inr q) ↦ ground arith
      ]

  -- On storage that does not fail, a signal that returns a handle has claimed the step with the
  -- payload's completed entry, and has queued exactly one task, for its instance.
  pub signal_ok-Claimed :
      {T : Type 0} (p : Payload T) (w i : Text) (point : SuspendPoint) (v : T) (s : Shared)
      (inv : Invocation)
      → IsHealthy s.db
      → (signal p w i point v s).0 ≡ ok inv
      → let s' = (signal p w i point v s).1 in
        ((bytes : Bytes) × (serialize_step p (completed v none) point.key ≡ ok bytes)
          × Claimed w i point.key bytes s.db.tables s'.db.tables)
        × (map owner s'.tasks ≡ map owner s.tasks ++ (w, i) ∷ [])
  signal_ok-Claimed p w i point v s inv h e =
      let (bytes, q, c, same) = signal_ok_parts p w i point v s inv e in
      let d' = (claim_suspended_step w i point.key bytes s.db).1 in
      let l =
        launch-Launched w i (record s { db = d' }) (IsHealthy-claim w i point.key bytes s.db h) in
      rw same (
        (
          bytes,
          q,
          rw (db-launch w i (record s { db = d' })) (claim_ok-Claimed w i point.key bytes s.db c),
        ),
        l.queued,
      )

  pub IsHealthy-signal :
      {T : Type 0} (p : Payload T) (w i : Text) (point : SuspendPoint) (v : T) (s : Shared)
      (inv : Invocation)
      → IsHealthy s.db
      → (signal p w i point v s).0 ≡ ok inv
      → IsHealthy (signal p w i point v s).1.db
  IsHealthy-signal p w i point v s inv h e =
      let (bytes, q, c, same) = signal_ok_parts p w i point v s inv e in
      let d' = (claim_suspended_step w i point.key bytes s.db).1 in
      let l =
        launch-Launched w i (record s { db = d' }) (IsHealthy-claim w i point.key bytes s.db h) in
      rw same l.healthy

  refuses :
      {T : Type 0} (p : Payload T) (w i : Text) (point : SuspendPoint) (v : T) (s : Shared)
      (bytes : Bytes) (e : EngineError)
      → validate_key_component i (text "instance_id") ≡ ok tt
      → serialize_step p (completed v none) point.key ≡ ok bytes
      → (claim_suspended_step w i point.key bytes s.db).0 ≡ ok tt
      → check_ready w s ≡ err e
      → signal p w i point v s
        ≡ (err e, record s { db = (claim_suspended_step w i point.key bytes s.db).1 })
  unfolding signal check_ready
  refuses p w i point v s bytes e good q c refused = ground arith

  -- When the id and the payload are fine and the claim succeeds, an engine that does not run or
  -- does not know the workflow returns that error from a signal whose claim is stored: the step has
  -- the payload, the instance is marked as running, and no task is queued.
  pub signal_not_ready :
      {T : Type 0} (p : Payload T) (w i : Text) (point : SuspendPoint) (v : T) (s : Shared)
      (bytes : Bytes) (e : EngineError)
      → validate_key_component i (text "instance_id") ≡ ok tt
      → serialize_step p (completed v none) point.key ≡ ok bytes
      → (claim_suspended_step w i point.key bytes s.db).0 ≡ ok tt
      → check_ready w s ≡ err e
      → let (r, s') = signal p w i point v s in
        (r ≡ err e) × Claimed w i point.key bytes s.db.tables s'.db.tables × (s'.tasks ≡ s.tasks)
  signal_not_ready p w i point v s bytes e good q c refused =
      let d' = (claim_suspended_step w i point.key bytes s.db).1 in
      let same : signal p w i point v s ≡ (err e, record s { db = d' }) =
        refuses p w i point v s bytes e good q c refused in
      rw same (refl, claim_ok-Claimed w i point.key bytes s.db c, refl)
