-- ===== src/FanOut/Cache.antt =====
-- src/engine/fan_out.rs: the result of a fan-out in the journal.
use memable.Prelude.{Option, none, some}
use memable.Text.{Text}
use memable.Outcome.{Outcome, ok, ◌>>=◌, lift, gets, and_then}
use memable.Error.{EngineError}
use memable.Journal.{Bytes, completed}
use memable.External.{External, Payload}
use memable.Codec.{serialize_step, deserialize_step}
use memable.Shared.{with_db}
use memable.Context.{Workflow, in_shared, key_of, read_step, write_step, only_completed}

module _ ⦃x : External⦄ where
  unfoldable pub cached_of :
      {R : Type 0} → Payload R → Text → Option Bytes → Outcome EngineError (Option R)
  unfolding only_completed
  cached_of p key none = ok none
  cached_of p key (some bytes) =
      and_then (deserialize_step p bytes key) (λ content. ok (only_completed content))

  unfoldable pub check_cached : {R : Type 0} → Payload R → Text → Workflow (Option R)
  unfolding read_step cached_of
  check_cached p key = do
    composite ← gets (key_of key)
    bytes ← in_shared (with_db (read_step composite))
    lift (cached_of p key bytes)

  -- The slice of results is written like the vector that is read.
  unfoldable pub write_result : {R : Type 0} → Payload R → Text → R → Workflow (Unit {0})
  unfolding serialize_step write_step
  write_result p key results = do
    composite ← gets (key_of key)
    bytes ← lift (serialize_step p (completed results none) key)
    in_shared (with_db (write_step composite bytes))
