-- ===== src/Stream.antt =====
-- src/stream.rs: `StatusStream`. What a receiver reports is an argument: whether the channel has a
-- value that it has not seen, and whether its sender is gone.
use memable.Prelude.{ℕ, Option, none, some}
use memable.State.{WorkflowState}

-- The states of the stream. The number is that of the channel.
pub data StatusStream : Type 0 where
  initial : ℕ → StatusStream
  idle : ℕ → StatusStream
  waiting : ℕ → StatusStream
  transitioning : StatusStream
  snapshot : Option WorkflowState → StatusStream

-- What polling the future of `changed` gives.
pub data Changed : Type 0 where
  ready : Changed
  closed : Changed
  pending : Changed

pub data Polled : Type 0 where
  item : WorkflowState → Polled
  finished : Polled
  pending : Polled
  panics : Polled

-- `poll_next` for a channel that holds `value`: the loop goes round once, from `idle` to `waiting`.
unfoldable pub poll_waiting : Changed → WorkflowState → ℕ → Polled × StatusStream
poll_waiting Changed.ready value rx = (item value, idle rx)
poll_waiting Changed.closed value rx = (finished, transitioning)
poll_waiting Changed.pending value rx = (Polled.pending, waiting rx)

unfoldable pub taken : Option WorkflowState → Polled
taken none = finished
taken (some v) = item v

unfoldable pub poll_next : Changed → WorkflowState → StatusStream → Polled × StatusStream
unfolding poll_waiting taken
poll_next changed value (initial rx) = (item value, idle rx)
poll_next changed value (idle rx) = poll_waiting changed value rx
poll_next changed value (waiting rx) = poll_waiting changed value rx
poll_next changed value transitioning = (panics, transitioning)
poll_next changed value (snapshot v) = (taken v, snapshot none)
