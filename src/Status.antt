-- ===== src/Status.antt =====
-- src/metadata.rs: the lifecycle status that is stored for an instance, and its record.
use memable.Prelude.{ℕ, Bool, true, false, Option, none, some, ◌++◌, if◌then◌else◌}
use memable.Text.{Text, text}

pub data MetadataStatus : Type 0 where
  running : MetadataStatus
  -- the step key and the message
  suspended : Text → Text → MetadataStatus
  completed : Option Text → MetadataStatus
  failed : Text → MetadataStatus

unfoldable pub is_terminal : MetadataStatus → Bool
is_terminal (completed _) = true
is_terminal (failed _) = true
is_terminal _ = false

unfoldable pub is_suspended : MetadataStatus → Bool
is_suspended (suspended _ _) = true
is_suspended _ = false

unfoldable pub is_running : MetadataStatus → Bool
is_running running = true
is_running _ = false

unfoldable pub status_to_string : MetadataStatus → Text
status_to_string running = text "running"
status_to_string (suspended key status) = text "suspended: " ++ status
status_to_string (completed none) = text "completed"
status_to_string (completed (some msg)) = text "completed: " ++ msg
status_to_string (failed msg) = text "failed: " ++ msg

pub record WorkflowMetadata : Type 0 where
  pub status : MetadataStatus
  pub completed_at : Option ℕ

-- `WorkflowMetadata::new` at the time `now_secs` of the system clock.
unfoldable pub new : ℕ → MetadataStatus → WorkflowMetadata
unfolding is_terminal
new now_secs status = record {
  status = status;
  completed_at = if is_terminal status then some now_secs else none;
}
