-- ===== src/Engine/Queries.antt =====
-- src/engine/engine_impl.rs: what an engine tells of the metadata of its instances.
use memable.Prelude.{Option, List}
use memable.Text.{Text}
use memable.Status.{WorkflowMetadata}
use memable.External.{External}
use memable.Metadata.{read_metadata, list_metadata}
use memable.Shared.{Engine, with_db}
use memable.Context.Names.{WorkflowDef}

module _ ⦃x : External⦄ where
  unfoldable pub get_metadata : WorkflowDef → Text → Engine (Option WorkflowMetadata)
  unfolding read_metadata
  get_metadata def instance_id = with_db (read_metadata def.name instance_id)

  unfoldable pub list_instances : WorkflowDef → Engine (List (Text × WorkflowMetadata))
  unfolding list_metadata
  list_instances def = with_db (list_metadata def.name)
