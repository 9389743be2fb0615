-- ===== src/Metadata.antt =====
-- src/metadata.rs: the metadata table.
pub mod Laws
pub mod Listing
use memable.Prelude.{◌++◌, ◌∷◌, [], List, Option, none, some}
use memable.Text.{Text, slash, strip_prefix}
use memable.Outcome.{Outcome, ok, panic, ◌>>=◌, map_err, and_then, lift}
use memable.Error.{EngineError, serialization}
use memable.Journal.{Bytes}
use memable.Status.{WorkflowMetadata}
use memable.External.{External}
use memable.Store.{Tables, Db, read_txn, write_txn}
use memable.Keys.{meta_key}

module _ ⦃x : External⦄ where
  unfoldable pub encode_metadata : Text → WorkflowMetadata → Outcome EngineError Bytes
  encode_metadata key metadata = map_err (serialization key) (x.metadata.to_allocvec metadata)

  unfoldable pub decode_metadata : Text → Bytes → Outcome EngineError WorkflowMetadata
  decode_metadata key bytes = map_err (serialization key) (x.metadata.from_bytes bytes)

  abbrev pub put_meta : Text → Bytes → Tables → Tables
  put_meta key bytes t = record t { meta = x.texts.insert t.meta key bytes }

  unfoldable pub write_metadata : Text → Text → WorkflowMetadata → Db (Unit {0})
  unfolding encode_metadata write_txn
  write_metadata workflow_name instance_id metadata = do
    let key = meta_key workflow_name instance_id
    bytes ← lift (encode_metadata key metadata)
    write_txn (λ t. ok (tt, put_meta key bytes t))

  unfoldable pub decode_entry : Text → Option Bytes → Outcome EngineError (Option WorkflowMetadata)
  unfolding decode_metadata
  decode_entry key none = ok none
  decode_entry key (some bytes) = and_then (decode_metadata key bytes) (λ m. ok (some m))

  unfoldable pub read_metadata : Text → Text → Db (Option WorkflowMetadata)
  unfolding decode_entry read_txn
  read_metadata workflow_name instance_id =
      let key = meta_key workflow_name instance_id in
      read_txn (λ t. decode_entry key (x.texts.get t.meta key))

  -- The loop over the range; `expect` panics on a key without the prefix.
  unfoldable pub list_entries :
      Text → List (Text × Bytes) → Outcome EngineError (List (Text × WorkflowMetadata))
  unfolding decode_metadata
  list_entries prefix [] = ok []
  list_entries prefix ((full_key, bytes) ∷ rest) =
      let others = list_entries prefix rest in
      elim (strip_prefix prefix full_key) [
        | none ↦ panic
        | some instance_id ↦
            and_then (decode_metadata full_key bytes)
              (λ meta. and_then others (λ results. ok ((instance_id, meta) ∷ results)))
      ]

  unfoldable pub list_metadata : Text → Db (List (Text × WorkflowMetadata))
  unfolding list_entries read_txn
  list_metadata workflow_name =
      let prefix = workflow_name ++ slash ∷ [] in
      let end = workflow_name ++ b'0' ∷ [] in
      read_txn (λ t. list_entries prefix (x.texts.range t.meta prefix end))
