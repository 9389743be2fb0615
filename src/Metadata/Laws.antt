-- ===== src/Metadata/Laws.antt =====
-- Reading back what `write_metadata` wrote.
use memable.Prelude.{◌≡◌, arith, some, if◌then◌else◌, inl, inr}
use memable.Text.{Text, text_eq}
use memable.Outcome.{Outcome, ok, err, panic, Outcome-cases}
use memable.Error.{EngineError}
use memable.Journal.{Bytes}
use memable.Status.{WorkflowMetadata}
use memable.External.{External}
use memable.Store.{Database, IsHealthy}
use memable.Store.Laws.{read_txn-IsHealthy}
use memable.Keys.{meta_key}
use memable.Metadata.{
  encode_metadata, decode_metadata, decode_entry, put_meta, write_metadata, read_metadata,
}

module _ ⦃x : External⦄ where
  pub decode-encode_metadata :
      (key key' : Text) (m : WorkflowMetadata) (bytes : Bytes)
      → encode_metadata key m ≡ ok bytes
      → decode_metadata key' bytes ≡ ok m
  unfolding encode_metadata decode_metadata
  decode-encode_metadata key key' m bytes h = ground (arith, x.metadata.round_trip m bytes)

  pub read_metadata-IsHealthy :
      (w i : Text) (d : Database)
      → IsHealthy d
      → read_metadata w i d ≡ (decode_entry (meta_key w i) (x.texts.get d.meta (meta_key w i)), d)
  unfolding read_metadata
  read_metadata-IsHealthy w i d h = read_txn-IsHealthy _ d h

  abbrev pub written :
      Text → Outcome EngineError Bytes → Database → Outcome EngineError (Unit {0}) × Database
  written key (ok bytes) d = (ok tt, record d { tables = put_meta key bytes d.tables })
  written key (err e) d = (err e, d)
  written key panic d = (panic, d)

  pub write_metadata-IsHealthy :
      (w i : Text) (m : WorkflowMetadata) (d : Database)
      → IsHealthy d
      → write_metadata w i m d ≡ written (meta_key w i) (encode_metadata (meta_key w i) m) d
  unfolding write_metadata
  write_metadata-IsHealthy w i m d h = ground arith

  -- On storage that does not fail, a successful write gives the instance that metadata, and every
  -- instance with another key keeps what it had.
  pub read-write_metadata :
      (w i v j : Text) (m : WorkflowMetadata) (d : Database)
      → IsHealthy d
      → (write_metadata w i m d).0 ≡ ok tt
      → (read_metadata v j (write_metadata w i m d).1).0
        ≡ (if text_eq (meta_key w i) (meta_key v j) then ok (some m) else (read_metadata v j d).0)
  unfolding decode_entry
  read-write_metadata w i v j m d h e = elim (Outcome-cases (encode_metadata (meta_key w i) m)) [
    | inl (bytes, q) ↦ ground (
      arith,
      write_metadata-IsHealthy w i m d h,
      read_metadata-IsHealthy v j d h,
      read_metadata-IsHealthy v j (record d { tables = put_meta (meta_key w i) bytes d.tables }) h,
      x.texts.get-insert d.meta (meta_key w i) (meta_key v j) bytes,
      decode-encode_metadata (meta_key w i) (meta_key v j) m bytes q,
    )
    | inr (inl (c, q)) ↦ ground (arith, write_metadata-IsHealthy w i m d h)
    | inr (inr q) ↦ ground (arith, write_metadata-IsHealthy w i m d h)
  ]

  -- Nothing but the metadata table is written.
  pub write_metadata_keeps :
      (w i : Text) (m : WorkflowMetadata) (d : Database)
      → ((write_metadata w i m d).1.steps ≡ d.steps)
        × ((write_metadata w i m d).1.timers ≡ d.timers)
  unfolding write_metadata
  write_metadata_keeps w i m d = ground arith
