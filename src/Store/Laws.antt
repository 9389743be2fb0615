-- ===== src/Store/Laws.antt =====
-- How transactions end: what a successful one read or wrote, that a failed one leaves the tables as
-- they were, and how they run on storage that does not fail.
use memable.Prelude.{◌≡◌, arith}
use memable.Outcome.{Outcome, ok, err, panic}
use memable.Error.{EngineError}
use memable.External.{External}
use memable.Store.{Tables, Database, storage_call, read_txn, write_txn, IsHealthy}

module _ ⦃x : External⦄ where
  pub tables-storage_call : (d : Database) → (storage_call d).1.tables ≡ d.tables
  unfolding storage_call
  tables-storage_call d = ground arith

  pub tables-read_txn :
      {A : Type 0} (body : Tables → Outcome EngineError A) (d : Database)
      → (read_txn body d).1.tables ≡ d.tables
  unfolding read_txn
  tables-read_txn body d = ground arith

  pub read_txn_ok :
      {A : Type 0} (body : Tables → Outcome EngineError A) (d : Database) (a : A)
      → (read_txn body d).0 ≡ ok a
      → body d.tables ≡ ok a
  unfolding read_txn
  read_txn_ok body d a h = ground arith

  -- The storage itself never panics.
  pub read_txn_panic :
      {A : Type 0} (body : Tables → Outcome EngineError A) (d : Database)
      → (read_txn body d).0 ≡ panic
      → body d.tables ≡ panic
  unfolding read_txn
  read_txn_panic body d h = ground arith

  pub read_txn-IsHealthy :
      {A : Type 0} (body : Tables → Outcome EngineError A) (d : Database)
      → IsHealthy d
      → read_txn body d ≡ (body d.tables, d)
  unfolding read_txn
  read_txn-IsHealthy body d h = ground arith

  -- What a transaction's body leaves behind when nothing fails.
  abbrev pub commit :
      {A : Type 0} → Outcome EngineError (A × Tables) → Database → Outcome EngineError A × Database
  commit (ok (a, t)) d = (ok a, record d { tables = t })
  commit (err e) d = (err e, d)
  commit panic d = (panic, d)

  pub write_txn-IsHealthy :
      {A : Type 0} (body : Tables → Outcome EngineError (A × Tables)) (d : Database)
      → IsHealthy d
      → write_txn body d ≡ commit (body d.tables) d
  unfolding write_txn
  write_txn-IsHealthy body d h = ground arith

  pub write_txn_ok :
      {A : Type 0} (body : Tables → Outcome EngineError (A × Tables)) (d : Database) (a : A)
      → (write_txn body d).0 ≡ ok a
      → body d.tables ≡ ok (a, (write_txn body d).1.tables)
  unfolding write_txn
  write_txn_ok body d a h = ground arith

  -- Atomicity: a transaction that returns an error has written nothing.
  pub write_txn_err :
      {A : Type 0} (body : Tables → Outcome EngineError (A × Tables)) (d : Database)
      (e : EngineError)
      → (write_txn body d).0 ≡ err e
      → (write_txn body d).1.tables ≡ d.tables
  unfolding write_txn
  write_txn_err body d e h = ground arith

  pub write_txn_panic :
      {A : Type 0} (body : Tables → Outcome EngineError (A × Tables)) (d : Database)
      → (write_txn body d).0 ≡ panic
      → (write_txn body d).1.tables ≡ d.tables
  unfolding write_txn
  write_txn_panic body d h = ground arith
