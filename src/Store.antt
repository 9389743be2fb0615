-- ===== src/Store.antt =====
-- The redb database: its tables STEPS (src/context.rs), WORKFLOW_META (src/metadata.rs) and TIMERS
-- (src/context.rs), and transactions. A transaction may fail when it begins and when it commits;
-- `faults` says how the next ones end, and past its end all succeed. An error of `open_table`, `get`,
-- `insert` or a scan counts as one of those two, since each abandons the transaction. A table that
-- does not exist reads as an empty one, which is what the program makes of `TableDoesNotExist`.
pub mod Laws
use memable.Prelude.{◌≡◌, Option, none, some, List, [], ◌∷◌}
use memable.Text.{Text}
use memable.Outcome.{Outcome, ok, err, panic, Exec, ◌>>=◌, ◌>>◌, lift, gets, modify, continue}
use memable.Error.{EngineError}
use memable.External.{External}

pub record Tables ⦃x : External⦄ : Type 0 where
  pub steps : x.texts.Table
  pub meta : x.texts.Table
  pub timers : x.timers.Table

pub record Database ⦃x : External⦄ : Type 0 where
  pub tables : Tables
  pub open tables use *
  pub faults : List (Option Text)

module _ ⦃x : External⦄ where
  abbrev pub Db : Type 0 → Type 0
  Db A = Exec EngineError Database A

  unfoldable pub fault : Option Text → Outcome EngineError (Unit {0})
  fault none = ok tt
  fault (some e) = err (EngineError.storage e)

  -- The next begin or commit.
  unfoldable pub storage_call : Db (Unit {0})
  unfolding fault
  storage_call d = elim d.faults [ [] ↦ (ok tt, d) | f ∷ fs ↦ (fault f, record d { faults = fs }) ]

  unfoldable pub read_txn : {A : Type 0} → (Tables → Outcome EngineError A) → Db A
  unfolding storage_call
  read_txn body = do storage_call; tables ← gets (λ d. d.tables); lift (body tables)

  -- A body that fails drops the transaction, and the tables stay as they were.
  unfoldable pub write_txn : {A : Type 0} → (Tables → Outcome EngineError (A × Tables)) → Db A
  unfolding storage_call
  write_txn body = do
    storage_call
    tables ← gets (λ d. d.tables)
    result ← lift (body tables)
    storage_call
    modify (λ d. record d { tables = result.1 })
    lift (ok result.0)

  -- The storage fails no call from here on.
  abbrev pub IsHealthy : Database → Type 0
  IsHealthy d = d.faults ≡ []
