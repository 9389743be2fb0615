-- ===== src/Builder.antt =====
-- src/engine/builder.rs: configuring and building an engine. What the database backend gives and what
-- the environment variable holds are arguments. The two copies of the setters, before and after a
-- store is chosen, are one function each.
pub mod Timeout
pub mod Serial
use memable.Prelude.{ℕ, ◌*◌, Bool, true, false, ◌⊎◌, inl, inr, Option, none, some, List, [], ◌∷◌}
use memable.Text.{Text}
use memable.Text.Parse.{parse}
use memable.Outcome.{Outcome, ok, panic, map_err}
use memable.Error
use memable.Error.{EngineError}
use memable.State.{started}
use memable.External.{External}
use memable.Store.{Database}
use memable.Retry.{RetryPolicy, u64_max, second}
use memable.Shared.{Shared}

abbrev pub default_shutdown_timeout : ℕ
default_shutdown_timeout = 30 * second

abbrev parsed_timeout : Option ℕ → ℕ
parsed_timeout none = default_shutdown_timeout
parsed_timeout (some secs) = secs * second

abbrev env_timeout : Option Text → ℕ
env_timeout none = default_shutdown_timeout
env_timeout (some val) = parsed_timeout (parse u64_max val)

-- `env` is the value of `MEMABLE_SHUTDOWN_TIMEOUT_SECS`, if it is set and is text.
unfoldable pub resolve_shutdown_timeout : Option Text → Option ℕ → ℕ
unfolding parse
resolve_shutdown_timeout env (some d) = d
resolve_shutdown_timeout env none = env_timeout env

-- `S` is the store: `NoStore` or a database.
pub record EngineBuilder (S : Type 0) : Type 0 where
  pub store : S
  pub default_retry : Option RetryPolicy
  pub resume_on_start : Bool
  pub shutdown_timeout : Option ℕ
  pub retention : Option ℕ

pub data NoStore : Type 0 where
  no_store : NoStore

-- `Engine::builder`.
unfoldable pub builder : EngineBuilder NoStore
builder = record {
  store = no_store;
  default_retry = none;
  resume_on_start = true;
  shutdown_timeout = none;
  retention = none;
}

module _ {S : Type 0} where
  unfoldable pub default_retry : RetryPolicy → EngineBuilder S → EngineBuilder S
  default_retry policy b = record b { default_retry = some policy }

  unfoldable pub resume_on_start : Bool → EngineBuilder S → EngineBuilder S
  resume_on_start enabled b = record b { resume_on_start = enabled }

  unfoldable pub shutdown_timeout : ℕ → EngineBuilder S → EngineBuilder S
  shutdown_timeout timeout b = record b { shutdown_timeout = some timeout }

  unfoldable pub retention : ℕ → EngineBuilder S → EngineBuilder S
  retention ttl b = record b { retention = some ttl }

  abbrev with_store : {D : Type 0} → D → EngineBuilder S → EngineBuilder D
  with_store db b = record {
    store = db;
    default_retry = b.default_retry;
    resume_on_start = b.resume_on_start;
    shutdown_timeout = b.shutdown_timeout;
    retention = b.retention;
  }

module _ ⦃x : External⦄ where
  abbrev with_database :
      Outcome EngineError Database
      → EngineBuilder NoStore
      → Outcome EngineError (EngineBuilder Database)
  with_database (ok db) b = ok (with_store db b)
  with_database (Outcome.err e) b = Outcome.err e
  with_database panic b = panic

  -- `created` is what `Database::create` gives for the path.
  unfoldable pub open_path :
      Text ⊎ Database → EngineBuilder NoStore → Outcome EngineError (EngineBuilder Database)
  open_path created b = with_database (map_err Error.storage created) b

  abbrev expected : Text ⊎ Database → Outcome EngineError Database
  expected (inl e) = panic
  expected (inr db) = ok db

  -- An error of the in-memory backend fails the `expect`.
  unfoldable pub in_memory :
      Text ⊎ Database → EngineBuilder NoStore → Outcome EngineError (EngineBuilder Database)
  in_memory created b = with_database (expected created) b

  -- The struct `Engine`.
  pub record EngineValue : Type 0 where
    pub shared : Shared
    pub resume_on_start : Bool
    pub shutdown_timeout : ℕ
    pub retention : Option ℕ
    pub workflow_retentions : List (Text × ℕ)

  -- The channels of an engine without senders are those that nobody has made yet.
  unfoldable pub build : Option Text → EngineBuilder Database → EngineValue
  unfolding resolve_shutdown_timeout
  build env b = record {
    shared = record {
      db = b.store;
      workflows = [];
      running = false;
      tasks = [];
      timer_serial = 0;
      default_retry = b.default_retry;
      senders = [];
      channels = λ _. x.watch.channel started;
      next_channel = 0;
    };
    resume_on_start = b.resume_on_start;
    shutdown_timeout = resolve_shutdown_timeout env b.shutdown_timeout;
    retention = b.retention;
    workflow_retentions = [];
  }

  -- `Registration::retention`, on the engine that holds the registration.
  unfoldable pub register_retention : Text → ℕ → EngineValue → EngineValue
  register_retention name ttl e = record e {
    workflow_retentions = (name, ttl) ∷ e.workflow_retentions;
  }
