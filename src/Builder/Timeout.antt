-- ===== src/Builder/Timeout.antt =====
-- Which shutdown timeout an engine gets.
use memable.Prelude.{ℕ, ◌*◌, ◌≤◌, ◌≡◌, refl, ap, Option, none, some}
use memable.Text.{Text}
use memable.Text.Decimal.{decimal}
use memable.Text.Parse.{parse, parse-decimal}
use memable.External.{External}
use memable.Store.{Database}
use memable.Retry.{u64_max, second}
use memable.Builder.{parsed_timeout, EngineBuilder, shutdown_timeout, build}

module _ ⦃x : External⦄ where
  -- An explicit timeout wins over the environment. Without one, a variable that holds the decimal
  -- digits of a `u64` gives that number of seconds, and one that is unset or does not parse gives the
  -- default of thirty seconds.
  pub build-shutdown_timeout :
      (env : Option Text) (d secs : ℕ) (val : Text) (b : EngineBuilder Database)
      → secs ≤ u64_max
      → parse u64_max val ≡ none
      → b.shutdown_timeout ≡ none
      → ((build env (shutdown_timeout d b)).shutdown_timeout ≡ d)
        × ((build (some (decimal secs)) b).shutdown_timeout ≡ secs * second)
        × ((build (some val) b).shutdown_timeout ≡ 30 * second)
        × ((build none b).shutdown_timeout ≡ 30 * second)
  unfolding build shutdown_timeout
  build-shutdown_timeout env d secs val b small bad e = (
    refl,
    rw e (ap parsed_timeout (parse-decimal u64_max secs small)),
    rw e (ap parsed_timeout bad),
    rw e refl,
  )
