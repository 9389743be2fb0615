-- ===== src/FanOut.antt =====
-- src/engine/fan_out.rs and `FanOutBuilder` of src/context.rs: the ids of the children, the collection
-- of their results in both error modes, and the cached result. The tasks that `join_next` gives are
-- an argument, in the order of their completion.
pub mod Collect
pub mod FailFast
pub mod Ids
pub mod Cache
pub mod Children
pub mod Run
pub mod Again
pub mod Stored
use memable.Prelude.{
  ℕ, zero, suc, ◌+◌, ◌<◌, Option, none, some, List, [], ◌∷◌, ◌++◌, length, get_elem?, set,
  replicate, if◌then◌else◌, ltb,
}
use memable.Text.{Text, text}
use memable.Text.Decimal.{decimal}
use memable.Outcome.{Outcome, ok, err, panic, and_then}
use memable.Error.{EngineError, ChildError}
use memable.Error
use memable.Error.Display.{error_to_string}

-- A task of the `JoinSet`: its index with its result, or its panic with the text of the error.
pub data Joined (T : Type 0) : Type 0 where
  finished : ℕ → T → Joined T
  failed : ℕ → EngineError → Joined T
  panicked : Text → Joined T

-- `FanOutBuilder::child_ids`, from the index `idx` on.
unfoldable pub child_ids_from : Text → Text → ℕ → ℕ → List Text
child_ids_from instance_id key idx zero = []
child_ids_from instance_id key idx (suc n) =
    (instance_id ++ text "/" ++ key ++ text "-" ++ decimal idx)
    ∷ child_ids_from instance_id key (idx + 1) n

unfoldable pub child_ids : Text → Text → ℕ → List Text
unfolding child_ids_from
child_ids instance_id key count = child_ids_from instance_id key 0 count

-- `indexed[idx] = Some(value)`, which panics out of bounds.
unfoldable pub store :
    {A : Type 0} → ℕ → A → List (Option A) → Outcome EngineError (List (Option A))
store idx value indexed =
    if ltb idx (length indexed) then ok (set indexed idx (some value)) else panic

-- `expect("all children completed")` on each.
unfoldable pub unwrap_all : {A : Type 0} → List (Option A) → Outcome EngineError (List A)
unwrap_all [] = ok []
unwrap_all (none ∷ rest) = panic
unwrap_all (some a ∷ rest) = and_then (unwrap_all rest) (λ others. ok (a ∷ others))

abbrev panic_error : Text → EngineError
panic_error e = Error.storage (text "child task panicked: " ++ e)

abbrev nth_id : ℕ → List Text → Outcome EngineError Text
nth_id idx ids = elim (get_elem? ids idx) [ none ↦ panic | some id ↦ ok id ]

abbrev pub Collected : Type 0 → Type 0
Collected T = Outcome ChildError T

unfoldable pub collect_all_rounds :
    {T : Type 0}
    → List Text
    → List (Joined T)
    → List (Option (Collected T))
    → Outcome EngineError (List (Option (Collected T)))
unfolding store
collect_all_rounds ids [] indexed = ok indexed
collect_all_rounds ids (finished idx value ∷ rest) indexed =
    and_then (store idx (ok value) indexed) (collect_all_rounds ids rest)
collect_all_rounds ids (failed idx e ∷ rest) indexed = and_then (nth_id idx ids) λ id.
    and_then (store idx (err (record { instance_id = id; message = error_to_string e })) indexed)
      (collect_all_rounds ids rest)
collect_all_rounds ids (panicked e ∷ rest) indexed = err (panic_error e)

unfoldable pub collect_all :
    {T : Type 0} → List (Joined T) → ℕ → List Text → Outcome EngineError (List (Collected T))
unfolding collect_all_rounds unwrap_all
collect_all joined expected ids =
    and_then (collect_all_rounds ids joined (replicate expected none)) unwrap_all

-- The first failure ends the collection; the remaining children are aborted.
unfoldable pub collect_fail_fast_rounds :
    {T : Type 0} → List (Joined T) → List (Option T) → Outcome EngineError (List (Option T))
unfolding store
collect_fail_fast_rounds [] indexed = ok indexed
collect_fail_fast_rounds (finished idx value ∷ rest) indexed =
    and_then (store idx value indexed) (collect_fail_fast_rounds rest)
collect_fail_fast_rounds (failed idx e ∷ rest) indexed = err e
collect_fail_fast_rounds (panicked e ∷ rest) indexed = err (panic_error e)

unfoldable pub collect_fail_fast : {T : Type 0} → List (Joined T) → ℕ → Outcome EngineError (List T)
unfolding collect_fail_fast_rounds unwrap_all
collect_fail_fast joined expected =
    and_then (collect_fail_fast_rounds joined (replicate expected none)) unwrap_all
