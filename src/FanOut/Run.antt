-- ===== src/FanOut/Run.antt =====
-- src/context.rs: `FanOutBuilder`, with its `run` and `workflow` in both error modes.
use memable.Prelude.{
  Bool, true, false, ℕ, Option, none, some, List, [], ◌∷◌, ◌++◌, length, if◌then◌else◌, ltb,
}
use memable.Text.{Text, text, slash, contains, replace}
use memable.Outcome.{Outcome, ok, panic, ◌>>=◌, ◌>>◌, pure, lift, gets, modify, and_then}
use memable.Error.{EngineError}
use memable.Journal.{Bytes, completed}
use memable.External.{External, Payload}
use memable.Codec.{serialize_step}
use memable.Shared.{with_db}
use memable.Context.{Workflow, in_shared, key_of, stop_replaying, write_step}
use memable.Context.Names.{WorkflowDef}
use memable.FanOut.{
  Joined, Collected, finished, panicked, child_ids, collect_all, collect_fail_fast,
}
use memable.FanOut.Cache.{check_cached, write_result}
use memable.FanOut.Children.{Runtime, spawn_inline_tasks, spawn_workflow_tasks}

pub record FanOutManifest : Type 0 where
  pub child_instance_ids : List Text
  pub count : ℕ

pub data CollectAll : Type 0 where

pub data FailFast : Type 0 where

pub record FanOutBuilder (I Mode : Type 0) : Type 0 where
  pub key : Text
  pub items : List I
  pub concurrency : Option ℕ

-- `Context::fan_out`, behind its assertion.
unfoldable pub fan_out :
    {I : Type 0} → Text → List I → Outcome EngineError (FanOutBuilder I CollectAll)
fan_out key items =
    if contains key slash
    then panic
    else ok (record { key = key; items = items; concurrency = none })

unfoldable pub concurrency : {I Mode : Type 0} → ℕ → FanOutBuilder I Mode → FanOutBuilder I Mode
concurrency n b = record b { concurrency = some n }

unfoldable pub fail_fast : {I : Type 0} → FanOutBuilder I CollectAll → FanOutBuilder I FailFast
fail_fast b = record { key = b.key; items = b.items; concurrency = b.concurrency }

unfoldable pub effective_concurrency : {I Mode : Type 0} → FanOutBuilder I Mode → ℕ
effective_concurrency b = elim b.concurrency [
  | none ↦ if ltb 1 (length b.items) then length b.items else 1
  | some n ↦ n
]

abbrev pub step_key_of : Text → Text
step_key_of key = text "_fanout:" ++ key

-- After which joined task the collection aborts the others.
abbrev stops_all : {T : Type 0} → Joined T → Bool
stops_all (panicked _) = true
stops_all _ = false

abbrev stops_fast : {T : Type 0} → Joined T → Bool
stops_fast (finished _ _) = false
stops_fast _ = true

module _ ⦃x : External⦄ where
  unfoldable pub write_manifest : Payload FanOutManifest → Text → List Text → Workflow (Unit {0})
  unfolding replace serialize_step write_step
  write_manifest q fan_out_step_key ids = do
    let key = replace fan_out_step_key (text "_fanout:") (text "_fanout_manifest:")
    let manifest : FanOutManifest = record { child_instance_ids = ids; count = length ids }
    composite ← gets (key_of key)
    bytes ← lift (serialize_step q (completed manifest none) key)
    in_shared (with_db (write_step composite bytes))

  unfoldable pub serialize_items :
      {I : Type 0} → Payload I → List I → Outcome EngineError (List Bytes)
  unfolding serialize_step
  serialize_items p [] = ok []
  serialize_items p (item ∷ rest) =
      and_then (serialize_step p (completed item none) (text "_input"))
        λ bytes. and_then (serialize_items p rest) (λ others. ok (bytes ∷ others))

  -- What the four methods share around their tasks and the collection of the results.
  abbrev pub start :
      {I Mode R : Type 0}
      → Payload FanOutManifest
      → Payload R
      → FanOutBuilder I Mode
      → (List Text → Workflow R)
      → Workflow R
  start q p b children = do
    modify stop_replaying
    ids ← gets (λ f. child_ids f.context.instance_id b.key (length b.items))
    write_manifest q (step_key_of b.key) ids
    results ← children ids
    write_result p (step_key_of b.key) results
    pure results

  abbrev pub or_start : {R : Type 0} → Workflow R → Option R → Workflow R
  or_start m none = m
  or_start m (some results) = pure results

  unfoldable pub with_cache :
      {I Mode R : Type 0}
      → Payload FanOutManifest
      → Payload R
      → FanOutBuilder I Mode
      → (List Text → Workflow R)
      → Workflow R
  unfolding child_ids write_manifest write_result check_cached
  with_cache q p b children = check_cached p (step_key_of b.key) >>= or_start (start q p b children)

  abbrev inline_children :
      {I Mode T : Type 0}
      → Runtime
      → (Joined T → Bool)
      → ℕ
      → Payload T
      → FanOutBuilder I Mode
      → (I → Workflow T)
      → List Text
      → Workflow (List (Joined T))
  inline_children runtime stops now p b closure ids = do
    w ← gets (λ f. f.context.workflow_name)
    in_shared
        (spawn_inline_tasks runtime stops now p w ids b.items closure (effective_concurrency b))

  abbrev workflow_children :
      {I Mode T : Type 0}
      → Runtime
      → (Joined T → Bool)
      → Payload I
      → Payload T
      → FanOutBuilder I Mode
      → WorkflowDef
      → List Text
      → Workflow (List (Joined T))
  workflow_children runtime stops i p b def ids = do
    items_bytes ← lift (serialize_items i b.items)
    in_shared
        (spawn_workflow_tasks runtime stops p def.name ids items_bytes (effective_concurrency b))

  abbrev collected :
      {T : Type 0} → List Text → Workflow (List (Joined T)) → Workflow (List (Collected T))
  collected ids m = do joined ← m; lift (collect_all joined (length ids) ids)

  abbrev collected_fast : {T : Type 0} → List Text → Workflow (List (Joined T)) → Workflow (List T)
  collected_fast ids m = do joined ← m; lift (collect_fail_fast joined (length ids))

  -- `run` and `workflow` of the collect-all mode, and of the fail-fast mode.
  unfoldable pub run_collect_all :
      {I T : Type 0}
      → Runtime
      → ℕ
      → Payload FanOutManifest
      → Payload T
      → Payload (List (Collected T))
      → FanOutBuilder I CollectAll
      → (I → Workflow T)
      → Workflow (List (Collected T))
  unfolding with_cache spawn_inline_tasks collect_all effective_concurrency
  run_collect_all runtime now q p r b closure =
      with_cache q r b
        (λ ids. collected ids (inline_children runtime stops_all now p b closure ids))

  unfoldable pub workflow_collect_all :
      {I T : Type 0}
      → Runtime
      → Payload FanOutManifest
      → Payload I
      → Payload T
      → Payload (List (Collected T))
      → FanOutBuilder I CollectAll
      → WorkflowDef
      → Workflow (List (Collected T))
  unfolding with_cache serialize_items spawn_workflow_tasks collect_all effective_concurrency
  workflow_collect_all runtime q i p r b def =
      with_cache q r b (λ ids. collected ids (workflow_children runtime stops_all i p b def ids))

  unfoldable pub run_fail_fast :
      {I T : Type 0}
      → Runtime
      → ℕ
      → Payload FanOutManifest
      → Payload T
      → Payload (List T)
      → FanOutBuilder I FailFast
      → (I → Workflow T)
      → Workflow (List T)
  unfolding with_cache spawn_inline_tasks collect_fail_fast effective_concurrency
  run_fail_fast runtime now q p r b closure =
      with_cache q r b
        (λ ids. collected_fast ids (inline_children runtime stops_fast now p b closure ids))

  unfoldable pub workflow_fail_fast :
      {I T : Type 0}
      → Runtime
      → Payload FanOutManifest
      → Payload I
      → Payload T
      → Payload (List T)
      → FanOutBuilder I FailFast
      → WorkflowDef
      → Workflow (List T)
  unfolding with_cache serialize_items spawn_workflow_tasks collect_fail_fast effective_concurrency
  workflow_fail_fast runtime q i p r b def =
      with_cache q r b
        (λ ids. collected_fast ids (workflow_children runtime stops_fast i p b def ids))
