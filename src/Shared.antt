-- ===== src/Shared.antt =====
-- src/engine/mod.rs: `EngineShared`, and the sender map of src/engine/engine_impl.rs. A sender is the
-- number of its channel, so that the map and the contexts that hold a clone share the channel. A
-- registered workflow is represented by its name: what it does is an argument of the code that runs
-- it. A spawned task is an entry of `tasks`, which the Tokio runtime runs later.
pub mod Senders
use memable.Prelude.{
  ℕ, ◌+◌, Bool, true, Option, none, some, List, [], ◌∷◌, ◌++◌, ◌==◌, if◌then◌else◌,
}
use memable.Text.{Text, text_eq}
use memable.Outcome.{Exec}
use memable.Error.{EngineError}
use memable.State.{WorkflowState, started}
use memable.Retry.{RetryPolicy}
use memable.External.{External}
use memable.Store.{Database, Db}

pub record Task : Type 0 where
  pub workflow_name : Text
  pub instance_id : Text
  pub tx : ℕ

pub record Shared ⦃x : External⦄ : Type 0 where
  pub db : Database
  pub workflows : List Text
  pub running : Bool
  pub tasks : List Task
  pub timer_serial : ℕ
  pub default_retry : Option RetryPolicy
  pub senders : List (Text × ℕ)
  pub channels : ℕ → x.watch.Channel
  pub next_channel : ℕ

-- `HashMap<String, Sender>`.
unfoldable pub find_sender : Text → List (Text × ℕ) → Option ℕ
find_sender key [] = none
find_sender key ((k, tx) ∷ rest) = if text_eq k key then some tx else find_sender key rest

unfoldable pub remove_sender : Text → List (Text × ℕ) → List (Text × ℕ)
remove_sender key [] = []
remove_sender key ((k, tx) ∷ rest) =
    let others = remove_sender key rest in if text_eq k key then others else (k, tx) ∷ others

unfoldable pub insert_sender : Text → ℕ → List (Text × ℕ) → List (Text × ℕ)
unfolding remove_sender
insert_sender key tx senders = (key, tx) ∷ remove_sender key senders

unfoldable pub is_registered : Text → List Text → Bool
is_registered name [] = Bool.false
is_registered name (w ∷ ws) = if text_eq w name then true else is_registered name ws

module _ ⦃x : External⦄ where
  abbrev pub Engine : Type 0 → Type 0
  Engine A = Exec EngineError Shared A

  abbrev pub with_db : {A : Type 0} → Db A → Engine A
  with_db m s = let (r, d) = m s.db in (r, record s { db = d })

  abbrev pub update : (ℕ → x.watch.Channel) → ℕ → x.watch.Channel → ℕ → x.watch.Channel
  update channels tx c i = if i == tx then c else channels i

  abbrev pub borrow : ℕ → Shared → WorkflowState
  borrow tx s = x.watch.borrow (s.channels tx)

  abbrev pub send : ℕ → WorkflowState → Shared → Shared
  send tx v s = record s { channels = update s.channels tx (x.watch.send (s.channels tx) v) }

  abbrev pub send_quietly : ℕ → WorkflowState → Shared → Shared
  send_quietly tx v s = record s {
    channels = update s.channels tx (x.watch.send_quietly (s.channels tx) v);
  }

  abbrev pub subscribe : ℕ → Shared → Shared
  subscribe tx s = record s { channels = update s.channels tx (x.watch.subscribe (s.channels tx)) }

  fresh_sender : Text → Shared → ℕ × Shared
  fresh_sender instance_id s = (
    s.next_channel,
    record s {
      channels = update s.channels s.next_channel (x.watch.channel started);
      next_channel = s.next_channel + 1;
      senders = insert_sender instance_id s.next_channel s.senders;
    },
  )

  unfoldable pub get_or_create_sender : Text → Shared → ℕ × Shared
  unfolding fresh_sender
  get_or_create_sender instance_id s = elim (find_sender instance_id s.senders) [
    | some tx ↦ (tx, send_quietly tx started s)
    | none ↦ fresh_sender instance_id s
  ]

  -- `spawn_workflow_task` up to the spawn: the task is queued with its own sender.
  unfoldable pub spawn_workflow_task : Text → Text → ℕ → Shared → Shared
  spawn_workflow_task workflow_name instance_id tx s = record s {
    tasks =
        s.tasks
        ++ record { workflow_name = workflow_name; instance_id = instance_id; tx = tx } ∷ [];
  }
