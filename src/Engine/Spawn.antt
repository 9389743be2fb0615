-- ===== src/Engine/Spawn.antt =====
-- Spawning an instance: `spawn_workflow` on every branch.
use memable.Prelude.{
  ◌≡◌, refl, ap, ◌∙◌, arith, true, false, Option, none, some, inl, inr, List, [], ◌∷◌, ◌++◌, map,
}
use memable.Text.{Text, text, slash, contains, text_eq_refl}
use memable.Outcome.{ok, err, Outcome-cases}
use memable.Error.{EngineError}
use memable.Status
use memable.Status.{WorkflowMetadata, is_running, new}
use memable.Journal.{Bytes}
use memable.External.{External}
use memable.Store.{Tables, Database, IsHealthy}
use memable.Keys.{meta_key, composite_key}
use memable.Metadata.{encode_metadata, decode_entry, read_metadata, put_meta}
use memable.Metadata.Laws.{read_metadata-IsHealthy, decode-encode_metadata}
use memable.Shared.{Shared, Task, is_registered, get_or_create_sender, spawn_workflow_task}
use memable.Execution.{validate_key_component}
use memable.Execution.Finish.{Serialises}
use memable.Engine.{Invocation, write_invocation, put_input, check_ready, launch, spawn_workflow}

-- Whose task it is.
abbrev pub owner : Task → Text × Text
owner t = (t.workflow_name, t.instance_id)

module _ ⦃x : External⦄ where
  pub write_invocation-IsHealthy :
      (w i : Text) (input : Option Bytes) (bytes : Bytes) (d : Database)
      → IsHealthy d
      → encode_metadata (meta_key w i) (new 0 Status.running) ≡ ok bytes
      → write_invocation w i input d ≡ (
        ok tt,
        record d {
          tables =
              put_input
                (composite_key w i (text "_input"))
                input
                (put_meta (meta_key w i) bytes d.tables);
        },
      )
  unfolding write_invocation
  write_invocation-IsHealthy w i input bytes d h e = ground arith

  write_invocation_err :
      (w i : Text) (input : Option Bytes) (d : Database) (e : EngineError)
      → (write_invocation w i input d).0 ≡ err e
      → (write_invocation w i input d).1.tables ≡ d.tables
  unfolding write_invocation
  write_invocation_err w i input d e h =
      elim (Outcome-cases (encode_metadata (meta_key w i) (new 0 Status.running))) [
        | inl (b, q) ↦ ground arith
        | inr (inl (c, q)) ↦ ground arith
        | inr (inr q) ↦ ground arith
      ]

  -- An invocation that is refused, or whose write fails, has queued no task, made no sender and
  -- written nothing.
  pub spawn_workflow_err :
      (w i : Text) (input : Option Bytes) (s : Shared) (e : EngineError)
      → (spawn_workflow w i input s).0 ≡ err e
      → let s' = (spawn_workflow w i input s).1 in
        (s'.db.tables ≡ s.db.tables)
        × (s'.tasks ≡ s.tasks)
        × (s'.senders ≡ s.senders)
        × (s'.channels ≡ s.channels)
  unfolding spawn_workflow launch
  spawn_workflow_err w i input s e h = ground (arith, write_invocation_err w i input s.db)

  -- What an invocation that succeeds leaves behind.
  pub record Launched (w i : Text) (before after : Shared) : Type 0 where
    pub queued : map owner after.tasks ≡ map owner before.tasks ++ (w, i) ∷ []
    pub healthy : IsHealthy after.db
    pub running : after.running ≡ before.running
    pub workflows : after.workflows ≡ before.workflows

  map-append : (ts us : List Task) → map owner (ts ++ us) ≡ map owner ts ++ map owner us
  map-append [] us = refl
  map-append (t ∷ ts) us = ap (λ r. owner t ∷ r) (map-append ts us)

  get_or_create_sender_keeps :
      (i : Text) (s : Shared)
      → let s' = (get_or_create_sender i s).1 in
        (s'.db ≡ s.db)
        × (s'.tasks ≡ s.tasks)
        × (s'.running ≡ s.running)
        × (s'.workflows ≡ s.workflows)
  unfolding get_or_create_sender
  get_or_create_sender_keeps i s = ground arith

  pub db-launch : (w i : Text) (s : Shared) → (launch w i s).1.db ≡ s.db
  unfolding launch spawn_workflow_task
  db-launch w i s = (get_or_create_sender_keeps i s).0

  pub launch-Launched : (w i : Text) (s : Shared) → IsHealthy s.db → Launched w i s (launch w i s).1
  unfolding launch spawn_workflow_task
  launch-Launched w i s h =
      let (db, tasks, running, workflows) = get_or_create_sender_keeps i s in
      record {
        queued = map-append _ _ ∙ ap (λ ts. map owner ts ++ (w, i) ∷ []) tasks;
        healthy = ap (λ d. d.faults) db ∙ h;
        running = running;
        workflows = workflows;
      }

  -- The engine takes the workflow: it runs, the name is registered and is a key component.
  pub record Accepts (w : Text) (s : Shared) : Type 0 where
    pub running : s.running ≡ true
    pub registered : is_registered w s.workflows ≡ true
    pub component : contains w slash ≡ false
    pub healthy : IsHealthy s.db

  pub spawn_workflow-launch :
      (w i : Text) (input : Option Bytes) (bytes : Bytes) (s : Shared)
      → Accepts w s
      → encode_metadata (meta_key w i) (new 0 Status.running) ≡ ok bytes
      → spawn_workflow w i input s
        ≡ launch w i (record s {
          db = record s.db {
            tables =
                put_input
                  (composite_key w i (text "_input"))
                  input
                  (put_meta (meta_key w i) bytes s.db.tables);
          };
        })
  unfolding spawn_workflow check_ready validate_key_component
  spawn_workflow-launch w i input bytes s a e = ground (
    arith,
    a.running,
    a.registered,
    a.component,
    write_invocation-IsHealthy w i input bytes s.db a.healthy e,
  )

  pub encodes :
      Serialises
      → (w i : Text) → (b : Bytes) × (encode_metadata (meta_key w i) (new 0 Status.running) ≡ ok b)
  unfolding encode_metadata
  encodes enc w i = let (b, e) = enc (new 0 Status.running) in (b, ground arith)

  read_running :
      (w i : Text) (bytes : Bytes) (d : Database)
      → IsHealthy d
      → encode_metadata (meta_key w i) (new 0 Status.running) ≡ ok bytes
      → x.texts.get d.meta (meta_key w i) ≡ some bytes
      → (read_metadata w i d).0 ≡ ok (some (new 0 Status.running))
  unfolding decode_entry
  read_running w i bytes d h e g = ground (
    arith,
    read_metadata-IsHealthy w i d h,
    decode-encode_metadata (meta_key w i) (meta_key w i) (new 0 Status.running) bytes e,
  )

  meta-put_input :
      (k : Text) (input : Option Bytes) (t : Tables) → (put_input k input t).meta ≡ t.meta
  meta-put_input k none t = refl
  meta-put_input k (some b) t = refl

  pub spawn-Launched :
      (w i : Text) (input : Option Bytes) (s : Shared)
      → Accepts w s
      → Serialises
      → Launched w i s (spawn_workflow w i input s).1
        × ((inv : Invocation) × ((spawn_workflow w i input s).0 ≡ ok inv))
  unfolding launch
  spawn-Launched w i input s a enc =
      let (bytes, e) = encodes enc w i in
      let s' : Shared = record s {
        db = record s.db {
          tables =
              put_input (composite_key w i (text "_input")) input
                (put_meta (meta_key w i) bytes s.db.tables);
        };
      } in
      let l = launch-Launched w i s' a.healthy in
      rw (spawn_workflow-launch w i input bytes s a e) (
        record {
          queued = l.queued;
          healthy = l.healthy;
          running = l.running;
          workflows = l.workflows;
        },
        (_, refl),
      )

  spawned_as_running :
      (w i : Text) (input : Option Bytes) (bytes : Bytes) (s : Shared)
      → Accepts w s
      → encode_metadata (meta_key w i) (new 0 Status.running) ≡ ok bytes
      → (read_metadata w i (spawn_workflow w i input s).1.db).0 ≡ ok (some (new 0 Status.running))
  unfolding launch spawn_workflow_task
  spawned_as_running w i input bytes s a e =
      let s' : Shared = record s {
        db = record s.db {
          tables =
              put_input (composite_key w i (text "_input")) input
                (put_meta (meta_key w i) bytes s.db.tables);
        };
      } in
      rw (spawn_workflow-launch w i input bytes s a e) (
        rw ((get_or_create_sender_keeps i s').0) (
          read_running w i bytes s'.db a.healthy e (
            ap (λ t. x.texts.get t (meta_key w i)) (meta-put_input _ input _)
            ∙ ground (
              arith,
              x.texts.get-insert s.db.meta (meta_key w i) (meta_key w i) bytes,
              text_eq_refl (meta_key w i),
            ))))

  -- On an engine that accepts the workflow (it runs, the name is registered and has no separator,
  -- the storage does not fail), when postcard serialises every metadata record, an invocation
  -- returns a handle, queues exactly one task, for its instance, and stores the instance as
  -- running.
  pub spawn_workflow-Launched :
      (w i : Text) (input : Option Bytes) (s : Shared)
      → Accepts w s
      → Serialises
      → let (r, s') = spawn_workflow w i input s in
        ((inv : Invocation) × (r ≡ ok inv))
        × (map owner s'.tasks ≡ map owner s.tasks ++ (w, i) ∷ [])
        × ((read_metadata w i s'.db).0 ≡ ok (some (new 0 Status.running)))
  spawn_workflow-Launched w i input s a enc =
      let (bytes, e) = encodes enc w i in
      let (l, there) = spawn-Launched w i input s a enc in
      (there, l.queued, spawned_as_running w i input bytes s a e)
