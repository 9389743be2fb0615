-- ===== src/Replay/Again.antt =====
-- Calls that have returned, made again on a later journal of the same instance.
use memable.Prelude.{ℕ, ◌≡◌, refl, ◌∙◌, arith, Option, none, some, false}
use memable.Text.{Text}
use memable.Outcome.{ok}
use memable.External.{External, Payload}
use memable.Store.{IsHealthy}
use memable.Context
use memable.Context.{Frame, Workflow, key_of, restore_status, stop_replaying}
use memable.Context.Journal.{Stored, SameInstance}
use memable.Context.Names.{is_refused}
use memable.Context.Step.{StepBuilder, Attempt, run}
use memable.Context.Step.Memo.{run-Stored}
use memable.Context.Suspend.{execute_suspend}
use memable.Context.Timer.{timer}
use memable.Replay.{Types}
use memable.Replay.Entries.{Journaled, Written-Faithful}
use memable.Replay.Waits.{execute_suspend-Stored}
use memable.Replay.Timers.{timer-Stored}
use memable.Replay.Keeps.{Kept}

module _ ⦃x : External⦄ where
  -- The second frame has the first one's instance, database and effects.
  pub record Unmoved (f g : Frame) : Type 0 where
    pub instance : SameInstance f g
    pub db : g.shared.db ≡ f.shared.db
    pub effects : g.effects ≡ f.effects

  pub restore_status-Unmoved :
      (status : Option Text) (f : Frame) → Unmoved f (restore_status status f)
  unfolding restore_status
  restore_status-Unmoved none f = record { instance = (refl, refl); db = refl; effects = refl }
  restore_status-Unmoved (some msg) f = record {
    instance = (refl, refl);
    db = refl;
    effects = refl;
  }

  pub set_status-Unmoved : (msg : Text) (f : Frame) → Unmoved f (Context.set_status msg f)
  unfolding Context.set_status
  set_status-Unmoved msg f = record {
    instance = (ground arith, ground arith);
    db = ground arith;
    effects = ground arith;
  }

  pub Unmoved-trans : (f g k : Frame) → Unmoved f g → Unmoved g k → Unmoved f k
  Unmoved-trans f g k a b = record {
    instance = (b.instance.0 ∙ a.instance.0, b.instance.1 ∙ a.instance.1);
    db = b.db ∙ a.db;
    effects = b.effects ∙ a.effects;
  }

  -- A call that returned and is in the journal returns again, and moves nothing.
  abbrev pub Again : {A : Type 0} → Workflow A → A → Frame → Type 0
  Again m a g = (g' : Frame) × (m g ≡ (ok a, g')) × Unmoved g g'

  pub run-Again :
      {T : Type 0} (b : StepBuilder) (p : Payload T) (closure : ℕ → Attempt T) (v : T) (g : Frame)
      → IsHealthy g.shared.db
      → Stored p b.key v g
      → Again (run b p closure) v g
  run-Again b p closure v g h s =
      (_, run-Stored b p closure v g h s, restore_status-Unmoved s.status g)

  pub execute_suspend-Again :
      {T : Type 0} (key : Text) (msg : Option Text) (p : Payload T) (v : T) (g : Frame)
      → IsHealthy g.shared.db
      → Stored p key v g
      → Again (execute_suspend key msg p) v g
  execute_suspend-Again key msg p v g h s =
      let kept = restore_status-Unmoved s.status (stop_replaying g) in
      (
        _,
        execute_suspend-Stored key msg p g v h s,
        record { instance = kept.instance; db = kept.db; effects = kept.effects },
      )

  pub timer-Again :
      (now_ms : ℕ) (key : Text) (duration : ℕ) (g : Frame)
      → IsHealthy g.shared.db
      → is_refused key ≡ false
      → Stored x.unit key tt g
      → Again (timer now_ms key duration) tt g
  timer-Again now_ms key duration g h good s = (
    g,
    timer-Stored now_ms key duration g h good s,
    record { instance = (refl, refl); db = refl; effects = refl },
  )

module _ ⦃x : External⦄ (u : Types) where
  pub Stored-Kept :
      (t : u.Ty) (key : Text) (v : u.El t) (f g : Frame)
      → Stored (u.payload t) key v f
      → Journaled u f.shared.db.steps
      → SameInstance f g
      → Kept u f.shared.db.steps g.shared.db.steps
      → Stored (u.payload t) key v g
  Stored-Kept t key v f g s j same kept =
      let w = Written-Faithful u t s.bytes (j _ s.bytes s.found) key v s.status s.decoded in
      record {
        bytes = s.bytes;
        status = s.status;
        found = rw same.0 (
            rw same.1 (
              kept (key_of key f) s.bytes s.found
                (record { type = t; value = v; status = s.status; key = key; serialized = w })));
        decoded = s.decoded;
      }
