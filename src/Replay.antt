-- ===== src/Replay.antt =====
-- Workflows that are written with the operations of src/context.rs: a program calls steps, suspend
-- points, timers and `set_status`, and goes on with what they return. What a closure does and what
-- the clock shows may differ from run to run; they depend on the `World` of the run. Everything else
-- of a program is fixed, which is what the engine asks of a workflow.
pub mod Entries
mod Writes
mod Steps
mod Waits
mod Timers
pub mod Keeps
pub mod Again
pub mod Recovery
pub mod Rerun
pub mod Cycle
pub mod Waking
pub mod Parks
pub mod Progress
use memable.Prelude.{ℕ, ◌≡◌, true, Option, inr}
use memable.Text.{Text, text_eq}
use memable.Outcome.{Outcome, ok, ◌>>=◌, ◌>>◌, pure, Exec, modify}
use memable.Outcome
use memable.Error.{EngineError}
use memable.Journal.{Bytes, StepData, suspended, failed}
use memable.External.{External, Payload}
use memable.Context
use memable.Context.{Frame, Workflow}
use memable.Context.Step.{StepBuilder, Attempt, run}
use memable.Context.Suspend.{execute_suspend}
use memable.Context.Timer

-- The types that the steps of an engine store, with their names, which tell them apart. postcard
-- writes the variants without a payload of type `T` alike for every `T`.
pub record Types ⦃x : External⦄ : Type 1 where
  pub Ty : Type 0
  pub El : Ty → Type 0
  pub payload : (t : Ty) → Payload (El t)
  pub name_injective :
      (s t : Ty) → text_eq (payload s).type_name (payload t).type_name ≡ true → s ≡ t
  pub suspended_as :
      (s t : Ty) (b : Bytes)
      → (payload s).step_data.to_allocvec suspended ≡ inr b
      → (payload t).step_data.from_bytes b ≡ inr suspended
  pub failed_as :
      (s t : Ty) (e : Text) (b : Bytes)
      → (payload s).step_data.to_allocvec (failed e) ≡ inr b
      → (payload t).step_data.from_bytes b ≡ inr (failed e)
  pub unit : Ty
  -- the type that timers store is one of them
  pub unit_lem : ◌≡◌ {A = (T : Type 0) × Payload T} (El unit, payload unit) (Unit {0}, x.unit)

module _ ⦃x : External⦄ (u : Types) (World : Type 0) where
  pub data Program (A : Type 0) : Type 0 where
    done : A → Program A
    fail : EngineError → Program A
    set_status : Text → Program A → Program A
    step :
        (t : u.Ty) → StepBuilder → (World → ℕ → Attempt (u.El t)) → (u.El t → Program A) → Program A
    suspend : (t : u.Ty) → Text → Option Text → (u.El t → Program A) → Program A
    timer : (World → ℕ) → Text → ℕ → Program A → Program A

module _ ⦃x : External⦄ {u : Types} {World : Type 0} where
  unfoldable pub interpret : {A : Type 0} → World → Program u World A → Workflow A
  interpret w (Program.done a) = pure a
  interpret w (Program.fail e) = Outcome.fail e
  interpret w (Program.set_status msg rest) = do modify (Context.set_status msg); interpret w rest
  interpret w (Program.step t b closure next) =
      run b (u.payload t) (closure w) >>= λ v. interpret w (next v)
  interpret w (Program.suspend t key msg next) =
      execute_suspend key msg (u.payload t) >>= λ v. interpret w (next v)
  interpret w (Program.timer clock key duration rest) =
      Context.Timer.timer (clock w) key duration >>= λ _. interpret w rest

  -- The run has come to the rest of the program: what was called so far has returned.
  pub data Reaches {A : Type 0} (w : World)
      : Program u World A → Frame → Program u World A → Frame → Type 0 where
    here : {p : Program u World A} {f : Frame} → Reaches w p f p f
    status_set :
        {p q : Program u World A} {f g : Frame} (msg : Text)
        → Reaches w p (Context.set_status msg f) q g
        → Reaches w (Program.set_status msg p) f q g
    stepped :
        {q : Program u World A} {f f' g : Frame} (t : u.Ty) (b : StepBuilder)
        (closure : World → ℕ → Attempt (u.El t)) (next : u.El t → Program u World A) (v : u.El t)
        → run b (u.payload t) (closure w) f ≡ (ok v, f')
        → Reaches w (next v) f' q g
        → Reaches w (Program.step t b closure next) f q g
    signalled :
        {q : Program u World A} {f f' g : Frame} (t : u.Ty) (key : Text) (msg : Option Text)
        (next : u.El t → Program u World A) (v : u.El t)
        → execute_suspend key msg (u.payload t) f ≡ (ok v, f')
        → Reaches w (next v) f' q g
        → Reaches w (Program.suspend t key msg next) f q g
    fired :
        {p q : Program u World A} {f f' g : Frame} (clock : World → ℕ) (key : Text) (duration : ℕ)
        → Context.Timer.timer (clock w) key duration f ≡ (ok tt, f')
        → Reaches w p f' q g
        → Reaches w (Program.timer clock key duration p) f q g
