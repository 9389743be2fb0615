-- ===== src/Tests/Demo.antt =====
-- The libraries of the tests: tables as association lists, prefix codes, channels as pairs.
use memable.Prelude.{
  ℕ, zero, suc, ◌-◌, ◌≡◌, refl, arith, ◌⊎◌, ◌↔◌, inl, inr, true, Option, none, some, [], ◌∷◌, ◌==◌,
  if◌then◌else◌,
}
use memable.Text.{Text, text_eq, text_eq_iff, text_lt}
use memable.Status
use memable.Status.{MetadataStatus, WorkflowMetadata}
use memable.Journal.{StepData, StepState, StepEnvelope, TimerEntry}
use memable.External.{TimerKey, timer_eq, timer_lt, Watch, Payload, External}
use memable.Tests.Codes.{Code, number, nothing, string, both, either, along, format}
use memable.Tests.Tables.{table}

pub timer_eq_iff : (a b : TimerKey) → (timer_eq a b ≡ true) ↔ (a ≡ b)
timer_eq_iff a b = (same a b, λ e. ground arith)
  where
    same : (a b : TimerKey) → timer_eq a b ≡ true → a ≡ b
    same (m, n) (i, j) h = ground arith

module _ {V : Type 0} where
  -- A value and the number of receivers.
  abbrev send_to : V × ℕ → V → V × ℕ
  send_to c v = (if c.1 == 0 then c.0 else v, c.1)

  abbrev watch : Watch V
  watch = record {
    Channel = V × ℕ;
    channel = λ v. (v, 0);
    borrow = λ c. c.0;
    receiver_count = λ c. c.1;
    subscribe = λ c. (c.0, suc c.1);
    drop_receiver = λ c. (c.0, c.1 - 1);
    send = send_to;
    send_quietly = λ c v. (v, c.1);
    borrow-channel = λ v. refl;
    borrow-subscribe = λ c. refl;
    borrow-drop_receiver = λ c. refl;
    borrow-send = λ c v. refl;
    borrow-send_quietly = λ c v. refl;
    receiver_count-channel = λ v. refl;
    receiver_count-subscribe = λ c. refl;
    receiver_count-drop_receiver = λ c. refl;
    receiver_count-send = λ c v. refl;
    receiver_count-send_quietly = λ c v. refl;
  }

abbrev opt : {A : Type 0} → Unit {0} ⊎ A → Option A
opt (inl _) = none
opt (inr a) = some a

abbrev of_opt : {A : Type 0} → Option A → Unit {0} ⊎ A
of_opt none = inl tt
of_opt (some a) = inr a

pub opt_lem : {A : Type 0} (o : Option A) → opt (of_opt o) ≡ o
opt_lem none = refl
opt_lem (some a) = refl

abbrev pub optional : {A : Type 0} → Code A → Code (Option A)
optional c = along (either nothing c) of_opt opt opt_lem

abbrev Status3 : Type 0
Status3 = Unit {0} ⊎ ((Text × Text) ⊎ (Option Text ⊎ Text))

abbrev to_status : Status3 → MetadataStatus
to_status (inl _) = Status.running
to_status (inr (inl (key, msg))) = Status.suspended key msg
to_status (inr (inr (inl msg))) = Status.completed msg
to_status (inr (inr (inr msg))) = Status.failed msg

abbrev of_status : MetadataStatus → Status3
of_status Status.running = inl tt
of_status (Status.suspended key msg) = inr (inl (key, msg))
of_status (Status.completed msg) = inr (inr (inl msg))
of_status (Status.failed msg) = inr (inr (inr msg))

pub status_lem : (s : MetadataStatus) → to_status (of_status s) ≡ s
status_lem Status.running = refl
status_lem (Status.suspended key msg) = refl
status_lem (Status.completed msg) = refl
status_lem (Status.failed msg) = refl

abbrev status : Code MetadataStatus
status =
    along (either nothing (either (both string string) (either (optional string) string))) of_status
      to_status status_lem

abbrev metadata : Code WorkflowMetadata
metadata =
    along (both status (optional number)) (λ m. (m.status, m.completed_at))
      (λ (s, at). record { status = s; completed_at = at }) (λ m. refl)

abbrev of_state : StepState → ℕ
of_state StepState.suspended = 0
of_state StepState.completed = 1
of_state StepState.failed = 2

abbrev to_state : ℕ → StepState
to_state zero = StepState.suspended
to_state (suc zero) = StepState.completed
to_state (suc (suc n)) = StepState.failed

pub state_lem : (s : StepState) → to_state (of_state s) ≡ s
state_lem StepState.suspended = refl
state_lem StepState.completed = refl
state_lem StepState.failed = refl

abbrev envelope : Code StepEnvelope
envelope =
    along (both (along number of_state to_state state_lem) (both (optional string) string))
      (λ e. (e.state, (e.type_tag, e.payload)))
      (λ (s, (t, p)). record { state = s; type_tag = t; payload = p }) (λ e. refl)

abbrev timer_entry : Code TimerEntry
timer_entry =
    along (both string (both string string)) (λ e. (e.workflow_name, (e.instance_id, e.step_key)))
      (λ (w, (i, k)). record { workflow_name = w; instance_id = i; step_key = k }) (λ e. refl)

module _ {T : Type 0} (c : Code T) where
  abbrev of_data : StepData T → (T × Option Text) ⊎ (Unit {0} ⊎ Text)
  of_data (StepData.completed v s) = inl (v, s)
  of_data StepData.suspended = inr (inl tt)
  of_data (StepData.failed e) = inr (inr e)

  abbrev to_data : (T × Option Text) ⊎ (Unit {0} ⊎ Text) → StepData T
  to_data (inl (v, s)) = StepData.completed v s
  to_data (inr (inl _)) = StepData.suspended
  to_data (inr (inr e)) = StepData.failed e

  pub data_lem : (d : StepData T) → to_data (of_data d) ≡ d
  data_lem (StepData.completed v s) = refl
  data_lem StepData.suspended = refl
  data_lem (StepData.failed e) = refl

  abbrev pub payload : Text → Payload T
  payload name = record {
    type_name = name;
    step_data = format (
        along (either (both c (optional string)) (either nothing string)) of_data to_data data_lem);
  }

-- `u64` and `()`.
abbrev pub u64 : Payload ℕ
u64 = payload number (117 ∷ [])

abbrev pub unit : Payload (Unit {0})
unit = payload nothing (40 ∷ [])

instance abbrev pub demo : External
demo = record {
  texts = table text_eq text_lt text_eq_iff;
  timers = table timer_eq timer_lt timer_eq_iff;
  watch = watch;
  envelope = format envelope;
  metadata = format metadata;
  timer_entry = format timer_entry;
  unit = unit;
}
