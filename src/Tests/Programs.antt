-- ===== src/Tests/Programs.antt =====
-- Programs for the tests: a step, and a suspend point that adds to its result.
use memable.Prelude.{ℕ, ◌+◌, ◌≡◌, refl, arith, Bool, true, false, none, inr, [], ◌∷◌}
use memable.Text.{Text, text_eq}
use memable.Outcome.{ok}
use memable.Journal.{Bytes, suspended, failed}
use memable.External.{Payload}
use memable.Store.{Database}
use memable.Context
use memable.Context.{Frame, called}
use memable.Context.Names.{SuspendPoint}
use memable.Context.Step.{Attempt, run}
use memable.Replay.{Types, Program, Reaches, here, stepped}
use memable.Replay.Entries.{Journaled}
use memable.Codec.{serialize_step}
use memable.Tests.Demo.{demo, u64, unit}
use memable.Tests.Scene.{
  engine, five_bytes, step_row, wf, inst, builder, frame, meta_row, waiting_bytes,
}

abbrev pub El : Bool → Type 0
El true = ℕ
El false = Unit {0}

abbrev pub payload : (t : Bool) → Payload (El t)
payload true = u64
payload false = unit

pub name_injective :
    (s t : Bool) → text_eq (payload s).type_name (payload t).type_name ≡ true → s ≡ t
unfolding text_eq
name_injective true true h = refl
name_injective true false h = ground arith
name_injective false true h = ground arith
name_injective false false h = refl

pub suspended_as :
    (s t : Bool) (b : Bytes)
    → (payload s).step_data.to_allocvec suspended ≡ inr b
    → (payload t).step_data.from_bytes b ≡ inr suspended
suspended_as true true b h = u64.step_data.round_trip suspended b h
suspended_as true false b h = unit.step_data.round_trip suspended b h
suspended_as false true b h = u64.step_data.round_trip suspended b h
suspended_as false false b h = unit.step_data.round_trip suspended b h

pub failed_as :
    (s t : Bool) (e : Text) (b : Bytes)
    → (payload s).step_data.to_allocvec (failed e) ≡ inr b
    → (payload t).step_data.from_bytes b ≡ inr (failed e)
failed_as true true e b h = u64.step_data.round_trip (failed e) b h
failed_as true false e b h = unit.step_data.round_trip (failed e) b h
failed_as false true e b h = u64.step_data.round_trip (failed e) b h
failed_as false false e b h = unit.step_data.round_trip (failed e) b h

abbrev pub types : Types
types = record {
  Ty = Bool;
  El = El;
  payload = payload;
  name_injective = name_injective;
  suspended_as = suspended_as;
  failed_as = failed_as;
  unit = false;
  unit_lem = refl;
}

-- The result of the step is what the world gives.
abbrev pub gives : ℕ → ℕ → Attempt ℕ
gives w n = record { elapsed = 0; result = ok w }

abbrev pub point_t : SuspendPoint
point_t = record { key = b't' ∷ [] }

abbrev pub adds : ℕ → Program types ℕ ℕ
adds v = Program.suspend true (b't' ∷ []) none (λ a. Program.done (v + a))

abbrev pub program : Program types ℕ ℕ
program = Program.step true builder gives adds

abbrev pub short : Program types ℕ ℕ
short = Program.step true builder gives Program.done

-- An instance whose metadata says that it is suspended, before its first step.
abbrev pub point_row : Text
point_row = b'w' ∷ b'/' ∷ b'i' ∷ b'/' ∷ b't' ∷ []

abbrev pub early_db : Database
early_db = record {
  tables = record { steps = []; meta = (meta_row, waiting_bytes) ∷ []; timers = [] };
  faults = [];
}

abbrev pub stepped_db : Database
stepped_db = record {
  tables = record {
    steps = (step_row, five_bytes) ∷ [];
    meta = (meta_row, waiting_bytes) ∷ [];
    timers = [];
  };
  faults = [];
}

abbrev pub stepped_frame : Frame
stepped_frame = record {
  context = record { workflow_name = wf; instance_id = inst; status_tx = 0; replaying = false };
  shared = engine stepped_db;
  effects = called 0 ∷ [];
}

pub first_run : run builder u64 (gives 5) (frame early_db) ≡ (ok 5, stepped_frame)
unfolding run memable.Context.Step.execute memable.Context.Step.attempts
    memable.Context.Step.effective_retry memable.Context.Step.timed memable.Context.Step.settle
    memable.Codec.serialize_step memable.Keys.composite_key Context.current_status_string
first_run = refl

pub reached : Reaches {u = types} 5 program (frame early_db) (adds 5) stepped_frame
reached = stepped true builder gives adds 5 first_run here

pub no_entries : Journaled types early_db.steps
no_entries k b q = ground arith
