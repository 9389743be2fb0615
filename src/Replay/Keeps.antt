-- ===== src/Replay/Keeps.antt =====
-- What a run of a program keeps of the journal, whatever it ends with.
use memable.Prelude.{
  ℕ, ◌≡◌, refl, ap, ◌∙◌, sym, subst, arith, Option, some, inl, inr, Bool-cases, if◌then◌else◌,
}
use memable.Text.{Text, text_eq, text_eq→≡}
use memable.Outcome.{Outcome, ok, err, panic, ◌>>=◌, continue}
use memable.Error.{EngineError}
use memable.Journal.{Bytes, completed}
use memable.External.{External}
use memable.Context.Journal.{SameInstance, Idle}
use memable.Codec.{serialize_step}
use memable.Context
use memable.Context.{Frame, Workflow, key_of}
use memable.Context.Step.{StepBuilder, Attempt, run}
use memable.Context.Suspend.{execute_suspend}
use memable.Context.Timer.{timer}
use memable.Replay.{Types, Program, interpret}
use memable.Replay.Entries.{
  ReadsAsDone, Written, Journaled, at_unit, from_unit, completed-ReadsAsDone,
}
use memable.Replay.Writes.{Wrote}
use memable.Replay.Steps.{run-Wrote, run-ReadsAsDone}
use memable.Replay.Waits.{execute_suspend-Wrote, execute_suspend-ReadsAsDone}
use memable.Replay.Timers.{timer-Wrote, timer-ReadsAsDone}

module _ ⦃x : External⦄ (u : Types) where
  -- The bytes are those of a completed step of one of the types.
  pub record Done (bytes : Bytes) : Type 0 where
    pub type : u.Ty
    pub value : u.El type
    pub status : Option Text
    pub key : Text
    pub serialized : serialize_step (u.payload type) (completed value status) key ≡ ok bytes

  -- Every completed step of the first table is in the second with the same bytes.
  abbrev pub Kept : x.texts.Table → x.texts.Table → Type 0
  Kept s s' = (k : Text) (b : Bytes) → x.texts.get s k ≡ some b → Done b → x.texts.get s' k ≡ some b

  -- What every run, finished or not, does to the frame that it starts in.
  pub record Extends (f g : Frame) : Type 0 where
    pub instance : SameInstance f g
    pub kept : Kept f.shared.db.steps g.shared.db.steps
    pub journaled : Journaled u f.shared.db.steps → Journaled u g.shared.db.steps

  pub Extends-refl : (f : Frame) → Extends f f
  Extends-refl f = record { instance = (refl, refl); kept = λ k b q d. q; journaled = λ j. j }

  pub Extends-trans : (f g k : Frame) → Extends f g → Extends g k → Extends f k
  Extends-trans f g k a b = record {
    instance = (b.instance.0 ∙ a.instance.0, b.instance.1 ∙ a.instance.1);
    kept = λ n c q d. b.kept n c (a.kept n c q d) d;
    journaled = λ j. b.journaled (a.journaled j);
  }

  Done-ReadsAsDone :
      (t : u.Ty) (key : Text) (bytes : Bytes) → Done bytes → ReadsAsDone (u.payload t) key bytes
  Done-ReadsAsDone t key bytes d =
      completed-ReadsAsDone u d.type t d.value d.status d.key key bytes d.serialized

  pub insert-Journaled :
      (s : x.texts.Table) (k : Text) (b : Bytes)
      → Written u b
      → Journaled u s
      → Journaled u (x.texts.insert s k b)
  insert-Journaled s k b w j n c q = elim (Bool-cases (text_eq k n)) [
    | inl e ↦ subst (Written u) (ground (arith, x.texts.get-insert s k n b)) w
    | inr e ↦ j n c (ground (arith, x.texts.get-insert s k n b))
  ]

  Wrote-Extends :
      (t : u.Ty) (key : Text) (f g : Frame)
      → Wrote (u.payload t) key f g
      → ((bytes : Bytes)
          → x.texts.get f.shared.db.steps (key_of key f) ≡ some bytes
          → ReadsAsDone (u.payload t) key bytes
          → Idle f g)
      → Extends f g
  Wrote-Extends t key f g (same, inl e) done = record {
    instance = same;
    kept = λ k b q d. ap (λ s. x.texts.get s k) e ∙ q;
    journaled = subst (Journaled u) (sym e);
  }
  Wrote-Extends t key f g (same, inr (content, bytes, w, e)) done = record {
    instance = same;
    kept = λ k b q d. elim (Bool-cases (text_eq (key_of key f) k)) [
      | inl own ↦
          let there : x.texts.get f.shared.db.steps (key_of key f) ≡ some b =
            ap (x.texts.get f.shared.db.steps) (text_eq→≡ _ _ own) ∙ q in
          ap (λ s. x.texts.get s k) (done b there (Done-ReadsAsDone t key b d)).1 ∙ q
      | inr other ↦
          ap (λ s. x.texts.get s k) e
          ∙ x.texts.get-insert f.shared.db.steps (key_of key f) k bytes
          ∙ ap (λ c. if c then some bytes else x.texts.get f.shared.db.steps k) other
          ∙ q
    ];
    journaled = λ j. subst (Journaled u) (sym e) (
        insert-Journaled f.shared.db.steps (key_of key f) bytes
          (record { type = t; content = content; key = key; serialized = w }) j);
  }

  pub run-Extends :
      (t : u.Ty) (b : StepBuilder) (closure : ℕ → Attempt (u.El t)) (f : Frame)
      → Extends f (run b (u.payload t) closure f).1
  run-Extends t b closure f =
      Wrote-Extends t b.key f _ (run-Wrote b (u.payload t) closure f)
        (λ bytes q r. run-ReadsAsDone b (u.payload t) closure f bytes q r)

  pub execute_suspend-Extends :
      (t : u.Ty) (key : Text) (msg : Option Text) (f : Frame)
      → Extends f (execute_suspend key msg (u.payload t) f).1
  execute_suspend-Extends t key msg f =
      Wrote-Extends t key f _ (execute_suspend-Wrote key msg (u.payload t) f)
        (λ bytes q r. execute_suspend-ReadsAsDone key msg (u.payload t) f bytes q r)

  pub timer-Extends :
      (now_ms : ℕ) (key : Text) (duration : ℕ) (f : Frame)
      → Extends f (timer now_ms key duration f).1
  timer-Extends now_ms key duration f =
      Wrote-Extends u.unit key f _
        (from_unit u (λ T p. Wrote p key f (timer now_ms key duration f).1)
          (timer-Wrote now_ms key duration f))
        (λ bytes q r.
          timer-ReadsAsDone now_ms key duration f bytes q
            (at_unit u (λ T p. ReadsAsDone p key bytes) r))

  pub set_status-Extends : (msg : Text) (f : Frame) → Extends f (Context.set_status msg f)
  unfolding Context.set_status
  set_status-Extends msg f = record {
    instance = (ground arith, ground arith);
    kept = λ k b q d. ap (λ d. x.texts.get d.steps k) db ∙ q;
    journaled = subst (λ d. Journaled u d.steps) (sym db);
  }
    where
      db : (Context.set_status msg f).shared.db ≡ f.shared.db
      db = ground arith

  -- What follows a call: nothing, when it does not return.
  then-Extends :
      {A B : Type 0} (f : Frame) (m : Workflow A) (k : A → Workflow B)
      → Extends f (m f).1
      → ((a : A) (g : Frame) → Extends g (k a g).1)
      → Extends f ((m >>= k) f).1
  then-Extends {A = A} f m k e rest = of (m f).0
    where
      of : (r : Outcome EngineError A) → Extends f (continue r k (m f).1).1
      of (ok a) = Extends-trans f _ _ e (rest a _)
      of (err c) = e
      of panic = e

  -- Whatever faults the storage has, however a run of a program ends, the frame is of the same
  -- instance, every completed step keeps its bytes, and a table whose entries were all written by
  -- steps stays one.
  pub interpret-Extends :
      {World A : Type 0} (w : World) (p : Program u World A) (f : Frame)
      → Extends f (interpret w p f).1
  unfolding interpret
  interpret-Extends w (Program.done a) f = Extends-refl f
  interpret-Extends w (Program.fail e) f = Extends-refl f
  interpret-Extends w (Program.set_status msg rest) f =
      let e = set_status-Extends msg f in Extends-trans f _ _ e (interpret-Extends w rest _)
  interpret-Extends w (Program.step t b closure next) f =
      then-Extends f (run b (u.payload t) (closure w)) (λ v. interpret w (next v))
        (run-Extends t b (closure w) f) (λ v g. interpret-Extends w (next v) g)
  interpret-Extends w (Program.suspend t key msg next) f =
      then-Extends f (execute_suspend key msg (u.payload t)) (λ v. interpret w (next v))
        (execute_suspend-Extends t key msg f) (λ v g. interpret-Extends w (next v) g)
  interpret-Extends w (Program.timer clock key duration rest) f =
      then-Extends f (timer (clock w) key duration) (λ _. interpret w rest)
        (timer-Extends (clock w) key duration f) (λ _ g. interpret-Extends w rest g)
