-- ===== src/Replay/Rerun.antt =====
-- A run that has returned, run again.
use memable.Prelude.{◌≡◌, ap, sym, arith, subst}
use memable.Outcome.{Outcome, ok, err, bind_ok}
use memable.Error.{EngineError}
use memable.External.{External}
use memable.Store.{IsHealthy}
use memable.Context
use memable.Context.{Frame, Workflow}
use memable.Context.Step.{run}
use memable.Context.Suspend.{execute_suspend}
use memable.Context.Timer.{timer}
use memable.Replay.{Types, Program, interpret, Reaches, here, status_set, stepped, signalled, fired}
use memable.Replay.Entries.{Journaled}
use memable.Context.Journal.{SameInstance}
use memable.Replay.Keeps.{Kept}
use memable.Replay.Again.{Unmoved}
use memable.Replay.Recovery.{Reaches-Reaches, interpret-rest}

module _ ⦃x : External⦄ where
  pair :
      {A : Type 0} (b : A) (f : Frame) (a : A) (g : Frame)
      → ◌≡◌ {A = Outcome EngineError A × Frame} (ok b, f) (ok a, g)
      → ◌≡◌ {A = A × Frame} (b, f) (a, g)
  pair {A = A} b f a g e = ap (λ o. (value o.0, o.1)) e
    where
      value : Outcome EngineError A → A
      value (ok c) = c
      value _ = b

module _ ⦃x : External⦄ (u : Types) {World A : Type 0} where
  -- A run that returns has come to its end.
  pub interpret_ok-Reaches :
      (w : World) (p : Program u World A) (f g : Frame) (a : A)
      → interpret w p f ≡ (ok a, g)
      → Reaches w p f (Program.done a) g
  unfolding interpret
  interpret_ok-Reaches w (Program.done b) f g a e =
      subst (λ o. Reaches {u = u} w (Program.done b) f (Program.done o.0) o.1) (pair b f a g e) here
  interpret_ok-Reaches w (Program.fail c) f g a e = absurd (failed c (ap (λ o. o.0) e))
    where
      failed : (c : EngineError) → err c ≡ ok a → ⊥
      failed c q = ground arith
  interpret_ok-Reaches w (Program.set_status msg p) f g a e =
      status_set msg (interpret_ok-Reaches w p (Context.set_status msg f) g a e)
  interpret_ok-Reaches w (Program.step t b closure next) f g a e =
      let (v, f', first, rest) =
        bind_ok f g (run b (u.payload t) (closure w)) (λ v. interpret w (next v)) a e in
      stepped t b closure next v first (interpret_ok-Reaches w (next v) f' g a rest)
  interpret_ok-Reaches w (Program.suspend t key msg next) f g a e =
      let (v, f', first, rest) =
        bind_ok f g (execute_suspend key msg (u.payload t)) (λ v. interpret w (next v)) a e in
      signalled t key msg next v first (interpret_ok-Reaches w (next v) f' g a rest)
  interpret_ok-Reaches w (Program.timer clock key duration p) f g a e =
      let (v, f', first, rest) =
        bind_ok f g (timer (clock w) key duration) (λ _. interpret w p) a e in
      fired clock key duration first (interpret_ok-Reaches w p f' g a rest)

  -- On a journal that steps have written: when a run of a program has returned a value, whatever
  -- faults its storage had, any run in a frame of the same instance whose storage does not fail and
  -- whose journal has kept the completed steps of the earlier run returns that value too, in whatever
  -- world; it calls no closure, does not sleep and leaves the database as it is.
  pub interpret-interpret :
      (w w' : World) (p : Program u World A) (f f' g : Frame) (a : A)
      → Journaled u f.shared.db.steps
      → interpret w p f ≡ (ok a, f')
      → SameInstance f g
      → IsHealthy g.shared.db
      → Kept u f'.shared.db.steps g.shared.db.steps
      → ((interpret w' p g).0 ≡ ok a) × Unmoved g (interpret w' p g).1
  interpret-interpret w w' p f f' g a j e same good kept =
      let c =
        Reaches-Reaches u w w' p (Program.done a) f f' g j (interpret_ok-Reaches w p f f' a e)
          (same, good, kept) in
      let ends : interpret w' p g ≡ (ok a, c.frame) =
        unfold interpret in interpret-rest u w' p (Program.done a) g c.frame c.reaches in
      (ap (λ o. o.0) ends, subst (λ o. Unmoved g o.1) (sym ends) c.unmoved)
