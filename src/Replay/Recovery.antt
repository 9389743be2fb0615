-- ===== src/Replay/Recovery.antt =====
-- Recovery: a new run of a program comes to where an earlier run of it came.
use memable.Prelude.{◌≡◌, refl, ap, ◌∙◌, sym, subst}
use memable.Text.{Text}
use memable.Outcome.{Outcome, ok, continue}
use memable.Error.{EngineError}
use memable.External.{External}
use memable.Store.{IsHealthy}
use memable.Context
use memable.Context.{Frame, Workflow}
use memable.Context.Journal.{Stored, SameInstance}
use memable.Context.Step.Memo.{run_ok-Stored}
use memable.Replay.{Types, Program, interpret, Reaches, here, status_set, stepped, signalled, fired}
use memable.Replay.Entries.{Journaled, at_unit, from_unit}
use memable.Replay.Waits.{execute_suspend_ok-Stored}
use memable.Replay.Timers.{timer_ok-Stored}
use memable.Replay.Keeps.{
  Kept, Extends, Extends-refl, Extends-trans, run-Extends, execute_suspend-Extends, timer-Extends,
  set_status-Extends,
}
use memable.Replay.Again.{
  Unmoved, Unmoved-trans, run-Again, execute_suspend-Again, timer-Again, Stored-Kept,
  set_status-Unmoved,
}

module _ ⦃x : External⦄ (u : Types) where
  -- Where a call has returned, what it did is what the call's frame says.
  Extends-along :
      {B : Type 0} (f g : Frame) (o : Outcome EngineError B × Frame) (b : B)
      → o ≡ (ok b, g)
      → Extends u f o.1
      → Extends u f g
  Extends-along f g o b q e = subst (Extends u f) (ap (λ o. o.1) q) e

  -- Where the earlier run has come, and the frame of the new run, which has its journal.
  abbrev pub Later : Frame → Frame → Frame → Type 0
  Later f f' g =
      SameInstance f g × IsHealthy g.shared.db × Kept u f'.shared.db.steps g.shared.db.steps

  Later-moved :
      (f f1 f' g g1 : Frame) → SameInstance f f1 → Unmoved g g1 → Later f f' g → Later f1 f' g1
  Later-moved f f1 f' g g1 same m (l, h, k) = (
    (m.instance.0 ∙ l.0 ∙ sym same.0, m.instance.1 ∙ l.1 ∙ sym same.1),
    ap (λ d. d.faults) m.db ∙ h,
    λ n b q d. ap (λ d. x.texts.get d.steps n) m.db ∙ k n b q d,
  )

module _ ⦃x : External⦄ (u : Types) where
  Stored-Later :
      (t : u.Ty) (key : Text) (v : u.El t) (f f1 f' g : Frame)
      → Extends u f f1
      → Extends u f1 f'
      → Journaled u f.shared.db.steps
      → Stored (u.payload t) key v f1
      → Later u f f' g
      → Stored (u.payload t) key v g
  Stored-Later t key v f f1 f' g a e j s (same, h, k) =
      Stored-Kept u t key v f1 g s (a.journaled j)
        (same.0 ∙ sym a.instance.0, same.1 ∙ sym a.instance.1) (λ n b q d. k n b (e.kept n b q d) d)

  fired-Later :
      (key : Text) (f f1 f' g : Frame)
      → Extends u f f1
      → Extends u f1 f'
      → Journaled u f.shared.db.steps
      → Stored x.unit key tt f1
      → Later u f f' g
      → Stored x.unit key tt g
  fired-Later key f f1 f' g a e j s l =
      let (v, kept) = from_unit u (λ T p. (v : T) × Stored p key v f1) (tt, s) in
      (at_unit u (λ T p. (v : T) × Stored p key v g)
        (v, Stored-Later u.unit key v f f1 f' g a e j kept l)).1

module _ ⦃x : External⦄ (u : Types) {World A : Type 0} where
  pub Extends-Reaches :
      (w : World) (p q : Program u World A) (f g : Frame) → Reaches w p f q g → Extends u f g
  Extends-Reaches w p q f g here = Extends-refl u f
  Extends-Reaches w (Program.set_status msg p) q f g (status_set _ r) =
      let e = set_status-Extends u msg f in Extends-trans u f _ g e (Extends-Reaches w p q _ g r)
  Extends-Reaches w (Program.step t b closure next) q f g (stepped {f' = f'} _ _ _ _ v e r) =
      let a = Extends-along u f f' _ v e (run-Extends u t b (closure w) f) in
      Extends-trans u f f' g a (Extends-Reaches w (next v) q f' g r)
  Extends-Reaches w (Program.suspend t key msg next) q f g (signalled {f' = f'} _ _ _ _ v e r) =
      let a = Extends-along u f f' _ v e (execute_suspend-Extends u t key msg f) in
      Extends-trans u f f' g a (Extends-Reaches w (next v) q f' g r)
  Extends-Reaches w (Program.timer clock key duration p) q f g (fired {f' = f'} _ _ _ e r) =
      let a = Extends-along u f f' _ tt e (timer-Extends u (clock w) key duration f) in
      Extends-trans u f f' g a (Extends-Reaches w p q f' g r)

  -- The rest of a run ends as the run does.
  pub interpret-rest :
      (w : World) (p q : Program u World A) (f g : Frame)
      → Reaches w p f q g
      → interpret w p f ≡ interpret w q g
  unfolding interpret
  interpret-rest w p q f g here = refl
  interpret-rest w (Program.set_status msg p) q f g (status_set _ r) = interpret-rest w p q _ g r
  interpret-rest w (Program.step t b closure next) q f g (stepped {f' = f'} _ _ _ _ v e r) =
      ap (λ o. continue o.0 (λ v. interpret w (next v)) o.1) e ∙ interpret-rest w (next v) q f' g r
  interpret-rest w (Program.suspend t key msg next) q f g (signalled {f' = f'} _ _ _ _ v e r) =
      ap (λ o. continue o.0 (λ v. interpret w (next v)) o.1) e ∙ interpret-rest w (next v) q f' g r
  interpret-rest w (Program.timer clock key duration p) q f g (fired {f' = f'} _ _ _ e r) =
      ap (λ o. continue o.0 (λ _. interpret w p) o.1) e ∙ interpret-rest w p q f' g r

  -- A new run in `g` comes to `q` without a call of a closure, a sleep or a write.
  pub record ComesTo (w : World) (p q : Program u World A) (g : Frame) : Type 0 where
    pub frame : Frame
    pub unmoved : Unmoved g frame
    pub reaches : Reaches w p g q frame

  come_to :
      (w : World) (p p' q : Program u World A) (g g1 : Frame)
      → Unmoved g g1
      → ((k : Frame) → Reaches w p' g1 q k → Reaches w p g q k)
      → ComesTo w p' q g1
      → ComesTo w p q g
  come_to w p p' q g g1 m step c = record {
    frame = c.frame;
    unmoved = Unmoved-trans g g1 c.frame m c.unmoved;
    reaches = step c.frame c.reaches;
  }

  -- On a journal that steps have written: where a run of a program has come, in whatever world and
  -- whatever faults its storage had, any run in a frame of the same instance comes as well, if its
  -- storage does not fail and its journal has kept the completed steps of the earlier run. It calls
  -- no closure, does not sleep and leaves the database as it is.
  pub Reaches-Reaches :
      (w w' : World) (p q : Program u World A) (f f' g : Frame)
      → Journaled u f.shared.db.steps
      → Reaches w p f q f'
      → Later u f f' g
      → ComesTo w' p q g
  Reaches-Reaches w w' p q f f' g j here l = record {
    frame = g;
    unmoved = record { instance = (refl, refl); db = refl; effects = refl };
    reaches = here;
  }
  Reaches-Reaches w w' (Program.set_status msg p) q f f' g j (status_set _ r) l =
      let e = set_status-Extends u msg f in
      let m = set_status-Unmoved msg g in
      come_to w' _ p q g (Context.set_status msg g) m (λ k. status_set msg)
        (Reaches-Reaches w w' p q _ f' (Context.set_status msg g) (e.journaled j) r (
          Later-moved u f (Context.set_status msg f) f' g (Context.set_status msg g) e.instance m
            l))
  Reaches-Reaches w w' (Program.step t b closure next) q f f' g j (stepped {f' = f1} _ _ _ _ v e r)
        l =
      let a = Extends-along u f f1 _ v e (run-Extends u t b (closure w) f) in
      let rest = Extends-Reaches w (next v) q f1 f' r in
      let s = run_ok-Stored b (u.payload t) (closure w) f f1 v e in
      let (g1, again, m) =
        run-Again b (u.payload t) (closure w') v g l.1
          (Stored-Later u t b.key v f f1 f' g a rest j s l) in
      come_to w' _ (next v) q g g1 m (λ k. stepped t b closure next v again)
        (Reaches-Reaches w w' (next v) q f1 f' g1 (a.journaled j) r
          (Later-moved u f f1 f' g g1 a.instance m l))
  Reaches-Reaches w w' (Program.suspend t key msg next) q f f' g j
        (signalled {f' = f1} _ _ _ _ v e r) l =
      let a = Extends-along u f f1 _ v e (execute_suspend-Extends u t key msg f) in
      let rest = Extends-Reaches w (next v) q f1 f' r in
      let s = execute_suspend_ok-Stored key msg (u.payload t) f f1 v e in
      let (g1, again, m) =
        execute_suspend-Again key msg (u.payload t) v g l.1
          (Stored-Later u t key v f f1 f' g a rest j s l) in
      come_to w' _ (next v) q g g1 m (λ k. signalled t key msg next v again)
        (Reaches-Reaches w w' (next v) q f1 f' g1 (a.journaled j) r
          (Later-moved u f f1 f' g g1 a.instance m l))
  Reaches-Reaches w w' (Program.timer clock key duration p) q f f' g j (fired {f' = f1} _ _ _ e r)
        l =
      let a = Extends-along u f f1 _ tt e (timer-Extends u (clock w) key duration f) in
      let rest = Extends-Reaches w p q f1 f' r in
      let (good, s) = timer_ok-Stored (clock w) key duration f f1 e in
      let (g1, again, m) =
        timer-Again (clock w') key duration g l.1 good (fired-Later u key f f1 f' g a rest j s l) in
      come_to w' _ p q g g1 m (λ k. fired clock key duration again)
        (Reaches-Reaches w w' p q f1 f' g1 (a.journaled j) r
          (Later-moved u f f1 f' g g1 a.instance m l))
