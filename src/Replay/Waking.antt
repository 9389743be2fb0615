-- ===== src/Replay/Waking.antt =====
-- A timer that fires takes a run that waits for it to what follows.
use memable.Prelude.{ℕ, ◌≡◌, refl, ap, sym, subst, ◌∙◌, arith, false, none, inl, inr}
use memable.Text.{Text}
use memable.Outcome.{ok, Outcome-cases}
use memable.Journal.{Bytes, StepData, TimerEntry, completed}
use memable.External.{External}
use memable.Store.{IsHealthy}
use memable.Codec.{serialize_step}
use memable.Codec.Laws.{deserialize-serialize_step}
use memable.Shared.{Shared}
use memable.Context
use memable.Context.{Frame}
use memable.Context.Names.{is_refused}
use memable.Context.Timer.{timer_entry}
use memable.Execution.{claim_suspended_step, signal_timer}
use memable.Execution.Claim.{Claimed-entry, claim_ok-Claimed, IsHealthy-claim}
use memable.Replay.{Types, Program, Reaches, here, fired}
use memable.Replay.Entries.{Journaled, Written, from_unit}
use memable.Replay.Keeps.{Kept}
use memable.Replay.Again.{Unmoved-trans, timer-Again}
use memable.Replay.Recovery.{ComesTo, Reaches-Reaches}
use memable.Replay.Cycle.{Claimed-Kept, Claimed-Journaled, Reaches-trans}

module _ ⦃x : External⦄ where
  signal_timer_parts :
      (entry : TimerEntry) (s : Shared)
      → (signal_timer entry s).0 ≡ ok tt
      → (bytes : Bytes) × (serialize_step x.unit (completed tt none) entry.step_key ≡ ok bytes)
        × (let claim =
              claim_suspended_step entry.workflow_name entry.instance_id entry.step_key bytes
                s.db in
            (claim.0 ≡ ok tt) × ((signal_timer entry s).1.db ≡ claim.1))
  unfolding signal_timer memable.Shared.get_or_create_sender memable.Shared.spawn_workflow_task
  signal_timer_parts entry s h =
      elim (Outcome-cases (serialize_step x.unit (completed tt none) entry.step_key)) [
        | inl (bytes, q) ↦
            elim (Outcome-cases
              (claim_suspended_step entry.workflow_name entry.instance_id entry.step_key bytes
                s.db).0) [
                  | inl (a, c) ↦ (bytes, q, (ground arith, ground arith))
                  | inr (inl (e, c)) ↦ absurd (ground arith)
                  | inr (inr c) ↦ absurd (ground arith)
                ]
        | inr (inl (e, q)) ↦ absurd (ground arith)
        | inr (inr q) ↦ absurd (ground arith)
      ]

module _ ⦃x : External⦄ (u : Types) where
  unit-Written :
      (key : Text) (bytes : Bytes)
      → serialize_step x.unit (completed tt none) key ≡ ok bytes
      → Written u bytes
  unit-Written key bytes e =
      let (content, written) =
        from_unit u (λ T p. (c : StepData T) × (serialize_step p c key ≡ ok bytes))
          (completed tt none, e) in
      record { type = u.unit; content = content; key = key; serialized = written }

  -- On journals that steps have written: when a run of a program has come to a timer of an accepted
  -- key, whatever faults its storage had, the poller's delivery to that timer that succeeds, on
  -- storage that does not fail and has kept the completed steps of the run, takes the instance on.
  -- The run in a fresh
  -- context, in whatever world, comes to what follows the timer, without a call of a closure, a
  -- sleep or a write. The journal after the delivery is again one that steps have written.
  pub Reaches-signal_timer :
      {World A : Type 0} (w w' : World) (p rest : Program u World A) (f f' : Frame)
      (clock : World → ℕ) (key : Text) (duration : ℕ) (s : Shared) (tx : ℕ)
      → Journaled u f.shared.db.steps
      → Reaches w p f (Program.timer clock key duration rest) f'
      → is_refused key ≡ false
      → IsHealthy s.db
      → Journaled u s.db.steps
      → Kept u f'.shared.db.steps s.db.steps
      → (signal_timer (timer_entry key f) s).0 ≡ ok tt
      → let s' = (signal_timer (timer_entry key f) s).1 in
        ComesTo u w' p rest (Context.new f.context.workflow_name f.context.instance_id tx s')
        × Journaled u s'.db.steps
  unfolding Context.new timer_entry
  Reaches-signal_timer w w' p rest f f' clock key duration s tx j r good sound sj kept sent =
      let wn = f.context.workflow_name in
      let i = f.context.instance_id in
      let s' = (signal_timer (timer_entry key f) s).1 in
      let (bytes, written, (done, db)) = signal_timer_parts (timer_entry key f) s sent in
      let d' = (claim_suspended_step wn i key bytes s.db).1 in
      let c = claim_ok-Claimed wn i key bytes s.db done in
      let healthy : IsHealthy s'.db =
        ap (λ d. d.faults) db ∙ IsHealthy-claim wn i key bytes s.db sound in
      let g = Context.new wn i tx s' in
      let a = Reaches-Reaches u w w' p (Program.timer clock key duration rest) f f' g j r (
        (refl, refl),
        healthy,
        λ n b q d.
            ap (λ d. x.texts.get d.steps n) db
            ∙ Claimed-Kept u wn i key bytes s.db.tables d'.tables c n b (kept n b q d) d,
      ) in
      let (g1, again, m) =
        timer-Again (clock w') key duration a.frame (ap (λ d. d.faults) a.unmoved.db ∙ healthy) good
          (record {
            bytes = bytes;
            status = none;
            found =
                rw (a.unmoved.db, db)
                  (rw (a.unmoved.instance.0, a.unmoved.instance.1)
                    (Claimed-entry wn i key bytes s.db.tables d'.tables c));
            decoded = deserialize-serialize_step x.unit (completed tt none) key key bytes written;
          }) in
      (
        record {
          frame = g1;
          unmoved = Unmoved-trans g a.frame g1 a.unmoved m;
          reaches =
              Reaches-trans u w' p _ rest g a.frame g1 a.reaches
                (fired clock key duration again here);
        },
        subst (λ d. Journaled u d.steps) (sym db)
            (Claimed-Journaled u wn i key bytes s.db.tables d'.tables c
              (unit-Written key bytes written) sj),
      )
