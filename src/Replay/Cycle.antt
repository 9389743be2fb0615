-- ===== src/Replay/Cycle.antt =====
-- Suspend, signal, resume: a signal takes a run that waits at a suspend point to what follows it.
use memable.Prelude.{
  sym, subst, ℕ, ◌≡◌, refl, ap, ◌∙◌, arith, Option, none, some, inl, inr, Bool-cases, if◌then◌else◌,
}
use memable.Text.{Text, text_eq, text_eq→≡}
use memable.Outcome.{ok}
use memable.Journal
use memable.Journal.{Bytes, completed}
use memable.External.{External}
use memable.Store.{Tables, IsHealthy}
use memable.Keys.{composite_key}
use memable.Codec.Laws.{deserialize-serialize_step, deserialize_envelope-serialize_step}
use memable.Shared.{Shared}
use memable.Context
use memable.Context.{Frame, key_of}
use memable.Context.Names.{SuspendPoint}
use memable.Execution.Claim.{Claimed, Claimed-entry}
use memable.Engine.{Invocation, signal}
use memable.Engine.Signal.{signal_ok-Claimed, IsHealthy-signal}
use memable.Replay.{Types, Program, Reaches, here, status_set, stepped, signalled, fired}
use memable.Replay.Entries.{Journaled, Written}
use memable.Replay.Keeps.{Done, Kept, insert-Journaled}
use memable.Replay.Again.{Unmoved-trans, execute_suspend-Again}
use memable.Replay.Recovery.{ComesTo, Reaches-Reaches}

module _ ⦃x : External⦄ (u : Types) where
  not-Done :
      (w i key : Text) (bytes : Bytes) (before after : Tables)
      → Claimed w i key bytes before after
      → (b : Bytes) → x.texts.get before.steps (composite_key w i key) ≡ some b
      → Done u b
      → ⊥
  unfolding Journal.is_suspended
  not-Done w i key bytes before after c b q d =
      let (envelope, decoded, state) =
        deserialize_envelope-serialize_step (u.payload d.type) (completed d.value d.status) d.key
          key b d.serialized in
      ground (arith, c.was_there, c.decoded, c.was_suspended)

  -- A claim keeps the completed steps.
  pub Claimed-Kept :
      (w i key : Text) (bytes : Bytes) (before after : Tables)
      → Claimed w i key bytes before after
      → Kept u before.steps after.steps
  Claimed-Kept w i key bytes before after c k b q d =
      elim (Bool-cases (text_eq (composite_key w i key) k)) [
        | inl own ↦ absurd (
            not-Done w i key bytes before after c b
              (ap (x.texts.get before.steps) (text_eq→≡ _ _ own) ∙ q) d)
        | inr other ↦
            ap (λ s. x.texts.get s k) c.steps
            ∙ x.texts.get-insert before.steps (composite_key w i key) k bytes
            ∙ ap (λ o. if o then some bytes else x.texts.get before.steps k) other
            ∙ q
      ]

  -- A claim that writes an entry of a step leaves a table that steps have written.
  pub Claimed-Journaled :
      (w i key : Text) (bytes : Bytes) (before after : Tables)
      → Claimed w i key bytes before after
      → Written u bytes
      → Journaled u before.steps
      → Journaled u after.steps
  Claimed-Journaled w i key bytes before after c written j =
      subst (Journaled u) (sym c.steps)
        (insert-Journaled u before.steps (composite_key w i key) bytes written j)

  pub Reaches-trans :
      {World A : Type 0} (w : World) (p q r : Program u World A) (f g k : Frame)
      → Reaches w p f q g
      → Reaches w q g r k
      → Reaches w p f r k
  Reaches-trans w p q r f g k here rest = rest
  Reaches-trans w (Program.set_status msg p) q r f g k (status_set _ e) rest =
      status_set msg (Reaches-trans w p q r _ g k e rest)
  Reaches-trans w (Program.step t b closure next) q r f g k (stepped {f' = f'} _ _ _ _ v e a) rest =
      stepped t b closure next v e (Reaches-trans w (next v) q r f' g k a rest)
  Reaches-trans w (Program.suspend t key msg next) q r f g k (signalled {f' = f'} _ _ _ _ v e a)
        rest =
      signalled t key msg next v e (Reaches-trans w (next v) q r f' g k a rest)
  Reaches-trans w (Program.timer clock key duration p) q r f g k (fired {f' = f'} _ _ _ e a) rest =
      fired clock key duration e (Reaches-trans w p q r f' g k a rest)

  -- On journals that steps have written: when a run of a program has come to a suspend point,
  -- whatever faults its storage had, a signal to that point that returns a handle, on storage that
  -- does not fail and has kept the completed steps of the run, takes the instance on. The run in a fresh context, in
  -- whatever world, comes to what the program does with the payload, without a call of a closure, a
  -- sleep or a write. The journal after the signal is again one that steps have written.
  pub Reaches-signal :
      {World A : Type 0} (w w' : World) (p : Program u World A) (f f' : Frame) (t : u.Ty)
      (point : SuspendPoint) (msg : Option Text) (next : u.El t → Program u World A) (v : u.El t)
      (s : Shared) (inv : Invocation) (tx : ℕ)
      → Journaled u f.shared.db.steps
      → Reaches w p f (Program.suspend t point.key msg next) f'
      → IsHealthy s.db
      → Journaled u s.db.steps
      → Kept u f'.shared.db.steps s.db.steps
      → (signal (u.payload t) f.context.workflow_name f.context.instance_id point v s).0 ≡ ok inv
      → let s' = (signal (u.payload t) f.context.workflow_name f.context.instance_id point v s).1 in
        ComesTo u w' p (next v) (Context.new f.context.workflow_name f.context.instance_id tx s')
        × Journaled u s'.db.steps
  unfolding Context.new
  Reaches-signal w w' p f f' t point msg next v s inv tx j r good sj kept sent =
      let wn = f.context.workflow_name in
      let i = f.context.instance_id in
      let s' = (signal (u.payload t) wn i point v s).1 in
      let ((bytes, written, c), tasks) =
        signal_ok-Claimed (u.payload t) wn i point v s inv good sent in
      let g = Context.new wn i tx s' in
      let a = Reaches-Reaches u w w' p (Program.suspend t point.key msg next) f f' g j r (
        (refl, refl),
        IsHealthy-signal (u.payload t) wn i point v s inv good sent,
        λ n b q d.
            Claimed-Kept wn i point.key bytes s.db.tables s'.db.tables c n b (kept n b q d) d,
      ) in
      let healthy : IsHealthy a.frame.shared.db =
        ap (λ d. d.faults) a.unmoved.db
        ∙ IsHealthy-signal (u.payload t) wn i point v s inv good sent in
      let (g1, again, m) =
        execute_suspend-Again point.key msg (u.payload t) v a.frame healthy (record {
          bytes = bytes;
          status = none;
          found = rw a.unmoved.db (
              rw (a.unmoved.instance.0, a.unmoved.instance.1)
                (Claimed-entry wn i point.key bytes s.db.tables s'.db.tables c));
          decoded =
              deserialize-serialize_step (u.payload t) (completed v none) point.key point.key bytes
                written;
        }) in
      (
        record {
          frame = g1;
          unmoved = Unmoved-trans g a.frame g1 a.unmoved m;
          reaches =
              Reaches-trans w' p _ (next v) g a.frame g1 a.reaches
                (signalled t point.key msg next v again here);
        },
        Claimed-Journaled wn i point.key bytes s.db.tables s'.db.tables c
            (record { type = t; content = completed v none; key = point.key; serialized = written })
            sj,
      )
