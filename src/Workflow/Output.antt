-- ===== src/Workflow/Output.antt =====
-- The output of a workflow is read back.
use memable.Prelude.{Option, ◌≡◌, ap, ◌∙◌, arith, none, some, inl, inr}
use memable.Text.{Text, text, text_eq_refl}
use memable.Outcome.{ok, Outcome-cases, bind_ok, lift, ◌>>=◌}
use memable.Journal.{Bytes, completed}
use memable.External.{External, Payload}
use memable.Store.{Database, IsHealthy}
use memable.Keys.{composite_key}
use memable.Codec.{serialize_step}
use memable.Codec.Laws.{deserialize-serialize_step}
use memable.Context.{Frame, Workflow, input}
use memable.Workflow.{
  IntoWorkflow, no_input, with_input, required, write_output, store_output, into_workflow_fn,
  read_output,
}

module _ ⦃x : External⦄ where
  abbrev output_key : Text → Text → Text
  output_key w i = composite_key w i (text "_output")

  read_output_of :
      {T : Type 0} (p : Payload T) (w i : Text) (v : T) (bytes : Bytes) (d : Database)
      → IsHealthy d
      → serialize_step p (completed v none) (text "_output") ≡ ok bytes
      → x.texts.get d.steps (output_key w i) ≡ some bytes
      → (read_output p w i d).0 ≡ ok v
  unfolding read_output
  read_output_of p w i v bytes d h e there = ground (
    arith,
    deserialize-serialize_step p (completed v none) (text "_output") (text "_output") bytes e,
  )

  -- A write that returns, whatever faults the storage has, has put the output under its key.
  store_output_ok :
      {T : Type 0} (p : Payload T) (w i : Text) (v : T) (g h : Frame)
      → store_output p w i v g ≡ (ok tt, h)
      → (bytes : Bytes) × (serialize_step p (completed v none) (text "_output") ≡ ok bytes)
        × (x.texts.get h.shared.db.steps (output_key w i) ≡ some bytes)
  unfolding store_output write_output memable.Store.write_txn memable.Store.storage_call
  store_output_ok p w i v g h e =
      elim (Outcome-cases (serialize_step p (completed v none) (text "_output"))) [
        | inl (bytes, q) ↦ (
          bytes,
          q,
          ground (
            arith,
            x.texts.get-insert g.shared.db.steps (output_key w i) (output_key w i) bytes,
            text_eq_refl (output_key w i),
          ),
        )
        | inr (inl (c, q)) ↦ absurd (ground arith)
        | inr (inr q) ↦ absurd (ground arith)
      ]

  -- The workflow function has returned this value, with this frame: a function with input has been
  -- given what the journal holds as the input of the instance.
  pub data Computes {I T : Type 0} : IntoWorkflow I T → Frame → T → Frame → Type 0 where
    alone :
        (workflow : Workflow T) (f g : Frame) (v : T)
        → workflow f ≡ (ok v, g)
        → Computes (no_input workflow) f v g
    given :
        (q : Payload I) (workflow : I → Workflow T) (f f1 g : Frame) (value : I) (v : T)
        → input q f ≡ (ok (some value), f1)
        → workflow value f1 ≡ (ok v, g)
        → Computes (with_input q workflow) f v g

  required_ok :
      {A : Type 0} (name : Text) (o : Option A) (a : A) (f g : Frame)
      → lift (required name o) f ≡ (ok a, g)
      → (o ≡ some a) × (f ≡ g)
  required_ok name o a f g e = ground arith

  -- What the closure has done when it has returned: the function has computed a value, and it was
  -- stored.
  abbrev Returned : {I T : Type 0} → Payload T → IntoWorkflow I T → Frame → Frame → Type 0
  Returned {T = T} p workflow f h =
      (v : T) × (g : Frame) × Computes workflow f v g
      × (store_output p f.context.workflow_name f.context.instance_id v g ≡ (ok tt, h))

  into_workflow_fn-Returned :
      {I T : Type 0} (p : Payload T) (workflow : IntoWorkflow I T) (f h : Frame)
      → into_workflow_fn p workflow f ≡ (ok tt, h)
      → Returned p workflow f h
  unfolding into_workflow_fn
  into_workflow_fn-Returned p (no_input workflow) f h e =
      let store = store_output p f.context.workflow_name f.context.instance_id in
      let (v, g, ran, stored) = bind_ok f h workflow store tt e in
      (v, g, alone workflow f g v ran, stored)
  into_workflow_fn-Returned p (with_input q workflow) f h e =
      let w = f.context.workflow_name in
      let store = store_output p w f.context.instance_id in
      let (o, f1, read, e1) =
        bind_ok f h (input q) (λ o. lift (required w o) >>= λ a. workflow a >>= store) tt e in
      let (a, f2, there, e2) =
        bind_ok f1 h (lift (required w o)) (λ a. workflow a >>= store) tt e1 in
      let (v, g, ran, stored) = bind_ok f2 h (workflow a) store tt e2 in
      let (found, same) = required_ok w o a f1 f2 there in
      (
        v,
        g,
        given q workflow f f2 g a v (read ∙ ap (λ r. (ok r.0, r.1)) (pair found same)) ran,
        stored,
      )
    where
      pair :
          {A B : Type 0} {a a' : A} {b b' : B} → a ≡ a' → b ≡ b' → ◌≡◌ {A = A × B} (a, b) (a', b')
      pair u v = cc (u, v)

  -- When a registered workflow, with or without an input, returns no error, whatever faults the
  -- storage had, and the storage does not fail from then on, its function has computed a value, from
  -- the stored input if it takes one, and that value is what is read as the output of its instance.
  pub into_workflow_fn-read_output :
      {I T : Type 0} (p : Payload T) (workflow : IntoWorkflow I T) (f : Frame)
      → (into_workflow_fn p workflow f).0 ≡ ok tt
      → IsHealthy (into_workflow_fn p workflow f).1.shared.db
      → let w = f.context.workflow_name in
        let i = f.context.instance_id in
        (v : T) × (g : Frame) × Computes workflow f v g
        × ((read_output p w i (into_workflow_fn p workflow f).1.shared.db).0 ≡ ok v)
  into_workflow_fn-read_output p workflow f e sound =
      let w = f.context.workflow_name in
      let i = f.context.instance_id in
      let h = (into_workflow_fn p workflow f).1 in
      let (v, g, computed, stored) =
        into_workflow_fn-Returned p workflow f h (ap (λ r. (r, h)) e) in
      let (bytes, q, there) = store_output_ok p w i v g h stored in
      (v, g, computed, read_output_of p w i v bytes h.shared.db sound q there)
