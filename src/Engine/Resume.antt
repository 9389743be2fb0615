-- ===== src/Engine/Resume.antt =====
-- Which instances `start` resumes.
use memable.Prelude.{
  ◌≡◌, refl, ap, ◌∙◌, arith, true, false, none, inl, inr, List, [], ◌∷◌, ◌++◌, map, if◌then◌else◌,
  Bool-cases, append_assoc,
}
use memable.Text.{Text}
use memable.Outcome.{ok}
use memable.Status.{WorkflowMetadata, is_running}
use memable.External.{External}
use memable.Shared.{Shared, is_registered}
use memable.Execution.Finish.{Serialises}
use memable.Engine.{Invocation, spawn_workflow, resume_instances}
use memable.Engine.Spawn.{owner, Launched, Accepts, spawn-Launched}

module _ ⦃x : External⦄ where
  -- The instances of a listing that are resumed.
  abbrev pub resumed : Text → List (Text × WorkflowMetadata) → List (Text × Text)
  resumed w [] = []
  resumed w ((i, m) ∷ rest) =
      let others = resumed w rest in if is_running m.status then (w, i) ∷ others else others

  Accepts-after : (w i : Text) (s s' : Shared) → Accepts w s → Launched w i s s' → Accepts w s'
  Accepts-after w i s s' a l = record {
    running = l.running ∙ a.running;
    registered = ap (is_registered w) l.workflows ∙ a.registered;
    component = a.component;
    healthy = l.healthy;
  }

  resume_one :
      (w i : Text) (m : WorkflowMetadata) (rest : List (Text × WorkflowMetadata)) (s : Shared)
      (inv : Invocation)
      → is_running m.status ≡ true
      → (spawn_workflow w i none s).0 ≡ ok inv
      → resume_instances w ((i, m) ∷ rest) s ≡ resume_instances w rest (spawn_workflow w i none s).1
  unfolding resume_instances
  resume_one w i m rest s inv r e = ground arith

  resume_none :
      (w i : Text) (m : WorkflowMetadata) (rest : List (Text × WorkflowMetadata)) (s : Shared)
      → is_running m.status ≡ false
      → resume_instances w ((i, m) ∷ rest) s ≡ resume_instances w rest s
  unfolding resume_instances
  resume_none w i m rest s r = ground arith

  -- On an engine that accepts the workflow, when postcard serialises every metadata record, one
  -- task is queued for each instance of the listing that was left running, in the order of the
  -- listing and whatever its id holds, and none for any other.
  pub resume_instances-tasks :
      (w : Text) (es : List (Text × WorkflowMetadata)) (s : Shared)
      → Accepts w s
      → Serialises
      → ((resume_instances w es s).0 ≡ ok tt)
        × (map owner (resume_instances w es s).1.tasks ≡ map owner s.tasks ++ resumed w es)
  resume_instances-tasks w [] s a enc =
      (unfold resume_instances in refl, unfold resume_instances in append_nil _)
    where
      append_nil : (l : List (Text × Text)) → l ≡ l ++ []
      append_nil [] = refl
      append_nil (e ∷ l) = ap (λ r. e ∷ r) (append_nil l)
  resume_instances-tasks w ((i, m) ∷ rest) s a enc = elim (Bool-cases (is_running m.status)) [
    | inl r ↦
        let (l, (inv, e)) = spawn-Launched w i none s a enc in
        let s' = (spawn_workflow w i none s).1 in
        let (good, tasks) = resume_instances-tasks w rest s' (Accepts-after w i s s' a l) enc in
        rw (resume_one w i m rest s inv r e, r)
          (
            good,
            tasks
                ∙ ap (λ t. t ++ resumed w rest) l.queued
                ∙ append_assoc (map owner s.tasks) ((w, i) ∷ []) (resumed w rest),
          )
    | inr r ↦ rw (resume_none w i m rest s r, r) (resume_instances-tasks w rest s a enc)
  ]
