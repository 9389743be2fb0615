-- ===== src/Waiting/First.antt =====
-- `Invocation::wait` returns at the first state that is terminal or suspended.
use memable.Prelude.{
  ◌≡◌, refl, ap, ◌∙◌, arith, true, false, Option, none, some, inl, inr, List, [], ◌∷◌,
  if◌then◌else◌, Bool-cases,
}
use memable.Outcome.{Outcome, ok, panic}
use memable.Error.{EngineError}
use memable.State.{WorkflowState, is_terminal}
use memable.State
use memable.Engine.{Invocation}
use memable.Waiting.{WaitResult, is_settled, last_seen, result_of, wait}

-- The first state of the list on which a wait may end.
abbrev pub first_settled : List WorkflowState → Option WorkflowState
first_settled [] = none
first_settled (s ∷ rest) = let later = first_settled rest in if is_settled s then some s else later

abbrev pub expected : Invocation → Option WorkflowState → Outcome EngineError WaitResult
expected inv none = panic
expected inv (some s) = result_of inv s

unsettled-panic :
    (inv : Invocation) (s : WorkflowState) → is_settled s ≡ false → result_of inv s ≡ panic
unfolding result_of is_terminal
unsettled-panic inv State.started h = refl
unsettled-panic inv (State.in_progress msg) h = refl
unsettled-panic inv (State.suspended key msg) h = ground arith
unsettled-panic inv (State.completed msg) h = ground arith
unsettled-panic inv (State.failed msg) h = ground arith

settled-ok :
    (inv : Invocation) (s : WorkflowState)
    → is_settled s ≡ true
    → (r : WaitResult) × (result_of inv s ≡ ok r)
unfolding result_of is_terminal
settled-ok inv State.started h = ground arith
settled-ok inv (State.in_progress msg) h = ground arith
settled-ok inv (State.suspended key msg) h = (_, refl)
settled-ok inv (State.completed msg) h = (_, refl)
settled-ok inv (State.failed msg) h = (_, refl)

wait-expected :
    (inv : Invocation) (s : WorkflowState) (changes : List WorkflowState)
    → wait inv s changes ≡ expected inv (first_settled (s ∷ changes))
unfolding wait last_seen
wait-expected inv s [] = elim (Bool-cases (is_settled s)) [
  | inl e ↦ ground arith
  | inr e ↦ ground (arith, unsettled-panic inv s e)
]
wait-expected inv s (next ∷ rest) = elim (Bool-cases (is_settled s)) [
  | inl e ↦ ground arith
  | inr e ↦ ground (arith, wait-expected inv next rest)
]

first_settled-is_settled :
    (ss : List WorkflowState) (v : WorkflowState) → first_settled ss ≡ some v → is_settled v ≡ true
first_settled-is_settled [] v h = ground arith
first_settled-is_settled (s ∷ rest) v h = elim (Bool-cases (is_settled s)) [
  | inl e ↦ ground arith
  | inr e ↦ ground (arith, first_settled-is_settled rest v)
]

-- A wait returns for the first state, from the one at the start on, that is terminal or suspended,
-- whatever follows it. If the channel closes before there is one, the wait panics.
pub wait-first_settled :
    (inv : Invocation) (s : WorkflowState) (changes : List WorkflowState)
    → ((v : WorkflowState)
        → first_settled (s ∷ changes) ≡ some v
        → (r : WaitResult) × (result_of inv v ≡ ok r) × (wait inv s changes ≡ ok r))
      × (first_settled (s ∷ changes) ≡ none → wait inv s changes ≡ panic)
wait-first_settled inv s changes = (
  λ v h.
      (let (r, e) = settled-ok inv v (first_settled-is_settled (s ∷ changes) v h) in
        (r, e, wait-expected inv s changes ∙ ap (expected inv) h ∙ e)),
  λ h. wait-expected inv s changes ∙ ap (expected inv) h,
)
