-- ===== src/FanOut/FailFast.antt =====
-- The fail-fast mode ends with the first failure.
use memable.Prelude.{
  ℕ, zero, suc, ◌<◌, ◌≡◌, refl, sym, ap, subst, arith, Option, none, some, List, [], ◌∷◌, length,
  set, ◌++◌, length-set, replicate,
}
use memable.Outcome.{err}
use memable.Error.{EngineError}
use memable.FanOut.{
  Joined, finished, failed, panicked, store, collect_fail_fast_rounds, collect_fail_fast,
}

abbrev no_results : (T : Type 0) → ℕ → List (Option T)
no_results T n = replicate n none

length-no_results : (T : Type 0) (n : ℕ) → length (no_results T n) ≡ n
length-no_results T zero = refl
length-no_results T (suc n) = ap suc (length-no_results T n)

module _ {T : Type 0} where
  -- A task that returned a value, for an item in bounds.
  abbrev pub Finished : ℕ → List (Joined T) → Type 0
  Finished n [] = Unit {0}
  Finished n (finished idx value ∷ js) = (idx < n) × Finished n js
  Finished n (_ ∷ js) = ⊥

  fail_fast_rounds :
      (pre rest : List (Joined T)) (idx : ℕ) (e : EngineError) (ind : List (Option T))
      → Finished (length ind) pre
      → collect_fail_fast_rounds (pre ++ failed idx e ∷ rest) ind ≡ err e
  unfolding collect_fail_fast_rounds store
  fail_fast_rounds [] rest idx e ind h = refl
  fail_fast_rounds (finished i v ∷ pre) rest idx e ind h =
      let next =
        fail_fast_rounds pre rest idx e (set ind i (some v))
          (subst (λ n. Finished n pre) (sym (length-set ind i (some v))) h.1) in
      ground (arith, next, h.0)
  fail_fast_rounds (failed i c ∷ pre) rest idx e ind h = absurd h
  fail_fast_rounds (panicked c ∷ pre) rest idx e ind h = absurd h

  -- In the fail-fast mode, after tasks that returned values for items in bounds, the first failure
  -- to come in is the error of the collection, whatever comes after it.
  pub collect_fail_fast-failed :
      (pre rest : List (Joined T)) (expected idx : ℕ) (e : EngineError)
      → Finished expected pre
      → collect_fail_fast (pre ++ failed idx e ∷ rest) expected ≡ err e
  unfolding collect_fail_fast
  collect_fail_fast-failed pre rest expected idx e h =
      let ends =
        fail_fast_rounds pre rest idx e (no_results T expected)
          (subst (λ n. Finished n pre) (sym (length-no_results T expected)) h) in
      rw ends refl
