-- ===== src/FanOut/Collect.antt =====
-- The results of the children come in the order of the items, whatever the order of completion.
use memable.Prelude.{
  ℕ, zero, suc, ◌<◌, ◌≡◌, refl, ap, ◌∙◌, subst, arith, Bool, true, false, ◌||◌, Option, none, some,
  inl, inr, List, [], ◌∷◌, length, get_elem?, set, replicate, ◌==◌, Bool-cases,
}
use memable.Text.{Text}
use memable.Outcome.{ok, err}
use memable.Error.Display.{error_to_string}
use memable.FanOut.{
  Joined, finished, failed, panicked, store, unwrap_all, Collected, collect_all_rounds, collect_all,
}

module _ {A : Type 0} where
  -- What is filled in so far is as in the list of results.
  abbrev Partial : List (Option A) → List A → Type 0
  Partial [] [] = Unit {0}
  Partial (none ∷ ind) (r ∷ rs) = Partial ind rs
  Partial (some a ∷ ind) (r ∷ rs) = (a ≡ r) × Partial ind rs
  Partial _ _ = ⊥

  abbrev filled : ℕ → List (Option A) → Bool
  filled k [] = false
  filled zero (none ∷ ind) = false
  filled zero (some a ∷ ind) = true
  filled (suc k) (_ ∷ ind) = filled k ind

  replicate-Partial : (rs : List A) → Partial (replicate (length rs) none) rs
  replicate-Partial [] = tt
  replicate-Partial (r ∷ rs) = replicate-Partial rs

  length-Partial : (ind : List (Option A)) (rs : List A) → Partial ind rs → length ind ≡ length rs
  length-Partial [] [] p = refl
  length-Partial [] (r ∷ rs) p = absurd p
  length-Partial (none ∷ ind) [] p = absurd p
  length-Partial (some a ∷ ind) [] p = absurd p
  length-Partial (none ∷ ind) (r ∷ rs) p = ap suc (length-Partial ind rs p)
  length-Partial (some a ∷ ind) (r ∷ rs) p = ap suc (length-Partial ind rs p.1)

  get_elem?-lt : (rs : List A) (idx : ℕ) (a : A) → get_elem? rs idx ≡ some a → idx < length rs
  get_elem?-lt [] idx a h = ground arith
  get_elem?-lt (r ∷ rs) zero a h = omega arith
  get_elem?-lt (r ∷ rs) (suc idx) a h = omega (arith, get_elem?-lt rs idx a h)

  set-Partial :
      (ind : List (Option A)) (rs : List A) (idx : ℕ) (a : A)
      → Partial ind rs
      → get_elem? rs idx ≡ some a
      → Partial (set ind idx (some a)) rs
  set-Partial [] rs idx a p h = p
  set-Partial (none ∷ ind) [] idx a p h = absurd p
  set-Partial (some b ∷ ind) [] idx a p h = absurd p
  set-Partial (none ∷ ind) (r ∷ rs) zero a p h = (cc, p)
  set-Partial (some b ∷ ind) (r ∷ rs) zero a p h = (cc, p.1)
  set-Partial (none ∷ ind) (r ∷ rs) (suc idx) a p h = set-Partial ind rs idx a p h
  set-Partial (some b ∷ ind) (r ∷ rs) (suc idx) a p h = (p.0, set-Partial ind rs idx a p.1 h)

  filled-set_self :
      (ind : List (Option A)) (k : ℕ) (a : A)
      → k < length ind
      → filled k (set ind k (some a)) ≡ true
  filled-set_self [] k a h = ground arith
  filled-set_self (o ∷ ind) zero a h = refl
  filled-set_self (o ∷ ind) (suc k) a h = filled-set_self ind k a (omega arith)

  filled-set_other :
      (ind : List (Option A)) (k idx : ℕ) (a : A)
      → filled k ind ≡ true
      → filled k (set ind idx (some a)) ≡ true
  filled-set_other [] k idx a h = h
  filled-set_other (o ∷ ind) zero zero a h = refl
  filled-set_other (none ∷ ind) zero (suc idx) a h = h
  filled-set_other (some b ∷ ind) zero (suc idx) a h = refl
  filled-set_other (o ∷ ind) (suc k) zero a h = h
  filled-set_other (o ∷ ind) (suc k) (suc idx) a h = filled-set_other ind k idx a h

  store-Partial :
      (ind : List (Option A)) (rs : List A) (idx : ℕ) (a : A)
      → Partial ind rs
      → get_elem? rs idx ≡ some a
      → store idx a ind ≡ ok (set ind idx (some a))
  unfolding store
  store-Partial ind rs idx a p h = ground (arith, length-Partial ind rs p, get_elem?-lt rs idx a h)

  unwrap_all-Partial :
      (ind : List (Option A)) (rs : List A)
      → Partial ind rs
      → ((k : ℕ) → k < length rs → filled k ind ≡ true)
      → unwrap_all ind ≡ ok rs
  unfolding unwrap_all
  unwrap_all-Partial [] [] p all = refl
  unwrap_all-Partial [] (r ∷ rs) p all = absurd p
  unwrap_all-Partial (none ∷ ind) [] p all = absurd p
  unwrap_all-Partial (some a ∷ ind) [] p all = absurd p
  unwrap_all-Partial (none ∷ ind) (r ∷ rs) p all =
      let e : false ≡ true = all 0 (omega arith) in ground arith
  unwrap_all-Partial (some a ∷ ind) (r ∷ rs) p all =
      let rest = unwrap_all-Partial ind rs p.1 (λ k h. all (suc k) (omega arith)) in
      rw (rest, p.0) refl

module _ {T : Type 0} (ids : List Text) (rs : List (Collected T)) where
  -- A task reports the result of its item.
  abbrev pub Reports : Joined T → Type 0
  Reports (finished idx value) = get_elem? rs idx ≡ some (ok value)
  Reports (failed idx e) =
      (id : Text) × (get_elem? ids idx ≡ some id)
      × (get_elem? rs idx ≡ some (err (record { instance_id = id; message = error_to_string e })))
  Reports (panicked e) = ⊥

  abbrev pub AllReport : List (Joined T) → Type 0
  AllReport [] = Unit {0}
  AllReport (j ∷ js) = Reports j × AllReport js

  abbrev pub is_of : ℕ → Joined T → Bool
  is_of k (finished idx _) = idx == k
  is_of k (failed idx _) = idx == k
  is_of k (panicked _) = false

  -- Some task is that of the item.
  abbrev pub is_joined : ℕ → List (Joined T) → Bool
  is_joined k [] = false
  is_joined k (j ∷ js) = let later = is_joined k js in is_of k j || later

  record Rounds (js : List (Joined T)) (ind : List (Option (Collected T))) : Type 0 where
    pub end : List (Option (Collected T))
    pub ends : collect_all_rounds ids js ind ≡ ok end
    pub partial : Partial end rs
    pub kept : (k : ℕ) → filled k ind ≡ true → filled k end ≡ true
    pub seen : (k : ℕ) → is_joined k js ≡ true → filled k end ≡ true

  one_round :
      (j : Joined T) (js : List (Joined T)) (ind : List (Option (Collected T))) (idx : ℕ)
      (a : Collected T)
      → Partial ind rs
      → get_elem? rs idx ≡ some a
      → ((k : ℕ) → is_of k j ≡ (idx == k))
      → collect_all_rounds ids (j ∷ js) ind ≡ collect_all_rounds ids js (set ind idx (some a))
      → Rounds js (set ind idx (some a))
      → Rounds (j ∷ js) ind
  one_round j js ind idx a p g own e r = record {
    end = r.end;
    ends = e ∙ r.ends;
    partial = r.partial;
    kept = λ k h. r.kept k (filled-set_other ind k idx a h);
    seen = λ k h. elim (Bool-cases (is_joined k js)) [
      | inl later ↦ r.seen k later
      | inr later ↦
          let same : idx ≡ k = ground (arith, own k) in
          subst (λ i. filled i r.end ≡ true) same
            (r.kept idx (
              filled-set_self ind idx a
                (omega (arith, length-Partial ind rs p, get_elem?-lt rs idx a g))))
    ];
  }

  rounds :
      (js : List (Joined T)) (ind : List (Option (Collected T)))
      → Partial ind rs
      → AllReport js
      → Rounds js ind
  unfolding collect_all_rounds
  rounds [] ind p h = record {
    end = ind;
    ends = refl;
    partial = p;
    kept = λ k e. e;
    seen = λ k e. ground arith;
  }
  rounds (finished idx v ∷ js) ind p h =
      one_round (finished idx v) js ind idx (ok v) p h.0 (λ k. refl)
        (rw (store-Partial ind rs idx (ok v) p h.0) refl)
        (rounds js (set ind idx (some (ok v))) (set-Partial ind rs idx (ok v) p h.0) h.1)
  rounds (failed idx e ∷ js) ind p h =
      let (id, there, g) = h.0 in
      let a : Collected T = err (record { instance_id = id; message = error_to_string e }) in
      one_round (failed idx e) js ind idx a p g (λ k. refl)
        (ground (arith, store-Partial ind rs idx a p g))
        (rounds js (set ind idx (some a)) (set-Partial ind rs idx a p g) h.1)
  rounds (panicked e ∷ js) ind p h = absurd h.0

  -- When each task reports the result of its item, none has panicked and every item has a task, the
  -- collection holds the result of each item at the item's index, a failure with the id of its
  -- child, in whatever order the tasks finish.
  pub collect_all-AllReport :
      (js : List (Joined T))
      → AllReport js
      → ((k : ℕ) → k < length rs → is_joined k js ≡ true)
      → collect_all js (length rs) ids ≡ ok rs
  unfolding collect_all
  collect_all-AllReport js h all =
      let r = rounds js (replicate (length rs) none) (replicate-Partial rs) h in
      rw r.ends (unwrap_all-Partial r.end rs r.partial (λ k lt. r.seen k (all k lt)))
