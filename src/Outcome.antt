-- ===== src/Outcome.antt =====
-- Fallible code: `Result` with the panics of `assert!`, `expect` and `unreachable!`, and methods that
-- also change a state. What was written before an error stays written.
use memable.Prelude.{◌≡◌, refl, ap, sym, ◌∙◌, arith, ◌⊎◌, inl, inr}

pub data Outcome {ℓ} (E : Type 0) (A : Type ℓ) : Type ℓ where
  ok : A → Outcome E A
  err : E → Outcome E A
  panic : Outcome E A

-- A library's result, with `map_err`.
abbrev pub map_err {ℓ} : {E F : Type 0} {A : Type ℓ} → (E → F) → E ⊎ A → Outcome F A
map_err f (inl e) = err (f e)
map_err f (inr a) = ok a

-- `?` on a pure result.
abbrev pub and_then {ℓ κ} :
    {E : Type 0} {A : Type ℓ} {B : Type κ} → Outcome E A → (A → Outcome E B) → Outcome E B
and_then (ok a) f = f a
and_then (err e) f = err e
and_then panic f = panic

abbrev pub Exec : Type 0 → Type 0 → Type 0 → Type 0
Exec E S A = S → Outcome E A × S

module _ {E S A : Type 0} where
  abbrev pub pure : A → Exec E S A
  pure a s = (ok a, s)

  abbrev pub fail : E → Exec E S A
  fail e s = (err e, s)

  abbrev pub abort : Exec E S A
  abort s = (panic, s)

  abbrev pub lift : Outcome E A → Exec E S A
  lift r s = (r, s)

  abbrev pub gets : (S → A) → Exec E S A
  gets f s = (ok (f s), s)

module _ {E S : Type 0} where
  abbrev pub modify : (S → S) → Exec E S (Unit {0})
  modify f s = (ok tt, f s)

module _ {E S A B : Type 0} where
  abbrev pub continue : Outcome E A → (A → Exec E S B) → Exec E S B
  continue (ok a) f s = f a s
  continue (err e) f s = (err e, s)
  continue panic f s = (panic, s)

  infixl 5 ◌>>=◌ ◌>>◌
  abbrev pub ◌>>=◌ : Exec E S A → (A → Exec E S B) → Exec E S B
  ◌>>=◌ m f s = let (r, s') = m s in continue r f s'

  abbrev pub ◌>>◌ : Exec E S A → Exec E S B → Exec E S B
  m >> n = m >>= λ _. n

pub Outcome-cases {ℓ} :
    {E : Type 0} {A : Type ℓ} (r : Outcome E A)
    → ((a : A) × (r ≡ ok a)) ⊎ ((e : E) × (r ≡ err e)) ⊎ (r ≡ panic)
Outcome-cases (ok a) = inl (a, refl)
Outcome-cases (err e) = inr (inl (e, refl))
Outcome-cases panic = inr (inr refl)

pub ok-injective {ℓ} :
    {E : Type 0} {A : Type ℓ} (a b : A) → ◌≡◌ {A = Outcome E A} (ok a) (ok b) → a ≡ b
ok-injective a b e = cc

module _ {E S A B : Type 0} where
  -- A call in front of a run that returns has returned.
  pub bind_ok :
      (f g : S) (m : Exec E S A) (k : A → Exec E S B) (b : B)
      → (let (r, f') = m f in continue r k f') ≡ (ok b, g)
      → (v : A) × (f' : S) × (m f ≡ (ok v, f')) × (k v f' ≡ (ok b, g))
  bind_ok f g m k b e = elim (Outcome-cases (m f).0) [
    | inl (v, q) ↦
        (v, (m f).1, ap (λ r. (r, (m f).1)) q, ap (λ r. continue r k (m f).1) (sym q) ∙ e)
    | inr (inl (c, q)) ↦
        absurd (failed c (ap (λ r. (continue r k (m f).1).0) (sym q) ∙ ap (λ o. o.0) e))
    | inr (inr q) ↦ absurd (panicked (ap (λ r. (continue r k (m f).1).0) (sym q) ∙ ap (λ o. o.0) e))
  ]
    where
      failed : (c : E) → ◌≡◌ {A = Outcome E B} (err c) (ok b) → ⊥
      failed c q = ground arith

      panicked : ◌≡◌ {A = Outcome E B} panic (ok b) → ⊥
      panicked q = ground arith

  -- An error comes from the call in front, or from the rest of the run.
  pub bind_err :
      (f g : S) (m : Exec E S A) (k : A → Exec E S B) (e : E)
      → (let (r, f') = m f in continue r k f') ≡ (err e, g)
      → (m f ≡ (err e, g)) ⊎ ((v : A) × (f' : S) × (m f ≡ (ok v, f')) × (k v f' ≡ (err e, g)))
  bind_err f g m k e h = of (m f).0 refl
    where
      same : (c : E) → ◌≡◌ {A = Outcome E B} (err c) (err e) → c ≡ e
      same c q = cc

      panicked : ◌≡◌ {A = Outcome E B} panic (err e) → ⊥
      panicked q = ground arith

      of :
          (r : Outcome E A)
          → (m f).0 ≡ r
          → (m f ≡ (err e, g)) ⊎ ((v : A) × (f' : S) × (m f ≡ (ok v, f')) × (k v f' ≡ (err e, g)))
      of (ok v) q =
          inr (v, (m f).1, ap (λ r. (r, (m f).1)) q, ap (λ r. continue r k (m f).1) (sym q) ∙ h)
      of (err c) q =
          let end = ap (λ r. continue r k (m f).1) (sym q) ∙ h in
          inl (
            ap (λ r. (r, (m f).1)) (q ∙ ap err (same c (ap (λ o. o.0) end)))
            ∙ ap (λ s. (err e, s)) (ap (λ o. o.1) end))
      of panic q = absurd (panicked (ap (λ o. o.0) (ap (λ r. continue r k (m f).1) (sym q) ∙ h)))
