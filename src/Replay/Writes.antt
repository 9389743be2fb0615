-- ===== src/Replay/Writes.antt =====
-- What a step, a suspend point or a timer writes to the journal, on storage that may fail: nothing, or
-- one entry at its own key, and nothing over a completed entry.
use memable.Prelude.{◌≡◌, refl, sym, ◌∙◌, subst, arith, Option, none, some, inl, inr, ◌⊎◌}
use memable.Text.{Text}
use memable.Outcome.{Outcome, ok, err, panic, ok-injective, continue, ◌>>=◌, gets}
use memable.Error.{EngineError}
use memable.Journal.{Bytes, StepData}
use memable.External.{External, Payload}
use memable.Codec.{serialize_step}
use memable.Context.{Frame, Workflow, key_of, restore_status}
use memable.Context.Journal.{
  SameInstance, Idle, journal_read, journal_write, journal_read-Idle, journal_write-SameInstance,
  journal_write_steps, journal_read_result,
}
use memable.Context.Step.{persist}

module _ ⦃x : External⦄ where
  -- The journal of `g` is that of `f`, or has one more write of the key.
  abbrev pub Wrote : {T : Type 0} → Payload T → Text → Frame → Frame → Type 0
  Wrote {T} p key f g =
      SameInstance f g
      × ((g.shared.db.steps ≡ f.shared.db.steps)
          ⊎ ((content : StepData T) × (bytes : Bytes) × (serialize_step p content key ≡ ok bytes)
              × (g.shared.db.steps ≡ x.texts.insert f.shared.db.steps (key_of key f) bytes)))

  abbrev pub Writes : {T A : Type 0} → Payload T → Text → Workflow A → Type 0
  Writes p key m = (f : Frame) → Wrote p key f (m f).1

  -- Two runs that end alike have written alike.
  pub Wrote-along :
      {T A : Type 0} (p : Payload T) (key : Text) (f : Frame) (a b : Outcome EngineError A × Frame)
      → a ≡ b
      → Wrote p key f b.1
      → Wrote p key f a.1
  Wrote-along p key f a b q = subst (λ o. Wrote p key f o.1) (sym q)

  pub Wrote-same :
      {T : Type 0} (p : Payload T) (key : Text) (f g g' : Frame)
      → g' ≡ g
      → Wrote p key f g
      → Wrote p key f g'
  Wrote-same p key f g g' q = subst (Wrote p key f) (sym q)

  -- Nothing is written before the rest of a run.
  Idle-Wrote :
      {T : Type 0} (p : Payload T) (key : Text) (f f1 g : Frame)
      → Idle f f1
      → Wrote p key f1 g
      → Wrote p key f g
  Idle-Wrote p key f f1 g (same, steps) (later, wrote) = (
    (later.0 ∙ same.0, later.1 ∙ same.1),
    elim wrote [
      | inl e ↦ inl (e ∙ steps)
      | inr (content, bytes, w, e) ↦ inr (content, bytes, w, rw (← same.0, ← same.1, ← steps) e)
    ],
  )

  pub Idle-then :
      {T A B : Type 0} (p : Payload T) (key : Text) (m : Workflow A) (k : A → Workflow B)
      (f : Frame)
      → Idle f (m f).1
      → ((a : A) → Writes p key (k a))
      → Wrote p key f ((m >>= k) f).1
  Idle-then {A = A} p key m k f idle rest = of (m f).0
    where
      of : (r : Outcome EngineError A) → Wrote p key f (continue r k (m f).1).1
      of (ok a) = Idle-Wrote p key f (m f).1 (k a (m f).1).1 idle (rest a (m f).1)
      of (err c) = (idle.0, inl idle.1)
      of panic = (idle.0, inl idle.1)

  -- Nothing is written after a call.
  pub then-Idle :
      {T A B : Type 0} (p : Payload T) (key : Text) (m : Workflow A) (k : A → Workflow B)
      (f : Frame)
      → Wrote p key f (m f).1
      → ((a : A) (g : Frame) → Idle g (k a g).1)
      → Wrote p key f ((m >>= k) f).1
  then-Idle {A = A} p key m k f (same, wrote) rest = of (m f).0
    where
      of : (r : Outcome EngineError A) → Wrote p key f (continue r k (m f).1).1
      of (ok a) =
          let idle = rest a (m f).1 in
          (
            (idle.0.0 ∙ same.0, idle.0.1 ∙ same.1),
            elim wrote [
              | inl e ↦ inl (idle.1 ∙ e)
              | inr (content, bytes, w, e) ↦ inr (content, bytes, w, idle.1 ∙ e)
            ],
          )
      of (err c) = (same, wrote)
      of panic = (same, wrote)

  pub write-Wrote :
      {T : Type 0} (p : Payload T) (key : Text) (content : StepData T) (bytes : Bytes) (f : Frame)
      → serialize_step p content key ≡ ok bytes
      → Wrote p key f (journal_write (key_of key f) bytes f).1
  write-Wrote p key content bytes f e = (
    journal_write-SameInstance (key_of key f) bytes f,
    elim (journal_write_steps (key_of key f) bytes f) [
      | inl same ↦ inl same
      | inr put ↦ inr (content, bytes, e, put)
    ],
  )

  pub persist-Wrote :
      {T : Type 0} (p : Payload T) (key : Text) (content : StepData T)
      → Writes p key (persist key p content)
  unfolding persist
  persist-Wrote p key content f = of (serialize_step p content key) refl
    where
      of :
          (r : Outcome EngineError Bytes)
          → serialize_step p content key ≡ r
          → Wrote p key f
              (continue r
                (λ bytes. gets (key_of key) >>= λ composite. journal_write composite bytes)
                f).1
      of (ok bytes) e = write-Wrote p key content bytes f e
      of (err c) e = ((refl, refl), inl refl)
      of panic e = ((refl, refl), inl refl)

  pub restore_status-Idle : (status : Option Text) (f : Frame) → Idle f (restore_status status f)
  unfolding restore_status
  restore_status-Idle none f = ((refl, refl), refl)
  restore_status-Idle (some msg) f = ((refl, refl), refl)

  -- The three operations of the context read their entry, look at it, and then end or go on.
  pub look-Wrote :
      {T A B : Type 0} (p : Payload T) (key : Text) (look : Option Bytes → Workflow A)
      (finish : A → Workflow B) (f : Frame)
      → ((o : Option Bytes) (g : Frame) → Idle g (look o g).1)
      → ((a : A) → Writes p key (finish a))
      → Wrote p key f ((journal_read (key_of key f) >>= λ o. look o >>= finish) f).1
  look-Wrote p key look finish f quiet rest =
      Idle-then p key (journal_read (key_of key f)) _ f (journal_read-Idle (key_of key f) f)
        λ o g. Idle-then p key (look o) finish g (quiet o g) rest

  -- What follows a call that returns, as it returns.
  pub Idle-when :
      {A B : Type 0} (m : Workflow A) (k : A → Workflow B) (f : Frame)
      → Idle f (m f).1
      → ((a : A) → (m f).0 ≡ ok a → Idle (m f).1 (k a (m f).1).1)
      → Idle f ((m >>= k) f).1
  Idle-when {A = A} m k f first rest = of (m f).0 refl
    where
      of : (r : Outcome EngineError A) → (m f).0 ≡ r → Idle f (continue r k (m f).1).1
      of (ok a) e =
          let later = rest a e in
          ((later.0.0 ∙ first.0.0, later.0.1 ∙ first.0.1), later.1 ∙ first.1)
      of (err c) e = first
      of panic e = first

  -- A read that returns has found the entry.
  pub found_entry :
      (key : Text) (bytes : Bytes) (o : Option Bytes) (f : Frame)
      → x.texts.get f.shared.db.steps key ≡ some bytes
      → (journal_read key f).0 ≡ ok o
      → o ≡ some bytes
  found_entry key bytes o f q e = elim (journal_read_result key f) [
    | inl r ↦ ok-injective _ _ (sym e ∙ r) ∙ q
    | inr (c, r) ↦ absurd (clash c (sym r ∙ e))
  ]
    where
      clash : (c : EngineError) → ◌≡◌ {A = Outcome EngineError (Option Bytes)} (err c) (ok o) → ⊥
      clash c e = ground arith

  pub look-Idle :
      {A B : Type 0} (key : Text) (look : Option Bytes → Workflow A) (finish : A → Workflow B)
      (f : Frame) (bytes : Bytes)
      → x.texts.get f.shared.db.steps key ≡ some bytes
      → ((o : Option Bytes) (g : Frame) → Idle g (look o g).1)
      → ((a : A) (g : Frame) → (look (some bytes) g).0 ≡ ok a → (h : Frame) → Idle h (finish a h).1)
      → Idle f ((journal_read key >>= λ o. look o >>= finish) f).1
  look-Idle key look finish f bytes q quiet rest =
      Idle-when (journal_read key) _ f (journal_read-Idle key f) λ o e.
        let g = (journal_read key f).1 in
        subst (λ o. Idle g ((look o >>= finish) g).1) (sym (found_entry key bytes o f q e))
          (Idle-when (look (some bytes)) finish g (quiet (some bytes) g)
            λ a d. rest a g d (look (some bytes) g).1)
