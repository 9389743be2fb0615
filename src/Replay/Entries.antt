-- ===== src/Replay/Entries.antt =====
-- The entries of the journal: which bytes a step of one of the types has written, and how they read.
use memable.Prelude.{◌≡◌, refl, sym, ap, ◌∙◌, subst, arith, Option, some, inl, inr, ◌⊎◌, Bool-cases}
use memable.Text.{Text, text_eq}
use memable.Outcome.{ok, err}
use memable.Error.{EngineError}
use memable.Journal.{Bytes, StepData, completed, suspended, failed}
use memable.External.{External, Payload}
use memable.Codec.{serialize_step, deserialize_step}
use memable.Codec.Laws.{serialize_step_ok, deserialize-serialize_step, deserialize_step_other_type}
use memable.Replay.{Types}

module _ ⦃x : External⦄ where
  -- No operation of the context writes over such an entry.
  abbrev pub ReadsAsDone : {T : Type 0} → Payload T → Text → Bytes → Type 0
  ReadsAsDone {T} p key bytes =
      ((v : T) × (status : Option Text) × (deserialize_step p bytes key ≡ ok (completed v status)))
      ⊎ ((e : EngineError) × (deserialize_step p bytes key ≡ err e))

  -- A completed entry that reads back as itself.
  abbrev pub Faithful : {T : Type 0} → Payload T → Bytes → Type 0
  Faithful {T} p bytes =
      (key : Text) (v : T) (status : Option Text)
      → deserialize_step p bytes key ≡ ok (completed v status)
      → serialize_step p (completed v status) key ≡ ok bytes

  serialize_any_key :
      {T : Type 0} (p : Payload T) (c : StepData T) (key key' : Text) (bytes : Bytes)
      → serialize_step p c key ≡ ok bytes
      → serialize_step p c key' ≡ ok bytes
  unfolding serialize_step
  serialize_any_key p c key key' bytes h = ground arith

module _ ⦃x : External⦄ (u : Types) where
  -- The bytes are what a step of one of the types has written.
  pub record Written (bytes : Bytes) : Type 0 where
    pub type : u.Ty
    pub content : StepData (u.El type)
    pub key : Text
    pub serialized : serialize_step (u.payload type) content key ≡ ok bytes

  -- Every entry of the table is one that a step has written.
  abbrev pub Journaled : x.texts.Table → Type 0
  Journaled steps = (k : Text) (b : Bytes) → x.texts.get steps k ≡ some b → Written b

  -- A property of the payloads of all types is one of the timers' payload.
  pub at_unit :
      (P : (T : Type 0) → Payload T → Type 0)
      → P (u.El u.unit) (u.payload u.unit)
      → P (Unit {0}) x.unit
  at_unit P h = subst (λ q. P q.0 q.1) u.unit_lem h

  pub from_unit :
      (P : (T : Type 0) → Payload T → Type 0)
      → P (Unit {0}) x.unit
      → P (u.El u.unit) (u.payload u.unit)
  from_unit P h = subst (λ q. P q.0 q.1) (sym u.unit_lem) h

  pub completed-ReadsAsDone :
      (s t : u.Ty) (v : u.El s) (status : Option Text) (key key' : Text) (bytes : Bytes)
      → serialize_step (u.payload s) (completed v status) key ≡ ok bytes
      → ReadsAsDone (u.payload t) key' bytes
  completed-ReadsAsDone s t v status key key' bytes e =
      elim (Bool-cases (text_eq (u.payload s).type_name (u.payload t).type_name)) [
        | inl same ↦
            subst (λ t. ReadsAsDone (u.payload t) key' bytes) (u.name_injective s t same)
              (inl (
                v,
                status,
                deserialize-serialize_step (u.payload s) (completed v status) key key' bytes e,
              ))
        | inr other ↦ inr (
          _,
          deserialize_step_other_type (u.payload s) (u.payload t) v status key key' bytes e other,
        )
      ]

  untagged :
      (s t : u.Ty) (c : StepData (u.El s)) (d : StepData (u.El t)) (key key' : Text) (bytes : Bytes)
      → serialize_step (u.payload s) c key ≡ ok bytes
      → (c ≡ suspended) ⊎ ((e : Text) × (c ≡ failed e))
      → deserialize_step (u.payload t) bytes key' ≡ ok d
      → (d ≡ suspended) ⊎ ((e : Text) × (d ≡ failed e))
  unfolding deserialize_step
  untagged s t c d key key' bytes h (inl same) r =
      let (inner, e, f) = serialize_step_ok (u.payload s) c key bytes h in
      inl (ground (arith, x.envelope.round_trip _ bytes f, u.suspended_as s t inner))
  untagged s t c d key key' bytes h (inr (msg, same)) r =
      let (inner, e, f) = serialize_step_ok (u.payload s) c key bytes h in
      inr (msg, ground (arith, x.envelope.round_trip _ bytes f, u.failed_as s t msg inner))

  completed_written :
      (s t : u.Ty) (a : u.El s) (st : Option Text) (k : Text) (bytes : Bytes)
      → serialize_step (u.payload s) (completed a st) k ≡ ok bytes
      → Faithful (u.payload t) bytes
  completed_written s t a st k bytes h key v status r =
      elim (Bool-cases (text_eq (u.payload s).type_name (u.payload t).type_name)) [
        | inl same ↦ same_type t (u.name_injective s t same) v r
        | inr other ↦
            let e =
              deserialize_step_other_type (u.payload s) (u.payload t) a st k key bytes h other in
            absurd (ground arith)
      ]
    where
      as_itself :
          (v : u.El s)
          → deserialize_step (u.payload s) bytes key ≡ ok (completed v status)
          → serialize_step (u.payload s) (completed v status) key ≡ ok bytes
      as_itself v r =
          let back = deserialize-serialize_step (u.payload s) (completed a st) k key bytes h in
          let same : completed a st ≡ completed v status = cc (back, r) in
          serialize_any_key (u.payload s) (completed v status) k key bytes
            (ap (λ c. serialize_step (u.payload s) c k) (sym same) ∙ h)

      same_type :
          (t : u.Ty)
          → s ≡ t
          → (v : u.El t) → deserialize_step (u.payload t) bytes key ≡ ok (completed v status)
          → serialize_step (u.payload t) (completed v status) key ≡ ok bytes
      same_type t e =
          subst
            (λ t.
              (v : u.El t)
              → deserialize_step (u.payload t) bytes key ≡ ok (completed v status)
              → serialize_step (u.payload t) (completed v status) key ≡ ok bytes)
            e as_itself

  -- What reads as a completed entry of a type was written as that entry.
  pub Written-Faithful : (t : u.Ty) (bytes : Bytes) → Written bytes → Faithful (u.payload t) bytes
  Written-Faithful t bytes w = by_content w.type w.content w.key w.serialized
    where
      by_content :
          (s : u.Ty) (c : StepData (u.El s)) (k : Text)
          → serialize_step (u.payload s) c k ≡ ok bytes
          → Faithful (u.payload t) bytes
      by_content s (completed a st) k h key v status r =
          completed_written s t a st k bytes h key v status r
      by_content s suspended k h key v status r =
          elim (untagged s t suspended (completed v status) k key bytes h (inl refl) r) [
            | inl q ↦ absurd (ground arith)
            | inr (m, q) ↦ absurd (ground arith)
          ]
      by_content s (failed msg) k h key v status r =
          elim (untagged s t (failed msg) (completed v status) k key bytes h (inr (msg, refl)) r) [
            | inl q ↦ absurd (ground arith)
            | inr (m, q) ↦ absurd (ground arith)
          ]
