-- ===== src/Codec/Laws.antt =====
-- Reading back a serialised step, as its own type and as another.
use memable.Prelude.{◌≡◌, refl, false, Option, arith, inr}
use memable.Text.{Text, text_eq, text_eq_refl}
use memable.Outcome.{ok, err}
use memable.Error.{type_mismatch}
use memable.Journal.{Bytes, StepData, StepEnvelope, completed}
use memable.External.{External, Payload}
use memable.Codec.{step_state, type_tag, serialize_step, deserialize_envelope, deserialize_step}

module _ ⦃x : External⦄ where
  -- What is inside the bytes of a step.
  pub serialize_step_ok :
      {T : Type 0} (p : Payload T) (content : StepData T) (key : Text) (bytes : Bytes)
      → serialize_step p content key ≡ ok bytes
      → (inner : Bytes) × (p.step_data.to_allocvec content ≡ inr inner)
        × (x.envelope.to_allocvec (record {
          state = step_state content;
          type_tag = type_tag p content;
          payload = inner;
        })
            ≡ inr bytes)
  unfolding serialize_step
  serialize_step_ok p content key bytes h = ground arith

  -- What was serialised for a step reads back as it was, under any key.
  pub deserialize-serialize_step :
      {T : Type 0} (p : Payload T) (content : StepData T) (key key' : Text) (bytes : Bytes)
      → serialize_step p content key ≡ ok bytes
      → deserialize_step p bytes key' ≡ ok content
  unfolding deserialize_step
  deserialize-serialize_step p content key key' bytes h =
      let (inner, e, f) = serialize_step_ok p content key bytes h in
      ground (
        arith,
        x.envelope.round_trip _ bytes f,
        p.step_data.round_trip content inner e,
        text_eq_refl p.type_name,
      )

  -- A completed step of one type is refused when it is read as a type of another name: the error
  -- names both.
  pub deserialize_step_other_type :
      {T U : Type 0} (p : Payload T) (q : Payload U) (result : T) (status : Option Text)
      (key key' : Text) (bytes : Bytes)
      → serialize_step p (completed result status) key ≡ ok bytes
      → text_eq p.type_name q.type_name ≡ false
      → deserialize_step q bytes key' ≡ err (type_mismatch key' q.type_name p.type_name)
  unfolding deserialize_step
  deserialize_step_other_type p q result status key key' bytes h ne =
      let (inner, e, f) = serialize_step_ok p (completed result status) key bytes h in
      ground (arith, x.envelope.round_trip _ bytes f)

  -- The envelope names the state of the step.
  pub deserialize_envelope-serialize_step :
      {T : Type 0} (p : Payload T) (content : StepData T) (key key' : Text) (bytes : Bytes)
      → serialize_step p content key ≡ ok bytes
      → (e : StepEnvelope) × (deserialize_envelope bytes key' ≡ ok e)
        × (e.state ≡ step_state content)
  unfolding deserialize_envelope
  deserialize_envelope-serialize_step p content key key' bytes h =
      let (inner, e, f) = serialize_step_ok p content key bytes h in
      let envelope : StepEnvelope = record {
        state = step_state content;
        type_tag = type_tag p content;
        payload = inner;
      } in
      (envelope, ground (arith, x.envelope.round_trip envelope bytes f), refl)
