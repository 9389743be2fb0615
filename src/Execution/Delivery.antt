-- ===== src/Execution/Delivery.antt =====
-- A payload that was claimed for a step reaches the workflow that waits for it.
use memable.Prelude.{◌≡◌, refl, ap, ◌∙◌, arith, Option, none, some}
use memable.Text.{Text}
use memable.Outcome.{ok}
use memable.Journal.{Bytes, completed}
use memable.External.{External, Payload}
use memable.Store.{Database, IsHealthy}
use memable.Codec.{serialize_step, deserialize_step}
use memable.Codec.Laws.{deserialize-serialize_step}
use memable.Context.{Frame, key_of, stop_replaying, restore_status}
use memable.Context.Suspend.{check_signal, execute_suspend}
use memable.Context.Journal.{read_step-IsHealthy}
use memable.Execution.{claim_suspended_step}
use memable.Execution.Claim.{claim_ok-Claimed, Claimed-entry, IsHealthy-claim}

module _ ⦃x : External⦄ where
  suspend_on :
      {T : Type 0} (p : Payload T) (key : Text) (msg : Option Text) (v : T) (status : Option Text)
      (bytes : Bytes) (f : Frame)
      → IsHealthy f.shared.db
      → x.texts.get f.shared.db.steps (key_of key f) ≡ some bytes
      → deserialize_step p bytes key ≡ ok (completed v status)
      → execute_suspend key msg p f ≡ (ok v, restore_status status (stop_replaying f))
  unfolding execute_suspend check_signal
  suspend_on p key msg v status bytes f h there decoded =
      ground (arith, read_step-IsHealthy (key_of key f) f.shared.db h)

  -- On storage that does not fail, after a claim that delivered a payload, a context of that
  -- instance whose database is the one that the claim left gets exactly that payload from its
  -- suspend point, and changes nothing but that it no longer replays.
  pub claim-execute_suspend :
      {T : Type 0} (p : Payload T) (w i key : Text) (msg : Option Text) (v : T) (bytes : Bytes)
      (d : Database) (f : Frame)
      → IsHealthy d
      → serialize_step p (completed v none) key ≡ ok bytes
      → (claim_suspended_step w i key bytes d).0 ≡ ok tt
      → f.shared.db ≡ (claim_suspended_step w i key bytes d).1
      → f.context.workflow_name ≡ w
      → f.context.instance_id ≡ i
      → execute_suspend key msg p f ≡ (ok v, stop_replaying f)
  claim-execute_suspend p w i key msg v bytes d f h e first db name instance =
      suspend_on p key msg v none bytes f
        (ap (λ d. d.faults) db ∙ IsHealthy-claim w i key bytes d h)
        (rw (db, name, instance)
          (Claimed-entry w i key bytes d.tables _ (claim_ok-Claimed w i key bytes d first)))
        (deserialize-serialize_step p (completed v none) key key bytes e)
      ∙ unfold restore_status in refl
