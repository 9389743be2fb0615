-- ===== src/FanOut/Again.antt =====
-- A fan-out that has returned is not run again: its results come from the journal.
use memable.Prelude.{◌≡◌, refl, ap, ◌∙◌, subst, arith, Option, none, some, List, length}
use memable.Text.{Text}
use memable.Outcome.{ok, bind_ok, ok-injective, ◌>>=◌, pure, lift}
use memable.Journal.{Bytes, completed}
use memable.External.{External, Payload}
use memable.Store.{IsHealthy}
use memable.Codec.{serialize_step, deserialize_step}
use memable.Context.{Frame, Workflow, key_of, stop_replaying, only_completed}
use memable.Context.Journal.{
  Stored, journal_read, journal_write, read-Stored, write-Stored, read_step-IsHealthy,
}
use memable.FanOut.{child_ids}
use memable.FanOut.Cache.{cached_of, check_cached, write_result}
use memable.FanOut.Run.{
  FanOutManifest, FanOutBuilder, step_key_of, write_manifest, with_cache, start, or_start,
}

module _ ⦃x : External⦄ {R : Type 0} (p : Payload R) (key : Text) where
  cached_of-some :
      (o : Option Bytes) (results : R)
      → cached_of p key o ≡ ok (some results)
      → (bytes : Bytes) × (status : Option Text) × (o ≡ some bytes)
        × (deserialize_step p bytes key ≡ ok (completed results status))
  unfolding cached_of only_completed
  cached_of-some o results e = ground arith

  check_cached-Stored :
      (f g : Frame) (results : R)
      → check_cached p key f ≡ (ok (some results), g)
      → Stored p key results g
  unfolding check_cached
  check_cached-Stored f g results e =
      let (o, f1, read, looked) =
        bind_ok f g (journal_read (key_of key f)) (λ o. lift (cached_of p key o)) (some results)
          e in
      let (bytes, status, there, decoded) = cached_of-some o results (ap (λ o. o.0) looked) in
      subst (Stored p key results) (ap (λ o. o.1) looked) (
        read-Stored p key results status bytes f f1
          (subst (λ o. journal_read (key_of key f) f ≡ (ok o, f1)) there read) decoded)

  write_result-Stored :
      (results : R) (f g : Frame)
      → write_result p key results f ≡ (ok tt, g)
      → Stored p key results g
  unfolding write_result
  write_result-Stored results f g e =
      let (bytes, f1, written, rest) =
        bind_ok f g (lift (serialize_step p (completed results none) key))
          (λ bytes. journal_write (key_of key f) bytes) tt e in
      let same : f ≡ f1 = ap (λ o. o.1) written in
      write-Stored p key results none bytes f g (ap (λ o. o.0) written)
        (ap (journal_write (key_of key f) bytes) same ∙ rest)

  pub check_cached-IsHealthy :
      (results : R) (f : Frame)
      → IsHealthy f.shared.db
      → Stored p key results f
      → check_cached p key f ≡ (ok (some results), f)
  unfolding check_cached cached_of only_completed
  check_cached-IsHealthy results f h c =
      ground (arith, read_step-IsHealthy (key_of key f) f.shared.db h, c.found, c.decoded)

module _ ⦃x : External⦄ {I Mode R : Type 0} (q : Payload FanOutManifest) (p : Payload R)
    (b : FanOutBuilder I Mode) where
  start-Stored :
      (children : List Text → Workflow R) (f g : Frame) (results : R)
      → start q p b children f ≡ (ok results, g)
      → Stored p (step_key_of b.key) results g
  start-Stored children f g results e =
      let f0 = stop_replaying f in
      let ids = child_ids f.context.instance_id b.key (length b.items) in
      let finish : R → Workflow R = λ r. write_result p (step_key_of b.key) r >>= λ _. pure r in
      let (_, f1, _, e1) =
        bind_ok f0 g (write_manifest q (step_key_of b.key) ids) (λ _. children ids >>= finish)
          results e in
      let (r, f2, _, e2) = bind_ok f1 g (children ids) finish results e1 in
      let (_, f3, written, e3) =
        bind_ok f2 g (write_result p (step_key_of b.key) r) (λ _. pure r) results e2 in
      let same : r ≡ results = ok-injective r results (ap (λ o. o.0) e3) in
      let there : f3 ≡ g = ap (λ o. o.1) e3 in
      subst (λ r. Stored p (step_key_of b.key) r g) same
        (subst (Stored p (step_key_of b.key) r) there
          (write_result-Stored p (step_key_of b.key) r f2 f3 written))

  with_cache-Stored :
      (children : List Text → Workflow R) (f g : Frame) (results : R)
      → with_cache q p b children f ≡ (ok results, g)
      → Stored p (step_key_of b.key) results g
  unfolding with_cache
  with_cache-Stored children f g results e =
      let (o, f', checked, rest) =
        bind_ok f g (check_cached p (step_key_of b.key)) (or_start (start q p b children)) results
          e in
      of o f' checked rest
    where
      of :
          (o : Option R) (f' : Frame)
          → check_cached p (step_key_of b.key) f ≡ (ok o, f')
          → or_start (start q p b children) o f' ≡ (ok results, g)
          → Stored p (step_key_of b.key) results g
      of none f' checked rest = start-Stored children f' g results rest
      of (some r) f' checked rest =
          subst (λ r. Stored p (step_key_of b.key) r g)
            (ok-injective r results (ap (λ o. o.0) rest))
            (subst (Stored p (step_key_of b.key) r) (ap (λ o. o.1) rest)
              (check_cached-Stored p (step_key_of b.key) f f' r checked))

  -- When a fan-out has returned its results, in whatever mode and with whatever faults before, then
  -- in any later frame of the instance on storage that does not fail whose journal has the fan-out's
  -- entry unchanged it returns the same results, whatever its children would do, and changes
  -- nothing: no child is run.
  pub with_cache-with_cache :
      (children others : List Text → Workflow R) (f g : Frame) (results : R)
      → (with_cache q p b children f).0 ≡ ok results
      → let f' = (with_cache q p b children f).1 in
        key_of (step_key_of b.key) g ≡ key_of (step_key_of b.key) f'
        → x.texts.get g.shared.db.steps (key_of (step_key_of b.key) g)
          ≡ x.texts.get f'.shared.db.steps (key_of (step_key_of b.key) f')
        → IsHealthy g.shared.db
        → with_cache q p b others g ≡ (ok results, g)
  unfolding with_cache
  with_cache-with_cache children others f g results e same entry h =
      let c =
        with_cache-Stored children f (with_cache q p b children f).1 results
          (ap (λ r. (r, (with_cache q p b children f).1)) e) in
      let hit = check_cached-IsHealthy p (step_key_of b.key) results g h (record {
        bytes = c.bytes;
        status = c.status;
        found = entry ∙ c.found;
        decoded = c.decoded;
      }) in
      rw hit refl
