-- ===== src/Retention.antt =====
-- src/engine/retention.rs: the cleanup of expired instances. A retention is a `Duration`, its number of
-- nanoseconds; the clock and the times of completion are seconds.
pub mod Expired
pub mod Delete
use memable.Prelude.{
  ℕ, zero, suc, ◌+◌, ◌-◌, ◌/◌, ◌%◌, ◌&&◌, Bool, true, false, Option, none, some, List, [], ◌∷◌,
  ◌++◌, leb, if◌then◌else◌, ◌⊎◌, inl, inr,
}
use memable.Text.{Text, text_eq, slash, split_once}
use memable.Outcome.{Outcome, ok, err, panic, ◌>>=◌, pure, and_then}
use memable.Error.{EngineError}
use memable.Journal.{Bytes, TimerEntry}
use memable.Status.{WorkflowMetadata}
use memable.External.{External, TimerKey}
use memable.Store.{Tables, Db, read_txn, write_txn}
use memable.Keys.{meta_key}
use memable.Metadata.{decode_metadata}
use memable.Retry.{second}

-- `workflow_retentions`, a `HashMap`, with the engine's default.
unfoldable pub retention_of : Text → List (Text × ℕ) → ℕ → ℕ
retention_of w [] default = default
retention_of w ((name, ttl) ∷ rest) default =
    let others = retention_of w rest default in if text_eq name w then ttl else others

-- `saturating_sub` is the subtraction of ℕ; `as_secs` drops the fraction of a second.
unfoldable pub has_expired : ℕ → ℕ → ℕ → Bool
has_expired now completed_at retention = leb (retention / second) (now - completed_at)

module _ ⦃x : External⦄ where
  -- One row: an instance that is not done is left out.
  unfoldable pub push_expired :
      ℕ → ℕ → List (Text × ℕ) → Text → Text → Option ℕ → List (Text × Text) → List (Text × Text)
  unfolding has_expired retention_of
  push_expired now default overrides w i none expired = expired
  push_expired now default overrides w i (some at) expired =
      if has_expired now at (retention_of w overrides default) then (w, i) ∷ expired else expired

  unfoldable pub collect_entries :
      ℕ → ℕ → List (Text × ℕ) → List (Text × Bytes) → Outcome EngineError (List (Text × Text))
  unfolding decode_metadata push_expired
  collect_entries now default overrides [] = ok []
  collect_entries now default overrides ((full_key, bytes) ∷ rest) =
      let others = collect_entries now default overrides rest in
      elim (split_once full_key slash) [
        | none ↦ others
        | some (w, i) ↦ and_then (decode_metadata full_key bytes) λ meta.
            and_then others
              (λ expired. ok (push_expired now default overrides w i meta.completed_at expired))
      ]

  unfoldable pub collect_expired_metadata : ℕ → ℕ → List (Text × ℕ) → Db (List (Text × Text))
  unfolding collect_entries read_txn
  collect_expired_metadata now default overrides =
      read_txn (λ t. collect_entries now default overrides (x.texts.iter t.meta))

  unfoldable pub remove_steps : List (Text × Bytes) → x.texts.Table → x.texts.Table
  remove_steps [] t = t
  remove_steps ((key, _) ∷ rest) t = remove_steps rest (x.texts.remove t key)

  -- A row that does not decode is not the instance's.
  unfoldable pub belongs_to : Text → Text → Bytes → Bool
  belongs_to w i bytes = elim (x.timer_entry.from_bytes bytes) [
    | inl _ ↦ false
    | inr timer ↦ text_eq timer.workflow_name w && text_eq timer.instance_id i
  ]

  unfoldable pub remove_timers :
      Text → Text → List (TimerKey × Bytes) → x.timers.Table → x.timers.Table
  unfolding belongs_to
  remove_timers w i [] t = t
  remove_timers w i ((key, bytes) ∷ rest) t =
      remove_timers w i rest (if belongs_to w i bytes then x.timers.remove t key else t)

  unfoldable pub delete_body : Text → Text → Tables → Tables
  unfolding remove_steps remove_timers
  delete_body w i t =
      let prefix = meta_key w i ++ slash ∷ [] in
      let end = meta_key w i ++ b'0' ∷ [] in
      record t {
        meta = x.texts.remove t.meta (meta_key w i);
        steps = remove_steps (x.texts.range t.steps prefix end) t.steps;
        timers = remove_timers w i (x.timers.iter t.timers) t.timers;
      }

  unfoldable pub delete_instance_data : Text → Text → Db (Unit {0})
  unfolding delete_body write_txn
  delete_instance_data w i = write_txn (λ t. ok (tt, delete_body w i t))

  -- `cleaned += 1` on `u32`, as a release build computes it. The sum does not depend on the order.
  abbrev count : Outcome EngineError (Unit {0}) → ℕ → ℕ
  count (ok _) cleaned = (cleaned + 1) % 4294967296
  count _ cleaned = cleaned

  -- An instance that fails is left for the next cycle.
  unfoldable pub delete_all : List (Text × Text) → Db ℕ
  unfolding delete_instance_data
  delete_all [] d = (ok 0, d)
  delete_all ((w, i) ∷ rest) d =
      let (r, d') = delete_instance_data w i d in
      let (n, d'') = delete_all rest d' in (and_then n (λ cleaned. ok (count r cleaned)), d'')

  unfoldable pub cleanup_expired : ℕ → ℕ → List (Text × ℕ) → Db ℕ
  unfolding collect_expired_metadata delete_all
  cleanup_expired now default overrides = do
    expired ← collect_expired_metadata now default overrides
    delete_all expired
