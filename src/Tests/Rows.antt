-- ===== src/Tests/Rows.antt =====
-- Witnesses on keys, metadata, retention and retries.
use memable.Prelude.{
  ℕ, ◌*◌, ◌^◌, ◌≤◌, ◌<◌, min, ◌≡◌, refl, arith, none, some, List, [], ◌∷◌, ◌++◌, ◌∈◌, if◌then◌else◌,
}
use memable.Text.{Text, slash, text_eq, strip_prefix}
use memable.Text.Order.{is_some}
use memable.Outcome.{ok}
use memable.Status.{WorkflowMetadata}
use memable.Keys.{meta_key}
use memable.Metadata.{write_metadata, read_metadata, list_metadata}
use memable.Metadata.Laws.{read-write_metadata}
use memable.Metadata.Listing.{list_metadata-eq-read_metadata}
use memable.Retention.{delete_instance_data, collect_expired_metadata}
use memable.Retention.Delete.{is_timer_of, delete_instance_data-exact}
use memable.Retention.Expired.{IsExpired, collect_expired_metadata-exact}
use memable.Retry.{RetryPolicy, exponential, delay_for}
use memable.Retry.Delay.{delay_for_exponential}
use memable.Tests.Demo.{demo}
use memable.Tests.Scene.{wf, inst, waiting_db, done_db, done, waiting, step_row}

read-write_metadata_example :
    (read_metadata wf inst (write_metadata wf inst done waiting_db).1).0 ≡ (
      if text_eq (meta_key wf inst) (meta_key wf inst)
      then ok (some done)
      else (read_metadata wf inst waiting_db).0)
unfolding write_metadata
read-write_metadata_example = read-write_metadata wf inst wf inst done waiting_db refl refl

abbrev the_one : Text × WorkflowMetadata
the_one = (inst, waiting)

abbrev listed : List (Text × WorkflowMetadata)
listed = the_one ∷ []

list_metadata-eq-read_metadata_example :
    (the_one ∈ listed → (read_metadata wf inst waiting_db).0 ≡ ok (some waiting))
    × ((read_metadata wf inst waiting_db).0 ≡ ok (some waiting) → the_one ∈ listed)
unfolding list_metadata memable.Text.text_lt strip_prefix
list_metadata-eq-read_metadata_example =
    list_metadata-eq-read_metadata wf inst waiting waiting_db listed refl refl

delete_instance_data-exact_example :
    let (r, d) = delete_instance_data wf inst done_db in
    (r ≡ ok tt)
    × (demo.texts.get d.meta step_row ≡ (
        if text_eq (meta_key wf inst) step_row then none else demo.texts.get done_db.meta step_row))
    × (demo.texts.get d.steps step_row ≡ (
        if is_some (strip_prefix (meta_key wf inst ++ slash ∷ []) step_row)
        then none
        else demo.texts.get done_db.steps step_row))
    × (demo.timers.get d.timers (3, 7) ≡ (
        if is_timer_of wf inst (demo.timers.get done_db.timers (3, 7))
        then none
        else demo.timers.get done_db.timers (3, 7)))
delete_instance_data-exact_example = delete_instance_data-exact wf inst step_row (3, 7) done_db refl

abbrev expired : Text × Text
expired = (wf, inst)

abbrev cleaned : List (Text × Text)
cleaned = expired ∷ []

-- A retention of 90.9 seconds, and an age of 90.
abbrev ttl : ℕ
ttl = 90900000000

collect_expired_metadata-exact_example :
    let Found : Type 0 =
      (m : WorkflowMetadata) × ((read_metadata wf inst done_db).0 ≡ ok (some m))
      × IsExpired 100 ttl [] wf m in
    (expired ∈ cleaned → Found) × (Found → expired ∈ cleaned)
unfolding memable.Text.contains collect_expired_metadata memable.Text.split_once
collect_expired_metadata-exact_example =
    collect_expired_metadata-exact 100 ttl [] wf inst done_db cleaned refl refl refl

abbrev doubling : RetryPolicy
doubling = record { max_retries = 3; backoff = exponential 100 1000 }

delay_for_exponential_example :
    (2 < 32 → delay_for doubling 2 ≡ min (100 * 2 ^ 2) 1000) × (delay_for doubling 2 ≤ 1000)
delay_for_exponential_example = delay_for_exponential doubling 100 1000 2 refl (omega arith)
