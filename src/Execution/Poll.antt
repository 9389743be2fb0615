-- ===== src/Execution/Poll.antt =====
-- The timer poller: which timers a round takes, and what happens to one of them.
use memable.Prelude.{
  ℕ, ◌≤◌, ◌≡◌, sym, ap, ◌∙◌, arith, Bool, true, false, not, ◌&&◌, Option, some, inl, inr, List, [],
  ◌∷◌, ◌∈◌, keep, mem-keep, keep-mem, subst, leb, leb→le,
}
use memable.Outcome.{ok}
use memable.Status.{WorkflowMetadata}
use memable.Journal.{Bytes, TimerEntry}
use memable.External.{External, TimerKey, timer_lt}
use memable.Store.{Database, IsHealthy}
use memable.Retry.{u64_max}
use memable.Metadata.{read_metadata}
use memable.Metadata.Laws.{read_metadata-IsHealthy}
use memable.Shared.{Shared}
use memable.Execution.{decode_timers, collect_expired_timers, remove_timer, awaits_signal, poll_one}

module _ ⦃x : External⦄ where
  decode_timers_cons :
      (key : TimerKey) (b : Bytes) (rows : List (TimerKey × Bytes))
      (es : List (TimerKey × TimerEntry))
      → decode_timers ((key, b) ∷ rows) ≡ ok es
      → (entry : TimerEntry) × (rest : List (TimerKey × TimerEntry)) × (x.timer_entry.from_bytes b
          ≡ inr entry)
        × (decode_timers rows ≡ ok rest)
        × (es ≡ (key, entry) ∷ rest)
  unfolding decode_timers
  decode_timers_cons key b rows es h = ground arith

  decode_timers-mem :
      (rows : List (TimerKey × Bytes)) (es : List (TimerKey × TimerEntry)) (key : TimerKey)
      (entry : TimerEntry)
      → decode_timers rows ≡ ok es
      → (key, entry) ∈ es
      → (b : Bytes) × ((key, b) ∈ rows) × (x.timer_entry.from_bytes b ≡ inr entry)
  decode_timers-mem [] [] key entry h m = absurd m
  decode_timers-mem [] (e ∷ es) key entry h m = absurd (unfold decode_timers in cc)
  decode_timers-mem ((k, b) ∷ rows) es key entry h m =
      let (first, rest, decoded, others, e) = decode_timers_cons k b rows es h in
      elim (subst (λ l. (key, entry) ∈ l) e m) [
        | inl same ↦ (b, inl (ground arith), ground arith)
        | inr later ↦
            let (c, at, d) = decode_timers-mem rows rest key entry others later in (c, inr at, d)
      ]

  mem-decode_timers :
      (rows : List (TimerKey × Bytes)) (es : List (TimerKey × TimerEntry)) (key : TimerKey)
      (entry : TimerEntry) (b : Bytes)
      → decode_timers rows ≡ ok es
      → (key, b) ∈ rows
      → x.timer_entry.from_bytes b ≡ inr entry
      → (key, entry) ∈ es
  mem-decode_timers [] es key entry b h m d = absurd m
  mem-decode_timers ((k, c) ∷ rows) es key entry b h m d =
      let (first, rest, decoded, others, e) = decode_timers_cons k c rows es h in
      subst (λ l. (key, entry) ∈ l) (sym e)
        (elim m [
          | inl same ↦ inl (ground arith)
          | inr later ↦ inr (mem-decode_timers rows rest key entry b others later d)
        ])

  abbrev rows : ℕ → Database → List (TimerKey × Bytes)
  rows now d = x.timers.range_inclusive d.timers (0, 0) (now, u64_max)

  abbrev expired_key : ℕ → TimerKey → Bool
  expired_key now key = not (timer_lt key (0, 0)) && not (timer_lt (now, u64_max) key)

  rows_lem :
      (now : ℕ) (d : Database)
      → rows now d ≡ keep (λ e. expired_key now e.0) (x.timers.iter d.timers)
  rows_lem now d = x.timers.range_inclusive_lem d.timers (0, 0) (now, u64_max)

  expired_key_iff :
      (now : ℕ) (key : TimerKey) → key.1 ≤ u64_max → expired_key now key ≡ leb key.0 now
  expired_key_iff now key h = ground arith

  collect-IsHealthy :
      (now : ℕ) (d : Database)
      → IsHealthy d
      → collect_expired_timers now d ≡ (decode_timers (rows now d), d)
  unfolding collect_expired_timers
  collect-IsHealthy now d h = ground arith

  le→leb : (a b : ℕ) → a ≤ b → leb a b ≡ true
  le→leb a b h = ground arith

  -- On storage that does not fail, when the scan succeeds, it takes exactly the timers of the
  -- table, with a serial that fits a `u64`, whose deadline has come, each with its entry.
  pub collect_expired_timers-exact :
      (now : ℕ) (key : TimerKey) (entry : TimerEntry) (d : Database)
      (es : List (TimerKey × TimerEntry))
      → IsHealthy d
      → key.1 ≤ u64_max
      → (collect_expired_timers now d).0 ≡ ok es
      → ((key, entry) ∈ es
          → (b : Bytes) × (x.timers.get d.timers key ≡ some b)
            × (x.timer_entry.from_bytes b ≡ inr entry)
            × (key.0 ≤ now))
        × ((b : Bytes)
            → x.timers.get d.timers key ≡ some b
            → x.timer_entry.from_bytes b ≡ inr entry
            → key.0 ≤ now
            → (key, entry) ∈ es)
  collect_expired_timers-exact now key entry d es h u e = (taken, found)
    where
      decoded : decode_timers (rows now d) ≡ ok es
      decoded = rw (ap (λ r. r.0) (collect-IsHealthy now d h)) at e

      taken :
          (key, entry) ∈ es
          → (b : Bytes) × (x.timers.get d.timers key ≡ some b)
            × (x.timer_entry.from_bytes b ≡ inr entry)
            × (key.0 ≤ now)
      taken m =
          let (b, row, entry_of) = decode_timers-mem (rows now d) es key entry decoded m in
          let (row', passes) =
            mem-keep (λ r. expired_key now r.0) (x.timers.iter d.timers) (key, b)
              (subst (λ l. (key, b) ∈ l) (rows_lem now d) row) in
          (
            b,
            x.timers.get_of_iter d.timers key b row',
            entry_of,
            leb→le key.0 now (sym (expired_key_iff now key u) ∙ passes),
          )

      found :
          (b : Bytes)
          → x.timers.get d.timers key ≡ some b
          → x.timer_entry.from_bytes b ≡ inr entry
          → key.0 ≤ now
          → (key, entry) ∈ es
      found b there entry_of due =
          mem-decode_timers (rows now d) es key entry b decoded
            (subst (λ l. (key, b) ∈ l) (sym (rows_lem now d))
              (keep-mem (λ r. expired_key now r.0) (x.timers.iter d.timers) (key, b)
                (x.timers.iter_of_get d.timers key b there)
                (expired_key_iff now key u ∙ le→leb key.0 now due)))
            entry_of

  abbrev pub without_timer : TimerKey → Shared → Shared
  without_timer key s = record s {
    db = record s.db { tables = record s.db.tables { timers = x.timers.remove s.db.timers key } };
  }

  pub remove_timer-IsHealthy :
      (key : TimerKey) (s : Shared)
      → IsHealthy s.db
      → remove_timer key s.db ≡ (ok tt, (without_timer key s).db)
  unfolding remove_timer
  remove_timer-IsHealthy key s h = ground arith

  -- On storage that does not fail, a timer whose instance is not stored as suspended is removed,
  -- and nothing else changes.
  pub poll_one_skips :
      (key : TimerKey) (entry : TimerEntry) (meta : Option WorkflowMetadata) (s : Shared)
      → IsHealthy s.db
      → (read_metadata entry.workflow_name entry.instance_id s.db).0 ≡ ok meta
      → awaits_signal meta ≡ false
      → poll_one (key, entry) s ≡ (ok tt, without_timer key s)
  unfolding poll_one
  poll_one_skips key entry meta s h e idle = ground (
    arith,
    remove_timer-IsHealthy key s h,
    read_metadata-IsHealthy entry.workflow_name entry.instance_id s.db h,
    read_metadata-IsHealthy entry.workflow_name entry.instance_id (without_timer key s).db h,
  )
