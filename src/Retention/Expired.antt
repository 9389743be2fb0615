-- ===== src/Retention/Expired.antt =====
-- Which instances a cleanup takes.
use memable.Prelude.{
  ℕ, ◌+◌, ◌-◌, ◌*◌, ◌/◌, ◌≤◌, ◌<◌, ◌≡◌, refl, sym, ap, ◌∙◌, subst, arith, true, false, Option, none,
  some, inl, inr, ◌⊎◌, List, [], ◌∷◌, ◌∈◌, leb, leb→le, if◌then◌else◌, Bool-cases, Option-cases,
}
use memable.Text.{Text, slash, contains, split_once}
use memable.Text.Split.{split_once-append, split_once-some}
use memable.Outcome.{ok, Outcome-cases}
use memable.Journal.{Bytes}
use memable.Status.{WorkflowMetadata}
use memable.External.{External}
use memable.Store.{Database, IsHealthy}
use memable.Keys.{meta_key}
use memable.Metadata.{decode_metadata, read_metadata}
use memable.Metadata.Listing.{read_of_entry, entry_of_read}
use memable.Retry.{second}
use memable.Retention.{
  retention_of, has_expired, push_expired, collect_entries, collect_expired_metadata,
}

-- An instance whose metadata says that it ended, and whose age in seconds has reached its retention
-- but for a fraction of a second.
pub record IsExpired (now default : ℕ) (overrides : List (Text × ℕ)) (w : Text)
    (m : WorkflowMetadata) : Type 0 where
  pub at : ℕ
  pub ended : m.completed_at ≡ some at
  pub old : retention_of w overrides default < (now - at + 1) * second

-- The comparison in whole seconds, and in nanoseconds.
seconds_reached : (ttl age : ℕ) → leb (ttl / second) age ≡ true → ttl < (age + 1) * second
seconds_reached ttl age h = let le : ttl / second ≤ age = leb→le (ttl / second) age h in omega arith

reached_seconds : (ttl age : ℕ) → ttl < (age + 1) * second → leb (ttl / second) age ≡ true
reached_seconds ttl age h = let le : ttl / second ≤ age = omega arith in ground arith

module _ ⦃x : External⦄ (now default : ℕ) (overrides : List (Text × ℕ)) where
  -- A row that a scan turns into the expired instance.
  record Row (w i : Text) (k : Text) (b : Bytes) : Type 0 where
    pub meta : WorkflowMetadata
    pub split : split_once k slash ≡ some (w, i)
    pub decoded : decode_metadata k b ≡ ok meta
    pub expired : IsExpired now default overrides w meta

  push_expired-mem :
      (v j w i : Text) (m : WorkflowMetadata) (es : List (Text × Text))
      → (w, i) ∈ push_expired now default overrides v j m.completed_at es
      → ((w ≡ v) × (i ≡ j) × IsExpired now default overrides v m) ⊎ ((w, i) ∈ es)
  unfolding push_expired has_expired
  push_expired-mem v j w i m es h = elim (Option-cases m.completed_at) [
    | inl n ↦ inr (subst (λ o. (w, i) ∈ push_expired now default overrides v j o es) n h)
    | inr (at, e) ↦
        pushed at e (subst (λ o. (w, i) ∈ push_expired now default overrides v j o es) e h)
  ]
    where
      pushed :
          (at : ℕ)
          → m.completed_at ≡ some at
          → (w, i) ∈ push_expired now default overrides v j (some at) es
          → ((w ≡ v) × (i ≡ j) × IsExpired now default overrides v m) ⊎ ((w, i) ∈ es)
      pushed at e g = elim (Bool-cases (has_expired now at (retention_of v overrides default))) [
        | inl q ↦ elim (subst (λ b. (w, i) ∈ (if b then (v, j) ∷ es else es)) q g) [
          | inl same ↦ inl (
            ap (λ r. r.0) same,
            ap (λ r. r.1) same,
            record {
              at = at;
              ended = e;
              old = seconds_reached (retention_of v overrides default) (now - at) q;
            },
          )
          | inr later ↦ inr later
        ]
        | inr q ↦ inr (subst (λ b. (w, i) ∈ (if b then (v, j) ∷ es else es)) q g)
      ]

  mem-push_expired :
      (v j : Text) (m : WorkflowMetadata) (es : List (Text × Text))
      → IsExpired now default overrides v m
      → (v, j) ∈ push_expired now default overrides v j m.completed_at es
  unfolding push_expired has_expired
  mem-push_expired v j m es e = rw (e.ended, reached_seconds _ _ e.old) (inl refl)

  push_expired-later :
      (v j w i : Text) (o : Option ℕ) (es : List (Text × Text))
      → (w, i) ∈ es
      → (w, i) ∈ push_expired now default overrides v j o es
  unfolding push_expired
  push_expired-later v j w i none es h = h
  push_expired-later v j w i (some at) es h = ground arith

  -- A successful round of the scan on a row with a separator.
  collect_entries_cons :
      (k : Text) (b : Bytes) (rows : List (Text × Bytes)) (es : List (Text × Text)) (v j : Text)
      → split_once k slash ≡ some (v, j)
      → collect_entries now default overrides ((k, b) ∷ rows) ≡ ok es
      → (m : WorkflowMetadata) × (rest : List (Text × Text)) × (decode_metadata k b ≡ ok m)
        × (collect_entries now default overrides rows ≡ ok rest)
        × (es ≡ push_expired now default overrides v j m.completed_at rest)
  unfolding collect_entries
  collect_entries_cons k b rows es v j q h = elim (Outcome-cases (decode_metadata k b)) [
    | inl (m, u) ↦ elim (Outcome-cases (collect_entries now default overrides rows)) [
      | inl (rest, e) ↦ (m, rest, u, e, ground arith)
      | inr (inl (c, e)) ↦ ground arith
      | inr (inr e) ↦ ground arith
    ]
    | inr (inl (c, u)) ↦ ground arith
    | inr (inr u) ↦ ground arith
  ]

  collect_entries_skip :
      (k : Text) (b : Bytes) (rows : List (Text × Bytes))
      → split_once k slash ≡ none
      → collect_entries now default overrides ((k, b) ∷ rows)
        ≡ collect_entries now default overrides rows
  unfolding collect_entries
  collect_entries_skip k b rows q = ground arith

  collect_entries-mem :
      (rows : List (Text × Bytes)) (es : List (Text × Text)) (w i : Text)
      → collect_entries now default overrides rows ≡ ok es
      → (w, i) ∈ es
      → (k : Text) × (b : Bytes) × ((k, b) ∈ rows) × Row w i k b
  collect_entries-mem [] [] w i h m = absurd m
  collect_entries-mem [] (e ∷ es) w i h m = absurd (unfold collect_entries in cc)
  collect_entries-mem ((k, b) ∷ rows) es w i h m = elim (Option-cases (split_once k slash)) [
    | inl q ↦
        let (l, c, at, row) =
          collect_entries-mem rows es w i (sym (collect_entries_skip k b rows q) ∙ h) m in
        (l, c, inr at, row)
    | inr ((v, j), q) ↦
        let (meta, rest, decoded, others, e) = collect_entries_cons k b rows es v j q h in
        elim (push_expired-mem v j w i meta rest (subst (λ l. (w, i) ∈ l) e m)) [
          | inl (p, r, old) ↦ (
            k,
            b,
            inl refl,
            rw (p, r) (record { meta = meta; split = q; decoded = decoded; expired = old }),
          )
          | inr later ↦
              let (l, c, at, row) = collect_entries-mem rows rest w i others later in
              (l, c, inr at, row)
        ]
  ]

  mem-collect_entries :
      (rows : List (Text × Bytes)) (es : List (Text × Text)) (w i k : Text) (b : Bytes)
      → collect_entries now default overrides rows ≡ ok es
      → (k, b) ∈ rows
      → Row w i k b
      → (w, i) ∈ es
  mem-collect_entries [] es w i k b h m r = absurd m
  mem-collect_entries ((l, c) ∷ rows) es w i k b h m r = elim (Option-cases (split_once l slash)) [
    | inl q ↦ elim m [
      | inl same ↦ absurd (ground (arith, r.split))
      | inr later ↦
          mem-collect_entries rows es w i k b (sym (collect_entries_skip l c rows q) ∙ h) later r
    ]
    | inr ((v, j), q) ↦
        let (meta, rest, decoded, others, e) = collect_entries_cons l c rows es v j q h in
        subst (λ l. (w, i) ∈ l) (sym e)
          (elim m [
            | inl same ↦ first v j l c meta rest q decoded same
            | inr later ↦
                push_expired-later v j w i meta.completed_at rest
                  (mem-collect_entries rows rest w i k b others later r)
          ])
  ]
    where
      first :
          (v j l : Text) (c : Bytes) (meta : WorkflowMetadata) (rest : List (Text × Text))
          → split_once l slash ≡ some (v, j)
          → decode_metadata l c ≡ ok meta
          → ◌≡◌ {A = Text × Bytes} (k, b) (l, c)
          → (w, i) ∈ push_expired now default overrides v j meta.completed_at rest
      first v j l c meta rest q decoded same =
          let p : w ≡ v = ground (arith, r.split) in
          let n : i ≡ j = ground (arith, r.split) in
          let u : r.meta ≡ meta = ground (arith, r.decoded) in
          rw (← p, ← n, ← u) (mem-push_expired w i r.meta rest r.expired)

  collect-IsHealthy :
      (d : Database)
      → IsHealthy d
      → collect_expired_metadata now default overrides d
        ≡ (collect_entries now default overrides (x.texts.iter d.meta), d)
  unfolding collect_expired_metadata
  collect-IsHealthy d h = ground arith

  -- On storage that does not fail, when the scan succeeds, it takes exactly those instances of a
  -- workflow name without a separator that have ended and whose retention, that of their workflow
  -- or the default, is less than their age in seconds and one second more: the age may equal the
  -- retention, and fall short of it by a fraction of a second.
  pub collect_expired_metadata-exact :
      (w i : Text) (d : Database) (es : List (Text × Text))
      → contains w slash ≡ false
      → IsHealthy d
      → (collect_expired_metadata now default overrides d).0 ≡ ok es
      → let Found : Type 0 =
          (m : WorkflowMetadata) × ((read_metadata w i d).0 ≡ ok (some m))
          × IsExpired now default overrides w m in
        ((w, i) ∈ es → Found) × (Found → (w, i) ∈ es)
  collect_expired_metadata-exact w i d es c h e = (
    λ m.
        (let (k, b, row, r) = collect_entries-mem (x.texts.iter d.meta) es w i scan m in
          let same : k ≡ meta_key w i = unfold meta_key in split_once-some k w i slash r.split in
          (
            r.meta,
            read_of_entry w i b r.meta d h
                (x.texts.get_of_iter d.meta (meta_key w i) b
                  (subst (λ k. (k, b) ∈ x.texts.iter d.meta) same row))
                (subst (λ k. decode_metadata k b ≡ ok r.meta) same r.decoded),
            r.expired,
          )),
    λ (m, found, old).
        (let (b, got, decoded) = entry_of_read w i m d h found in
          mem-collect_entries (x.texts.iter d.meta) es w i (meta_key w i) b scan
            (x.texts.iter_of_get d.meta (meta_key w i) b got)
            (record {
              meta = m;
              split = unfold meta_key in split_once-append w i slash c;
              decoded = decoded;
              expired = old;
            })),
  )
    where
      scan : collect_entries now default overrides (x.texts.iter d.meta) ≡ ok es
      scan = rw (ap (λ r. r.0) (collect-IsHealthy d h)) at e
