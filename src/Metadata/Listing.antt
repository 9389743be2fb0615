-- ===== src/Metadata/Listing.antt =====
-- What `list_metadata` returns: it never panics, and returns exactly the instances of its workflow.
use memable.Prelude.{
  ◌≡◌, ◌≢◌, sym, ap, arith, ◌++◌, ◌∷◌, [], List, some, ◌∈◌, keep, mem-keep, keep-mem, inl, inr,
  true, append_assoc, Bool, ◌⊎◌, subst, Option-cases,
}
use memable.Text.{Text, slash, strip_prefix}
use memable.Text.Order.{
  in_range, is_some, in_range-prefix, strip_prefix-append, append_of_strip_prefix,
}
use memable.Outcome.{ok, panic, Outcome-cases}
use memable.Journal.{Bytes}
use memable.Status.{WorkflowMetadata}
use memable.External.{External}
use memable.Store.{Tables, Database, IsHealthy}
use memable.Store.Laws.{read_txn-IsHealthy, read_txn_panic}
use memable.Keys.{meta_key}
use memable.Metadata.{decode_metadata, decode_entry, read_metadata, list_entries, list_metadata}
use memable.Metadata.Laws.{read_metadata-IsHealthy}

module _ ⦃x : External⦄ where
  -- Every key of the list has the prefix.
  abbrev Prefixed : Text → List (Text × Bytes) → Type 0
  Prefixed p [] = Unit {0}
  Prefixed p ((k, b) ∷ rest) = (is_some (strip_prefix p k) ≡ true) × Prefixed p rest

  keep-Prefixed :
      (p : Text) (q : Text → Bool) (xs : List (Text × Bytes))
      → ((k : Text) → q k ≡ is_some (strip_prefix p k))
      → Prefixed p (keep (λ e. q e.0) xs)
  keep-Prefixed p q [] h = tt
  keep-Prefixed p q ((k, b) ∷ xs) h = ground (arith, h k, keep-Prefixed p q xs h)

  list_entries-ne-panic :
      (p : Text) (xs : List (Text × Bytes)) → Prefixed p xs → list_entries p xs ≢ panic
  unfolding list_entries
  list_entries-ne-panic p [] h e = cc
  list_entries-ne-panic p ((k, b) ∷ xs) h e = ground (arith, list_entries-ne-panic p xs h.1)

  list_metadata_panic :
      (w : Text) (d : Database)
      → (list_metadata w d).0 ≡ panic
      → list_entries (w ++ slash ∷ []) (x.texts.range d.meta (w ++ slash ∷ []) (w ++ b'0' ∷ []))
        ≡ panic
  unfolding list_metadata
  list_metadata_panic w d e = read_txn_panic _ d e

  abbrev entries : Text → Tables → List (Text × Bytes)
  entries w t = x.texts.range t.meta (w ++ slash ∷ []) (w ++ b'0' ∷ [])

  entries_lem :
      (w : Text) (t : Tables)
      → entries w t
        ≡ keep (λ e. in_range (w ++ slash ∷ []) (w ++ b'0' ∷ []) e.0) (x.texts.iter t.meta)
  entries_lem w t = x.texts.range_lem t.meta (w ++ slash ∷ []) (w ++ b'0' ∷ [])

  append_cancel : (p i j : Text) → p ++ i ≡ p ++ j → i ≡ j
  append_cancel [] i j e = e
  append_cancel (c ∷ p) i j e = append_cancel p i j (cc)

  pair :
      (i j : Text) (m n : WorkflowMetadata)
      → i ≡ j
      → m ≡ n
      → ◌≡◌ {A = Text × WorkflowMetadata} (i, m) (j, n)
  pair i j m n p q = cc

  split_mem :
      (ms : List (Text × WorkflowMetadata)) (n : Text × WorkflowMetadata)
      (rest : List (Text × WorkflowMetadata)) (a : Text × WorkflowMetadata)
      → ms ≡ n ∷ rest
      → a ∈ ms
      → (a ≡ n) ⊎ (a ∈ rest)
  split_mem ms n rest a e h = subst (λ l. a ∈ l) e h

  -- A successful round of the loop.
  list_entries_cons :
      (p k : Text) (b : Bytes) (xs : List (Text × Bytes)) (ms : List (Text × WorkflowMetadata))
      → list_entries p ((k, b) ∷ xs) ≡ ok ms
      → (j : Text) × (n : WorkflowMetadata) × (rest : List (Text × WorkflowMetadata)) × (k ≡ p ++ j)
        × (decode_metadata k b ≡ ok n)
        × (list_entries p xs ≡ ok rest)
        × (ms ≡ (j, n) ∷ rest)
  unfolding list_entries
  list_entries_cons p k b xs ms e = elim (Option-cases (strip_prefix p k)) [
    | inl q ↦ ground arith
    | inr (j, q) ↦ elim (Outcome-cases (decode_metadata k b)) [
      | inl (n, u) ↦ elim (Outcome-cases (list_entries p xs)) [
        | inl (rest, v) ↦ (j, n, rest, append_of_strip_prefix p k j q, u, v, ground arith)
        | inr (inl v) ↦ ground arith
        | inr (inr v) ↦ ground arith
      ]
      | inr (inl u) ↦ ground arith
      | inr (inr u) ↦ ground arith
    ]
  ]

  list_entries-mem :
      (p : Text) (xs : List (Text × Bytes)) (ms : List (Text × WorkflowMetadata)) (i : Text)
      (m : WorkflowMetadata)
      → list_entries p xs ≡ ok ms
      → (i, m) ∈ ms
      → (b : Bytes) × ((p ++ i, b) ∈ xs) × (decode_metadata (p ++ i) b ≡ ok m)
  unfolding list_entries
  list_entries-mem p [] [] i m e h = absurd h
  list_entries-mem p [] (n ∷ ms) i m e h = ground arith
  list_entries-mem p ((k, b) ∷ xs) ms i m e h =
      let (j, n, rest, q, u, v, w) = list_entries_cons p k b xs ms e in
      elim (split_mem ms (j, n) rest (i, m) w h) [
        | inl same ↦ (b, inl (ground arith), ground arith)
        | inr later ↦ let (c, at, r) = list_entries-mem p xs rest i m v later in (c, inr at, r)
      ]

  mem-list_entries :
      (p : Text) (xs : List (Text × Bytes)) (ms : List (Text × WorkflowMetadata)) (i : Text)
      (m : WorkflowMetadata) (b : Bytes)
      → list_entries p xs ≡ ok ms
      → (p ++ i, b) ∈ xs
      → decode_metadata (p ++ i) b ≡ ok m
      → (i, m) ∈ ms
  mem-list_entries p [] ms i m b e h u = absurd h
  mem-list_entries p ((k, c) ∷ xs) ms i m b e h u =
      let (j, n, rest, q, r, v, w) = list_entries_cons p k c xs ms e in
      subst (λ l. (i, m) ∈ l) (sym w)
        (elim h [
          | inl same ↦ inl (pair i j m n (append_cancel p i j (ground arith)) (ground arith))
          | inr later ↦ inr (mem-list_entries p xs rest i m b v later u)
        ])

  meta_key-append : (w i : Text) → meta_key w i ≡ (w ++ slash ∷ []) ++ i
  unfolding meta_key
  meta_key-append w i = sym (append_assoc w (slash ∷ []) i)

  slash-in_range :
      (w i : Text) → in_range (w ++ slash ∷ []) (w ++ b'0' ∷ []) ((w ++ slash ∷ []) ++ i) ≡ true
  slash-in_range w i =
      ground
        (arith, in_range-prefix w ((w ++ slash ∷ []) ++ i), strip_prefix-append (w ++ slash ∷ []) i)

  list_metadata-IsHealthy :
      (w : Text) (d : Database)
      → IsHealthy d
      → list_metadata w d ≡ (list_entries (w ++ slash ∷ []) (entries w d.tables), d)
  unfolding list_metadata
  list_metadata-IsHealthy w d h = read_txn-IsHealthy _ d h

  -- The `expect` on the prefix never fires: a listing does not panic, whatever the table holds.
  pub list_metadata_no_panic : (w : Text) (d : Database) → (list_metadata w d).0 ≢ panic
  list_metadata_no_panic w d e =
      list_entries-ne-panic _ _ (rw entries_lem (keep-Prefixed _ _ _ (in_range-prefix w)))
        (list_metadata_panic w d e)

  entries-iter :
      (w i : Text) (b : Bytes) (t : Tables)
      → (meta_key w i, b) ∈ entries w t
      → x.texts.get t.meta (meta_key w i) ≡ some b
  entries-iter w i b t h =
      x.texts.get_of_iter t.meta (meta_key w i) b
        (mem-keep _ (x.texts.iter t.meta) (meta_key w i, b) (rw entries_lem at h)).0

  iter-entries :
      (w i : Text) (b : Bytes) (t : Tables)
      → x.texts.get t.meta (meta_key w i) ≡ some b
      → (meta_key w i, b) ∈ entries w t
  iter-entries w i b t h = rw entries_lem (
      keep-mem _ (x.texts.iter t.meta) (meta_key w i, b)
        (x.texts.iter_of_get t.meta (meta_key w i) b h) (rw meta_key-append (slash-in_range w i)))

  pub read_of_entry :
      (w i : Text) (b : Bytes) (m : WorkflowMetadata) (d : Database)
      → IsHealthy d
      → x.texts.get d.meta (meta_key w i) ≡ some b
      → decode_metadata (meta_key w i) b ≡ ok m
      → (read_metadata w i d).0 ≡ ok (some m)
  unfolding decode_entry
  read_of_entry w i b m d h g e = ground (arith, read_metadata-IsHealthy w i d h)

  pub entry_of_read :
      (w i : Text) (m : WorkflowMetadata) (d : Database)
      → IsHealthy d
      → (read_metadata w i d).0 ≡ ok (some m)
      → (b : Bytes) × (x.texts.get d.meta (meta_key w i) ≡ some b)
        × (decode_metadata (meta_key w i) b ≡ ok m)
  unfolding decode_entry
  entry_of_read w i m d h e = ground (arith, read_metadata-IsHealthy w i d h)

  -- On storage that does not fail, a successful listing holds exactly the instances of the workflow
  -- name that have metadata, each with what `read_metadata` reads for it.
  pub list_metadata-eq-read_metadata :
      (w i : Text) (m : WorkflowMetadata) (d : Database) (ms : List (Text × WorkflowMetadata))
      → IsHealthy d
      → (list_metadata w d).0 ≡ ok ms
      → ((i, m) ∈ ms → (read_metadata w i d).0 ≡ ok (some m))
        × ((read_metadata w i d).0 ≡ ok (some m) → (i, m) ∈ ms)
  list_metadata-eq-read_metadata w i m d ms h e = (found, listed)
    where
      listing : list_entries (w ++ slash ∷ []) (entries w d.tables) ≡ ok ms
      listing = rw (ap (λ r. r.0) (list_metadata-IsHealthy w d h)) at e

      found : (i, m) ∈ ms → (read_metadata w i d).0 ≡ ok (some m)
      found q =
          let (b, in_entries, decoded) = list_entries-mem (w ++ slash ∷ []) _ ms i m listing q in
          read_of_entry w i b m d h (entries-iter w i b d.tables (rw meta_key-append in_entries))
            (rw meta_key-append decoded)

      listed : (read_metadata w i d).0 ≡ ok (some m) → (i, m) ∈ ms
      listed q =
          let (b, got, decoded) = entry_of_read w i m d h q in
          mem-list_entries (w ++ slash ∷ []) _ ms i m b listing
            (subst (λ k. (k, b) ∈ entries w d.tables) (meta_key-append w i)
              (iter-entries w i b d.tables got))
            (subst (λ k. decode_metadata k b ≡ ok m) (meta_key-append w i) decoded)
