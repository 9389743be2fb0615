-- ===== src/Retention/Delete.antt =====
-- What `delete_instance_data` deletes: the rows of its instance, and no other.
use memable.Prelude.{
  ◌≡◌, refl, sym, ap, ◌∙◌, subst, arith, Bool, true, false, ◌&&◌, ◌||◌, Option, none, some, inl,
  inr, List, [], ◌∷◌, ◌++◌, ◌∈◌, keep, mem-keep, keep-mem, if◌then◌else◌, Bool-cases, Option-cases,
}
use memable.Text.{Text, text_eq, text_eq_refl, text_eq→≡, slash, strip_prefix}
use memable.Text.Order.{in_range, is_some, in_range-prefix}
use memable.Outcome.{ok}
use memable.Journal.{Bytes}
use memable.External.{External, TimerKey, timer_eq}
use memable.Store.{Tables, Database, IsHealthy}
use memable.Store.Laws.{write_txn-IsHealthy}
use memable.Keys.{meta_key}
use memable.Retention.{remove_steps, belongs_to, remove_timers, delete_body, delete_instance_data}

module _ ⦃x : External⦄ where
  -- The key is one of the list.
  abbrev has_key : Text → List (Text × Bytes) → Bool
  has_key k [] = false
  has_key k ((j, _) ∷ rest) = let later = has_key k rest in text_eq j k || later

  get-remove_steps :
      (rows : List (Text × Bytes)) (t : x.texts.Table) (k : Text)
      → x.texts.get (remove_steps rows t) k ≡ (if has_key k rows then none else x.texts.get t k)
  unfolding remove_steps
  get-remove_steps [] t k = refl
  get-remove_steps ((j, b) ∷ rest) t k =
      ground (arith, get-remove_steps rest (x.texts.remove t j) k, x.texts.get-remove t j k)

  has_key-mem :
      (k : Text) (b : Bytes) (rows : List (Text × Bytes)) → (k, b) ∈ rows → has_key k rows ≡ true
  has_key-mem k b [] m = absurd m
  has_key-mem k b ((j, c) ∷ rest) (inl m) = ground (arith, text_eq_refl k)
  has_key-mem k b ((j, c) ∷ rest) (inr m) = ground (arith, has_key-mem k b rest m)

  mem-has_key :
      (k : Text) (rows : List (Text × Bytes))
      → has_key k rows ≡ true
      → (b : Bytes) × ((k, b) ∈ rows)
  mem-has_key k [] h = ground arith
  mem-has_key k ((j, c) ∷ rest) h = elim (Bool-cases (text_eq j k)) [
    | inl e ↦ let same = text_eq→≡ j k e in (c, inl (ap (λ i. (i, c)) (sym same)))
    | inr e ↦ let (b, m) = mem-has_key k rest (ground arith) in (b, inr m)
  ]

  -- The steps of the instance: a key is deleted when it extends the instance's prefix.
  steps-delete :
      (w i k : Text) (t : Tables)
      → x.texts.get (delete_body w i t).steps k ≡ (
          if is_some (strip_prefix (meta_key w i ++ slash ∷ []) k)
          then none
          else x.texts.get t.steps k)
  unfolding delete_body
  steps-delete w i k t = elim (Bool-cases (has_key k rows)) [
    | inl e ↦
        let (b, m) = mem-has_key k rows e in
        let q =
          (mem-keep inside (x.texts.iter t.steps) (k, b) (subst (λ l. (k, b) ∈ l) rows_lem m)).1 in
        ground (arith, get-remove_steps rows t.steps k, in_range-prefix (meta_key w i) k)
    | inr e ↦ elim (Option-cases (x.texts.get t.steps k)) [
      | inl n ↦ ground (arith, get-remove_steps rows t.steps k)
      | inr (b, g) ↦ elim (Bool-cases (is_some (strip_prefix (meta_key w i ++ slash ∷ []) k))) [
        | inl s ↦
            let there : (k, b) ∈ rows =
              subst (λ l. (k, b) ∈ l) (sym rows_lem)
                (keep-mem inside (x.texts.iter t.steps) (k, b) (x.texts.iter_of_get t.steps k b g)
                  (in_range-prefix (meta_key w i) k ∙ s)) in
            ground (arith, has_key-mem k b rows there)
        | inr s ↦ ground (arith, get-remove_steps rows t.steps k)
      ]
    ]
  ]
    where
      rows : List (Text × Bytes)
      rows = x.texts.range t.steps (meta_key w i ++ slash ∷ []) (meta_key w i ++ b'0' ∷ [])

      inside : Text × Bytes → Bool
      inside e = in_range (meta_key w i ++ slash ∷ []) (meta_key w i ++ b'0' ∷ []) e.0

      rows_lem : rows ≡ keep inside (x.texts.iter t.steps)
      rows_lem = x.texts.range_lem t.steps (meta_key w i ++ slash ∷ []) (meta_key w i ++ b'0' ∷ [])

  -- Some row of the list has the key and is the instance's.
  abbrev owned : Text → Text → TimerKey → List (TimerKey × Bytes) → Bool
  owned w i k [] = false
  owned w i k ((j, b) ∷ rest) =
      let later = owned w i k rest in (belongs_to w i b && timer_eq j k) || later

  get-remove_timers :
      (w i : Text) (rows : List (TimerKey × Bytes)) (t : x.timers.Table) (k : TimerKey)
      → x.timers.get (remove_timers w i rows t) k
        ≡ (if owned w i k rows then none else x.timers.get t k)
  unfolding remove_timers
  get-remove_timers w i [] t k = refl
  get-remove_timers w i ((j, b) ∷ rest) t k = elim (Bool-cases (belongs_to w i b)) [
    | inl e ↦
        ground
          (arith, get-remove_timers w i rest (x.timers.remove t j) k, x.timers.get-remove t j k)
    | inr e ↦ ground (arith, get-remove_timers w i rest t k)
  ]

  owned-mem :
      (w i : Text) (k : TimerKey) (b : Bytes) (rows : List (TimerKey × Bytes))
      → (k, b) ∈ rows
      → belongs_to w i b ≡ true
      → owned w i k rows ≡ true
  owned-mem w i k b [] m e = absurd m
  owned-mem w i k b ((j, c) ∷ rest) (inl m) e = ground arith
  owned-mem w i k b ((j, c) ∷ rest) (inr m) e = ground (arith, owned-mem w i k b rest m e)

  mem-owned :
      (w i : Text) (k : TimerKey) (rows : List (TimerKey × Bytes))
      → owned w i k rows ≡ true
      → (b : Bytes) × ((k, b) ∈ rows) × (belongs_to w i b ≡ true)
  mem-owned w i k [] h = ground arith
  mem-owned w i k ((j, c) ∷ rest) h = elim (Bool-cases (belongs_to w i c && timer_eq j k)) [
    | inl e ↦ (c, inl (ground arith), ground arith)
    | inr e ↦ let (b, m, q) = mem-owned w i k rest (ground arith) in (b, inr m, q)
  ]

  -- The timer is the instance's.
  abbrev pub is_timer_of : Text → Text → Option Bytes → Bool
  is_timer_of w i none = false
  is_timer_of w i (some b) = belongs_to w i b

  timers-delete :
      (w i : Text) (k : TimerKey) (t : Tables)
      → x.timers.get (delete_body w i t).timers k
        ≡ (if is_timer_of w i (x.timers.get t.timers k) then none else x.timers.get t.timers k)
  unfolding delete_body
  timers-delete w i k t =
      let rows = x.timers.iter t.timers in
      elim (Bool-cases (owned w i k rows)) [
        | inl e ↦
            let (b, m, q) = mem-owned w i k rows e in
            ground
              (arith, get-remove_timers w i rows t.timers k, x.timers.get_of_iter t.timers k b m)
        | inr e ↦ elim (Option-cases (x.timers.get t.timers k)) [
          | inl n ↦ ground (arith, get-remove_timers w i rows t.timers k)
          | inr (b, g) ↦ ground (
            arith,
            get-remove_timers w i rows t.timers k,
            owned-mem w i k b rows (x.timers.iter_of_get t.timers k b g),
          )
        ]
      ]

  -- On storage that does not fail, an instance is deleted whole and alone: its metadata, the steps
  -- whose key has its prefix, and its timers are gone, and every other row of the three tables is
  -- what it was.
  pub delete_instance_data-exact :
      (w i k : Text) (timer : TimerKey) (d : Database)
      → IsHealthy d
      → let (r, d') = delete_instance_data w i d in
        (r ≡ ok tt)
        × (x.texts.get d'.meta k
            ≡ (if text_eq (meta_key w i) k then none else x.texts.get d.meta k))
        × (x.texts.get d'.steps k ≡ (
            if is_some (strip_prefix (meta_key w i ++ slash ∷ []) k)
            then none
            else x.texts.get d.steps k))
        × (x.timers.get d'.timers timer ≡ (
            if is_timer_of w i (x.timers.get d.timers timer)
            then none
            else x.timers.get d.timers timer))
  unfolding delete_instance_data delete_body
  delete_instance_data-exact w i k timer d h =
      rw (write_txn-IsHealthy (λ t. ok (tt, delete_body w i t)) d h) (
        refl,
        x.texts.get-remove d.meta (meta_key w i) k,
        steps-delete w i k d.tables,
        timers-delete w i timer d.tables,
      )
