-- ===== src/Tests/Tables.antt =====
-- An ordered table for the tests: an association list, whose rows are listed once each.
use memable.Prelude.{
  ◌≡◌, refl, ap, arith, ◌↔◌, inl, inr, Bool, true, not, ◌&&◌, Option, none, some, List, [], ◌∷◌,
  ◌∈◌, keep, mem-keep, keep-mem, if◌then◌else◌, Bool-cases,
}
use memable.Journal.{Bytes}
use memable.External.{OrderedMap}

module _ {K : Type 0} (eq lt : K → K → Bool) (eq_iff : (a b : K) → (eq a b ≡ true) ↔ (a ≡ b)) where
  abbrev lookup : List (K × Bytes) → K → Option Bytes
  lookup [] k = none
  lookup ((j, v) ∷ rest) k = let later = lookup rest k in if eq j k then some v else later

  abbrev without : List (K × Bytes) → K → List (K × Bytes)
  without [] k = []
  without ((j, v) ∷ rest) k =
      let others = without rest k in if eq k j then others else (j, v) ∷ others

  abbrev rows : List (K × Bytes) → List (K × Bytes)
  rows [] = []
  rows ((j, v) ∷ rest) = (j, v) ∷ keep (λ e. not (eq j e.0)) (rows rest)

  pub lookup-without :
      (t : List (K × Bytes)) (k j : K)
      → lookup (without t k) j ≡ (if eq k j then none else lookup t j)
  lookup-without [] k j = ground arith
  lookup-without ((i, v) ∷ t) k j =
      ground (arith, lookup-without t k j, eq_iff k i, eq_iff i j, eq_iff k j)

  pub lookup_of_rows :
      (t : List (K × Bytes)) (k : K) (v : Bytes) → (k, v) ∈ rows t → lookup t k ≡ some v
  lookup_of_rows [] k v m = absurd m
  lookup_of_rows ((j, u) ∷ t) k v (inl m) =
      let p : k ≡ j = ap (λ r. r.0) m in
      let q : v ≡ u = ap (λ r. r.1) m in ground (arith, eq_iff j k)
  lookup_of_rows ((j, u) ∷ t) k v (inr m) =
      let (there, other) = mem-keep (λ e. not (eq j e.0)) (rows t) (k, v) m in
      ground (arith, lookup_of_rows t k v there)

  pub rows_of_lookup :
      (t : List (K × Bytes)) (k : K) (v : Bytes) → lookup t k ≡ some v → (k, v) ∈ rows t
  rows_of_lookup [] k v h = ground arith
  rows_of_lookup ((j, u) ∷ t) k v h = elim (Bool-cases (eq j k)) [
    | inl e ↦ let p : j ≡ k = (eq_iff j k).0 e in let q : u ≡ v = ground arith in inl (pair p q)
    | inr e ↦ inr (
        keep-mem (λ r. not (eq j r.0)) (rows t) (k, v) (rows_of_lookup t k v (ground arith))
          (ap not e))
  ]
    where
      pair : j ≡ k → u ≡ v → ◌≡◌ {A = K × Bytes} (k, v) (j, u)
      pair p q = cc

  abbrev pub table : OrderedMap K eq lt
  table = record {
    Table = List (K × Bytes);
    get = lookup;
    insert = λ t k v. (k, v) ∷ t;
    remove = without;
    iter = rows;
    range = λ t lo hi. keep (λ e. not (lt e.0 lo) && lt e.0 hi) (rows t);
    range_inclusive = λ t lo hi. keep (λ e. not (lt e.0 lo) && not (lt hi e.0)) (rows t);
    get-insert = λ t k j v. refl;
    get-remove = lookup-without;
    get_of_iter = lookup_of_rows;
    iter_of_get = rows_of_lookup;
    range_lem = λ t lo hi. refl;
    range_inclusive_lem = λ t lo hi. refl;
  }
