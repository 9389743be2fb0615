-- ===== src/FanOut/Ids.antt =====
-- The ids of the children are different from each other.
use memable.Prelude.{
  ℕ, zero, suc, ◌+◌, ◌<◌, ◌≡◌, sym, ap, ◌∙◌, arith, Option, some, [], ◌∷◌, ◌++◌, get_elem?,
}
use memable.Text.{Text, text}
use memable.Text.Decimal.{decimal, decimal-injective}
use memable.FanOut.{child_ids_from, child_ids}

abbrev pub child_id : Text → Text → ℕ → Text
child_id instance_id key idx = instance_id ++ text "/" ++ key ++ text "-" ++ decimal idx

get_elem?-child_ids_from :
    (i key : Text) (idx n k : ℕ)
    → k < n
    → get_elem? (child_ids_from i key idx n) k ≡ some (child_id i key (idx + k))
unfolding child_ids_from
get_elem?-child_ids_from i key idx zero k h = ground arith
get_elem?-child_ids_from i key idx (suc n) zero h =
    let e : idx ≡ idx + 0 = omega arith in ap (λ j. some (child_id i key j)) e
get_elem?-child_ids_from i key idx (suc n) (suc k) h =
    let e : idx + 1 + k ≡ idx + suc k = omega arith in
    get_elem?-child_ids_from i key (idx + 1) n k (omega arith) ∙ ap (λ j. some (child_id i key j)) e

append_cancel : (p i j : Text) → p ++ i ≡ p ++ j → i ≡ j
append_cancel [] i j e = e
append_cancel (c ∷ p) i j e = append_cancel p i j (cc)

child_id-injective : (i key : Text) (m n : ℕ) → child_id i key m ≡ child_id i key n → m ≡ n
child_id-injective i key m n e =
    decimal-injective m n
      (append_cancel (i ++ text "/" ++ key ++ text "-") (decimal m) (decimal n) e)

nth-child_ids :
    (i key : Text) (count k : ℕ) (id : Text)
    → k < count
    → get_elem? (child_ids i key count) k ≡ some id
    → child_id i key k ≡ id
unfolding child_ids
nth-child_ids i key count k id h e =
    let at : k ≡ 0 + k = omega arith in
    ap (child_id i key) at
    ∙ some-injective (child_id i key (0 + k)) id
        (sym (get_elem?-child_ids_from i key 0 count k h) ∙ e)
  where
    some-injective : (a b : Text) → ◌≡◌ {A = Option Text} (some a) (some b) → a ≡ b
    some-injective a b q = cc

-- Two positions of the list of child ids that hold the same id are the same position.
pub child_ids-injective :
    (i key : Text) (count m n : ℕ) (id : Text)
    → m < count
    → n < count
    → get_elem? (child_ids i key count) m ≡ some id
    → get_elem? (child_ids i key count) n ≡ some id
    → m ≡ n
child_ids-injective i key count m n id lm ln em en =
    child_id-injective i key m n
      (nth-child_ids i key count m id lm em ∙ sym (nth-child_ids i key count n id ln en))
