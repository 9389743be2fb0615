-- ===== src/Text/Parse.antt =====
-- `str::parse::<u64>`: an optional plus, then at least one digit, and no overflow.
use memable.Prelude.{
  ℕ, zero, suc, ◌+◌, ◌/◌, ◌%◌, ◌≤◌, ◌<◌, ◌≡◌, refl, ◌∙◌, ap, Bool, true, ◌&&◌, Option, none, some,
  [], ◌∷◌, arith, ltb, leb, ◌==◌, Bool-cases, inl, inr, if◌then◌else◌,
}
use memable.Text.{Text}
use memable.Text.Decimal.{digits, decimal, value_from, value_from-decimal}

abbrev pub is_digit : ℕ → Bool
is_digit c = leb b'0' c && leb c b'9'

abbrev pub all_digits : Text → Bool
all_digits [] = true
all_digits (c ∷ s) = let rest = all_digits s in is_digit c && rest

abbrev without_plus : Text → Text
without_plus [] = []
without_plus (c ∷ s) = if c == b'+' then s else c ∷ s

abbrev pub checked : ℕ → ℕ → Option ℕ
checked max n = if leb n max then some n else none

parse_digits : ℕ → Text → Option ℕ
unfolding value_from
parse_digits max [] = none
parse_digits max (c ∷ s) = if all_digits (c ∷ s) then checked max (value_from 0 (c ∷ s)) else none

-- The digits are all read before the bound is looked at, which gives the same result.
unfoldable pub parse : ℕ → Text → Option ℕ
unfolding parse_digits
parse max s = parse_digits max (without_plus s)

-- A nonempty text of digits.
abbrev IsNumeral : Text → Type 0
IsNumeral [] = ⊥
IsNumeral (c ∷ s) = (is_digit c ≡ true) × (all_digits s ≡ true)

digits-IsNumeral :
    (f n : ℕ) (acc : Text) → n < f → all_digits acc ≡ true → IsNumeral (digits f n acc)
unfolding digits
digits-IsNumeral zero n acc h a = elim h [ ]
digits-IsNumeral (suc f) n acc h a = elim (Bool-cases (ltb n 10)) [
  | inl small ↦ rw small (ground arith, a)
  | inr large ↦
      rw large (digits-IsNumeral f (n / 10) ((b'0' + n % 10) ∷ acc) (ground arith) (ground arith))
]

parse-IsNumeral : (max : ℕ) (s : Text) → IsNumeral s → parse max s ≡ checked max (value_from 0 s)
unfolding parse
parse-IsNumeral max [] h = absurd h
parse-IsNumeral max (c ∷ s) h = ground arith

-- A number that fits is read back from its decimal digits.
pub parse-decimal : (max n : ℕ) → n ≤ max → parse max (decimal n) ≡ some n
parse-decimal max n h =
    parse-IsNumeral max (decimal n)
      (unfold decimal in digits-IsNumeral (suc n) n [] (omega arith) refl)
    ∙ ap (checked max) (value_from-decimal n)
    ∙ ground arith
