-- ===== src/Text/Decimal.antt =====
-- `{}` of an unsigned number: its decimal digits. Enough fuel: a number has at most itself plus one
-- digits. Reading the digits back gives the number, so that printing is injective.
use memable.Prelude.{
  ℕ, zero, suc, ◌+◌, ◌-◌, ◌*◌, ◌/◌, ◌%◌, ◌<◌, ◌≡◌, ap, ◌∙◌, [], ◌∷◌, arith, ltb, Bool-cases, inl,
  inr, if◌then◌else◌,
}
use memable.Text.{Text}

-- Least significant digit last; `acc` holds the digits already printed.
unfoldable pub digits : ℕ → ℕ → Text → Text
digits zero n acc = acc
digits (suc f) n acc =
    let rest = digits f (n / 10) ((b'0' + n % 10) ∷ acc) in
    if ltb n 10 then (b'0' + n) ∷ acc else rest

unfoldable pub decimal : ℕ → Text
unfolding digits
decimal n = digits (suc n) n []

unfoldable pub value_from : ℕ → Text → ℕ
value_from a [] = a
value_from a (c ∷ s) = value_from (a * 10 + (c - b'0')) s

value_from-digits :
    (f n : ℕ) (acc : Text) → n < f → value_from 0 (digits f n acc) ≡ value_from n acc
unfolding digits value_from
value_from-digits zero n acc h = elim h [ ]
value_from-digits (suc f) n acc h = elim (Bool-cases (ltb n 10)) [
  | inl small ↦ rw small (ap (λ a. value_from a acc) (omega arith))
  | inr large ↦ rw large (
      value_from-digits f (n / 10) ((b'0' + n % 10) ∷ acc) (ground arith)
      ∙ ap (λ a. value_from a acc) (omega arith))
]

-- Reading the printed digits back gives the number.
pub value_from-decimal : (n : ℕ) → value_from 0 (decimal n) ≡ n
unfolding decimal value_from
value_from-decimal n = value_from-digits (suc n) n [] (omega arith)

pub decimal-injective : (m n : ℕ) → decimal m ≡ decimal n → m ≡ n
decimal-injective m n e = cc (value_from-decimal m, value_from-decimal n)
