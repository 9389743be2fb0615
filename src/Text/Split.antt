-- ===== src/Text/Split.antt =====
-- `split_once` on a key with a separator, and what has no separator.
use memable.Prelude.{◌≡◌, false, ◌++◌, [], ◌∷◌, ℕ, some, arith, Option-cases, inl, inr}
use memable.Text.{Text, split_once, contains}

-- A head without the separator is split off whole, whatever follows.
pub split_once-append :
    (a b : Text) (c : ℕ) → contains a c ≡ false → split_once (a ++ c ∷ b) c ≡ some (a, b)
unfolding split_once contains
split_once-append [] b c h = ground arith
split_once-append (x ∷ a) b c h = ground (arith, split_once-append a b c)

-- What is split is the head, the separator and the tail.
pub split_once-some : (s a b : Text) (c : ℕ) → split_once s c ≡ some (a, b) → s ≡ a ++ c ∷ b
unfolding split_once
split_once-some [] a b c h = ground arith
split_once-some (x ∷ s) a b c h = elim (Option-cases (split_once s c)) [
  | inl q ↦ ground arith
  | inr ((a', b'), q) ↦ ground (arith, split_once-some s a' b' c q)
]
