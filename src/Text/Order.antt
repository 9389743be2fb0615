-- ===== src/Text/Order.antt =====
-- Range scans over byte-ordered keys: the scans of metadata.rs and retention.rs take the keys from
-- `"{prefix}/"` up to `"{prefix}0"`, since '0' is the byte after '/'.
use memable.Prelude.{
  ◌≡◌, refl, Bool, true, false, ◌&&◌, not, Option, none, some, [], ◌∷◌, ◌++◌, arith,
}
use memable.Text.{Text, slash, text_lt, strip_prefix}

-- The half-open interval of `lo..hi`.
abbrev pub in_range : Text → Text → Text → Bool
in_range lo hi k = not (text_lt k lo) && text_lt k hi

abbrev pub is_some {ℓ} : {A : Type ℓ} → Option A → Bool
is_some none = false
is_some (some a) = true

pub text_lt-nil : (k : Text) → text_lt k [] ≡ false
unfolding text_lt
text_lt-nil [] = refl
text_lt-nil (x ∷ xs) = refl

-- The interval from `p/` to `p0` holds exactly the keys with the prefix `p/`.
pub in_range-prefix :
    (p k : Text)
    → in_range (p ++ slash ∷ []) (p ++ b'0' ∷ []) k ≡ is_some (strip_prefix (p ++ slash ∷ []) k)
unfolding text_lt strip_prefix
in_range-prefix [] [] = refl
in_range-prefix [] (c ∷ k) = ground (arith, text_lt-nil k)
in_range-prefix (x ∷ p) [] = refl
in_range-prefix (x ∷ p) (c ∷ k) = ground (arith, in_range-prefix p k)

pub strip_prefix-append : (p s : Text) → strip_prefix p (p ++ s) ≡ some s
unfolding strip_prefix
strip_prefix-append [] s = refl
strip_prefix-append (x ∷ p) s = ground (arith, strip_prefix-append p s)

pub append_of_strip_prefix : (p k s : Text) → strip_prefix p k ≡ some s → k ≡ p ++ s
unfolding strip_prefix
append_of_strip_prefix [] k s h = ground arith
append_of_strip_prefix (x ∷ p) [] s h = ground arith
append_of_strip_prefix (x ∷ p) (c ∷ k) s h = ground (arith, append_of_strip_prefix p k s)
