-- ===== src/Retry/Delay.antt =====
-- The delays of the exponential backoff.
use native.Mathlib.Nat.{pow-le-pow_right}
use memable.Prelude.{ℕ, ◌*◌, ◌^◌, ◌≤◌, ◌<◌, ◌≡◌, arith, min}
use memable.Retry.{
  RetryPolicy, Backoff, fixed, exponential, delay, delay_for, duration_max, shifted, to_u32,
  saturating_mul,
}

pow_mono : (m n : ℕ) → m ≤ n → 2 ^ m ≤ 2 ^ n
pow_mono m n h = pow-le-pow_right (omega arith) h

multiplier_mono : (m n : ℕ) → m ≤ n → to_u32 (shifted m) ≤ to_u32 (shifted n)
unfolding shifted to_u32
multiplier_mono m n h = ground (arith, pow_mono m n h, pow_mono m 63)

saturating_mul_mono : (d m n : ℕ) → m ≤ n → saturating_mul d m ≤ saturating_mul d n
unfolding saturating_mul
saturating_mul_mono d m n h = grind arith

delay_mono : (b : Backoff) (m n : ℕ) → m ≤ n → delay b m ≤ delay b n
unfolding delay
delay_mono (fixed d) m n h = omega arith
delay_mono (exponential base max) m n h =
    omega (arith, saturating_mul_mono base _ _ (multiplier_mono m n h))

-- A later retry never waits less than an earlier one.
pub delay_for_mono :
    (policy : RetryPolicy) (m n : ℕ) → m ≤ n → delay_for policy m ≤ delay_for policy n
unfolding delay_for
delay_for_mono policy m n h = delay_mono policy.backoff m n h

-- With a cap that is a duration, up to the thirty-second attempt the exponential delay doubles each
-- time and stops at the cap, and at no attempt does it pass the cap.
pub delay_for_exponential :
    (policy : RetryPolicy) (base max attempt : ℕ)
    → policy.backoff ≡ exponential base max
    → max ≤ duration_max
    → (attempt < 32 → delay_for policy attempt ≡ min (base * 2 ^ attempt) max)
      × (delay_for policy attempt ≤ max)
unfolding delay_for delay shifted to_u32 saturating_mul
delay_for_exponential policy base max attempt e h =
    (λ low. ground (arith, pow_mono attempt 31), ground arith)
