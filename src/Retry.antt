-- ===== src/Retry.antt =====
-- src/retry.rs: when a failing step is tried again. A `Duration` is its number of nanoseconds.
pub mod Delay
use memable.Prelude.{ℕ, ◌*◌, ◌-◌, ◌^◌, ltb, leb, if◌then◌else◌, min}

abbrev pub u32_max : ℕ
u32_max = 4294967295

abbrev pub u64_max : ℕ
u64_max = 18446744073709551615

abbrev pub second : ℕ
second = 1000000000

-- `Duration::MAX`: the largest number of seconds and 999,999,999 nanoseconds.
abbrev pub duration_max : ℕ
duration_max = 18446744073709551615999999999

pub data Backoff : Type 0 where
  fixed : ℕ → Backoff
  -- the base and the cap
  exponential : ℕ → ℕ → Backoff

pub record RetryPolicy : Type 0 where
  pub max_retries : ℕ
  pub backoff : Backoff

unfoldable pub fixed_policy : ℕ → ℕ → RetryPolicy
fixed_policy max_retries delay = record { max_retries = max_retries; backoff = fixed delay }

unfoldable pub exponential_policy : ℕ → ℕ → RetryPolicy
exponential_policy max_retries base = record {
  max_retries = max_retries;
  backoff = exponential base (30 * second);
}

abbrev capped : ℕ → Backoff → Backoff
capped max (fixed delay) = fixed delay
capped max (exponential base _) = exponential base max

unfoldable pub with_max_delay : ℕ → RetryPolicy → RetryPolicy
with_max_delay max policy = record policy { backoff = capped max policy.backoff }

-- `1u64.checked_shl(attempt).unwrap_or(u64::MAX)`: a shift by 64 or more is refused.
shifted : ℕ → ℕ
shifted attempt = if ltb attempt 64 then 2 ^ attempt else u64_max

-- `multiplier.try_into().unwrap_or(u32::MAX)`.
to_u32 : ℕ → ℕ
to_u32 n = if leb n u32_max then n else u32_max

-- `Duration::saturating_mul`.
saturating_mul : ℕ → ℕ → ℕ
saturating_mul duration n = min (duration * n) duration_max

delay : Backoff → ℕ → ℕ
unfolding shifted to_u32 saturating_mul
delay (fixed d) attempt = d
delay (exponential base max) attempt = min (saturating_mul base (to_u32 (shifted attempt))) max

unfoldable pub delay_for : RetryPolicy → ℕ → ℕ
unfolding delay
delay_for policy attempt = delay policy.backoff attempt
