-- ===== src/Jobs/Backoff.antt =====
-- The delays of lib/jobs/retry.ts.
use native.Mathlib.Nat.{pow-suc}
use extension_lab.Common.{
  arith, coalesce, false, min, none, suc, true, zero, ℕ, ◌*◌, ◌+◌, ◌-◌, ◌<◌, ◌^◌, ◌≡◌, ◌≤◌, ◌⊎◌,
}
use extension_lab.Jobs.Retry.{
  BackoffOptions, Classified, backoff_delay, backoff_raw, decide_retry, retry_base_ms, retry_max_ms,
}

-- A tenth of its argument at most, as `Math.floor(Math.random() * raw * 0.1)` is.
abbrev pub IsJitter : (ℕ → ℕ) → Type 0
IsJitter jitter = (n : ℕ) → 10 * jitter n ≤ n

-- With any options, a delay lies between the exponential value and a tenth more, and never passes
-- the cap, whatever the jitter.
pub backoff_delay_bounds :
    (jitter : ℕ → ℕ)
    → IsJitter jitter
    → (attempt : ℕ) (opts : BackoffOptions)
    → let raw =
        backoff_raw
          (coalesce opts.base_ms retry_base_ms)
          (coalesce opts.max_ms retry_max_ms)
          attempt in
      (raw ≤ backoff_delay jitter attempt opts)
      × (10 * backoff_delay jitter attempt opts ≤ 11 * raw)
      × (backoff_delay jitter attempt opts ≤ coalesce opts.max_ms retry_max_ms)
unfolding backoff_delay
backoff_delay_bounds jitter small attempt opts = ground (
  arith,
  small (
      backoff_raw (coalesce opts.base_ms retry_base_ms) (coalesce opts.max_ms retry_max_ms)
        attempt),
)

-- The exponential value doubles with each attempt after the first until it reaches the cap, and
-- stays there.
pub backoff_raw_doubles :
    (base max_ms attempt : ℕ)
    → 1 ≤ attempt
    → backoff_raw base max_ms (attempt + 1) ≡ min max_ms (2 * backoff_raw base max_ms attempt)
unfolding backoff_raw
backoff_raw_doubles base max_ms zero h = absurd (omega arith)
backoff_raw_doubles base max_ms (suc a) h =
    let next : suc a + 1 - 1 ≡ suc a = omega arith in
    let this : suc a - 1 ≡ a = omega arith in rw (next, this, pow-suc 2 a) (omega arith)

one_le_pow : (n : ℕ) → 1 ≤ 2 ^ n
one_le_pow zero = omega arith
one_le_pow (suc n) = rw (pow-suc 2 n) (omega (arith, one_le_pow n))

-- An error is retried exactly when it is classified as transient and attempts are left; the wait is
-- then from one second to one minute, and without a retry it is zero.
decide_retry_lem :
    (jitter : ℕ → ℕ)
    → IsJitter jitter
    → (classified : Classified) (attempt max_attempts : ℕ)
    → let d = decide_retry jitter classified attempt max_attempts in
      (d.retry ≡ true)
        × (classified.retryable ≡ true)
        × (attempt < max_attempts)
        × (1000 ≤ d.delay_ms)
        × (d.delay_ms ≤ 60000)
      ⊎ (d.retry ≡ false)
        × ((classified.retryable ≡ false) ⊎ (max_attempts ≤ attempt))
        × (d.delay_ms ≡ 0)
unfolding decide_retry backoff_raw
decide_retry_lem jitter small classified attempt max_attempts = ground (
  arith,
  backoff_delay_bounds jitter small attempt
      (record { base_ms = none; max_ms = none; jitter = none }),
  one_le_pow (attempt - 1),
)
