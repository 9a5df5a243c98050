-- ===== src/Jobs/Retry.antt =====
-- lib/jobs/retry.ts. `Math.floor(Math.random() * raw * 0.1)` is an argument: a number of at most
-- a tenth of `raw`.
use extension_lab.Common.{
  Bool, Option, String, coalesce, false, if◌then◌else◌, ltb, min, none, some, true, ℕ, ◌&&◌, ◌*◌,
  ◌+◌, ◌-◌, ◌^◌,
}

abbrev pub retry_base_ms : ℕ
retry_base_ms = 1000

abbrev pub retry_max_ms : ℕ
retry_max_ms = 60000

pub record BackoffOptions : Type 0 where
  pub base_ms : Option ℕ
  pub max_ms : Option ℕ
  pub jitter : Option Bool

-- `Math.min(max, base * 2 ** Math.max(0, attempt - 1))`
unfoldable pub backoff_raw : ℕ → ℕ → ℕ → ℕ
backoff_raw base max_ms attempt = min max_ms (base * 2 ^ (attempt - 1))

abbrev is_disabled : Option Bool → Bool
is_disabled (some false) = true
is_disabled _ = false

unfoldable pub backoff_delay : (ℕ → ℕ) → ℕ → BackoffOptions → ℕ
unfolding backoff_raw
backoff_delay jitter attempt opts =
    let base = coalesce opts.base_ms retry_base_ms in
    let max_ms = coalesce opts.max_ms retry_max_ms in
    let raw = backoff_raw base max_ms attempt in
    if is_disabled opts.jitter then raw else min max_ms (raw + jitter raw)

-- What classifyError of lib/observability/errors.ts says of an error.
pub record Classified : Type 0 where
  pub code : String
  pub retryable : Bool
  pub user_message : String

pub record RetryDecision : Type 0 where
  pub retry : Bool
  pub delay_ms : ℕ
  pub code : String
  pub user_message : String

unfoldable pub decide_retry : (ℕ → ℕ) → Classified → ℕ → ℕ → RetryDecision
decide_retry jitter classified attempt max_attempts =
    let can_retry = classified.retryable && ltb attempt max_attempts in
    record {
      retry = can_retry;
      delay_ms =
          if can_retry
          then backoff_delay jitter attempt
              (record { base_ms = none; max_ms = none; jitter = none })
          else 0;
      code = classified.code;
      user_message = classified.user_message;
    }
