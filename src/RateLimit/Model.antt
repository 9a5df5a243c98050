-- ===== src/RateLimit/Model.antt =====
-- checkRateLimit, resetRateLimit and rateLimitCount of lib/auth/rate-limit.ts. A key is a number.
use extension_lab.Common.{
  Bool, Option, false, holds, if◌then◌else◌, leb, ltb, max, negsuc, none, pos, some, true, ℕ, ℤ,
  ◌+◌, ◌-◌, ◌/◌, ◌==◌,
}

pub record Bucket : Type 0 where
  pub count : ℕ
  pub reset_at : ℕ

abbrev pub Buckets : Type 0
Buckets = ℕ → Option Bucket

pub record RateLimitResult : Type 0 where
  pub ok : Bool
  pub retry_after_seconds : ℕ
  pub remaining : ℤ

abbrev pub set_bucket : ℕ → Option Bucket → Buckets → Buckets
set_bucket key b m = λ k. if k == key then b else m k

-- `limit - n`, which is negative for a limit of 0.
abbrev pub less : ℕ → ℕ → ℤ
less limit n = if leb n limit then pos (limit - n) else negsuc (n - limit - 1)

-- Math.ceil(ms / 1000)
abbrev pub seconds_up : ℕ → ℕ
seconds_up ms = (ms + 999) / 1000

abbrev pub is_live : ℕ → Bucket → Bool
is_live now b = ltb now b.reset_at

-- A bucket that counts: absent or past its window is none.
abbrev pub live_bucket : ℕ → ℕ → Buckets → Option Bucket
live_bucket now key m = if holds (is_live now) (m key) then m key else none

unfoldable pub check_rate_limit : ℕ → ℕ → ℕ → ℕ → Buckets → Buckets × RateLimitResult
check_rate_limit now key limit window_ms m = elim (live_bucket now key m) [
  | none ↦ (
    set_bucket key (some (record { count = 1; reset_at = now + window_ms })) m,
    record { ok = true; retry_after_seconds = 0; remaining = less limit 1 },
  )
  | some b ↦
      if leb limit b.count
      then (
        m,
        record {
          ok = false;
          retry_after_seconds = max 1 (seconds_up (b.reset_at - now));
          remaining = pos 0;
        },
      )
      else (
        set_bucket key (some (record b { count = b.count + 1 })) m,
        record { ok = true; retry_after_seconds = 0; remaining = less limit (b.count + 1) },
      )
]

unfoldable pub reset_rate_limit : ℕ → Buckets → Buckets
reset_rate_limit key m = set_bucket key none m

unfoldable pub rate_limit_count : ℕ → ℕ → Buckets → ℕ
rate_limit_count now key m = elim (live_bucket now key m) [ none ↦ 0 | some b ↦ b.count ]
