-- ===== src/RateLimit/Windows.antt =====
-- What the limiter of lib/auth/rate-limit.ts lets through in a window.
use extension_lab.Common.{
  All, Bool-cases, List, Option-cases, [], ap, arith, false, if◌then◌else◌, inl, inr, leb, max,
  none, pos, refl, some, true, ℕ, ◌&&◌, ◌*◌, ◌+◌, ◌-◌, ◌<◌, ◌==◌, ◌∙◌, ◌∷◌, ◌≡◌, ◌≤◌,
}
use extension_lab.RateLimit.Model.{
  Bucket, Buckets, check_rate_limit, is_live, less, live_bucket, seconds_up, set_bucket,
}

-- Requests by key and time, with the number of those of one key that were let through, and the buckets.
unfoldable pub run_requests : ℕ → ℕ → ℕ → List (ℕ × ℕ) → Buckets → ℕ × Buckets
run_requests mine limit window_ms [] m = (0, m)
run_requests mine limit window_ms ((now, key) ∷ rs) m =
    let c = check_rate_limit now key limit window_ms m in
    let rest = run_requests mine limit window_ms rs c.0 in
    (rest.0 + (if key == mine && c.1.ok then 1 else 0), rest.1)

-- Requests before a moment.
abbrev pub AllBefore : ℕ → List (ℕ × ℕ) → Type 0
AllBefore at rs = All (λ (r : ℕ × ℕ). r.0 < at) rs

module _ (mine limit window_ms now : ℕ) (m : Buckets) where
  -- A request at a bucket that is live: it is let through below the limit, and counted.
  check_at_live :
      (b : Bucket)
      → m mine ≡ some b
      → now < b.reset_at
      → check_rate_limit now mine limit window_ms m ≡ (
          if leb limit b.count
          then (
            m,
            record {
              ok = false;
              retry_after_seconds = max 1 (seconds_up (b.reset_at - now));
              remaining = pos 0;
            },
          )
          else (
            set_bucket mine (some (record b { count = b.count + 1 })) m,
            record { ok = true; retry_after_seconds = 0; remaining = less limit (b.count + 1) },
          ))
  unfolding check_rate_limit
  check_at_live b e h =
      let live : live_bucket now mine m ≡ some b = ground arith in rw (live, check_rate_limit) refl

  -- A request of another key leaves this bucket alone.
  check_apart :
      (key : ℕ)
      → (key == mine) ≡ false
      → (check_rate_limit now key limit window_ms m).0 mine ≡ m mine
  unfolding check_rate_limit
  check_apart key h = elim (Option-cases (live_bucket now key m)) [
    | inl e ↦ rw (e, check_rate_limit) ground arith
    | inr (b, e) ↦ elim (Bool-cases (leb limit b.count)) [
      | inl f ↦ rw (e, check_rate_limit, f) refl
      | inr f ↦ rw (e, check_rate_limit, f) ground arith
    ]
  ]

-- While a bucket is live, what is let through and what it had counted are within the limit,
-- or one where the limit is zero.
live_run :
    (mine limit window_ms : ℕ) (rs : List (ℕ × ℕ)) (m : Buckets) (b : Bucket)
    → m mine ≡ some b
    → AllBefore b.reset_at rs
    → b.count ≤ max 1 limit
    → (run_requests mine limit window_ms rs m).0 + b.count ≤ max 1 limit
unfolding run_requests
live_run mine limit window_ms [] m b e a h = omega (arith, h)
live_run mine limit window_ms ((now, key) ∷ rs) m b e a h = elim (Bool-cases (key == mine)) [
  | inl same ↦
      let at : key ≡ mine = ground arith in
      let c : check_rate_limit now key limit window_ms m
          ≡ check_rate_limit now mine limit window_ms m =
        ap (λ x. check_rate_limit now x limit window_ms m) at in
      let here = c ∙ check_at_live mine limit window_ms now m b e a.0 in
      elim (Bool-cases (leb limit b.count)) [
        | inl full ↦ rw (here, full) (ground (arith, live_run mine limit window_ms rs m b e a.1 h))
        | inr room ↦
            let b' : Bucket = record b { count = b.count + 1 } in
            rw (here, room)
              (ground (
                arith,
                live_run mine limit window_ms rs (set_bucket mine (some b') m) b' (ground arith) a.1
                    (ground arith),
              ))
      ]
  | inr apart ↦
      let kept = check_apart mine limit window_ms now m key apart ∙ e in
      ground (
        arith,
        apart,
        live_run mine limit window_ms rs (check_rate_limit now key limit window_ms m).0 b kept a.1
            h,
      )
]

-- A window lets through at most the limit, or one request where the limit is zero: from the request that
-- opens it on, of all the requests of its key before it ends, with any requests of other keys in between.
pub run_requests_bounded :
    (mine limit window_ms start : ℕ) (rs : List (ℕ × ℕ)) (m : Buckets)
    → live_bucket start mine m ≡ none
    → AllBefore (start + window_ms) rs
    → (run_requests mine limit window_ms ((start, mine) ∷ rs) m).0 ≤ max 1 limit
unfolding run_requests check_rate_limit
run_requests_bounded mine limit window_ms start rs m free a =
    let b : Bucket = record { count = 1; reset_at = start + window_ms } in
    let rest =
      live_run mine limit window_ms rs (set_bucket mine (some b) m) b (ground arith) a
        (omega arith) in
    rw (free, check_rate_limit) (ground (arith, rest))

after_reset :
    (now key : ℕ) (m : Buckets) (b : Bucket)
    → m key ≡ some b
    → b.reset_at ≤ now
    → live_bucket now key m ≡ none
after_reset now key m b e h = ground arith

-- A refused request is told to wait at least until its window ends: asked again that many seconds later,
-- and with no request of its key in between, it is let through.
check_rate_limit_wait :
    (key limit window_ms now : ℕ) (m : Buckets)
    → (check_rate_limit now key limit window_ms m).1.ok ≡ false
    → (check_rate_limit
        (now + 1000 * (check_rate_limit now key limit window_ms m).1.retry_after_seconds)
        key
        limit
        window_ms
        (check_rate_limit now key limit window_ms m).0).1.ok
      ≡ true
unfolding check_rate_limit
check_rate_limit_wait key limit window_ms now m refused = elim (Option-cases (m key)) [
  | inl e ↦ absurd (ground arith)
  | inr (b, e) ↦ elim (Bool-cases (is_live now b && leb limit b.count)) [
    | inr h ↦ absurd (ground arith)
    | inl h ↦
        let full : leb limit b.count ≡ true = ground arith in
        let first = check_at_live key limit window_ms now m b e (ground arith) in
        let wait = max 1 (seconds_up (b.reset_at - now)) in
        let late : live_bucket (now + 1000 * wait) key m ≡ none =
          after_reset (now + 1000 * wait) key m b e (omega arith) in
        rw (first, full) rw (late, check_rate_limit) refl
  ]
]
