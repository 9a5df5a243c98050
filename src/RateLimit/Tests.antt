-- ===== src/RateLimit/Tests.antt =====
-- The theorems on the limiter at concrete inputs.
use extension_lab.Common.{[], arith, false, max, none, refl, some, ◌∷◌, ◌≡◌, ◌≤◌}
use extension_lab.RateLimit.Model.{Buckets, check_rate_limit, set_bucket}
use extension_lab.RateLimit.Windows.{run_requests, run_requests_bounded}

abbrev empty : Buckets
empty key = none

run_requests_bounded_example :
    (run_requests 4 2 1000 ((50, 4) ∷ (60, 4) ∷ (70, 5) ∷ (80, 4) ∷ (90, 4) ∷ []) empty).0 ≤ max 1 2
run_requests_bounded_example =
    run_requests_bounded 4 2 1000 50 ((60, 4) ∷ (70, 5) ∷ (80, 4) ∷ (90, 4) ∷ []) empty refl
      (omega arith, (omega arith, (omega arith, (omega arith, tt))))

abbrev full : Buckets
full = set_bucket 4 (some (record { count = 2; reset_at = 5500 })) empty

refused : (check_rate_limit 1200 4 2 1000 full).1.ok ≡ false
unfolding check_rate_limit
refused = refl
