-- ===== src/Webhooks/Attempts.antt =====
-- How the attempts of a delivery end (lib/webhooks/deliver.ts).
use native.Mathlib.Nat.{pow-suc}
use extension_lab.Common.{
  All, Bool, List, [], ap, arith, min, not, suc, true, ℕ, ◌*◌, ◌+◌, ◌∷◌, ◌≡◌, ◌≤◌,
}
use extension_lab.Webhooks.Model.{
  Attempt, DeliveryRow, WebhookConfig, backoff_ms, is_success, process_webhook_delivery, responded,
}

-- The calls for one delivery, each with its time, the state of its webhook and what the attempt meets.
unfoldable pub run_attempts :
    WebhookConfig → ℕ → List (ℕ × Bool × Attempt) → List DeliveryRow → List DeliveryRow
run_attempts config id [] t = t
run_attempts config id ((now, active, attempt) ∷ os) t =
    run_attempts config id os (process_webhook_delivery config now active attempt id t).0

-- An attempt that does not succeed.
abbrev pub is_failure : Attempt → Bool
is_failure (responded code) = not (is_success code)
is_failure _ = true

-- Attempts that all fail, at a webhook that stays active.
abbrev pub AllFail : List (ℕ × Bool × Attempt) → Type 0
AllFail os = All (λ (o : ℕ × Bool × Attempt). (o.1 ≡ true) × (is_failure o.2 ≡ true)) os

-- The wait before a retry is the base at first and doubles with each failure until it is an hour; it is
-- never more.
pub backoff_ms_lem :
    (config : WebhookConfig) (n : ℕ)
    → (backoff_ms config 0 ≡ min config.backoff_base_ms 3600000)
      × (backoff_ms config (n + 1) ≡ min (2 * backoff_ms config n) 3600000)
      × (backoff_ms config n ≤ 3600000)
unfolding backoff_ms
backoff_ms_lem config n = (
  ap (λ x. min x 3600000) (omega arith),
  let next : n + 1 ≡ suc n = omega arith in rw (next, pow-suc 2 n) (ground arith),
  omega arith,
)
