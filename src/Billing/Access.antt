-- ===== src/Billing/Access.antt =====
-- When a subscription gives paid access (lib/billing/entitlements.ts).
use mathlib.Core.Option
use extension_lab.Common.{
  Bool, Option, Option-cases, arith, coalesce, holds, if◌then◌else◌, inl, inr, is_some, leb, none,
  not, refl, some, ℕ, ◌*◌, ◌+◌, ◌≡◌,
}
use extension_lab.Billing.Effective.{day, resolve_effective_plan, resolve_status}
use extension_lab.Billing.Plans.{PlanCatalog, plan_of}
use extension_lab.Billing.Subscriptions.{
  SubscriptionRow, SubscriptionStatus, canceled, incomplete, incomplete_expired, past_due, paused,
  subscribed, trialing, unpaid,
}

-- Paid access in so many words: the subscription is in a state that can pay, and the time at which its access ends
-- has not come. The time is that of a scheduled cancellation, of the trial, or of the period, with the
-- grace after a period that was not renewed.
unfoldable pub pays_until : ℕ → SubscriptionRow → SubscriptionStatus → Option (Option ℕ)
pays_until grace_ms row subscribed =
    if row.cancel_at_period_end
    then some (if is_some row.cancel_at then row.cancel_at else row.current_period_end)
    else some (Option.map (λ e. e + grace_ms) row.current_period_end)
pays_until grace_ms row trialing =
    some (if is_some row.trial_end then row.trial_end else row.current_period_end)
pays_until grace_ms row past_due =
    some (some (coalesce row.current_period_end row.updated_at + grace_ms))
pays_until grace_ms row _ = none

abbrev pub is_before : ℕ → Option ℕ → Bool
is_before now until = not (holds (λ u. leb u now) until)

-- What the theorem below says of one status.
abbrev IsPaidRightly : PlanCatalog → ℕ → ℕ → SubscriptionRow → SubscriptionStatus → Type 0
IsPaidRightly c grace_days now row s =
    ((resolve_status c grace_days now row s).paid
      ≡ holds (is_before now) (pays_until (grace_days * day) row s))
    × ((resolve_status c grace_days now row s).plan ≡ (
        if (resolve_status c grace_days now row s).paid
        then plan_of c row.plan_id
        else c.free_plan))

module _ (c : PlanCatalog) (grace_days now : ℕ) (row : SubscriptionRow) where
  subscribed-IsPaidRightly : IsPaidRightly c grace_days now row subscribed
  unfolding resolve_status pays_until
  subscribed-IsPaidRightly = elim (Option-cases row.cancel_at) [
    | inl a ↦ elim (Option-cases row.current_period_end) [
      | inl e ↦ (ground arith, ground arith)
      | inr (end, e) ↦ (ground arith, ground arith)
    ]
    | inr (at, a) ↦ elim (Option-cases row.current_period_end) [
      | inl e ↦ (ground arith, ground arith)
      | inr (end, e) ↦ (ground arith, ground arith)
    ]
  ]

  trialing-IsPaidRightly : IsPaidRightly c grace_days now row trialing
  unfolding resolve_status pays_until
  trialing-IsPaidRightly = elim (Option-cases row.trial_end) [
    | inl a ↦ (ground arith, ground arith)
    | inr (at, a) ↦ (ground arith, ground arith)
  ]

  status-IsPaidRightly : (s : SubscriptionStatus) → IsPaidRightly c grace_days now row s
  unfolding resolve_status pays_until
  status-IsPaidRightly subscribed = subscribed-IsPaidRightly
  status-IsPaidRightly trialing = trialing-IsPaidRightly
  status-IsPaidRightly past_due = (ground arith, ground arith)
  status-IsPaidRightly canceled = (refl, refl)
  status-IsPaidRightly incomplete = (refl, refl)
  status-IsPaidRightly incomplete_expired = (refl, refl)
  status-IsPaidRightly unpaid = (refl, refl)
  status-IsPaidRightly paused = (refl, refl)

  -- Access is paid exactly when the subscription is in a state that can pay (active, trialing or past due; an
  -- unpaid one never, and without a grace) and the end of its access has not come; the plan is then the one
  -- subscribed to, and otherwise Free.
  pub resolve_effective_plan_paid :
      ((resolve_effective_plan c grace_days now (some row)).paid
        ≡ holds (is_before now) (pays_until (grace_days * day) row row.status))
      × ((resolve_effective_plan c grace_days now (some row)).plan ≡ (
          if (resolve_effective_plan c grace_days now (some row)).paid
          then plan_of c row.plan_id
          else c.free_plan))
  unfolding resolve_effective_plan
  resolve_effective_plan_paid = status-IsPaidRightly row.status
