-- ===== src/Billing/Subscriptions.antt =====
-- The subscriptions of lib/db/repositories/billing.ts. A provider and an identifier of it are compared
-- for equality alone.
use extension_lab.Common.{
  Bool, List, Option, false, if◌then◌else◌, ltb, none, some, true, ℕ, ◌&&◌, ◌/◌, ◌==◌,
}
use extension_lab.Billing.Plans.{PlanId}
use extension_lab.Sql.Defs.{find_where, first, insert_row, order_by, select_where, update_where}

pub data SubscriptionStatus : Type 0 where
  incomplete incomplete_expired trialing subscribed past_due canceled unpaid paused :
      SubscriptionStatus

pub record SubscriptionRow : Type 0 where
  pub id : ℕ
  pub user_id : ℕ
  pub provider : ℕ
  pub provider_customer_id : ℕ
  pub provider_subscription_id : ℕ
  pub provider_price_id : Option ℕ
  pub plan_id : PlanId
  pub status : SubscriptionStatus
  pub current_period_start : Option ℕ
  pub current_period_end : Option ℕ
  pub cancel_at_period_end : Bool
  pub cancel_at : Option ℕ
  pub canceled_at : Option ℕ
  pub trial_end : Option ℕ
  pub ended_at : Option ℕ
  pub last_event_at : ℕ
  pub created_at : ℕ
  pub updated_at : ℕ

pub record UpsertSubscriptionInput : Type 0 where
  pub user_id : ℕ
  pub provider : ℕ
  pub provider_customer_id : ℕ
  pub provider_subscription_id : ℕ
  pub provider_price_id : Option ℕ
  pub plan_id : PlanId
  pub status : SubscriptionStatus
  pub current_period_start : Option ℕ
  pub current_period_end : Option ℕ
  pub cancel_at_period_end : Bool
  pub cancel_at : Option ℕ
  pub canceled_at : Option ℕ
  pub trial_end : Option ℕ
  pub ended_at : Option ℕ
  pub event_at : ℕ

abbrev pub is_provided : ℕ → ℕ → SubscriptionRow → Bool
is_provided provider sub r = r.provider == provider && r.provider_subscription_id == sub

unfoldable pub get_subscription_by_provider_id :
    ℕ → ℕ → List SubscriptionRow → Option SubscriptionRow
get_subscription_by_provider_id provider sub t = find_where (is_provided provider sub) t

abbrev pub new_subscription : ℕ → ℕ → UpsertSubscriptionInput → SubscriptionRow
new_subscription now id i = record {
  id = id;
  user_id = i.user_id;
  provider = i.provider;
  provider_customer_id = i.provider_customer_id;
  provider_subscription_id = i.provider_subscription_id;
  provider_price_id = i.provider_price_id;
  plan_id = i.plan_id;
  status = i.status;
  current_period_start = i.current_period_start;
  current_period_end = i.current_period_end;
  cancel_at_period_end = i.cancel_at_period_end;
  cancel_at = i.cancel_at;
  canceled_at = i.canceled_at;
  trial_end = i.trial_end;
  ended_at = i.ended_at;
  last_event_at = i.event_at;
  created_at = now;
  updated_at = now;
}

abbrev pub updated_subscription : ℕ → UpsertSubscriptionInput → SubscriptionRow → SubscriptionRow
updated_subscription now i r = record r {
  provider_customer_id = i.provider_customer_id;
  provider_price_id = i.provider_price_id;
  plan_id = i.plan_id;
  status = i.status;
  current_period_start = i.current_period_start;
  current_period_end = i.current_period_end;
  cancel_at_period_end = i.cancel_at_period_end;
  cancel_at = i.cancel_at;
  canceled_at = i.canceled_at;
  trial_end = i.trial_end;
  ended_at = i.ended_at;
  last_event_at = i.event_at;
  updated_at = now;
}

-- Older than what is stored, at the granularity of a second.
abbrev pub is_stale : ℕ → SubscriptionRow → Bool
is_stale event_at r = ltb (event_at / 1000) (r.last_event_at / 1000)

-- The table that upsertSubscription leaves; the identifier of a new row is fresh.
unfoldable pub upsert_subscription :
    ℕ → ℕ → UpsertSubscriptionInput → List SubscriptionRow → List SubscriptionRow
upsert_subscription now id i t =
    elim (get_subscription_by_provider_id i.provider i.provider_subscription_id t) [
      | none ↦ insert_row (new_subscription now id i) t
      | some previous ↦
          if is_stale i.event_at previous
          then t
          else update_where (λ r. r.id == previous.id) (updated_subscription now i) t
    ]

-- RELEVANT_STATUSES
abbrev pub is_relevant : SubscriptionStatus → Bool
is_relevant trialing = true
is_relevant subscribed = true
is_relevant past_due = true
is_relevant paused = true
is_relevant incomplete = true
is_relevant unpaid = true
is_relevant _ = false

-- ORDER BY updated_at DESC LIMIT 1
abbrev latest : (SubscriptionRow → Bool) → List SubscriptionRow → Option SubscriptionRow
latest p t = first (order_by (λ a b. ltb b.updated_at a.updated_at) (select_where p t))

unfoldable pub get_current_subscription : ℕ → List SubscriptionRow → Option SubscriptionRow
get_current_subscription user t = elim (latest (λ r. r.user_id == user && is_relevant r.status) t) [
  | some live ↦ some live
  | none ↦ latest (λ r. r.user_id == user) t
]
