-- ===== src/Payments/Applying.antt =====
-- lib/billing/subscriptions.ts: a subscription of the provider is stored for its owner. The audit records,
-- metrics and logs are left out.
use mathlib.Core.Option
use extension_lab.Common.{Bool, Option, coalesce, if◌then◌else◌, none, some, ℕ, ◌+◌}
use extension_lab.Billing.Plans.{PlanId, free}
use extension_lab.Billing.Subscriptions.{
  SubscriptionRow, UpsertSubscriptionInput, get_subscription_by_provider_id, upsert_subscription,
}
use extension_lab.Payments.Ledger.{find_user_id_by_provider_customer}
use extension_lab.Payments.Rows.{PaymentsDb, ProviderSubscription}

-- The provider, and what is configured or stored elsewhere: the plan of a price, the users.
pub record PaymentsConfig : Type 0 where
  pub provider : ℕ
  pub plan_of_price : ℕ → Option PlanId
  pub user_exists : ℕ → Bool

unfoldable pub resolve_plan_for_subscription : PaymentsConfig → ProviderSubscription → PlanId
resolve_plan_for_subscription config sub =
    coalesce (elim sub.price_id [ none ↦ none | some price ↦ config.plan_of_price price ])
      (coalesce sub.metadata_plan_id free)

abbrev pub known_user : PaymentsConfig → Option ℕ → Option ℕ
known_user config none = none
known_user config (some user) = if config.user_exists user then some user else none

abbrev pub or_other : Option ℕ → Option ℕ → Option ℕ
or_other (some x) y = some x
or_other none y = y

unfoldable pub resolve_owner : PaymentsConfig → ProviderSubscription → PaymentsDb → Option ℕ
resolve_owner config sub db =
    elim (get_subscription_by_provider_id config.provider sub.id db.subscriptions) [
      | some existing ↦ some existing.user_id
      | none ↦
          or_other (find_user_id_by_provider_customer config.provider sub.customer_id db.customers)
            (known_user config sub.metadata_user_id)
    ]

abbrev pub subscription_input :
    PaymentsConfig → ℕ → ProviderSubscription → ℕ → UpsertSubscriptionInput
subscription_input config user sub event_at = record {
  user_id = user;
  provider = config.provider;
  provider_customer_id = sub.customer_id;
  provider_subscription_id = sub.id;
  provider_price_id = sub.price_id;
  plan_id = resolve_plan_for_subscription config sub;
  status = sub.status;
  current_period_start = sub.current_period_start;
  current_period_end = sub.current_period_end;
  cancel_at_period_end = sub.cancel_at_period_end;
  cancel_at = sub.cancel_at;
  canceled_at = sub.canceled_at;
  trial_end = sub.trial_end;
  ended_at = sub.ended_at;
  event_at = event_at;
}

-- The user and the row that the subscription was applied to; `none` is an unowned subscription.
abbrev pub Applied : Type 0
Applied = Option (ℕ × Option ℕ)

unfoldable pub apply_provider_subscription :
    PaymentsConfig → ℕ → ProviderSubscription → ℕ → Option ℕ → PaymentsDb → PaymentsDb × Applied
apply_provider_subscription config now sub event_at user db =
    elim (or_other user (resolve_owner config sub db)) [
      | none ↦ (db, none)
      | some owner ↦
          let t =
            upsert_subscription now db.next_id (subscription_input config owner sub event_at)
              db.subscriptions in
          (
            record db { subscriptions = t; next_id = db.next_id + 1 },
            some (
              owner,
              Option.map (λ (r : SubscriptionRow). r.id)
                  (get_subscription_by_provider_id config.provider sub.id t),
            ),
          )
    ]
