-- ===== src/Billing/Tests.antt =====
-- The theorems on billing at concrete inputs.
use extension_lab.Common.{
  List, [], arith, false, holds, if◌then◌else◌, none, refl, some, true, ℕ, ◌*◌, ◌∷◌, ◌≡◌, ◌≤◌,
}
use extension_lab.Billing.Access.{is_before, pays_until, resolve_effective_plan_paid}
use extension_lab.Billing.Catalog.{
  PlanEnv, build_plan, build_plan_catalog, default_plan, num_from_env,
}
use extension_lab.Billing.Effective.{
  UsagePeriod, calendar, day, get_usage_period, resolve_effective_plan,
}
use extension_lab.Billing.Entitlements.{
  BillingConfig, BillingDb, can_analyze, count_open_reservations_in_period, count_usage_in_period,
  get_effective_plan, get_quota_usage, limit_for, quota_check,
}
use extension_lab.Billing.Plans.{
  PlanCatalog, ai_request, analysis, free, limit_key_for, ordered_plans, plan_of, pro,
  smallest_plan_with_limit,
}
use extension_lab.Billing.Quota.{
  find_reservation, new_reservation, reservation_verdict, reserve_quota,
}
use extension_lab.Billing.QuotaBounds.{reserve_quota_bounded, units}
use extension_lab.Billing.QuotaHistory.{IsWithin, QuotaOp, consume, release, reserve, run_quota}
use extension_lab.Billing.Reservations.{AllWithin, IsSteady, run_quota-IsWithin}
use extension_lab.Billing.Subscriptions.{
  SubscriptionRow, SubscriptionStatus, UpsertSubscriptionInput, canceled, get_current_subscription,
  new_subscription, past_due, subscribed, upsert_subscription,
}
use extension_lab.Billing.Upserts.{
  later_by_second, stored_state, upsert_subscription-later_by_second,
}
use extension_lab.Sql.Defs.{count_where, find_where, insert_by, insert_row, order_by, select_where}

abbrev env : PlanEnv
env = record {
  num = λ id name. none;
  flag = λ id name. none;
  whole = λ name. some 7;
  price_id = λ id. true;
}

abbrev catalog : PlanCatalog
catalog = build_plan_catalog env 1000000

upgrade : smallest_plan_with_limit catalog ai_request free ≡ some pro
unfolding smallest_plan_with_limit ordered_plans order_by insert_by find_where build_plan_catalog
    build_plan default_plan num_from_env limit_key_for
upgrade = refl

-- An event of a subscription of user 7.
abbrev event : ℕ → SubscriptionStatus → UpsertSubscriptionInput
event at status = record {
  user_id = 7;
  provider = 1;
  provider_customer_id = 70;
  provider_subscription_id = 90;
  provider_price_id = some 5;
  plan_id = pro;
  status = status;
  current_period_start = some 0;
  current_period_end = some 1000;
  cancel_at_period_end = false;
  cancel_at = none;
  canceled_at = none;
  trial_end = none;
  ended_at = none;
  event_at = at;
}

upsert_subscription-later_by_second_example :
    stored_state 1 90 (
      upsert_subscription 6000 31
        (event 2000 canceled)
        (upsert_subscription 5000 30 (event 4000 subscribed) []))
    ≡ some (
        later_by_second
          (stored_state 1 90 (upsert_subscription 5000 30 (event 4000 subscribed) []))
          (event 2000 canceled))
upsert_subscription-later_by_second_example =
    upsert_subscription-later_by_second 6000 31 (event 2000 canceled)
      (upsert_subscription 5000 30 (event 4000 subscribed) [])

abbrev sub : SubscriptionRow
sub = new_subscription 5000 30 (event 4000 past_due)

-- The period ended at 1000, and two days of grace follow.
resolve_effective_plan_paid_example :
    ((resolve_effective_plan catalog 2 5000 (some sub)).paid
      ≡ holds (is_before 5000) (pays_until (2 * day) sub past_due))
    × ((resolve_effective_plan catalog 2 5000 (some sub)).plan ≡ (
        if (resolve_effective_plan catalog 2 5000 (some sub)).paid
        then plan_of catalog pro
        else catalog.free_plan))
resolve_effective_plan_paid_example = resolve_effective_plan_paid catalog 2 5000 sub

abbrev config : BillingConfig
config = record { catalog = catalog; grace_days = 2; month = λ now. (0, 1000) }

abbrev db : BillingDb
db = record { subscriptions = []; usage_events = []; reservations = [] }

abbrev month_period : UsagePeriod
month_period = record { start = 0; end = 1000; source = calendar }

abbrev reserved_db : BillingDb
reserved_db = record db { reservations = new_reservation 10 40 7 analysis (some 3) none ∷ [] }

reserves : reserve_quota config 10 40 7 analysis (some 3) none db ≡ some reserved_db
unfolding reserve_quota reservation_verdict can_analyze quota_check get_quota_usage
    get_effective_plan resolve_effective_plan get_current_subscription order_by select_where
    get_usage_period limit_for count_usage_in_period count_open_reservations_in_period count_where
    find_reservation find_where insert_row build_plan_catalog build_plan default_plan num_from_env
reserves = refl

reserve_quota_bounded_example :
    units 7 analysis (get_quota_usage config 10 7 analysis db).period reserved_db
    ≤ (get_quota_usage config 10 7 analysis db).limit
reserve_quota_bounded_example =
    reserve_quota_bounded config 10 40 7 analysis (some 3) none db reserved_db reserves

unreserved : find_reservation 40 db ≡ none
unfolding find_reservation find_where
unreserved = refl

-- A user without a subscription is on the calendar month and the Free plan.
steady : IsSteady config 7 analysis month_period 7 []
unfolding get_quota_usage get_effective_plan resolve_effective_plan get_current_subscription
    order_by select_where get_usage_period limit_for build_plan_catalog build_plan default_plan
    num_from_env
steady now any here at = rw at (refl, omega arith)

db-IsWithin : IsWithin 7 analysis month_period 7 db
unfolding units count_usage_in_period count_open_reservations_in_period count_where
db-IsWithin = record { unique = λ id. omega arith; no_stray = refl; bounded = omega arith }

abbrev history : List (ℕ × QuotaOp)
history =
    (10, reserve 40 7 analysis none none)
    ∷ (20, consume 60 40)
    ∷ (30, reserve 41 7 analysis none none)
    ∷ (40, release 41)
    ∷ []

history-AllWithin : AllWithin month_period history
history-AllWithin = (refl, (refl, (refl, (refl, tt))))

run_quota-IsWithin_example : IsWithin 7 analysis month_period 7 (run_quota config history db)
run_quota-IsWithin_example =
    run_quota-IsWithin config 7 analysis month_period 7 [] refl steady history db history-AllWithin
      refl db-IsWithin
