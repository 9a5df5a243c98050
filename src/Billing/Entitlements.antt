-- ===== src/Billing/Entitlements.antt =====
-- Usage and quota checks (lib/billing/entitlements.ts). The database is the tables of subscriptions,
-- usage events and reservations.
use mathlib.Core.Option
use extension_lab.Common.{
  Bool, List, Option, [], if◌then◌else◌, is_none, leb, ltb, ℕ, ◌&&◌, ◌+◌, ◌-◌, ◌==◌, ◌∷◌,
}
use extension_lab.Billing.Effective.{
  EffectivePlan, UsagePeriod, get_usage_period, resolve_effective_plan,
}
use extension_lab.Billing.Plans.{
  Plan, PlanCatalog, PlanId, UsageKind, ai_request, analysis, interactive_browser,
  smallest_plan_with_limit, test_run,
}
use extension_lab.Billing.Subscriptions.{SubscriptionRow, get_current_subscription}
use extension_lab.Sql.Defs.{count_where, first, order_by, select_where}

pub record UsageEventRow : Type 0 where
  pub id : ℕ
  pub user_id : ℕ
  pub kind : UsageKind
  pub created_at : ℕ

pub record QuotaReservationRow : Type 0 where
  pub id : ℕ
  pub user_id : ℕ
  pub kind : UsageKind
  pub resource_id : Option ℕ
  pub job_id : Option ℕ
  pub created_at : ℕ
  pub consumed_at : Option ℕ
  pub released_at : Option ℕ

pub record BillingDb : Type 0 where
  pub subscriptions : List SubscriptionRow
  pub usage_events : List UsageEventRow
  pub reservations : List QuotaReservationRow

-- What the checks read besides the database.
pub record BillingConfig : Type 0 where
  pub catalog : PlanCatalog
  pub grace_days : ℕ
  pub month : ℕ → ℕ × ℕ

abbrev pub kind_index : UsageKind → ℕ
kind_index analysis = 0
kind_index test_run = 1
kind_index ai_request = 2
kind_index interactive_browser = 3

unfoldable pub same_kind : UsageKind → UsageKind → Bool
same_kind a b = kind_index a == kind_index b

unfoldable pub get_effective_plan : BillingConfig → ℕ → ℕ → BillingDb → EffectivePlan
get_effective_plan config now user db =
    resolve_effective_plan config.catalog config.grace_days now
      (get_current_subscription user db.subscriptions)

abbrev pub within_period : UsagePeriod → ℕ → Bool
within_period p at = leb p.start at && ltb at p.end

abbrev pub is_used : ℕ → UsageKind → UsagePeriod → UsageEventRow → Bool
is_used user kind p e = e.user_id == user && same_kind e.kind kind && within_period p e.created_at

abbrev pub is_settled_none : QuotaReservationRow → Bool
is_settled_none r = is_none r.consumed_at && is_none r.released_at

abbrev pub is_reserved : ℕ → UsageKind → UsagePeriod → QuotaReservationRow → Bool
is_reserved user kind p r =
    r.user_id == user && same_kind r.kind kind && is_settled_none r && within_period p r.created_at

unfoldable pub count_usage_in_period : ℕ → UsageKind → UsagePeriod → BillingDb → ℕ
count_usage_in_period user kind p db = count_where (is_used user kind p) db.usage_events

unfoldable pub count_open_reservations_in_period : ℕ → UsageKind → UsagePeriod → BillingDb → ℕ
count_open_reservations_in_period user kind p db =
    count_where (is_reserved user kind p) db.reservations

unfoldable pub limit_for : Plan → UsageKind → ℕ
limit_for plan analysis = plan.analysis_limit
limit_for plan test_run = plan.test_run_limit
limit_for plan ai_request = if plan.ai_enabled then plan.ai_request_limit else 0
limit_for plan interactive_browser =
    if plan.interactive_browser_enabled then plan.interactive_browser_session_limit else 0

pub record QuotaUsage : Type 0 where
  pub used : ℕ
  pub reserved : ℕ
  pub limit : ℕ
  pub remaining : ℕ
  pub reset_at : ℕ
  pub period : UsagePeriod

-- `remaining` is cut off at 0, as the subtraction on ℕ is.
unfoldable pub get_quota_usage : BillingConfig → ℕ → ℕ → UsageKind → BillingDb → QuotaUsage
get_quota_usage config now user kind db =
    let effective = get_effective_plan config now user db in
    let period = get_usage_period config.month effective now in
    let limit = limit_for effective.plan kind in
    let used = count_usage_in_period user kind period db in
    let reserved = count_open_reservations_in_period user kind period db in
    record {
      used = used;
      reserved = reserved;
      limit = limit;
      remaining = limit - (used + reserved);
      reset_at = period.end;
      period = period;
    }

-- EntitlementResult, with the plan that would allow the call.
pub data EntitlementResult : Type 0 where
  allowed : EntitlementResult
  quota_denied plan_denied : Option PlanId → EntitlementResult

unfoldable pub quota_check : BillingConfig → ℕ → ℕ → UsageKind → BillingDb → EntitlementResult
quota_check config now user kind db =
    if ltb 0 (get_quota_usage config now user kind db).remaining
    then allowed
    else quota_denied (
        smallest_plan_with_limit config.catalog kind
          (get_effective_plan config now user db).plan.id)

unfoldable pub first_plan_with : PlanCatalog → (Plan → Bool) → Plan → Option PlanId
first_plan_with c p current =
    Option.map (λ (x : Plan). x.id)
      (first (
        order_by (λ a b. ltb a.rank b.rank)
          (select_where (λ x. ltb current.rank x.rank && p x)
            (c.free_plan ∷ c.pro_plan ∷ c.business_plan ∷ []))))

unfoldable pub can_analyze : BillingConfig → ℕ → ℕ → BillingDb → EntitlementResult
can_analyze config now user db = quota_check config now user analysis db

unfoldable pub can_run_tests : BillingConfig → ℕ → ℕ → BillingDb → EntitlementResult
can_run_tests config now user db = quota_check config now user test_run db

unfoldable pub can_use_ai : BillingConfig → ℕ → ℕ → BillingDb → EntitlementResult
can_use_ai config now user db =
    let plan = (get_effective_plan config now user db).plan in
    if plan.ai_enabled && ltb 0 plan.ai_request_limit
    then quota_check config now user ai_request db
    else plan_denied
        (first_plan_with config.catalog (λ p. p.ai_enabled && ltb 0 p.ai_request_limit) plan)

unfoldable pub can_use_interactive_browser : BillingConfig → ℕ → ℕ → BillingDb → EntitlementResult
can_use_interactive_browser config now user db =
    let plan = (get_effective_plan config now user db).plan in
    if plan.interactive_browser_enabled && ltb 0 plan.interactive_browser_session_limit
    then quota_check config now user interactive_browser db
    else plan_denied (first_plan_with config.catalog (λ p. p.interactive_browser_enabled) plan)

-- One browser execution is one unit of test runs.
unfoldable pub can_run_tests_n : BillingConfig → ℕ → ℕ → ℕ → BillingDb → EntitlementResult
can_run_tests_n config now user count db =
    if leb count (get_quota_usage config now user test_run db).remaining
    then allowed
    else quota_denied (
        smallest_plan_with_limit config.catalog test_run
          (get_effective_plan config now user db).plan.id)
