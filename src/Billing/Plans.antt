-- ===== src/Billing/Plans.antt =====
-- Plans and their comparison (lib/billing/types.ts and lib/billing/plans.ts). The texts and the price of a
-- plan are left out.
use mathlib.Core.Option
use extension_lab.Common.{Bool, List, Option, [], false, ltb, not, true, ℕ, ◌&&◌, ◌||◌, ◌∷◌}
use extension_lab.Sql.Defs.{find_where, insert_by, order_by}

pub data PlanId : Type 0 where
  free pro business : PlanId

pub data UsageKind : Type 0 where
  analysis test_run ai_request interactive_browser : UsageKind

-- PlanLimits and PlanFeatures, with the plan's identifier, rank and price identifier.
pub record Plan : Type 0 where
  pub id : PlanId
  pub rank : ℕ
  pub analysis_limit : ℕ
  pub test_run_limit : ℕ
  pub ai_request_limit : ℕ
  pub max_extension_size : ℕ
  pub max_concurrent_runs : ℕ
  pub browser_concurrency : ℕ
  pub max_browsers_per_run : ℕ
  pub interactive_browser_session_limit : ℕ
  pub interactive_browser_concurrency : ℕ
  pub interactive_browser_max_minutes : ℕ
  pub history_retention_days : ℕ
  pub artifact_retention_days : ℕ
  pub package_retention_days : ℕ
  pub sharing_enabled : Bool
  pub share_max_expiry_hours : ℕ
  pub advanced_diagnostics : Bool
  pub priority_execution : Bool
  pub ai_enabled : Bool
  pub cross_browser_enabled : Bool
  pub regression_testing : Bool
  pub advanced_suites : Bool
  pub interactive_browser_enabled : Bool
  pub purchasable : Bool

-- Record<PlanId, Plan>
pub record PlanCatalog : Type 0 where
  pub free_plan : Plan
  pub pro_plan : Plan
  pub business_plan : Plan

abbrev pub plan_of : PlanCatalog → PlanId → Plan
plan_of c free = c.free_plan
plan_of c pro = c.pro_plan
plan_of c business = c.business_plan

-- The field that limitKeyFor names.
unfoldable pub limit_key_for : UsageKind → Plan → ℕ
limit_key_for analysis p = p.analysis_limit
limit_key_for test_run p = p.test_run_limit
limit_key_for ai_request p = p.ai_request_limit
limit_key_for interactive_browser p = p.interactive_browser_session_limit

unfoldable pub ordered_plans : PlanCatalog → List Plan
unfolding order_by insert_by
ordered_plans c =
    order_by (λ a b. ltb a.rank b.rank) (c.free_plan ∷ c.pro_plan ∷ c.business_plan ∷ [])

abbrev pub is_ai : UsageKind → Bool
is_ai ai_request = true
is_ai _ = false

abbrev pub is_interactive : UsageKind → Bool
is_interactive interactive_browser = true
is_interactive _ = false

-- The test of the `find` in smallestPlanWithLimit.
abbrev pub is_larger : UsageKind → Plan → Plan → Bool
is_larger kind current p =
    ltb current.rank p.rank
    && ltb (limit_key_for kind current) (limit_key_for kind p)
    && (not (is_ai kind) || p.ai_enabled)
    && (not (is_interactive kind) || p.interactive_browser_enabled)

unfoldable pub smallest_plan_with_limit : PlanCatalog → UsageKind → PlanId → Option PlanId
smallest_plan_with_limit c kind current =
    Option.map (λ (p : Plan). p.id)
      (find_where (is_larger kind (plan_of c current)) (ordered_plans c))
