-- ===== src/Billing/Catalog.antt =====
-- The catalog of plans that lib/billing/plans.ts builds from the environment. `num` is the number of
-- a variable that is set and holds a natural number, `flag` the Boolean of one that is set; a variable is
-- named by its plan and the end of its name, or by its whole name.
use extension_lab.Common.{
  Bool, List, Option, String, [], coalesce, false, if◌then◌else◌, leb, min, none, not, some, true,
  ℕ, ◌&&◌, ◌*◌, ◌∷◌,
}
use extension_lab.Billing.Plans.{Plan, PlanCatalog, PlanId, business, free, pro}

-- MAX_EXTENSION_SIZE of lib/extension/limits.ts
abbrev pub max_extension_size_bytes : ℕ
max_extension_size_bytes = 25 * 1024 * 1024

unfoldable pub default_plan : PlanId → Plan
default_plan free = record {
  id = free;
  rank = 0;
  analysis_limit = 10;
  test_run_limit = 5;
  ai_request_limit = 0;
  max_extension_size = max_extension_size_bytes;
  max_concurrent_runs = 1;
  browser_concurrency = 1;
  max_browsers_per_run = 1;
  interactive_browser_session_limit = 5;
  interactive_browser_concurrency = 1;
  interactive_browser_max_minutes = 10;
  history_retention_days = 30;
  artifact_retention_days = 7;
  package_retention_days = 14;
  sharing_enabled = true;
  share_max_expiry_hours = 168;
  advanced_diagnostics = false;
  priority_execution = false;
  ai_enabled = false;
  cross_browser_enabled = false;
  regression_testing = false;
  advanced_suites = false;
  interactive_browser_enabled = true;
  purchasable = false;
}
default_plan pro = record {
  id = pro;
  rank = 1;
  analysis_limit = 200;
  test_run_limit = 100;
  ai_request_limit = 100;
  max_extension_size = max_extension_size_bytes;
  max_concurrent_runs = 2;
  browser_concurrency = 2;
  max_browsers_per_run = 3;
  interactive_browser_session_limit = 60;
  interactive_browser_concurrency = 2;
  interactive_browser_max_minutes = 30;
  history_retention_days = 180;
  artifact_retention_days = 30;
  package_retention_days = 60;
  sharing_enabled = true;
  share_max_expiry_hours = 0;
  advanced_diagnostics = true;
  priority_execution = false;
  ai_enabled = true;
  cross_browser_enabled = true;
  regression_testing = true;
  advanced_suites = true;
  interactive_browser_enabled = true;
  purchasable = false;
}
default_plan business = record {
  id = business;
  rank = 2;
  analysis_limit = 1000;
  test_run_limit = 500;
  ai_request_limit = 500;
  max_extension_size = max_extension_size_bytes;
  max_concurrent_runs = 4;
  browser_concurrency = 4;
  max_browsers_per_run = 3;
  interactive_browser_session_limit = 300;
  interactive_browser_concurrency = 4;
  interactive_browser_max_minutes = 60;
  history_retention_days = 365;
  artifact_retention_days = 90;
  package_retention_days = 180;
  sharing_enabled = true;
  share_max_expiry_hours = 0;
  advanced_diagnostics = true;
  priority_execution = true;
  ai_enabled = true;
  cross_browser_enabled = true;
  regression_testing = true;
  advanced_suites = true;
  interactive_browser_enabled = true;
  purchasable = false;
}

-- The first variable that is set to a number of at least `least`.
unfoldable pub num_from_env : List (Option ℕ) → ℕ → ℕ → ℕ
num_from_env [] fallback least = fallback
num_from_env (none ∷ vs) fallback least = num_from_env vs fallback least
num_from_env (some n ∷ vs) fallback least =
    let rest = num_from_env vs fallback least in if leb least n then n else rest

pub record PlanEnv : Type 0 where
  pub num : PlanId → String → Option ℕ
  pub flag : PlanId → String → Option Bool
  pub whole : String → Option ℕ
  pub price_id : PlanId → Bool

-- The variables of a plan, with the older name for the Free plan alone.
abbrev with_legacy : PlanEnv → PlanId → String → String → List (Option ℕ)
with_legacy env free name old = env.num free name ∷ env.whole old ∷ []
with_legacy env id name old = env.num id name ∷ []

abbrev is_free : PlanId → Bool
is_free free = true
is_free _ = false

unfoldable pub build_plan : PlanEnv → ℕ → PlanId → Plan
build_plan env hard_max id =
    let base = default_plan id in
    let one =
      λ (name : String) (fallback least : ℕ). num_from_env (env.num id name ∷ []) fallback least in
    let two = λ (name old : String) (fallback least : ℕ).
      num_from_env (with_legacy env id name old) fallback least in
    let flag = λ (name : String) (fallback : Bool). coalesce (env.flag id name) fallback in
    record {
      id = base.id;
      rank = base.rank;
      analysis_limit = two "ANALYSIS_LIMIT" "PLAN_ANALYSIS_LIMIT" base.analysis_limit 0;
      test_run_limit = two "TEST_LIMIT" "PLAN_TEST_LIMIT" base.test_run_limit 0;
      ai_request_limit = one "AI_LIMIT" base.ai_request_limit 0;
      max_extension_size =
          min hard_max
            (two "MAX_EXTENSION_SIZE" "PLAN_MAX_EXTENSION_SIZE" base.max_extension_size 1024);
      max_concurrent_runs =
          two "MAX_CONCURRENT_RUNS" "PLAN_MAX_CONCURRENT_RUNS" base.max_concurrent_runs 1;
      browser_concurrency = one "BROWSER_CONCURRENCY" base.browser_concurrency 1;
      max_browsers_per_run = one "MAX_BROWSERS" base.max_browsers_per_run 1;
      interactive_browser_session_limit =
          one "INTERACTIVE_SESSIONS" base.interactive_browser_session_limit 0;
      interactive_browser_concurrency =
          one "INTERACTIVE_CONCURRENCY" base.interactive_browser_concurrency 1;
      interactive_browser_max_minutes =
          one "INTERACTIVE_MINUTES" base.interactive_browser_max_minutes 1;
      history_retention_days =
          two "HISTORY_RETENTION_DAYS" "PLAN_HISTORY_RETENTION_DAYS" base.history_retention_days 1;
      artifact_retention_days =
          two "ARTIFACT_RETENTION_DAYS" "ARTIFACT_RETENTION_DAYS" base.artifact_retention_days 1;
      package_retention_days =
          two "PACKAGE_RETENTION_DAYS" "PACKAGE_RETENTION_DAYS" base.package_retention_days 1;
      sharing_enabled = flag "SHARING_ENABLED" base.sharing_enabled;
      share_max_expiry_hours = one "SHARE_MAX_EXPIRY_HOURS" base.share_max_expiry_hours 0;
      advanced_diagnostics = flag "ADVANCED_DIAGNOSTICS" base.advanced_diagnostics;
      priority_execution = flag "PRIORITY_EXECUTION" base.priority_execution;
      ai_enabled = flag "AI_ENABLED" base.ai_enabled;
      cross_browser_enabled = flag "CROSS_BROWSER" base.cross_browser_enabled;
      regression_testing = flag "REGRESSION_TESTING" base.regression_testing;
      advanced_suites = flag "ADVANCED_SUITES" base.advanced_suites;
      interactive_browser_enabled =
          flag "INTERACTIVE_BROWSER_ENABLED" base.interactive_browser_enabled;
      purchasable = not (is_free id) && env.price_id id;
    }

unfoldable pub build_plan_catalog : PlanEnv → ℕ → PlanCatalog
build_plan_catalog env hard_max = record {
  free_plan = build_plan env hard_max free;
  pro_plan = build_plan env hard_max pro;
  business_plan = build_plan env hard_max business;
}
