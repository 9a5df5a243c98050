-- ===== src/Billing/CatalogBounds.antt =====
-- What every configuration of the plans keeps (lib/billing/plans.ts).
use mathlib.Core.Option
use mathlib.Core.Path.{subst}
use extension_lab.Common.{
  Bool, Bool-cases, List, Option, [], arith, false, inl, inr, none, refl, some, true, ℕ, ◌<◌, ◌∷◌,
  ◌≡◌, ◌≤◌,
}
use extension_lab.Billing.Catalog.{
  PlanEnv, build_plan, build_plan_catalog, default_plan, num_from_env,
}
use extension_lab.Billing.Plans.{
  Plan, PlanCatalog, PlanId, UsageKind, business, free, is_larger, ordered_plans, plan_of, pro,
  smallest_plan_with_limit,
}
use extension_lab.Sql.Defs.{find_where, insert_by, order_by}

num_from_env-least :
    (vs : List (Option ℕ)) (fallback least : ℕ)
    → least ≤ fallback
    → least ≤ num_from_env vs fallback least
unfolding num_from_env
num_from_env-least [] fallback least h = h
num_from_env-least (none ∷ vs) fallback least h = num_from_env-least vs fallback least h
num_from_env-least (some n ∷ vs) fallback least h =
    ground (arith, num_from_env-least vs fallback least h)

-- Whatever the environment holds, the catalog keeps the identifier and the rank of each plan, so that
-- Free is below Pro and Pro below Business; no plan takes a package above the hard limit, and each
-- admits at least one run, one browser and one interactive session at a time and keeps its history for
-- at least a day; the Free plan is never for sale.
build_plan_catalog_lem :
    (env : PlanEnv) (hard_max : ℕ) (id : PlanId)
    → let c = build_plan_catalog env hard_max in
      ((plan_of c id).id ≡ id)
      × (c.free_plan.rank < c.pro_plan.rank)
      × (c.pro_plan.rank < c.business_plan.rank)
      × ((plan_of c id).max_extension_size ≤ hard_max)
      × (1 ≤ (plan_of c id).max_concurrent_runs)
      × (1 ≤ (plan_of c id).browser_concurrency)
      × (1 ≤ (plan_of c id).interactive_browser_concurrency)
      × (1 ≤ (plan_of c id).history_retention_days)
      × (c.free_plan.purchasable ≡ false)
unfolding build_plan_catalog build_plan default_plan
build_plan_catalog_lem env hard_max free = (
  refl,
  omega arith,
  omega arith,
  omega arith,
  num_from_env-least _ 1 1 (omega arith),
  num_from_env-least _ 1 1 (omega arith),
  num_from_env-least _ 1 1 (omega arith),
  num_from_env-least _ 30 1 (omega arith),
  refl,
)
build_plan_catalog_lem env hard_max pro = (
  refl,
  omega arith,
  omega arith,
  omega arith,
  num_from_env-least _ 2 1 (omega arith),
  num_from_env-least _ 2 1 (omega arith),
  num_from_env-least _ 2 1 (omega arith),
  num_from_env-least _ 180 1 (omega arith),
  refl,
)
build_plan_catalog_lem env hard_max business = (
  refl,
  omega arith,
  omega arith,
  omega arith,
  num_from_env-least _ 4 1 (omega arith),
  num_from_env-least _ 4 1 (omega arith),
  num_from_env-least _ 4 1 (omega arith),
  num_from_env-least _ 365 1 (omega arith),
  refl,
)

-- The three plans of a catalog in their order.
record IsOrdered (c : PlanCatalog) : Type 0 where
  in_order : ordered_plans c ≡ c.free_plan ∷ c.pro_plan ∷ c.business_plan ∷ []
  named : (id : PlanId) → (plan_of c id).id ≡ id
  low : c.free_plan.rank < c.pro_plan.rank
  high : c.pro_plan.rank < c.business_plan.rank

built-IsOrdered : (env : PlanEnv) (hard_max : ℕ) → IsOrdered (build_plan_catalog env hard_max)
unfolding ordered_plans order_by insert_by build_plan_catalog build_plan default_plan
built-IsOrdered env hard_max = record {
  in_order = refl;
  named = λ id. (build_plan_catalog_lem env hard_max id).0;
  low = omega arith;
  high = omega arith;
}

-- What the `find` over the three plans has found.
found_plan :
    (q : Plan → Bool) (c : PlanCatalog) (k : IsOrdered c) (better : PlanId)
    → Option.map (λ (p : Plan). p.id) (find_where q (ordered_plans c)) ≡ some better
    → (q (plan_of c better) ≡ true)
      × ((other : PlanId)
          → q (plan_of c other) ≡ true
          → (plan_of c better).rank ≤ (plan_of c other).rank)
unfolding find_where
found_plan q c k better h =
    let at : Option.map (λ (p : Plan). p.id)
          (find_where q (c.free_plan ∷ c.pro_plan ∷ c.business_plan ∷ []))
        ≡ some better =
      subst (λ ps. Option.map (λ (p : Plan). p.id) (find_where q ps) ≡ some better) k.in_order h in
    elim (Bool-cases (q c.free_plan)) [
      | inl f ↦
          let e : free ≡ better = ground (arith, at, k.named free) in
          subst
            (λ b.
              (q (plan_of c b) ≡ true)
              × ((other : PlanId)
                  → q (plan_of c other) ≡ true
                  → (plan_of c b).rank ≤ (plan_of c other).rank))
            e (f, λ other g. free_lowest other)
      | inr f ↦ elim (Bool-cases (q c.pro_plan)) [
        | inl p ↦
            let e : pro ≡ better = ground (arith, at, k.named pro) in
            subst
              (λ b.
                (q (plan_of c b) ≡ true)
                × ((other : PlanId)
                    → q (plan_of c other) ≡ true
                    → (plan_of c b).rank ≤ (plan_of c other).rank))
              e (p, λ other g. pro_lowest f other g)
        | inr p ↦ elim (Bool-cases (q c.business_plan)) [
          | inl b ↦
              let e : business ≡ better = ground (arith, at, k.named business) in
              subst
                (λ x.
                  (q (plan_of c x) ≡ true)
                  × ((other : PlanId)
                      → q (plan_of c other) ≡ true
                      → (plan_of c x).rank ≤ (plan_of c other).rank))
                e (b, λ other g. business_only f p other g)
          | inr b ↦ absurd (ground arith)
        ]
      ]
    ]
  where
    free_lowest : (other : PlanId) → c.free_plan.rank ≤ (plan_of c other).rank
    free_lowest free = omega arith
    free_lowest pro = omega (arith, k.low)
    free_lowest business = omega (arith, k.low, k.high)

    pro_lowest :
        q c.free_plan ≡ false
        → (other : PlanId) → q (plan_of c other) ≡ true
        → c.pro_plan.rank ≤ (plan_of c other).rank
    pro_lowest f free g = absurd (ground arith)
    pro_lowest f pro g = omega arith
    pro_lowest f business g = omega (arith, k.high)

    business_only :
        q c.free_plan ≡ false
        → q c.pro_plan ≡ false
        → (other : PlanId) → q (plan_of c other) ≡ true
        → c.business_plan.rank ≤ (plan_of c other).rank
    business_only f p free g = absurd (ground arith)
    business_only f p pro g = absurd (ground arith)
    business_only f p business g = omega arith

-- A plan that is suggested on a denial is the smallest upgrade that helps: it has a higher rank and a
-- higher limit of the kind that ran out, includes the feature, and no plan that does so has a lower rank.
pub smallest_plan_with_limit_lem :
    (env : PlanEnv) (hard_max : ℕ) (kind : UsageKind) (current better : PlanId)
    → smallest_plan_with_limit (build_plan_catalog env hard_max) kind current ≡ some better
    → let c = build_plan_catalog env hard_max in
      (is_larger kind (plan_of c current) (plan_of c better) ≡ true)
      × ((other : PlanId)
          → is_larger kind (plan_of c current) (plan_of c other) ≡ true
          → (plan_of c better).rank ≤ (plan_of c other).rank)
unfolding smallest_plan_with_limit
smallest_plan_with_limit_lem env hard_max kind current better h =
    let c = build_plan_catalog env hard_max in
    found_plan (is_larger kind (plan_of c current)) c (built-IsOrdered env hard_max) better h
