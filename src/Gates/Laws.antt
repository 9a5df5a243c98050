-- ===== src/Gates/Laws.antt =====
-- When a gate of lib/ci/gates.ts fails.
use extension_lab.Common.{
  Bool, List, [], ap, arith, false, if◌then◌else◌, ltb, refl, ◌&&◌, ◌++◌, ◌||◌, ◌∷◌, ◌≡◌,
}
use extension_lab.Gates.Model.{
  GateInput, GatePolicy, evaluate_gates, fail_gate, fail_on_browser_incompatibility,
  fail_on_performance_regression, fail_on_regression, fail_on_test_failure, includes_policy, pass,
}

-- What a policy forbids.
abbrev pub violates : GateInput → GatePolicy → Bool
violates i fail_on_test_failure = ltb 0 i.failed
violates i fail_on_regression = i.regression_detected
violates i fail_on_performance_regression = i.performance_regression
violates i fail_on_browser_incompatibility = i.browser_incompatibility

-- Some policy of the list is violated.
unfoldable pub any_violated : GateInput → List GatePolicy → Bool
any_violated i [] = false
any_violated i (p ∷ ps) = violates i p || any_violated i ps

any_violated_lem :
    (i : GateInput) (ps : List GatePolicy)
    → any_violated i ps ≡ (
        (includes_policy ps fail_on_test_failure && ltb 0 i.failed)
        || (includes_policy ps fail_on_regression && i.regression_detected)
        || (includes_policy ps fail_on_performance_regression && i.performance_regression)
        || (includes_policy ps fail_on_browser_incompatibility && i.browser_incompatibility))
unfolding any_violated includes_policy
any_violated_lem i [] = refl
any_violated_lem i (fail_on_test_failure ∷ ps) = ground (arith, any_violated_lem i ps)
any_violated_lem i (fail_on_regression ∷ ps) = ground (arith, any_violated_lem i ps)
any_violated_lem i (fail_on_performance_regression ∷ ps) = ground (arith, any_violated_lem i ps)
any_violated_lem i (fail_on_browser_incompatibility ∷ ps) = ground (arith, any_violated_lem i ps)

-- A run fails its gates exactly when it violates one of the policies, in whatever order and however
-- often they are listed; otherwise it passes, and no run is ever only warned of.
pub evaluate_gates_lem :
    (i : GateInput)
    → (evaluate_gates i).status ≡ (if any_violated i i.policies then fail_gate else pass)
unfolding evaluate_gates
evaluate_gates_lem i = ground (arith, any_violated_lem i i.policies)

any_violated-append :
    (i : GateInput) (ps qs : List GatePolicy)
    → any_violated i (ps ++ qs) ≡ (any_violated i ps || any_violated i qs)
unfolding any_violated
any_violated-append i [] qs = refl
any_violated-append i (p ∷ ps) qs = ground (arith, any_violated-append i ps qs)

any_violated-policies :
    (i : GateInput) (qs ps : List GatePolicy)
    → any_violated (record i { policies = qs }) ps ≡ any_violated i ps
unfolding any_violated
any_violated-policies i qs [] = refl
any_violated-policies i qs (fail_on_test_failure ∷ ps) =
    ap (λ b. ltb 0 i.failed || b) (any_violated-policies i qs ps)
any_violated-policies i qs (fail_on_regression ∷ ps) =
    ap (λ b. i.regression_detected || b) (any_violated-policies i qs ps)
any_violated-policies i qs (fail_on_performance_regression ∷ ps) =
    ap (λ b. i.performance_regression || b) (any_violated-policies i qs ps)
any_violated-policies i qs (fail_on_browser_incompatibility ∷ ps) =
    ap (λ b. i.browser_incompatibility || b) (any_violated-policies i qs ps)

-- Policies that are added never turn a failed gate into a passed one.
pub evaluate_gates_stricter :
    (i : GateInput) (more : List GatePolicy)
    → (evaluate_gates i).status ≡ fail_gate
    → (evaluate_gates (record i { policies = i.policies ++ more })).status ≡ fail_gate
evaluate_gates_stricter i more h = ground (
  arith,
  evaluate_gates_lem i,
  evaluate_gates_lem (record i { policies = i.policies ++ more }),
  any_violated-append i i.policies more,
  any_violated-policies i (i.policies ++ more) (i.policies ++ more),
)
