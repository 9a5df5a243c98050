-- ===== src/Gates/Tests.antt =====
-- The theorems on the gates at concrete inputs.
use extension_lab.Common.{[], ap, false, if◌then◌else◌, refl, true, ◌∷◌, ◌≡◌}
use extension_lab.Gates.Laws.{any_violated, evaluate_gates_lem}
use extension_lab.Gates.Model.{
  GateInput, default_policies, evaluate_gates, fail_gate, gate_reasons, includes_policy,
  new_failures, pass,
}

abbrev run : GateInput
run = record {
  passed = 3;
  failed = 1;
  warnings = 0;
  skipped = 0;
  regression_detected = false;
  performance_regression = true;
  browser_incompatibility = false;
  policies = default_policies;
}

reported : evaluate_gates run ≡ record { status = fail_gate; reasons = new_failures 1 ∷ [] }
unfolding evaluate_gates gate_reasons includes_policy
reported = refl

failing : (evaluate_gates run).status ≡ fail_gate
failing = ap (λ r. r.status) reported

evaluate_gates_lem_example :
    (evaluate_gates run).status ≡ (if any_violated run default_policies then fail_gate else pass)
evaluate_gates_lem_example = evaluate_gates_lem run
