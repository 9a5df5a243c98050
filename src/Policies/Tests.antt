-- ===== src/Policies/Tests.antt =====
-- Tests of the quality gates, and their theorems at concrete inputs.
use extension_lab.Common.{
  Bool, Option, [], arith, false, includes, inl, inr, negsuc, none, pos, refl, some, true, ℕ, ◌↔◌,
  ◌∷◌, ◌≡◌,
}
use extension_lab.Policies.Evaluation.{
  Execution, PolicyEvidence, RunOutcome, any_check, browser_check, browser_failure, cancelled,
  checks_of, evaluate_policy, failing_browsers, failing_tests, missing_tests, number_check, passed,
  policy_fail, policy_pass, regression_check, result_of, test_check, warning,
}
use extension_lab.Policies.Passing.{evaluate_policy_lem}
use extension_lab.Policies.Rules.{PolicyRules, RawRules, bounded, chosen_browsers, normalize_rules}
use extension_lab.Policies.Storing.{IsNormal, normalize_rules-stored, stored}
use extension_lab.Policies.Verdicts.{Meets, has_evidence}
use extension_lab.Sql.Defs.{find_where, select_where}

abbrev raw : RawRules
raw = record {
  min_health_score = some (pos 170);
  max_critical_findings = some (negsuc 4);
  max_high_findings = none;
  required_test_ids = some (7 ∷ 8 ∷ []);
  required_browsers = some (0 ∷ 9 ∷ 1 ∷ []);
  allow_regressions = some false;
}

abbrev rules : PolicyRules
rules = record {
  min_health_score = some 100;
  max_critical_findings = some 0;
  max_high_findings = none;
  required_test_ids = some (7 ∷ 8 ∷ []);
  required_browsers = some (0 ∷ 1 ∷ []);
  allow_regressions = some false;
}

normalizes : normalize_rules raw ≡ rules
unfolding normalize_rules bounded chosen_browsers select_where
normalizes = refl

normalize_rules-stored_example :
    IsNormal (normalize_rules raw) × ((normalize_rules (stored rules) ≡ rules) ↔ IsNormal rules)
normalize_rules-stored_example = normalize_rules-stored raw rules

abbrev run_of : ℕ → Option RunOutcome → Execution
run_of browser outcome = record { browser_id = browser; outcome = outcome }

abbrev evidence : Option RunOutcome → PolicyEvidence
evidence outcome = record {
  analysis = some (record { health_score = some 100; critical_findings = 0; high_findings = 4 });
  test_run = some (record { failed_test_ids = 9 ∷ []; executed_test_ids = 7 ∷ 8 ∷ 9 ∷ [] });
  browser_matrix = some (run_of 1 outcome ∷ run_of 0 (some passed) ∷ []);
  regression = none;
  infrastructure_failed = false;
}

cancelled_fails : (evaluate_policy rules (evidence (some cancelled))).result ≡ policy_fail
unfolding evaluate_policy result_of checks_of any_check number_check test_check browser_check
    regression_check missing_tests failing_tests failing_browsers browser_failure select_where
    includes find_where
cancelled_fails = refl

warned : Meets rules (evidence (some warning))
unfolding find_where includes
warned = record {
  health = omega arith;
  critical = omega arith;
  high = tt;
  tests = ((refl, refl), ((refl, refl), tt));
  browsers =
      ((run_of 0 (some passed), refl, inl refl), ((run_of 1 (some warning), refl, inr refl), tt));
  regressions = tt;
}

evaluate_policy_lem_example :
    ((evaluate_policy rules (evidence (some warning))).result ≡ policy_pass) ↔ (
      ◌≡◌ {A = Bool} false false
      × (has_evidence rules (evidence (some warning)) ≡ true)
      × Meets rules (evidence (some warning)))
evaluate_policy_lem_example = evaluate_policy_lem rules (evidence (some warning))
