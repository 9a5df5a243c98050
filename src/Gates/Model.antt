-- ===== src/Gates/Model.antt =====
-- evaluateGates of lib/ci/gates.ts. A reason is the message without its words.
use extension_lab.Common.{
  Bool, List, [], false, if◌then◌else◌, ltb, true, ℕ, ◌&&◌, ◌++◌, ◌==◌, ◌||◌, ◌∷◌,
}

pub data GatePolicy : Type 0 where
  fail_on_test_failure fail_on_regression : GatePolicy
  fail_on_performance_regression fail_on_browser_incompatibility : GatePolicy

abbrev pub policy_index : GatePolicy → ℕ
policy_index fail_on_test_failure = 0
policy_index fail_on_regression = 1
policy_index fail_on_performance_regression = 2
policy_index fail_on_browser_incompatibility = 3

unfoldable pub includes_policy : List GatePolicy → GatePolicy → Bool
includes_policy [] p = false
includes_policy (q ∷ qs) p = policy_index q == policy_index p || includes_policy qs p

abbrev pub default_policies : List GatePolicy
default_policies = fail_on_test_failure ∷ fail_on_regression ∷ []

-- An optional flag that is absent counts as false.
pub record GateInput : Type 0 where
  pub passed : ℕ
  pub failed : ℕ
  pub warnings : ℕ
  pub skipped : ℕ
  pub regression_detected : Bool
  pub performance_regression : Bool
  pub browser_incompatibility : Bool
  pub policies : List GatePolicy

pub data GateStatus : Type 0 where
  pass fail_gate warn : GateStatus

pub data Reason : Type 0 where
  new_failures : ℕ → Reason
  regression performance browser no_failures : Reason
  passed_count failed_count : ℕ → Reason

pub record GateResult : Type 0 where
  pub status : GateStatus
  pub reasons : List Reason

-- One `if` of the function: the reason is pushed when its test holds.
abbrev pub push_if : Bool → Reason → List Reason → List Reason
push_if true r rs = rs ++ r ∷ []
push_if false r rs = rs

abbrev test_failure : GateInput → Bool
test_failure i = includes_policy i.policies fail_on_test_failure && ltb 0 i.failed

abbrev regressed : GateInput → Bool
regressed i = includes_policy i.policies fail_on_regression && i.regression_detected

abbrev slowed : GateInput → Bool
slowed i = includes_policy i.policies fail_on_performance_regression && i.performance_regression

abbrev incompatible : GateInput → Bool
incompatible i =
    includes_policy i.policies fail_on_browser_incompatibility && i.browser_incompatibility

abbrev or_else : List Reason → List Reason → List Reason
or_else [] rs = rs
or_else (x ∷ xs) rs = x ∷ xs

unfoldable pub gate_reasons : GateInput → List Reason
gate_reasons i = push_if (incompatible i) browser (
    push_if (slowed i) performance
      (push_if (regressed i) regression (push_if (test_failure i) (new_failures i.failed) [])))

-- `warn` is never set.
unfoldable pub evaluate_gates : GateInput → GateResult
evaluate_gates i =
    if test_failure i || regressed i || slowed i || incompatible i
    then record { status = fail_gate; reasons = gate_reasons i }
    else if i.failed == 0 && i.passed == 0
    then record { status = pass; reasons = or_else (gate_reasons i) (no_failures ∷ []) }
    else record {
      status = pass;
      reasons = or_else (gate_reasons i) (passed_count i.passed ∷ failed_count i.failed ∷ []);
    }
