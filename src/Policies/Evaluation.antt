-- ===== src/Policies/Evaluation.antt =====
-- evaluatePolicy of lib/policies/service.ts. The label and the detail of a check, which are text, are
-- left out.
use mathlib.Core.Option
use extension_lab.Common.{
  Bool, List, Option, [], false, if◌then◌else◌, includes, is_some, leb, length, none, not, some,
  true, ℕ, ◌&&◌, ◌++◌, ◌==◌, ◌||◌, ◌∷◌,
}
use extension_lab.Policies.Rules.{PolicyRules}
use extension_lab.Sql.Defs.{find_where, select_where}

pub data RunOutcome : Type 0 where
  passed failed warning skipped timeout infrastructure_error cancelled : RunOutcome

pub record AnalysisEvidence : Type 0 where
  pub health_score : Option ℕ
  pub critical_findings : ℕ
  pub high_findings : ℕ

pub record TestRunEvidence : Type 0 where
  pub failed_test_ids : List ℕ
  pub executed_test_ids : List ℕ

pub record Execution : Type 0 where
  pub browser_id : ℕ
  pub outcome : Option RunOutcome

pub record PolicyEvidence : Type 0 where
  pub analysis : Option AnalysisEvidence
  pub test_run : Option TestRunEvidence
  pub browser_matrix : Option (List Execution)
  pub regression : Option ℕ
  pub infrastructure_failed : Bool

pub data CheckId : Type 0 where
  min_health_check max_critical_check max_high_check : CheckId
  required_tests_check required_browsers_check regressions_check infrastructure_check : CheckId

pub data CheckStatus : Type 0 where
  check_pass check_fail not_evaluated : CheckStatus

pub record PolicyCheck : Type 0 where
  pub id : CheckId
  pub pass : Bool
  pub status : CheckStatus

pub data PolicyResult : Type 0 where
  policy_pass policy_fail policy_not_evaluated : PolicyResult

pub record PolicyEvaluation : Type 0 where
  pub result : PolicyResult
  pub checks : List PolicyCheck

abbrev pub verdict : Bool → CheckStatus
verdict true = check_pass
verdict false = check_fail

abbrev pub judged : CheckId → Bool → List PolicyCheck
judged id ok = record { id = id; pass = ok; status = verdict ok } ∷ []

abbrev pub unjudged : CheckId → List PolicyCheck
unjudged id = record { id = id; pass = false; status = not_evaluated } ∷ []

-- A rule on a number of the analysis, with the comparison that it makes.
unfoldable pub number_check : CheckId → (ℕ → ℕ → Bool) → Option ℕ → Option ℕ → List PolicyCheck
number_check id ok none value = []
number_check id ok (some rule) none = unjudged id
number_check id ok (some rule) (some value) = judged id (ok rule value)

-- minHealthScore: score >= rule; the other two: count <= rule
abbrev pub at_least : ℕ → ℕ → Bool
at_least rule value = leb rule value

abbrev pub at_most : ℕ → ℕ → Bool
at_most rule value = leb value rule

unfoldable pub missing_tests : TestRunEvidence → List ℕ → List ℕ
missing_tests run ids = select_where (λ i. not (includes run.executed_test_ids i)) ids

unfoldable pub failing_tests : TestRunEvidence → List ℕ → List ℕ
failing_tests run ids =
    select_where (λ i. includes run.executed_test_ids i && includes run.failed_test_ids i) ids

abbrev pub nothing_in : List ℕ → Bool
nothing_in xs = length xs == 0

unfoldable pub test_check : Option (List ℕ) → Option TestRunEvidence → List PolicyCheck
test_check none run = []
test_check (some []) run = []
test_check (some (i ∷ ids)) none = unjudged required_tests_check
test_check (some (i ∷ ids)) (some run) =
    judged required_tests_check
      (nothing_in (missing_tests run (i ∷ ids)) && nothing_in (failing_tests run (i ∷ ids)))

-- The entry of `failures` for what was found of a browser, if any.
pub data BrowserFailure : Type 0 where
  not_executed infrastructure_unavailable : BrowserFailure
  ended : Option RunOutcome → BrowserFailure

abbrev pub outcome_failure : Option RunOutcome → Option BrowserFailure
outcome_failure (some infrastructure_error) = some infrastructure_unavailable
outcome_failure (some cancelled) = some infrastructure_unavailable
outcome_failure (some passed) = none
outcome_failure (some warning) = none
outcome_failure outcome = some (ended outcome)

unfoldable pub browser_failure : Option Execution → Option BrowserFailure
browser_failure none = some not_executed
browser_failure (some e) = outcome_failure e.outcome

abbrev pub execution_of : List Execution → ℕ → Option Execution
execution_of es b = find_where (λ e. e.browser_id == b) es

unfoldable pub failing_browsers : List Execution → List ℕ → List ℕ
failing_browsers es bs = select_where (λ b. is_some (browser_failure (execution_of es b))) bs

unfoldable pub browser_check : Option (List ℕ) → Option (List Execution) → List PolicyCheck
browser_check none matrix = []
browser_check (some []) matrix = []
browser_check (some (b ∷ bs)) none = unjudged required_browsers_check
browser_check (some (b ∷ bs)) (some es) =
    judged required_browsers_check (nothing_in (failing_browsers es (b ∷ bs)))

unfoldable pub regression_check : Option Bool → Option ℕ → List PolicyCheck
regression_check (some false) none = unjudged regressions_check
regression_check (some false) (some count) = judged regressions_check (count == 0)
regression_check _ regression = []

abbrev pub health_of : PolicyEvidence → Option ℕ
health_of e = elim e.analysis [ none ↦ none | some a ↦ a.health_score ]

abbrev pub critical_of : PolicyEvidence → Option ℕ
critical_of e = Option.map (λ (a : AnalysisEvidence). a.critical_findings) e.analysis

abbrev pub high_of : PolicyEvidence → Option ℕ
high_of e = Option.map (λ (a : AnalysisEvidence). a.high_findings) e.analysis

-- The checks, in the order in which they are pushed.
unfoldable pub checks_of : PolicyRules → PolicyEvidence → List PolicyCheck
checks_of rules e =
    number_check min_health_check at_least rules.min_health_score (health_of e)
    ++ (number_check max_critical_check at_most rules.max_critical_findings (critical_of e)
        ++ (number_check max_high_check at_most rules.max_high_findings (high_of e)
            ++ (test_check rules.required_test_ids e.test_run
                ++ (browser_check rules.required_browsers e.browser_matrix
                    ++ regression_check rules.allow_regressions e.regression))))

abbrev pub is_fail : PolicyCheck → Bool
is_fail c = elim c.status [ check_fail ↦ true | _ ↦ false ]

abbrev pub is_evaluated : PolicyCheck → Bool
is_evaluated c = elim c.status [ not_evaluated ↦ false | _ ↦ true ]

unfoldable pub any_check : (PolicyCheck → Bool) → List PolicyCheck → Bool
any_check p [] = false
any_check p (c ∷ cs) = p c || any_check p cs

unfoldable pub result_of : List PolicyCheck → PolicyResult
result_of cs =
    if any_check is_fail cs
    then policy_fail
    else if any_check is_evaluated cs
    then policy_pass
    else policy_not_evaluated

unfoldable pub evaluate_policy : PolicyRules → PolicyEvidence → PolicyEvaluation
evaluate_policy rules e =
    let cs = checks_of rules e in
    if length cs == 0
    then record { result = policy_not_evaluated; checks = [] }
    else if e.infrastructure_failed
    then record { result = policy_fail; checks = cs ++ judged infrastructure_check false }
    else record { result = result_of cs; checks = cs }
