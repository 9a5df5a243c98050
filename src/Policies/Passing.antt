-- ===== src/Policies/Passing.antt =====
-- When the quality gates of lib/policies/service.ts pass.
use extension_lab.Common.{
  Bool, List, Option, [], arith, false, length, none, refl, some, true, ℕ, ◌++◌, ◌==◌, ◌↔◌, ◌∷◌,
  ◌≡◌,
}
use extension_lab.Policies.Evaluation.{
  CheckId, Execution, PolicyCheck, PolicyEvidence, TestRunEvidence, any_check, browser_check,
  checks_of, evaluate_policy, is_evaluated, is_fail, number_check, policy_pass, regression_check,
  result_of, test_check,
}
use extension_lab.Policies.Rules.{PolicyRules}
use extension_lab.Policies.Verdicts.{
  Meets, any_check-append, asks, both, browsers-Meets, forbids, has_evidence, least-Meets,
  most-Meets, regressions-Meets, tests-Meets,
}

number_evidence :
    (id : CheckId) (ok : ℕ → ℕ → Bool) (r v : Option ℕ)
    → any_check is_evaluated (number_check id ok r v) ≡ both r v
unfolding number_check any_check
number_evidence id ok none v = refl
number_evidence id ok (some r) none = refl
number_evidence id ok (some r) (some v) = ground arith

test_evidence :
    (ids : Option (List ℕ)) (run : Option TestRunEvidence)
    → any_check is_evaluated (test_check ids run) ≡ both (asks ids) run
unfolding test_check any_check
test_evidence none run = refl
test_evidence (some []) run = refl
test_evidence (some (i ∷ ids)) none = refl
test_evidence (some (i ∷ ids)) (some run) = ground arith

browser_evidence :
    (bs : Option (List ℕ)) (es : Option (List Execution))
    → any_check is_evaluated (browser_check bs es) ≡ both (asks bs) es
unfolding browser_check any_check
browser_evidence none es = refl
browser_evidence (some []) es = refl
browser_evidence (some (b ∷ bs)) none = refl
browser_evidence (some (b ∷ bs)) (some es) = ground arith

regression_evidence :
    (allow : Option Bool) (count : Option ℕ)
    → any_check is_evaluated (regression_check allow count) ≡ both (forbids allow) count
unfolding regression_check any_check
regression_evidence none count = refl
regression_evidence (some true) count = refl
regression_evidence (some false) none = refl
regression_evidence (some false) (some n) = ground arith

checks_of-evidence :
    (rules : PolicyRules) (e : PolicyEvidence)
    → any_check is_evaluated (checks_of rules e) ≡ has_evidence rules e
unfolding checks_of
checks_of-evidence rules e =
    simp (any_check-append, number_evidence, test_evidence, browser_evidence, regression_evidence)

-- The checks fail nowhere exactly if every part fails nowhere.
none_of :
    (p : PolicyCheck → Bool) (xs ys : List PolicyCheck)
    → (any_check p (xs ++ ys) ≡ false) ↔ ((any_check p xs ≡ false) × (any_check p ys ≡ false))
none_of p xs ys = (
  λ h. (ground (arith, any_check-append p xs ys), ground (arith, any_check-append p xs ys)),
  λ h. ground (arith, any_check-append p xs ys),
)

module _ (rules : PolicyRules) (e : PolicyEvidence) where
  fails_nowhere : any_check is_fail (checks_of rules e) ≡ false → Meets rules e
  unfolding checks_of
  fails_nowhere h =
      let (a, h1) = (none_of is_fail _ _).0 h in
      let (b, h2) = (none_of is_fail _ _).0 h1 in
      let (c, h3) = (none_of is_fail _ _).0 h2 in
      let (d, h4) = (none_of is_fail _ _).0 h3 in
      let (f, g) = (none_of is_fail _ _).0 h4 in
      record {
        health = (least-Meets _ _ _).0 a;
        critical = (most-Meets _ _ _).0 b;
        high = (most-Meets _ _ _).0 c;
        tests = (tests-Meets _ _).0 d;
        browsers = (browsers-Meets _ _).0 f;
        regressions = (regressions-Meets _ _).0 g;
      }

  meets_all : Meets rules e → any_check is_fail (checks_of rules e) ≡ false
  unfolding checks_of
  meets_all m = (none_of is_fail _ _).1 (
    (least-Meets _ _ _).1 m.health,
    (none_of is_fail _ _).1 (
      (most-Meets _ _ _).1 m.critical,
      (none_of is_fail _ _).1 (
        (most-Meets _ _ _).1 m.high,
        (none_of is_fail _ _).1 (
          (tests-Meets _ _).1 m.tests,
          (none_of is_fail _ _).1
              ((browsers-Meets _ _).1 m.browsers, (regressions-Meets _ _).1 m.regressions),
        ),
      ),
    ),
  )

empty_unevaluated :
    (p : PolicyCheck → Bool) (cs : List PolicyCheck)
    → (length cs == 0) ≡ true
    → any_check p cs ≡ false
unfolding any_check
empty_unevaluated p [] h = refl
empty_unevaluated p (c ∷ cs) h = absurd (ground arith)

-- The gates pass exactly if the infrastructure did not fail, some rule has its evidence, and each rule that
-- has it is met by it: the score is at least the minimum, the findings are at most the maxima, each required
-- test was executed and not failed, the first execution of each required browser passed, if with a
-- warning, and no regression was counted where they are forbidden.
pub evaluate_policy_lem :
    (rules : PolicyRules) (e : PolicyEvidence)
    → ((evaluate_policy rules e).result ≡ policy_pass)
      ↔ ((e.infrastructure_failed ≡ false) × (has_evidence rules e ≡ true) × Meets rules e)
unfolding evaluate_policy result_of
evaluate_policy_lem rules e = (
  λ h. (
    ground (arith, checks_of-evidence rules e),
    ground (arith, checks_of-evidence rules e),
    fails_nowhere rules e (ground arith),
  ),
  λ (up, some_rule, m). ground (
    arith,
    meets_all rules e m,
    checks_of-evidence rules e,
    empty_unevaluated is_evaluated (checks_of rules e),
  ),
)
