-- ===== src/Policies/Verdicts.antt =====
-- What a check of lib/policies/service.ts asks of its evidence.
use mathlib.Core.Path.{subst}
use extension_lab.Common.{
  All, Bool, Bool-cases, List, Option, Option-cases, [], arith, false, includes, inl, inr, is_some,
  none, not, refl, some, true, ℕ, ◌&&◌, ◌++◌, ◌||◌, ◌↔◌, ◌∷◌, ◌≡◌, ◌≤◌, ◌⊎◌,
}
use extension_lab.Policies.Evaluation.{
  CheckId, Execution, PolicyCheck, PolicyEvidence, RunOutcome, TestRunEvidence, any_check, at_least,
  at_most, browser_check, browser_failure, critical_of, execution_of, failing_browsers,
  failing_tests, health_of, high_of, is_fail, missing_tests, nothing_in, number_check,
  outcome_failure, passed, regression_check, test_check, warning,
}
use extension_lab.Policies.Rules.{PolicyRules}
use extension_lab.Sql.Defs.{select_where}

-- What a rule asks of the evidence for it; nothing where there is no rule or no evidence.
abbrev pub MeetsLeast : Option ℕ → Option ℕ → Type 0
MeetsLeast (some rule) (some value) = rule ≤ value
MeetsLeast _ _ = Unit {0}

abbrev pub MeetsMost : Option ℕ → Option ℕ → Type 0
MeetsMost (some rule) (some value) = value ≤ rule
MeetsMost _ _ = Unit {0}

abbrev pub RanWell : TestRunEvidence → ℕ → Type 0
RanWell run i = (includes run.executed_test_ids i ≡ true) × (includes run.failed_test_ids i ≡ false)

abbrev pub TestsRanWell : Option (List ℕ) → Option TestRunEvidence → Type 0
TestsRanWell (some ids) (some run) = All (RanWell run) ids
TestsRanWell _ _ = Unit {0}

abbrev pub EndedWell : List Execution → ℕ → Type 0
EndedWell es b =
    (e : Execution) × (execution_of es b ≡ some e)
    × ((e.outcome ≡ some passed) ⊎ (e.outcome ≡ some warning))

abbrev pub BrowsersEndedWell : Option (List ℕ) → Option (List Execution) → Type 0
BrowsersEndedWell (some bs) (some es) = All (EndedWell es) bs
BrowsersEndedWell _ _ = Unit {0}

abbrev pub NoRegressions : Option Bool → Option ℕ → Type 0
NoRegressions (some false) (some count) = count ≡ 0
NoRegressions _ _ = Unit {0}

pub record Meets (rules : PolicyRules) (e : PolicyEvidence) : Type 0 where
  pub health : MeetsLeast rules.min_health_score (health_of e)
  pub critical : MeetsMost rules.max_critical_findings (critical_of e)
  pub high : MeetsMost rules.max_high_findings (high_of e)
  pub tests : TestsRanWell rules.required_test_ids e.test_run
  pub browsers : BrowsersEndedWell rules.required_browsers e.browser_matrix
  pub regressions : NoRegressions rules.allow_regressions e.regression

-- Whether some rule has its evidence.
abbrev pub both {ℓ κ} : {A : Type ℓ} {B : Type κ} → Option A → Option B → Bool
both (some x) (some y) = true
both _ _ = false

abbrev pub asks : Option (List ℕ) → Option (List ℕ)
asks (some (x ∷ xs)) = some (x ∷ xs)
asks _ = none

abbrev pub forbids : Option Bool → Option Bool
forbids (some false) = some false
forbids _ = none

abbrev pub has_evidence : PolicyRules → PolicyEvidence → Bool
has_evidence rules e =
    both rules.min_health_score (health_of e)
    || (both rules.max_critical_findings (critical_of e)
        || (both rules.max_high_findings (high_of e)
            || (both (asks rules.required_test_ids) e.test_run
                || (both (asks rules.required_browsers) e.browser_matrix
                    || both (forbids rules.allow_regressions) e.regression))))

pub any_check-append :
    (p : PolicyCheck → Bool) (xs ys : List PolicyCheck)
    → any_check p (xs ++ ys) ≡ (any_check p xs || any_check p ys)
unfolding any_check
any_check-append p [] ys = refl
any_check-append p (x ∷ xs) ys = ground (arith, any_check-append p xs ys)

-- A check fails exactly if its rule is not met by its evidence.
pub least-Meets :
    (id : CheckId) (r v : Option ℕ)
    → (any_check is_fail (number_check id at_least r v) ≡ false) ↔ MeetsLeast r v
unfolding number_check any_check
least-Meets id none v = (λ h. tt, λ m. refl)
least-Meets id (some r) none = (λ h. tt, λ m. refl)
least-Meets id (some r) (some v) = (λ h. ground arith, λ m. ground arith)

pub most-Meets :
    (id : CheckId) (r v : Option ℕ)
    → (any_check is_fail (number_check id at_most r v) ≡ false) ↔ MeetsMost r v
unfolding number_check any_check
most-Meets id none v = (λ h. tt, λ m. refl)
most-Meets id (some r) none = (λ h. tt, λ m. refl)
most-Meets id (some r) (some v) = (λ h. ground arith, λ m. ground arith)

nothing_selected :
    (p : ℕ → Bool) (xs : List ℕ)
    → (nothing_in (select_where p xs) ≡ true) ↔ All (λ x. p x ≡ false) xs
unfolding select_where
nothing_selected p [] = (λ h. tt, λ m. refl)
nothing_selected p (x ∷ xs) =
    let (to, from) = nothing_selected p xs in
    elim (Bool-cases (p x)) [
      | inl e ↦ (λ h. absurd (ground arith), λ m. cc (e, m.0))
      | inr e ↦ (λ h. (e, to (ground arith)), λ m. ground (arith, e, from m.1))
    ]

All-zip {ℓ} :
    {A : Type ℓ} (P Q R : A → Type 0)
    → ((x : A) → P x → Q x → R x)
    → (xs : List A) → All P xs
    → All Q xs
    → All R xs
All-zip P Q R f [] p q = tt
All-zip P Q R f (x ∷ xs) p q = (f x p.0 q.0, All-zip P Q R f xs p.1 q.1)

All-map {ℓ} :
    {A : Type ℓ} (P Q : A → Type 0) → ((x : A) → P x → Q x) → (xs : List A) → All P xs → All Q xs
All-map P Q f [] p = tt
All-map P Q f (x ∷ xs) p = (f x p.0, All-map P Q f xs p.1)

abbrev is_missing : TestRunEvidence → ℕ → Bool
is_missing run i = not (includes run.executed_test_ids i)

abbrev is_failing : TestRunEvidence → ℕ → Bool
is_failing run i = includes run.executed_test_ids i && includes run.failed_test_ids i

pub tests-Meets :
    (ids : Option (List ℕ)) (run : Option TestRunEvidence)
    → (any_check is_fail (test_check ids run) ≡ false) ↔ TestsRanWell ids run
unfolding test_check any_check missing_tests failing_tests
tests-Meets none run = (λ h. tt, λ m. refl)
tests-Meets (some []) none = (λ h. tt, λ m. refl)
tests-Meets (some []) (some run) = (λ h. tt, λ m. refl)
tests-Meets (some (i ∷ ids)) none = (λ h. tt, λ m. refl)
tests-Meets (some (i ∷ ids)) (some run) = (
  λ h.
      All-zip (λ x. is_missing run x ≡ false) (λ x. is_failing run x ≡ false) (RanWell run)
        (λ x p q. ground arith) (i ∷ ids)
        ((nothing_selected (is_missing run) (i ∷ ids)).0 (ground arith))
        ((nothing_selected (is_failing run) (i ∷ ids)).0 (ground arith)),
  λ m. ground (
    arith,
    (nothing_selected (is_missing run) (i ∷ ids)).1
        (All-map (RanWell run) (λ x. is_missing run x ≡ false) (λ x p. ground arith) (i ∷ ids) m),
    (nothing_selected (is_failing run) (i ∷ ids)).1
        (All-map (RanWell run) (λ x. is_failing run x ≡ false) (λ x p. ground arith) (i ∷ ids) m),
  ),
)

outcome_well :
    (o : Option RunOutcome)
    → is_some (outcome_failure o) ≡ false
    → (o ≡ some passed) ⊎ (o ≡ some warning)
outcome_well (some passed) h = inl refl
outcome_well (some warning) h = inr refl
outcome_well _ h = absurd (ground arith)

abbrev is_unwell : List Execution → ℕ → Bool
is_unwell es b = is_some (browser_failure (execution_of es b))

ended_well : (es : List Execution) (b : ℕ) → is_unwell es b ≡ false → EndedWell es b
unfolding browser_failure
ended_well es b h = elim (Option-cases (execution_of es b)) [
  | inl e ↦ absurd (ground arith)
  | inr (x, e) ↦
      (x, e, outcome_well x.outcome (subst (λ o. is_some (browser_failure o) ≡ false) e h))
]

well_ended : (es : List Execution) (b : ℕ) → EndedWell es b → is_unwell es b ≡ false
unfolding browser_failure
well_ended es b (x, e, o) = elim o [
  | inl p ↦ rw (e, browser_failure, p) refl
  | inr w ↦ rw (e, browser_failure, w) refl
]

pub browsers-Meets :
    (bs : Option (List ℕ)) (es : Option (List Execution))
    → (any_check is_fail (browser_check bs es) ≡ false) ↔ BrowsersEndedWell bs es
unfolding browser_check any_check failing_browsers
browsers-Meets none es = (λ h. tt, λ m. refl)
browsers-Meets (some []) none = (λ h. tt, λ m. refl)
browsers-Meets (some []) (some es) = (λ h. tt, λ m. refl)
browsers-Meets (some (b ∷ bs)) none = (λ h. tt, λ m. refl)
browsers-Meets (some (b ∷ bs)) (some es) = (
  λ h.
      All-map (λ x. is_unwell es x ≡ false) (EndedWell es) (ended_well es) (b ∷ bs)
        ((nothing_selected (is_unwell es) (b ∷ bs)).0 (ground arith)),
  λ m. ground (
    arith,
    (nothing_selected (is_unwell es) (b ∷ bs)).1
        (All-map (EndedWell es) (λ x. is_unwell es x ≡ false) (well_ended es) (b ∷ bs) m),
  ),
)

pub regressions-Meets :
    (allow : Option Bool) (count : Option ℕ)
    → (any_check is_fail (regression_check allow count) ≡ false) ↔ NoRegressions allow count
unfolding regression_check any_check
regressions-Meets none count = (λ h. tt, λ m. refl)
regressions-Meets (some true) count = (λ h. tt, λ m. refl)
regressions-Meets (some false) none = (λ h. tt, λ m. refl)
regressions-Meets (some false) (some n) = (λ h. ground arith, λ m. ground arith)
