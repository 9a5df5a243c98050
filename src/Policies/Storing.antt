-- ===== src/Policies/Storing.antt =====
-- updateOrganizationPolicy stores the rules as JSON and getOrganizationPolicyRules reads them back
-- (lib/policies/service.ts).
use mathlib.Core.Option
use mathlib.Core.Path.{subst}
use extension_lab.Common.{
  All, Bool-cases, List, Option, [], ap, arith, inl, inr, length, negsuc, none, pos, refl, some,
  suc, take, true, zero, ℕ, ℤ, ◌<◌, ◌↔◌, ◌∙◌, ◌∷◌, ◌≡◌, ◌≤◌,
}
use extension_lab.Policies.Rules.{
  PolicyRules, RawRules, allowed, bounded, chosen_browsers, normalize_rules,
}
use extension_lab.Sql.Defs.{select_where}

-- The members of JSON.parse(JSON.stringify(rules)), as normalizeRules sees them.
abbrev pub stored : PolicyRules → RawRules
stored r = record {
  min_health_score = Option.map pos r.min_health_score;
  max_critical_findings = Option.map pos r.max_critical_findings;
  max_high_findings = Option.map pos r.max_high_findings;
  required_test_ids = r.required_test_ids;
  required_browsers = r.required_browsers;
  allow_regressions = r.allow_regressions;
}

-- What the rules may hold: numbers up to 100, up to 32 tests, up to 3 browsers, each of the three.
abbrev pub UpTo : ℕ → Option ℕ → Type 0
UpTo high none = Unit
UpTo high (some n) = n ≤ high

abbrev pub FewTests : Option (List ℕ) → Type 0
FewTests none = Unit
FewTests (some ids) = length ids ≤ 32

abbrev pub KnownBrowsers : Option (List ℕ) → Type 0
KnownBrowsers none = Unit
KnownBrowsers (some bs) = (length bs ≤ 3) × All (λ b. b < 3) bs

pub record IsNormal (r : PolicyRules) : Type 0 where
  pub health : UpTo 100 r.min_health_score
  pub critical : UpTo 100 r.max_critical_findings
  pub high : UpTo 100 r.max_high_findings
  pub tests : FewTests r.required_test_ids
  pub browsers : KnownBrowsers r.required_browsers

bounded-UpTo : (n : Option ℤ) → UpTo 100 (Option.map bounded n)
unfolding bounded
bounded-UpTo none = tt
bounded-UpTo (some (pos n)) = omega arith
bounded-UpTo (some (negsuc n)) = omega arith

bounded_keeps : (n : Option ℕ) → UpTo 100 n → Option.map bounded (Option.map pos n) ≡ n
unfolding bounded
bounded_keeps none h = refl
bounded_keeps (some n) h = ap some (omega arith)

take_short : (n : ℕ) (xs : List ℕ) → length (take n xs) ≤ n
take_short zero xs = omega arith
take_short (suc n) [] = omega arith
take_short (suc n) (x ∷ xs) = omega (arith, take_short n xs)

take_all : (n : ℕ) (xs : List ℕ) → length xs ≤ n → take n xs ≡ xs
take_all zero [] h = refl
take_all zero (x ∷ xs) h = absurd (omega arith)
take_all (suc n) [] h = refl
take_all (suc n) (x ∷ xs) h = ap (λ ys. x ∷ ys) (take_all n xs (omega arith))

take-All : (P : ℕ → Type 0) (n : ℕ) (xs : List ℕ) → All P xs → All P (take n xs)
take-All P zero xs h = tt
take-All P (suc n) [] h = tt
take-All P (suc n) (x ∷ xs) (h, hs) = (h, take-All P n xs hs)

select_where-All : (xs : List ℕ) → All (λ b. b < 3) (select_where allowed xs)
unfolding select_where
select_where-All [] = tt
select_where-All (x ∷ xs) = elim (Bool-cases (allowed x)) [
  | inl e ↦ rw e (ground arith, select_where-All xs)
  | inr e ↦ rw e (select_where-All xs)
]

select_where_keeps : (xs : List ℕ) → All (λ b. b < 3) xs → select_where allowed xs ≡ xs
unfolding select_where
select_where_keeps [] h = refl
select_where_keeps (x ∷ xs) (h, hs) =
    let known : allowed x ≡ true = ground arith in
    rw known (ap (λ ys. x ∷ ys) (select_where_keeps xs hs))

tests_few : (ids : Option (List ℕ)) → FewTests (Option.map (take 32) ids)
tests_few none = tt
tests_few (some ids) = take_short 32 ids

tests_keep : (ids : Option (List ℕ)) → FewTests ids → Option.map (take 32) ids ≡ ids
tests_keep none h = refl
tests_keep (some ids) h = ap some (take_all 32 ids h)

browsers_known : (bs : Option (List ℕ)) → KnownBrowsers (Option.map chosen_browsers bs)
unfolding chosen_browsers
browsers_known none = tt
browsers_known (some bs) = (
  take_short 3 (select_where allowed bs),
  take-All (λ b. b < 3) 3 (select_where allowed bs) (select_where-All bs),
)

browsers_keep : (bs : Option (List ℕ)) → KnownBrowsers bs → Option.map chosen_browsers bs ≡ bs
unfolding chosen_browsers
browsers_keep none h = refl
browsers_keep (some bs) (short, known) =
    ap some (ap (take 3) (select_where_keeps bs known) ∙ take_all 3 bs short)

normalize_rules-IsNormal : (raw : RawRules) → IsNormal (normalize_rules raw)
unfolding normalize_rules
normalize_rules-IsNormal raw = record {
  health = bounded-UpTo raw.min_health_score;
  critical = bounded-UpTo raw.max_critical_findings;
  high = bounded-UpTo raw.max_high_findings;
  tests = tests_few raw.required_test_ids;
  browsers = browsers_known raw.required_browsers;
}

normal_keeps : (r : PolicyRules) → IsNormal r → normalize_rules (stored r) ≡ r
unfolding normalize_rules
normal_keeps r n =
    rw
      (
        bounded_keeps r.min_health_score n.health,
        bounded_keeps r.max_critical_findings n.critical,
        bounded_keeps r.max_high_findings n.high,
        tests_keep r.required_test_ids n.tests,
        browsers_keep r.required_browsers n.browsers,
      )
      refl

-- Whatever came in, the rules that are stored hold numbers up to 100, at most 32 tests, and at most 3 browsers,
-- each of the three known ones; and rules are read back as they were stored exactly if they are of this
-- kind.
pub normalize_rules-stored :
    (raw : RawRules) (r : PolicyRules)
    → IsNormal (normalize_rules raw) × ((normalize_rules (stored r) ≡ r) ↔ IsNormal r)
normalize_rules-stored raw r = (
  normalize_rules-IsNormal raw,
  (λ same. subst IsNormal same (normalize_rules-IsNormal (stored r)), normal_keeps r),
)
