-- ===== src/Policies/Rules.antt =====
-- The rules of lib/policies/service.ts and normalizeRules. Identifiers of tests and browsers are compared
-- for equality alone, and are numbers.
use mathlib.Core.Option
use extension_lab.Common.{Bool, List, Option, ltb, min, negsuc, pos, take, ℕ, ℤ}
use extension_lab.Sql.Defs.{select_where}

pub record PolicyRules : Type 0 where
  pub min_health_score : Option ℕ
  pub max_critical_findings : Option ℕ
  pub max_high_findings : Option ℕ
  pub required_test_ids : Option (List ℕ)
  pub required_browsers : Option (List ℕ)
  pub allow_regressions : Option Bool

-- The members of the object that came in: an integer where Number() gives one, the items of an array
-- that are strings, a Boolean; `none` for anything else, as for what is missing.
pub record RawRules : Type 0 where
  pub min_health_score : Option ℤ
  pub max_critical_findings : Option ℤ
  pub max_high_findings : Option ℤ
  pub required_test_ids : Option (List ℕ)
  pub required_browsers : Option (List ℕ)
  pub allow_regressions : Option Bool

-- min(100, max(0, n)), as all the bounds of RULE_BOUNDS are
unfoldable pub bounded : ℤ → ℕ
bounded (pos n) = min 100 n
bounded (negsuc n) = 0

-- chromium, edge and firefox
abbrev pub allowed : ℕ → Bool
allowed b = ltb b 3

unfoldable pub chosen_browsers : List ℕ → List ℕ
chosen_browsers bs = take 3 (select_where allowed bs)

unfoldable pub normalize_rules : RawRules → PolicyRules
normalize_rules raw = record {
  min_health_score = Option.map bounded raw.min_health_score;
  max_critical_findings = Option.map bounded raw.max_critical_findings;
  max_high_findings = Option.map bounded raw.max_high_findings;
  required_test_ids = Option.map (take 32) raw.required_test_ids;
  required_browsers = Option.map chosen_browsers raw.required_browsers;
  allow_regressions = raw.allow_regressions;
}
