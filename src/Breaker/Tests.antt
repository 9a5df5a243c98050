-- ===== src/Breaker/Tests.antt =====
-- The theorems on the circuit breaker at concrete inputs.
use extension_lab.Common.{List, [], arith, false, none, refl, some, ℕ, ◌∷◌, ◌≡◌}
use extension_lab.Breaker.Laws.{
  BreakerOp, IsCalm, IsConfig, apply_breaker, ask, failure, run_breaker, run_breaker-IsCalm,
  success,
}
use extension_lab.Breaker.Model.{
  BreakerConfig, Breakers, breaker_allows, decide_start, failure_entry, internals, no_breakers, put,
  recent, record_breaker_failure, record_breaker_success, success_entry,
}
use extension_lab.Sql.Defs.{insert_row, select_where}

abbrev config : BreakerConfig
config = record { failure_threshold = 2; window_ms = 100; cooldown_ms = 50; recovery_probes = 2 }

config-IsConfig : IsConfig config
config-IsConfig = (omega arith, omega arith)

abbrev storm : List (ℕ × BreakerOp)
storm = (10, failure 1) ∷ (20, failure 1) ∷ (80, success 1) ∷ (81, ask 1) ∷ []

-- The breaker of key 1 after the storm: open since 20, with one success counted.
after_storm :
    internals 1 (run_breaker config storm no_breakers)
    ≡ record { failures = 10 ∷ 20 ∷ []; opened_at = some 20; probe_successes = 1 }
unfolding run_breaker apply_breaker breaker_allows record_breaker_success record_breaker_failure
    success_entry failure_entry recent select_where insert_row
after_storm = refl

run_breaker-IsCalm_example : IsCalm config (internals 1 (run_breaker config storm no_breakers))
run_breaker-IsCalm_example = run_breaker-IsCalm config config-IsConfig storm 1

abbrev tripped : Breakers
tripped =
    put 1 (record { failures = 10 ∷ 20 ∷ []; opened_at = some 20; probe_successes = 0 }) no_breakers

refused : (breaker_allows config 1 30 tripped).1.allowed ≡ false
unfolding breaker_allows decide_start
refused = refl

abbrev warned : Breakers
warned = put 1 (record { failures = 10 ∷ []; opened_at = none; probe_successes = 0 }) no_breakers
