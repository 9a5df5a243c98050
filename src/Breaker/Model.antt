-- ===== src/Breaker/Model.antt =====
-- The circuit breaker of browser starts (lib/runtime/breaker.ts). A key of the Map is a number, and
-- `Number(process.env[name])` is a natural number or not one that counts.
use extension_lab.Common.{
  Bool, List, Option, [], coalesce, false, if◌then◌else◌, is_some, leb, length, ltb, max, none,
  some, true, ℕ, ◌+◌, ◌-◌, ◌==◌, ◌∷◌,
}
use extension_lab.Sql.Defs.{insert_row, select_where}

pub data BreakerState : Type 0 where
  healthy degraded opened recovery : BreakerState

pub record BreakerDecision : Type 0 where
  pub allowed : Bool
  pub state : BreakerState
  pub retry_after_ms : ℕ

pub record BreakerInternals : Type 0 where
  pub failures : List ℕ
  pub opened_at : Option ℕ
  pub probe_successes : ℕ

pub record BreakerConfig : Type 0 where
  pub failure_threshold : ℕ
  pub window_ms : ℕ
  pub cooldown_ms : ℕ
  pub recovery_probes : ℕ

unfoldable pub number_from_env : Option ℕ → ℕ → ℕ
number_from_env value fallback = elim value [
  | none ↦ fallback
  | some n ↦ if ltb 0 n then n else fallback
]

-- The values of BREAKER_FAILURE_THRESHOLD, _WINDOW_MS, _COOLDOWN_MS and _RECOVERY_PROBES.
unfoldable pub breaker_config : Option ℕ → Option ℕ → Option ℕ → Option ℕ → BreakerConfig
breaker_config threshold window cooldown probes = record {
  failure_threshold = max 1 (number_from_env threshold 5);
  window_ms = max 10000 (number_from_env window 120000);
  cooldown_ms = max 10000 (number_from_env cooldown 60000);
  recovery_probes = max 1 (number_from_env probes 2);
}

-- The Map of the breakers, by key.
abbrev pub Breakers : Type 0
Breakers = ℕ → Option BreakerInternals

abbrev pub no_breakers : Breakers
no_breakers key = none

abbrev pub fresh : BreakerInternals
fresh = record { failures = []; opened_at = none; probe_successes = 0 }

abbrev pub internals : ℕ → Breakers → BreakerInternals
internals key m = coalesce (m key) fresh

abbrev pub put : ℕ → BreakerInternals → Breakers → Breakers
put key entry m = λ k. if k == key then some entry else m k

-- The failures with `now - at < windowMs`.
unfoldable pub recent : ℕ → ℕ → List ℕ → List ℕ
recent now window_ms ats = select_where (λ at. ltb now (at + window_ms)) ats

abbrev pub prune : ℕ → ℕ → BreakerInternals → BreakerInternals
prune now window_ms entry = record entry { failures = recent now window_ms entry.failures }

abbrev is_empty : List ℕ → Bool
is_empty [] = true
is_empty (x ∷ xs) = false

-- The decision on an entry that was pruned.
unfoldable pub decide_start : BreakerConfig → ℕ → BreakerInternals → BreakerDecision
decide_start config now entry = elim entry.opened_at [
  | none ↦ record {
    allowed = true;
    state = if is_empty entry.failures then healthy else degraded;
    retry_after_ms = 0;
  }
  | some at ↦
      if leb (at + config.cooldown_ms) now
      then record { allowed = true; state = recovery; retry_after_ms = 0 }
      else record {
        allowed = false;
        state = opened;
        retry_after_ms = at + config.cooldown_ms - now;
      }
]

unfoldable pub breaker_allows : BreakerConfig → ℕ → ℕ → Breakers → Breakers × BreakerDecision
breaker_allows config key now m =
    let entry = prune now config.window_ms (internals key m) in
    (put key entry m, decide_start config now entry)

unfoldable pub success_entry : BreakerConfig → BreakerInternals → BreakerInternals
success_entry config entry = elim entry.opened_at [
  | none ↦ record entry { failures = [] }
  | some at ↦
      if leb config.recovery_probes (entry.probe_successes + 1)
      then fresh
      else record entry { probe_successes = entry.probe_successes + 1 }
]

unfoldable pub record_breaker_success : BreakerConfig → ℕ → ℕ → Breakers → Breakers
record_breaker_success config key now m =
    put key (success_entry config (prune now config.window_ms (internals key m))) m

abbrev reopened : ℕ → List ℕ → BreakerInternals
reopened now ats = record { failures = ats; opened_at = some now; probe_successes = 0 }

-- The push of the failure, then the opening of the breaker or its reopening.
unfoldable pub failure_entry : BreakerConfig → ℕ → BreakerInternals → BreakerInternals
failure_entry config now entry =
    let pushed = insert_row now entry.failures in
    if is_some entry.opened_at
    then reopened now pushed
    else if leb config.failure_threshold (length pushed)
    then reopened now pushed
    else record entry { failures = pushed }

unfoldable pub record_breaker_failure : BreakerConfig → ℕ → ℕ → Breakers → Breakers
record_breaker_failure config key now m =
    put key (failure_entry config now (prune now config.window_ms (internals key m))) m

pub record BreakerSnapshot : Type 0 where
  pub key : ℕ
  pub state : BreakerState
  pub failures_in_window : ℕ
  pub last_failure_at : Option ℕ
  pub opened_at : Option ℕ
  pub probes_allowed : ℕ

abbrev pub last_of : List ℕ → Option ℕ
last_of [] = none
last_of (x ∷ []) = some x
last_of (x ∷ y ∷ ys) = last_of (y ∷ ys)

-- The entry is pruned and then asked for its decision, as breakerAllows does once more.
unfoldable pub breaker_snapshot : BreakerConfig → ℕ → ℕ → Breakers → Breakers × BreakerSnapshot
breaker_snapshot config key now m =
    let entry = prune now config.window_ms (internals key m) in
    let asked = breaker_allows config key now (put key entry m) in
    (
      asked.0,
      record {
        key = key;
        state = asked.1.state;
        failures_in_window = length (internals key asked.0).failures;
        last_failure_at = last_of (internals key asked.0).failures;
        opened_at = (internals key asked.0).opened_at;
        probes_allowed =
            if is_some (internals key asked.0).opened_at then config.recovery_probes else 0;
      },
    )
