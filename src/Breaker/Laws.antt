-- ===== src/Breaker/Laws.antt =====
-- What the circuit breaker of lib/runtime/breaker.ts does over time.
use extension_lab.Common.{
  Bool-cases, List, Option, Option-cases, [], arith, false, if◌then◌else◌, inl, inr, is_some, leb,
  length, none, refl, some, ℕ, ◌+◌, ◌<◌, ◌==◌, ◌∷◌, ◌≡◌, ◌≢◌, ◌≤◌,
}
use extension_lab.Breaker.Model.{
  BreakerConfig, BreakerInternals, Breakers, breaker_allows, breaker_config, decide_start,
  failure_entry, fresh, internals, no_breakers, opened, prune, put, recent, record_breaker_failure,
  record_breaker_success, success_entry,
}
use extension_lab.Sql.Defs.{insert_row, select_where}

pub data BreakerOp : Type 0 where
  ask : ℕ → BreakerOp
  success : ℕ → BreakerOp
  failure : ℕ → BreakerOp

unfoldable pub apply_breaker : BreakerConfig → ℕ → BreakerOp → Breakers → Breakers
apply_breaker config now (ask key) m = (breaker_allows config key now m).0
apply_breaker config now (success key) m = record_breaker_success config key now m
apply_breaker config now (failure key) m = record_breaker_failure config key now m

unfoldable pub run_breaker : BreakerConfig → List (ℕ × BreakerOp) → Breakers → Breakers
run_breaker config [] m = m
run_breaker config ((now, o) ∷ os) m = run_breaker config os (apply_breaker config now o m)

-- A breaker is in order: while it is closed its failures are below the threshold, and while it is
-- open the successes it counted are too few to close it.
pub record IsCalm (config : BreakerConfig) (e : BreakerInternals) : Type 0 where
  pub below_threshold : e.opened_at ≡ none → length e.failures < config.failure_threshold
  pub few_probes : e.probe_successes < config.recovery_probes

length-recent : (now w : ℕ) (xs : List ℕ) → length (recent now w xs) ≤ length xs
unfolding recent select_where
length-recent now w [] = omega arith
length-recent now w (x ∷ xs) = ground (arith, length-recent now w xs)

length-push : (x : ℕ) (xs : List ℕ) → length (insert_row x xs) ≡ length xs + 1
unfolding insert_row
length-push x [] = refl
length-push x (y ∷ ys) = omega (arith, length-push x ys)

abbrev pub IsConfig : BreakerConfig → Type 0
IsConfig config = (1 ≤ config.failure_threshold) × (1 ≤ config.recovery_probes)

-- The configuration that is read from the environment, whatever its values are, opens a breaker
-- only after a failure and closes it only after a success, and its window and cooldown last at least
-- ten seconds.
pub breaker_config_bounds :
    (threshold window cooldown probes : Option ℕ)
    → IsConfig (breaker_config threshold window cooldown probes)
      × (10000 ≤ (breaker_config threshold window cooldown probes).window_ms)
      × (10000 ≤ (breaker_config threshold window cooldown probes).cooldown_ms)
unfolding breaker_config
breaker_config_bounds threshold window cooldown probes =
    ((omega arith, omega arith), omega arith, omega arith)

module _ (config : BreakerConfig) (ok : IsConfig config) where
  fresh-IsCalm : IsCalm config fresh
  fresh-IsCalm = record { below_threshold = λ e. omega (arith, ok.0); few_probes = ok.1 }

  prune-IsCalm :
      (now : ℕ) (e : BreakerInternals)
      → IsCalm config e
      → IsCalm config (prune now config.window_ms e)
  prune-IsCalm now e k = record {
    below_threshold =
        λ h. omega (arith, k.below_threshold h, length-recent now config.window_ms e.failures);
    few_probes = k.few_probes;
  }

  success-IsCalm : (e : BreakerInternals) → IsCalm config e → IsCalm config (success_entry config e)
  unfolding success_entry
  success-IsCalm e k = elim (Option-cases e.opened_at) [
    | inl shut ↦
        rw (shut, success_entry)
          record { below_threshold = λ h. omega (arith, ok.0); few_probes = k.few_probes }
    | inr (at, h) ↦ elim (Bool-cases (leb config.recovery_probes (e.probe_successes + 1))) [
      | inl enough ↦ rw (h, success_entry, enough) fresh-IsCalm
      | inr few ↦
          rw (h, success_entry, few)
            record { below_threshold = λ n. k.below_threshold (n); few_probes = ground arith }
    ]
  ]

  failure-IsCalm :
      (now : ℕ) (e : BreakerInternals)
      → IsCalm config e
      → IsCalm config (failure_entry config now e)
  unfolding failure_entry
  failure-IsCalm now e k = elim (Bool-cases (is_some e.opened_at)) [
    | inl h ↦
        rw (h, failure_entry)
          record { below_threshold = λ n. absurd (ground arith); few_probes = ok.1 }
    | inr h ↦
        elim (Bool-cases (leb config.failure_threshold (length (insert_row now e.failures)))) [
          | inl many ↦
              rw (h, failure_entry, many)
                record { below_threshold = λ n. absurd (ground arith); few_probes = ok.1 }
          | inr few ↦
              rw (h, failure_entry, few)
                record { below_threshold = λ n. ground arith; few_probes = k.few_probes }
        ]
  ]

  -- At every key the breaker is in order.
  abbrev pub AllCalm : Breakers → Type 0
  AllCalm m = (key : ℕ) → IsCalm config (internals key m)

  put-AllCalm :
      (key : ℕ) (e : BreakerInternals) (m : Breakers)
      → IsCalm config e
      → AllCalm m
      → AllCalm (put key e m)
  put-AllCalm key e m k all j = elim (Bool-cases (j == key)) [
    | inl h ↦ rw h k
    | inr h ↦ rw h (all j)
  ]

  apply_breaker-AllCalm :
      (now : ℕ) (o : BreakerOp) (m : Breakers) → AllCalm m → AllCalm (apply_breaker config now o m)
  unfolding apply_breaker breaker_allows record_breaker_success record_breaker_failure
  apply_breaker-AllCalm now (ask key) m all =
      let e = internals key m in
      put-AllCalm key (prune now config.window_ms e) m (prune-IsCalm now e (all key)) all
  apply_breaker-AllCalm now (success key) m all =
      let e = prune now config.window_ms (internals key m) in
      put-AllCalm key (success_entry config e) m
        (success-IsCalm e (prune-IsCalm now (internals key m) (all key))) all
  apply_breaker-AllCalm now (failure key) m all =
      let e = prune now config.window_ms (internals key m) in
      put-AllCalm key (failure_entry config now e) m
        (failure-IsCalm now e (prune-IsCalm now (internals key m) (all key))) all

  run_breaker-AllCalm :
      (os : List (ℕ × BreakerOp)) (m : Breakers) → AllCalm m → AllCalm (run_breaker config os m)
  unfolding run_breaker
  run_breaker-AllCalm [] m all = all
  run_breaker-AllCalm ((now, o) ∷ os) m all =
      run_breaker-AllCalm os (apply_breaker config now o m) (apply_breaker-AllCalm now o m all)

  -- After any run of start decisions, successes and failures, at any times, the breaker of every
  -- key is in order: as long as it is closed its failures are below the threshold, and the successes
  -- that it counts are below the number that closes it.
  pub run_breaker-IsCalm :
      (os : List (ℕ × BreakerOp)) (key : ℕ)
      → IsCalm config (internals key (run_breaker config os no_breakers))
  run_breaker-IsCalm os = run_breaker-AllCalm os no_breakers (λ k. fresh-IsCalm)

-- A refused start is told exactly how long to wait: the breaker is open, the time is not zero, a
-- start is refused at every earlier moment after the question and allowed once the time has passed,
-- as long as no other outcome was recorded.
breaker_allows_wait :
    (config : BreakerConfig) (key now later : ℕ) (m : Breakers)
    → (breaker_allows config key now m).1.allowed ≡ false
    → now ≤ later
    → let first = breaker_allows config key now m in
      (first.1.state ≡ opened)
      × (0 < first.1.retry_after_ms)
      × ((breaker_allows config key later first.0).1.allowed
          ≡ leb (now + first.1.retry_after_ms) later)
unfolding breaker_allows decide_start
breaker_allows_wait config key now later m refused le =
    elim (Option-cases (internals key m).opened_at) [
      | inl shut ↦ absurd (ground arith)
      | inr (at, h) ↦ (ground arith, ground arith, ground arith)
    ]

-- A recorded failure opens a closed breaker exactly when it is the failure in the window that
-- reaches the threshold.
pub record_breaker_failure_opens :
    (config : BreakerConfig) (key now : ℕ) (m : Breakers)
    → (internals key m).opened_at ≡ none
    → (internals key (record_breaker_failure config key now m)).opened_at ≡ (
        if leb config.failure_threshold
          (length (recent now config.window_ms (internals key m).failures) + 1)
        then some now
        else none)
unfolding record_breaker_failure failure_entry
record_breaker_failure_opens config key now m shut =
    ground (arith, length-push now (recent now config.window_ms (internals key m).failures))

-- An open breaker whose start fails blocks every start again for a whole cooldown, whatever time had
-- passed, and is back in recovery afterwards.
pub record_breaker_failure_blocks :
    (config : BreakerConfig) (key now later : ℕ) (m : Breakers) (at : ℕ)
    → (internals key m).opened_at ≡ some at
    → (breaker_allows config key later (record_breaker_failure config key now m)).1.allowed
      ≡ leb (now + config.cooldown_ms) later
unfolding breaker_allows decide_start record_breaker_failure failure_entry
record_breaker_failure_blocks config key now later m at h = ground arith

-- No outcome of one key changes the breaker of another.
pub apply_breaker_apart :
    (config : BreakerConfig) (key other now : ℕ) (m : Breakers)
    → other ≢ key
    → ((breaker_allows config key now m).0 other ≡ m other)
      × (record_breaker_success config key now m other ≡ m other)
      × (record_breaker_failure config key now m other ≡ m other)
unfolding breaker_allows record_breaker_success record_breaker_failure
apply_breaker_apart config key other now m apart = (ground arith, ground arith, ground arith)
