-- ===== src/Workers/Fleet.antt =====
-- Who claims jobs, and what an operator decides (lib/jobs/worker-registry.ts).
use extension_lab.Common.{
  All, Bool, Bool-cases, List, Option, Option-cases, [], ap, arith, false, if◌then◌else◌, inl, inr,
  is_none, is_some, leb, length, none, not, refl, some, suc, true, ℕ, ◌&&◌, ◌+◌, ◌==◌, ◌||◌, ◌∙◌,
  ◌∷◌, ◌≡◌, ◌≢◌, ◌≤◌, ◌⊎◌,
}
use extension_lab.Sql.Defs.{count_where, find_by, find_where, insert_row, update_where}
use extension_lab.Sql.Laws.{find_by-key}
use extension_lab.Workers.Registry.{
  WorkerDesiredState, WorkerFleetSummary, WorkerObservedState, WorkerRegistrationInput, WorkerRow,
  added, beat, claims_in, classify_worker_state, disabled, draining, gone, is_disable, is_drain,
  ready_to_claim, registered, set_worker_desired_state, starting_up, summarize_worker_fleet,
  unhealthy, upsert_worker_registration, worker_accepts_claims, worker_key,
  worker_unhealthy_after_ms,
}

-- A worker accepts claims exactly when its heartbeat is fresh, it does not stop and the operator lets it run;
-- whether it reported ready makes no difference.
pub worker_accepts_claims_lem :
    (now : ℕ) (r : WorkerRow)
    → worker_accepts_claims now r ≡ (
        leb now (r.last_seen_at + worker_unhealthy_after_ms)
        && not (is_disable r.desired_state)
        && not (is_drain r.desired_state)
        && not r.stopping)
unfolding worker_accepts_claims classify_worker_state
worker_accepts_claims_lem now r = ground arith

pub data WorkerOp : Type 0 where
  heartbeat : WorkerRegistrationInput → WorkerOp
  decide : ℕ → WorkerDesiredState → WorkerOp

abbrev decided_or : List WorkerRow → Option (List WorkerRow) → List WorkerRow
decided_or t none = t
decided_or t (some t') = t'

unfoldable pub apply_worker : ℕ → WorkerOp → List WorkerRow → List WorkerRow
apply_worker now (heartbeat i) t = upsert_worker_registration now i t
apply_worker now (decide id desired) t = decided_or t (set_worker_desired_state id desired t)

unfoldable pub run_workers : List (ℕ × WorkerOp) → List WorkerRow → List WorkerRow
run_workers [] t = t
run_workers ((now, o) ∷ os) t = run_workers os (apply_worker now o t)

-- No decision of an operator about a worker.
abbrev pub Undecided : ℕ → ℕ × WorkerOp → Type 0
Undecided id (now, decide other desired) = id ≢ other
Undecided id _ = Unit {0}

abbrev pub AllUndecided : ℕ → List (ℕ × WorkerOp) → Type 0
AllUndecided id os = All (Undecided id) os

kept_desire :
    (id : ℕ) (q : WorkerRow → Bool) (f : WorkerRow → WorkerRow)
    → ((r : WorkerRow) → (f r).id ≡ r.id)
    → (t : List WorkerRow) (r : WorkerRow) → find_by worker_key id t ≡ some r
    → (s : WorkerRow) × (find_by worker_key id (update_where q f t) ≡ some s)
      × (s ≡ (if q r then f r else r))
unfolding find_by find_where update_where
kept_desire id q f same [] r h = absurd (ground arith)
kept_desire id q f same (x ∷ t) r h = elim (Bool-cases (x.id == id)) [
  | inl e ↦ (if q r then f r else r, ground (arith, same x), refl)
  | inr e ↦
      let (s, found, is) = kept_desire id q f same t r (ground arith) in
      (s, ground (arith, same x), is)
]

-- What stays of a worker from one row to the next.
abbrev pub Stays : WorkerRow → WorkerRow → Type 0
Stays r s =
    (s.desired_state ≡ r.desired_state)
    × (s.started_at ≡ r.started_at)
    × ((is_none r.ready_at ≡ true) ⊎ (s.ready_at ≡ r.ready_at))

changed-Stays :
    (id : ℕ) (q : WorkerRow → Bool) (f : WorkerRow → WorkerRow) (t : List WorkerRow) (r : WorkerRow)
    → ((x : WorkerRow) → (f x).id ≡ x.id)
    → find_by worker_key id t ≡ some r
    → ((q r ≡ false) ⊎ Stays r (f r))
    → (s : WorkerRow) × (find_by worker_key id (update_where q f t) ≡ some s) × Stays r s
changed-Stays id q f t r same here (inl h) =
    let (s, found, is) = kept_desire id q f same t r here in
    (s, found, rw (is, h) (refl, refl, inr refl))
changed-Stays id q f t r same here (inr k) =
    let (s, found, is) = kept_desire id q f same t r here in
    elim (Bool-cases (q r)) [
      | inl h ↦ (s, found, rw (is, h) k)
      | inr h ↦ (s, found, rw (is, h) (refl, refl, inr refl))
    ]

beat-Stays : (now : ℕ) (i : WorkerRegistrationInput) (r : WorkerRow) → Stays r (beat now i r)
beat-Stays now i r = elim (Option-cases r.ready_at) [
  | inl e ↦ (refl, refl, inl (ground arith))
  | inr (at, e) ↦ (refl, refl, inr (ground arith))
]

Stays-trans : (r s w : WorkerRow) → Stays r s → Stays s w → Stays r w
Stays-trans r s w k l = elim k.2 [
  | inl h ↦ (l.0 ∙ k.0, l.1 ∙ k.1, inl h)
  | inr h ↦ elim l.2 [
    | inl h' ↦ (l.0 ∙ k.0, l.1 ∙ k.1, inl (ground arith))
    | inr h' ↦ (l.0 ∙ k.0, l.1 ∙ k.1, inr (h' ∙ h))
  ]
]

find_by-insert_row :
    (x : WorkerRow) (id : ℕ) (t : List WorkerRow) (r : WorkerRow)
    → find_by worker_key id t ≡ some r
    → find_by worker_key id (insert_row x t) ≡ some r
unfolding find_by find_where insert_row
find_by-insert_row x id [] r h = absurd (ground arith)
find_by-insert_row x id (y ∷ t) r h = ground (arith, find_by-insert_row x id t r)

apply_worker-Stays :
    (now id : ℕ) (o : WorkerOp) (t : List WorkerRow) (r : WorkerRow)
    → find_by worker_key id t ≡ some r
    → Undecided id (now, o)
    → (s : WorkerRow) × (find_by worker_key id (apply_worker now o t) ≡ some s) × Stays r s
unfolding apply_worker upsert_worker_registration set_worker_desired_state
apply_worker-Stays now id (heartbeat i) t r here u =
    elim (Bool-cases (is_some (find_by worker_key i.id t))) [
      | inl e ↦
          rw (e, upsert_worker_registration)
            (changed-Stays id (λ x. x.id == i.id) (beat now i) t r (λ x. refl) here
              (inr (beat-Stays now i r)))
      | inr e ↦
          rw (e, upsert_worker_registration)
            (r, find_by-insert_row (registered now i) id t r here, (refl, refl, inr refl))
    ]
apply_worker-Stays now id (decide other desired) t r here u =
    let at : r.id ≡ id = find_by-key worker_key id t r here in
    elim (Bool-cases (is_some (find_by worker_key other t))) [
      | inl e ↦
          rw (e, set_worker_desired_state)
            (changed-Stays id (λ x. x.id == other) (λ x. record x { desired_state = desired }) t r
              (λ x. refl) here (inl (ground (arith, at, u))))
      | inr e ↦ rw (e, set_worker_desired_state) (r, here, (refl, refl, inr refl))
    ]

-- What an operator decided about a worker stands until the operator decides again: over any heartbeats and
-- registrations, its own and others', and any decisions about other workers, a worker that is to drain or is
-- disabled keeps that state, and its start and its first ready time, and accepts no claim at any time. The
-- removal of a worker's row is not among these operations.
pub run_workers_desired :
    (os : List (ℕ × WorkerOp)) (id later : ℕ) (t : List WorkerRow) (r : WorkerRow)
    → find_by worker_key id t ≡ some r
    → (is_drain r.desired_state || is_disable r.desired_state) ≡ true
    → AllUndecided id os
    → (s : WorkerRow) × (find_by worker_key id (run_workers os t) ≡ some s)
      × Stays r s
      × (worker_accepts_claims later s ≡ false)
unfolding run_workers
run_workers_desired [] id later t r here down u =
    (r, here, (refl, refl, inr refl), worker_accepts_claims_lem later r ∙ ground arith)
run_workers_desired ((now, o) ∷ os) id later t r here down u =
    let (s, found, k) = apply_worker-Stays now id o t r here u.0 in
    let (w, found', k', idle) =
      run_workers_desired os id later (apply_worker now o t) s found
        (ap (λ d. is_drain d || is_disable d) k.0 ∙ down) u.1 in
    (w, found', Stays-trans r s w k k', idle)

abbrev AddsUp : ℕ → ℕ → WorkerFleetSummary → Type 0
AddsUp n claiming s =
    (s.total ≡ n)
    × (s.starting_count + s.ready_count + s.draining_count + s.unhealthy_count + s.stopped_count
          + s.disabled_count
        ≡ s.total)
    × (s.schedulable_concurrency ≤ s.total_concurrency)
    × (claiming ≡ s.starting_count + s.ready_count)

added-AddsUp :
    (r : WorkerRow) (state : WorkerObservedState) (n claiming : ℕ) (s : WorkerFleetSummary)
    → AddsUp n claiming s
    → AddsUp (suc n) (if claims_in state then suc claiming else claiming) (added r state s)
added-AddsUp r starting_up n claiming s (a, b, c, d) =
    (omega (arith, a), omega (arith, b), omega (arith, c), omega (arith, d))
added-AddsUp r ready_to_claim n claiming s (a, b, c, d) =
    (omega (arith, a), omega (arith, b), omega (arith, c), omega (arith, d))
added-AddsUp r draining n claiming s (a, b, c, d) =
    (omega (arith, a), omega (arith, b), omega (arith, c), omega (arith, d))
added-AddsUp r unhealthy n claiming s (a, b, c, d) =
    (omega (arith, a), omega (arith, b), omega (arith, c), omega (arith, d))
added-AddsUp r gone n claiming s (a, b, c, d) =
    (omega (arith, a), omega (arith, b), omega (arith, c), omega (arith, d))
added-AddsUp r disabled n claiming s (a, b, c, d) =
    (omega (arith, a), omega (arith, b), omega (arith, c), omega (arith, d))

-- The summary adds up: every worker is counted in one state, the concurrency on which utilization is
-- measured is part of the whole, and the workers that accept claims are those counted as ready or starting.
summarize_worker_fleet_lem :
    (now : ℕ) (t : List WorkerRow)
    → ((summarize_worker_fleet now t).total ≡ length t)
      × ((summarize_worker_fleet now t).starting_count
            + (summarize_worker_fleet now t).ready_count
            + (summarize_worker_fleet now t).draining_count
            + (summarize_worker_fleet now t).unhealthy_count
            + (summarize_worker_fleet now t).stopped_count
            + (summarize_worker_fleet now t).disabled_count
          ≡ (summarize_worker_fleet now t).total)
      × ((summarize_worker_fleet now t).schedulable_concurrency
          ≤ (summarize_worker_fleet now t).total_concurrency)
      × (count_where (worker_accepts_claims now) t
          ≡ (summarize_worker_fleet now t).starting_count
            + (summarize_worker_fleet now t).ready_count)
unfolding summarize_worker_fleet count_where worker_accepts_claims
summarize_worker_fleet_lem now [] = (refl, refl, omega arith, refl)
summarize_worker_fleet_lem now (r ∷ t) =
    added-AddsUp r (classify_worker_state now r) (length t)
      (count_where (worker_accepts_claims now) t) (summarize_worker_fleet now t)
      (summarize_worker_fleet_lem now t)
