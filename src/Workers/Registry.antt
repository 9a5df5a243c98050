-- ===== src/Workers/Registry.antt =====
-- The rows and states of workers (lib/jobs/worker-registry.ts). Ages of heartbeats are compared with the
-- subtraction carried over; a capabilities text is kept as it comes.
use extension_lab.Common.{
  Bool, List, Option, String, [], false, if◌then◌else◌, is_none, is_some, ltb, none, some, true, ℕ,
  ◌+◌, ◌==◌, ◌||◌, ◌∷◌,
}
use extension_lab.Sql.Defs.{find_by, insert_row, update_where}

pub data WorkerDesiredState : Type 0 where
  run drain disable : WorkerDesiredState

pub data WorkerObservedState : Type 0 where
  starting_up ready_to_claim draining unhealthy gone disabled : WorkerObservedState

pub record WorkerRow : Type 0 where
  pub id : ℕ
  pub started_at : ℕ
  pub last_seen_at : ℕ
  pub concurrency : ℕ
  pub active_jobs : ℕ
  pub sandbox_available : Option Bool
  pub sandbox_detail : Option String
  pub stopping : Bool
  pub version : Option String
  pub capabilities_json : Option String
  pub ready_at : Option ℕ
  pub desired_state : WorkerDesiredState

abbrev pub worker_unhealthy_after_ms : ℕ
worker_unhealthy_after_ms = 60000

abbrev pub worker_stopped_after_ms : ℕ
worker_stopped_after_ms = 180000

abbrev pub is_disable : WorkerDesiredState → Bool
is_disable disable = true
is_disable _ = false

abbrev pub is_drain : WorkerDesiredState → Bool
is_drain drain = true
is_drain _ = false

unfoldable pub classify_worker_state : ℕ → WorkerRow → WorkerObservedState
classify_worker_state now r =
    if ltb (r.last_seen_at + worker_stopped_after_ms) now
    then gone
    else if is_disable r.desired_state
    then disabled
    else if ltb (r.last_seen_at + worker_unhealthy_after_ms) now
    then unhealthy
    else if is_drain r.desired_state || r.stopping
    then draining
    else if is_none r.ready_at
    then starting_up
    else ready_to_claim

abbrev pub claims_in : WorkerObservedState → Bool
claims_in ready_to_claim = true
claims_in starting_up = true
claims_in _ = false

unfoldable pub worker_accepts_claims : ℕ → WorkerRow → Bool
worker_accepts_claims now r = claims_in (classify_worker_state now r)

pub record WorkerRegistrationInput : Type 0 where
  pub id : ℕ
  pub started_at : ℕ
  pub concurrency : ℕ
  pub active_jobs : ℕ
  pub sandbox_available : Option Bool
  pub sandbox_detail : Option String
  pub stopping : Bool
  pub version : Option String
  pub capabilities : Option String
  pub ready_at : Option ℕ

abbrev pub worker_key : WorkerRow → ℕ
worker_key r = r.id

-- COALESCE of two columns
abbrev pub or_else {ℓ} : {A : Type ℓ} → Option A → Option A → Option A
or_else (some x) y = some x
or_else none y = y

abbrev pub registered : ℕ → WorkerRegistrationInput → WorkerRow
registered now i = record {
  id = i.id;
  started_at = i.started_at;
  last_seen_at = now;
  concurrency = i.concurrency;
  active_jobs = i.active_jobs;
  sandbox_available = i.sandbox_available;
  sandbox_detail = i.sandbox_detail;
  stopping = i.stopping;
  version = i.version;
  capabilities_json = i.capabilities;
  ready_at = i.ready_at;
  desired_state = run;
}

-- ON CONFLICT(id) DO UPDATE SET …
abbrev pub beat : ℕ → WorkerRegistrationInput → WorkerRow → WorkerRow
beat now i r = record r {
  last_seen_at = now;
  concurrency = i.concurrency;
  active_jobs = i.active_jobs;
  sandbox_available = i.sandbox_available;
  sandbox_detail = i.sandbox_detail;
  stopping = i.stopping;
  version = or_else i.version r.version;
  capabilities_json = or_else i.capabilities r.capabilities_json;
  ready_at = or_else r.ready_at i.ready_at;
}

unfoldable pub upsert_worker_registration :
    ℕ → WorkerRegistrationInput → List WorkerRow → List WorkerRow
upsert_worker_registration now i t =
    if is_some (find_by worker_key i.id t)
    then update_where (λ r. r.id == i.id) (beat now i) t
    else insert_row (registered now i) t

-- The UPDATE of setWorkerDesiredStateByRef at the worker that its reference names; `none` is NOT_FOUND.
unfoldable pub set_worker_desired_state :
    ℕ → WorkerDesiredState → List WorkerRow → Option (List WorkerRow)
set_worker_desired_state id desired t =
    if is_some (find_by worker_key id t)
    then some (update_where (λ r. r.id == id) (λ r. record r { desired_state = desired }) t)
    else none

unfoldable pub get_worker_desired_state : ℕ → List WorkerRow → WorkerDesiredState
get_worker_desired_state id t = elim (find_by worker_key id t) [
  | none ↦ run
  | some r ↦ r.desired_state
]

pub record WorkerFleetSummary : Type 0 where
  pub total : ℕ
  pub starting_count : ℕ
  pub ready_count : ℕ
  pub draining_count : ℕ
  pub unhealthy_count : ℕ
  pub stopped_count : ℕ
  pub disabled_count : ℕ
  pub total_concurrency : ℕ
  pub schedulable_concurrency : ℕ
  pub active_jobs : ℕ

abbrev no_workers : WorkerFleetSummary
no_workers = record {
  total = 0;
  starting_count = 0;
  ready_count = 0;
  draining_count = 0;
  unhealthy_count = 0;
  stopped_count = 0;
  disabled_count = 0;
  total_concurrency = 0;
  schedulable_concurrency = 0;
  active_jobs = 0;
}

abbrev counted : WorkerObservedState → WorkerFleetSummary → WorkerFleetSummary
counted starting_up s = record s { starting_count = s.starting_count + 1 }
counted ready_to_claim s = record s { ready_count = s.ready_count + 1 }
counted draining s = record s { draining_count = s.draining_count + 1 }
counted unhealthy s = record s { unhealthy_count = s.unhealthy_count + 1 }
counted gone s = record s { stopped_count = s.stopped_count + 1 }
counted disabled s = record s { disabled_count = s.disabled_count + 1 }

abbrev pub added : WorkerRow → WorkerObservedState → WorkerFleetSummary → WorkerFleetSummary
added r state s = record (counted state s) {
  total = s.total + 1;
  total_concurrency = s.total_concurrency + r.concurrency;
  schedulable_concurrency =
      s.schedulable_concurrency + (if claims_in state then r.concurrency else 0);
  active_jobs = s.active_jobs + r.active_jobs;
}

-- The sums of summarizeWorkerFleet over the workers that listWorkerStatuses returns.
unfoldable pub summarize_worker_fleet : ℕ → List WorkerRow → WorkerFleetSummary
summarize_worker_fleet now [] = no_workers
summarize_worker_fleet now (r ∷ t) =
    added r (classify_worker_state now r) (summarize_worker_fleet now t)
