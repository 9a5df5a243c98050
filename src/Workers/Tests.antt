-- ===== src/Workers/Tests.antt =====
-- The theorems on workers at concrete inputs.
use extension_lab.Common.{
  List, [], arith, false, leb, none, not, refl, some, true, ℕ, ◌&&◌, ◌+◌, ◌∷◌, ◌≡◌,
}
use extension_lab.Sql.Defs.{find_by, find_where}
use extension_lab.Workers.Fleet.{
  Stays, WorkerOp, decide, heartbeat, run_workers, run_workers_desired, worker_accepts_claims_lem,
}
use extension_lab.Workers.Registry.{
  WorkerDesiredState, WorkerRegistrationInput, WorkerRow, disable, drain, registered, run,
  worker_accepts_claims, worker_key, worker_unhealthy_after_ms,
}

abbrev input : ℕ → WorkerRegistrationInput
input id = record {
  id = id;
  started_at = 10;
  concurrency = 4;
  active_jobs = 1;
  sandbox_available = some true;
  sandbox_detail = none;
  stopping = false;
  version = none;
  capabilities = none;
  ready_at = some 90;
}

abbrev row : ℕ → WorkerDesiredState → WorkerRow
row id desired = record (registered 50 (input id)) { desired_state = desired }

abbrev fleet : List WorkerRow
fleet = row 1 run ∷ row 2 drain ∷ row 3 disable ∷ []

worker_accepts_claims_lem_example :
    worker_accepts_claims 60000 (row 2 drain)
    ≡ (leb 60000 (50 + worker_unhealthy_after_ms) && not false && not true && not false)
worker_accepts_claims_lem_example = worker_accepts_claims_lem 60000 (row 2 drain)

second : find_by worker_key 2 fleet ≡ some (row 2 drain)
unfolding find_by find_where
second = refl

abbrev beats : List (ℕ × WorkerOp)
beats = (100, heartbeat (input 2)) ∷ (110, decide 1 disable) ∷ (120, heartbeat (input 4)) ∷ []

run_workers_desired_example :
    (s : WorkerRow) × (find_by worker_key 2 (run_workers beats fleet) ≡ some s)
    × Stays (row 2 drain) s
    × (worker_accepts_claims 130 s ≡ false)
run_workers_desired_example =
    run_workers_desired beats 2 130 fleet (row 2 drain) second refl
      (tt, ((λ e. absurd (omega (arith, e))), (tt, tt)))
