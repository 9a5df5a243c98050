-- ===== src/Jobs/Tests.antt =====
-- The theorems on the job queue at concrete inputs, and runs of its operations.
use extension_lab.Common.{
  All, Bool, List, Option, [], false, holds, includes, is_some, none, pos, refl, some, true, ℕ,
  ◌&&◌, ◌+◌, ◌<◌, ◌∷◌, ◌≡◌, ◌≢◌, ◌≤◌, ◌⊎◌,
}
use extension_lab.Jobs.Claim.{
  ClaimInput, candidates, claim_next_job, claim_row, claimed_row, first_fair, includes_type,
  is_claimable, pick_fair_candidate, scan_limit,
}
use extension_lab.Jobs.ClaimOrder.{claim_next_job_complete, claim_next_job_first}
use extension_lab.Jobs.Claiming.{Claimable, claim_next_job_lem}
use extension_lab.Jobs.Endings.{by_completion, by_failure, end_job, end_job_once}
use extension_lab.Jobs.Fairness.{claim_next_job_fair}
use extension_lab.Jobs.Histories.{run_ops_settled}
use extension_lab.Jobs.Lifecycle.{Moves, apply-Moves}
use extension_lab.Jobs.Ops.{Op, apply, claim, complete, empty_db, insert, run_ops}
use extension_lab.Jobs.Queries.{
  NewJob, count_running_jobs_for_organization, queue_position, runs_before,
}
use extension_lab.Jobs.Row.{
  JobRow, JobStatus, JobsDb, automated_test, completed, email, failed, find_job, is_waiting, queued,
  retrying, row_id, running, type_index,
}
use extension_lab.Jobs.Soundness.{IsSound, run_ops-IsSound}
use extension_lab.Jobs.Updates.{Recovery, complete_job, completed_row, failed_over, requeued}
use extension_lab.Sql.Defs.{
  IsKeyed, changes_by, count_where, find_by, find_where, order_by, select_where, update_by,
}

abbrev pub row : ℕ → JobStatus → ℕ → JobRow
row id status attempts = record {
  id = id;
  type = automated_test;
  user_id = some 7;
  organization_id = some 3;
  status = status;
  priority = pos id;
  attempts = attempts;
  max_attempts = 3;
  payload_json = "{}";
  result_json = none;
  error_code = none;
  error_message = none;
  idempotency_key = some (100 + id);
  resource_type = none;
  resource_id = none;
  worker_id = none;
  lease_expires_at = none;
  run_after = 10;
  cancel_requested_at = none;
  created_at = 5;
  updated_at = 5;
  started_at = none;
  finished_at = none;
}

-- Two waiting jobs, one that runs and one that completed.
abbrev pub table : JobsDb
table = record {
  jobs = row 1 queued 0 ∷ row 2 retrying 1 ∷ row 3 running 1 ∷ row 4 completed 1 ∷ [];
  job_events = [];
  next_event_id = 1;
}

pub table-IsKeyed : IsKeyed row_id table.jobs
unfolding find_by
table-IsKeyed = (refl, (refl, (refl, (refl, tt))))

abbrev input : ClaimInput
input = record {
  worker_id = 50;
  types = automated_test ∷ [];
  lease_ms = 30;
  exclude_user_ids = [];
  org_concurrency = none;
  scan_limit = none;
}

abbrev fair_input : ClaimInput
fair_input = record input { org_concurrency = some (λ org. 2) }

abbrev claimed_table : JobsDb
claimed_table = record table {
  jobs =
      row 1 queued 0
      ∷ claimed_row 20 input (row 2 retrying 1)
      ∷ row 3 running 1
      ∷ row 4 completed 1
      ∷ [];
}

-- The job of the higher priority is claimed.
claim_table :
    claim_next_job 20 input table ≡ (claimed_table, some (claimed_row 20 input (row 2 retrying 1)))
unfolding claim_next_job candidates scan_limit order_by select_where is_claimable includes_type
    type_index includes runs_before pick_fair_candidate claim_row update_by changes_by find_by
    find_where
claim_table = refl

claimed_table-IsKeyed : IsKeyed row_id claimed_table.jobs
unfolding find_by
claimed_table-IsKeyed = (refl, (refl, (refl, (refl, tt))))

-- Under a cap of 2 the organization, which runs one job, may start another.
claim_fair :
    claim_next_job 20 fair_input table
    ≡ (claimed_table, some (claimed_row 20 input (row 2 retrying 1)))
unfolding claim_next_job candidates scan_limit order_by select_where is_claimable includes_type
    type_index includes runs_before pick_fair_candidate first_fair
    count_running_jobs_for_organization count_where claim_row update_by changes_by find_by
    find_where
claim_fair = refl

-- Under a cap of 1 nothing is claimed.
claim_capped :
    (claim_next_job 20 (record input { org_concurrency = some (λ org. 1) }) table).1 ≡ none
unfolding claim_next_job candidates scan_limit order_by select_where is_claimable includes_type
    type_index includes runs_before pick_fair_candidate first_fair
    count_running_jobs_for_organization count_where claim_row update_by changes_by find_by
    find_where
claim_capped = refl

-- The worker completes job 3; then it, or another, can do no more with it.
complete_table : (complete_job 20 3 none table).1 ≡ true
unfolding complete_job update_by changes_by count_where
complete_table = refl

position_table : queue_position (row 1 queued 0) table ≡ some 2
unfolding queue_position count_where runs_before type_index
position_table = refl

apply-Moves_example : Moves (row 3 running 1) (completed_row 20 none (row 3 running 1))
unfolding apply complete_job update_by find_by
apply-Moves_example =
    apply-Moves 3 table (row 3 running 1) (completed_row 20 none (row 3 running 1)) refl 20
      (complete 3 none) table-IsKeyed refl

abbrev new_job : NewJob
new_job = record {
  id = none;
  type = email;
  user_id = none;
  organization_id = none;
  payload = "{}";
  max_attempts = 3;
  priority = none;
  idempotency_key = none;
  resource_type = none;
  resource_id = none;
  run_after = none;
}

abbrev history : List (ℕ × Op)
history =
    (1, insert 9 new_job)
    ∷ (2, claim (record input { types = email ∷ [] }))
    ∷ (3, complete 9 none)
    ∷ []

run_ops-IsSound_example :
    IsKeyed row_id (run_ops history empty_db).jobs × All IsSound (run_ops history empty_db).jobs
run_ops-IsSound_example = run_ops-IsSound history

run_ops_settled_example :
    (s : JobRow) × (find_job 4 (run_ops history table).jobs ≡ some s)
    × (s.status ≡ completed)
    × (s.attempts ≡ 1)
unfolding find_by
run_ops_settled_example =
    run_ops_settled history table 4 (row 4 completed 1) table-IsKeyed (refl, (refl, (refl, tt)))
      refl refl

claim_next_job_lem_example :
    let job = claimed_row 20 input (row 2 retrying 1) in
    (c : JobRow) × Claimable 20 input table c
    × (c.run_after ≤ 20)
    × (is_waiting c.status ≡ true)
    × (includes_type input.types c.type ≡ true)
    × (holds (includes input.exclude_user_ids) c.user_id ≡ false)
    × (find_job c.id claimed_table.jobs ≡ some job)
    × (job.id ≡ c.id)
    × (job.status ≡ running)
    × (job.worker_id ≡ some 50)
    × (job.lease_expires_at ≡ some (20 + 30))
    × (job.attempts ≡ c.attempts + 1)
    × ((j : ℕ) → j ≢ c.id → find_job j claimed_table.jobs ≡ find_job j table.jobs)
claim_next_job_lem_example =
    claim_next_job_lem 20 input table claimed_table (claimed_row 20 input (row 2 retrying 1))
      table-IsKeyed claim_table

claim_next_job_first_example :
    count_where
      (λ r. is_claimable 20 input r && runs_before r (claimed_row 20 input (row 2 retrying 1)))
      table.jobs
    ≡ 0
claim_next_job_first_example =
    claim_next_job_first 20 input table claimed_table (claimed_row 20 input (row 2 retrying 1))
      table-IsKeyed refl claim_table

early_claim : (claim_next_job 5 input table).1 ≡ none
unfolding claim_next_job candidates scan_limit order_by select_where is_claimable includes_type
    type_index includes runs_before pick_fair_candidate
early_claim = refl

claim_next_job_complete_example : count_where (is_claimable 5 input) table.jobs ≡ 0
claim_next_job_complete_example =
    claim_next_job_complete 5 input table table-IsKeyed refl refl early_claim

abbrev twice_claimed : JobsDb
twice_claimed = record table {
  jobs =
      claimed_row 21 input (row 1 queued 0)
      ∷ claimed_row 20 input (row 2 retrying 1)
      ∷ row 3 running 1
      ∷ row 4 completed 1
      ∷ [];
}

claim_again :
    claim_next_job 21 input claimed_table
    ≡ (twice_claimed, some (claimed_row 21 input (row 1 queued 0)))
unfolding claim_next_job candidates scan_limit order_by select_where is_claimable includes_type
    type_index includes runs_before pick_fair_candidate claim_row update_by changes_by find_by
    find_where
claim_again = refl

claim_next_job_fair_example :
    (count_running_jobs_for_organization 3 claimed_table
      ≡ count_running_jobs_for_organization 3 table + 1)
    × (count_running_jobs_for_organization 3 claimed_table ≤ 2)
claim_next_job_fair_example =
    claim_next_job_fair 20 fair_input table claimed_table (claimed_row 20 input (row 2 retrying 1))
      (λ org. 2) 3 table-IsKeyed refl claim_fair refl

end_job_once_example :
    end_job 25 3 (by_failure "INTERNAL" none) (end_job 20 3 (by_completion none) table).0
    ≡ ((end_job 20 3 (by_completion none) table).0, false)
unfolding end_job update_by changes_by count_where
end_job_once_example =
    end_job_once 20 25 3 (by_completion none) (by_failure "INTERNAL" none) table table-IsKeyed refl

abbrev Recovered : JobsDb × Recovery → Type 0
Recovered p =
    (s : JobRow) × (find_job 3 p.0.jobs ≡ some s)
    × (s.worker_id ≡ none)
    × (s.lease_expires_at ≡ none)
    × (s.attempts ≡ 1)
    × ((p.1 ≡ requeued)
          × (s.status ≡ retrying)
          × (s.run_after ≡ 35)
          × (◌≡◌ {A = Bool} true true)
          × (1 < 3)
          × (◌≡◌ {A = Option ℕ} none none)
        ⊎ (p.1 ≡ failed_over)
          × (s.status ≡ failed)
          × (s.finished_at ≡ some 35)
          × (((◌≡◌ {A = Bool} true false)) ⊎ (3 ≤ 1) ⊎ (is_some {A = ℕ} none ≡ true)))
