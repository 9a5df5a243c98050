-- ===== src/Jobs/Queries.antt =====
-- The counts and lists of lib/db/repositories/jobs.ts, insertJob and appendJobEvent.
use extension_lab.Common.{
  Bool, List, Option, String, coalesce, eqb_ℤ, holds, if◌then◌else◌, is_some, ltb, ltb_ℤ, max, none,
  not, pos, some, take, true, ℕ, ℤ, ◌&&◌, ◌+◌, ◌==◌, ◌||◌,
}
use extension_lab.Jobs.Row.{
  JobEventRow, JobRow, JobType, JobsDb, find_job, is_active_job_status, is_running, is_waiting,
  queued, same_type,
}
use extension_lab.Sql.Defs.{count_where, find_where, insert_row, order_by, select_where}

abbrev pub is_own : ℕ → Option ℕ → Bool
is_own id = holds (λ x. x == id)

-- `type ? … : …` in a count's WHERE clause.
abbrev pub of_type : Option JobType → JobRow → Bool
of_type none r = true
of_type (some t) r = same_type r.type t

unfoldable pub count_running_jobs_for_organization : ℕ → JobsDb → ℕ
count_running_jobs_for_organization org db =
    count_where (λ r. is_own org r.organization_id && is_running r.status) db.jobs

unfoldable pub count_active_jobs_for_organization : ℕ → JobsDb → ℕ
count_active_jobs_for_organization org db =
    count_where (λ r. is_own org r.organization_id && is_active_job_status r.status) db.jobs

unfoldable pub count_active_jobs_for_user : ℕ → Option JobType → JobsDb → ℕ
count_active_jobs_for_user user type db =
    count_where (λ r. is_own user r.user_id && of_type type r && is_active_job_status r.status)
      db.jobs

unfoldable pub count_running_jobs_for_user : ℕ → JobType → JobsDb → ℕ
count_running_jobs_for_user user type db =
    count_where (λ r. is_own user r.user_id && same_type r.type type && is_running r.status) db.jobs

unfoldable pub count_queued_jobs : Option JobType → JobsDb → ℕ
count_queued_jobs type db = count_where (λ r. of_type type r && is_waiting r.status) db.jobs

unfoldable pub get_job_by_idempotency_key : ℕ → JobsDb → Option JobRow
get_job_by_idempotency_key key db = find_where (λ r. is_own key r.idempotency_key) db.jobs

unfoldable pub get_owned_job : ℕ → ℕ → JobsDb → Option JobRow
get_owned_job user id db = find_where (λ r. r.id == id && is_own user r.user_id) db.jobs

-- priority > ? OR (priority = ? AND (run_after < ? OR (run_after = ? AND created_at < ?)))
-- This is also ORDER BY priority DESC, run_after ASC, created_at ASC.
unfoldable pub runs_before : JobRow → JobRow → Bool
runs_before r job =
    ltb_ℤ job.priority r.priority
    || eqb_ℤ r.priority job.priority
      && (ltb r.run_after job.run_after
          || r.run_after == job.run_after && ltb r.created_at job.created_at)

unfoldable pub queue_position : JobRow → JobsDb → Option ℕ
queue_position job db =
    if not (is_waiting job.status)
    then none
    else some (
        count_where (λ r. same_type r.type job.type && is_waiting r.status && runs_before r job)
          db.jobs
        + 1)

-- Running jobs whose lease expired.
unfoldable pub list_expired_leases : ℕ → JobsDb → List JobRow
list_expired_leases now db =
    select_where (λ r. is_running r.status && holds (λ at. ltb at now) r.lease_expires_at) db.jobs

unfoldable pub list_running_jobs_for_worker : ℕ → JobsDb → List JobRow
list_running_jobs_for_worker worker db =
    select_where (λ r. is_running r.status && is_own worker r.worker_id) db.jobs

unfoldable pub list_stale_queued_jobs : ℕ → JobsDb → List JobRow
list_stale_queued_jobs older_than db =
    select_where (λ r. is_waiting r.status && ltb r.created_at older_than) db.jobs

pub record NewJob : Type 0 where
  pub id : Option ℕ
  pub type : JobType
  pub user_id : Option ℕ
  pub organization_id : Option ℕ
  pub payload : String
  pub max_attempts : ℕ
  pub priority : Option ℤ
  pub idempotency_key : Option ℕ
  pub resource_type : Option ℕ
  pub resource_id : Option ℕ
  pub run_after : Option ℕ

-- The row that insertJob writes; `generated` is the identifier of `generateDbId("job")`.
abbrev pub new_row : ℕ → ℕ → NewJob → JobRow
new_row now generated input = record {
  id = coalesce input.id generated;
  type = input.type;
  user_id = input.user_id;
  organization_id = input.organization_id;
  status = queued;
  priority = coalesce input.priority (pos 0);
  attempts = 0;
  max_attempts = max 1 input.max_attempts;
  payload_json = input.payload;
  result_json = none;
  error_code = none;
  error_message = none;
  idempotency_key = input.idempotency_key;
  resource_type = input.resource_type;
  resource_id = input.resource_id;
  worker_id = none;
  lease_expires_at = none;
  run_after = coalesce input.run_after now;
  cancel_requested_at = none;
  created_at = now;
  updated_at = now;
  started_at = none;
  finished_at = none;
}

abbrev pub key_taken : Option ℕ → JobsDb → Bool
key_taken key db = holds (λ k. is_some (get_job_by_idempotency_key k db)) key

-- `none` is the exception of a broken PRIMARY KEY or UNIQUE constraint; nothing is written then.
unfoldable pub insert_job : ℕ → ℕ → NewJob → JobsDb → Option (JobRow × JobsDb)
insert_job now generated input db =
    let row = new_row now generated input in
    if is_some (find_job row.id db.jobs) || key_taken row.idempotency_key db
    then none
    else some (row, record db { jobs = insert_row row db.jobs })

unfoldable pub append_job_event : ℕ → ℕ → String → Option String → String → JobsDb → JobsDb × ℕ
append_job_event now job_id kind stage payload db = (
  record db {
    job_events =
        insert_row
          (record {
            id = db.next_event_id;
            job_id = job_id;
            kind = kind;
            stage = stage;
            payload = payload;
            created_at = now;
          })
          db.job_events;
    next_event_id = db.next_event_id + 1;
  },
  db.next_event_id,
)

unfoldable pub list_job_events : ℕ → ℕ → ℕ → JobsDb → List JobEventRow
list_job_events job_id after_id limit db = take limit (
    order_by (λ a b. ltb a.id b.id)
      (select_where (λ e. e.job_id == job_id && ltb after_id e.id) db.job_events))
