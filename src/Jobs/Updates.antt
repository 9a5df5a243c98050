-- ===== src/Jobs/Updates.antt =====
-- The conditional UPDATEs of lib/db/repositories/jobs.ts. Each takes the time of `Date.now()`; the
-- Boolean is the source's `changes > 0`.
use extension_lab.Common.{
  Bool, Option, String, coalesce, false, holds, if◌then◌else◌, is_none, is_some, ltb, none, some,
  true, ℕ, ◌&&◌, ◌+◌, ◌==◌, ◌||◌,
}
use extension_lab.Jobs.Row.{
  JobRow, JobStatus, JobsDb, cancelled, completed, expired, failed, get_job_by_id,
  is_active_job_status, is_cancelled, is_failed, is_running, is_terminal_job_status, is_waiting,
  queued, retrying, row_id, running,
}
use extension_lab.Sql.Defs.{changes_by, count_where, delete_where, update_by}

-- UPDATE jobs SET … WHERE id = ? AND guard, with its number of changes as a test.
abbrev pub update_job : ℕ → (JobRow → Bool) → (JobRow → JobRow) → JobsDb → JobsDb × Bool
update_job id guard f db =
    (record db { jobs = update_by row_id id guard f db.jobs }, changes_by row_id id guard db.jobs)

abbrev pub held_by : ℕ → JobRow → Bool
held_by worker r = holds (λ w. w == worker) r.worker_id && is_running r.status

abbrev pub renewed : ℕ → ℕ → JobRow → JobRow
renewed now lease_ms r = record r { lease_expires_at = some (now + lease_ms); updated_at = now }

unfoldable pub renew_lease : ℕ → ℕ → ℕ → ℕ → JobsDb → JobsDb × Bool
renew_lease now job_id worker lease_ms db =
    update_job job_id (held_by worker) (renewed now lease_ms) db

abbrev pub completed_row : ℕ → Option String → JobRow → JobRow
completed_row now result r = record r {
  status = completed;
  result_json = result;
  finished_at = some now;
  updated_at = now;
  lease_expires_at = none;
}

unfoldable pub complete_job : ℕ → ℕ → Option String → JobsDb → JobsDb × Bool
complete_job now job_id result db =
    update_job job_id (λ r. is_running r.status) (completed_row now result) db

abbrev pub failed_row : ℕ → String → Option String → JobRow → JobRow
failed_row now error_code message r = record r {
  status = failed;
  error_code = some error_code;
  error_message = message;
  finished_at = some now;
  updated_at = now;
  lease_expires_at = none;
}

unfoldable pub fail_job : ℕ → ℕ → String → Option String → JobsDb → JobsDb × Bool
fail_job now job_id error_code message db =
    update_job job_id (λ r. is_active_job_status r.status) (failed_row now error_code message) db

abbrev pub requeued_row : ℕ → JobRow → JobRow
requeued_row now r = record r {
  status = queued;
  run_after = now;
  error_code = some "ADMIN_RETRY";
  error_message = none;
  updated_at = now;
  worker_id = none;
  lease_expires_at = none;
  cancel_requested_at = none;
}

unfoldable pub requeue_failed_job : ℕ → ℕ → JobsDb → JobsDb × Bool
requeue_failed_job now job_id db = update_job job_id (λ r. is_failed r.status) (requeued_row now) db

abbrev pub retrying_row : ℕ → ℕ → String → Option String → JobRow → JobRow
retrying_row now run_after error_code message r = record r {
  status = retrying;
  run_after = run_after;
  error_code = some error_code;
  error_message = message;
  updated_at = now;
  worker_id = none;
  lease_expires_at = none;
}

unfoldable pub schedule_retry : ℕ → ℕ → ℕ → String → Option String → JobsDb → JobsDb × Bool
schedule_retry now job_id run_after error_code message db =
    update_job job_id (λ r. is_running r.status) (retrying_row now run_after error_code message) db

abbrev pub expired_row : ℕ → String → JobRow → JobRow
expired_row now error_code r = record r {
  status = expired;
  error_code = some error_code;
  finished_at = some now;
  updated_at = now;
  lease_expires_at = none;
}

unfoldable pub expire_job : ℕ → ℕ → String → JobsDb → JobsDb × Bool
expire_job now job_id error_code db =
    update_job job_id (λ r. is_active_job_status r.status) (expired_row now error_code) db

abbrev pub cancelled_row : ℕ → JobRow → JobRow
cancelled_row now r = record r {
  status = cancelled;
  cancel_requested_at = some now;
  finished_at = some now;
  updated_at = now;
  lease_expires_at = none;
}

abbrev pub flagged_row : ℕ → JobRow → JobRow
flagged_row now r = record r { cancel_requested_at = some now; updated_at = now }

-- The branches of requestCancel on the row that was read.
abbrev pub request_cancel_row :
    ℕ → ℕ → JobRow → JobStatus → JobsDb → JobsDb × Option JobStatus × Bool
request_cancel_row now job_id job queued db = (
  record db {
    jobs = update_by row_id job_id (λ r. is_waiting r.status) (cancelled_row now) db.jobs;
  },
  some cancelled,
  true,
)
request_cancel_row now job_id job retrying db = (
  record db {
    jobs = update_by row_id job_id (λ r. is_waiting r.status) (cancelled_row now) db.jobs;
  },
  some cancelled,
  true,
)
request_cancel_row now job_id job running db =
    if is_some job.cancel_requested_at then (db, some running, false) else (
      record db { jobs = update_by row_id job_id (λ r. true) (flagged_row now) db.jobs },
      some running,
      true,
    )
request_cancel_row now job_id job done db = (db, some done, false)

unfoldable pub request_cancel : ℕ → ℕ → JobsDb → JobsDb × Option JobStatus × Bool
unfolding get_job_by_id
request_cancel now job_id db = elim (get_job_by_id job_id db) [
  | none ↦ (db, none, false)
  | some job ↦ request_cancel_row now job_id job job.status db
]

abbrev pub marked_row : ℕ → JobRow → JobRow
marked_row now r = record r {
  status = cancelled;
  finished_at = some now;
  updated_at = now;
  lease_expires_at = none;
  cancel_requested_at = some (coalesce r.cancel_requested_at now);
}

unfoldable pub mark_cancelled : ℕ → ℕ → JobsDb → JobsDb × Bool
mark_cancelled now job_id db =
    update_job job_id (λ r. is_active_job_status r.status) (marked_row now) db

unfoldable pub is_cancel_requested : ℕ → JobsDb → Bool
unfolding get_job_by_id
is_cancel_requested job_id db =
    holds (λ r. is_some r.cancel_requested_at || is_cancelled r.status) (get_job_by_id job_id db)

pub data Recovery : Type 0 where
  requeued failed_over : Recovery

abbrev pub orphan_requeued : ℕ → JobRow → JobRow
orphan_requeued now r = record r {
  status = retrying;
  run_after = now;
  worker_id = none;
  lease_expires_at = none;
  error_code = some "WORKER_UNAVAILABLE";
  error_message = some "Worker lease expired; job requeued.";
  updated_at = now;
}

abbrev pub orphan_failed : ℕ → JobRow → JobRow
orphan_failed now r = record r {
  status = failed;
  error_code = some "WORKER_UNAVAILABLE";
  error_message = some "The worker processing this job stopped unexpectedly.";
  finished_at = some now;
  updated_at = now;
  worker_id = none;
  lease_expires_at = none;
}

-- `job` is the row as it was read before.
unfoldable pub recover_orphaned_job : ℕ → JobRow → Bool → JobsDb → JobsDb × Recovery
recover_orphaned_job now job retryable db =
    if retryable && ltb job.attempts job.max_attempts && is_none job.cancel_requested_at
    then (
      record db {
        jobs = update_by row_id job.id (λ r. is_running r.status) (orphan_requeued now) db.jobs;
      },
      requeued,
    )
    else (
      record db {
        jobs = update_by row_id job.id (λ r. is_running r.status) (orphan_failed now) db.jobs;
      },
      failed_over,
    )

-- The rows that deleteFinishedJobsBefore deletes.
abbrev pub is_finished_before : ℕ → JobRow → Bool
is_finished_before before r =
    is_terminal_job_status r.status && ltb (coalesce r.finished_at r.updated_at) before

unfoldable pub delete_finished_jobs_before : ℕ → JobsDb → JobsDb × ℕ
delete_finished_jobs_before before db = (
  record db { jobs = delete_where (is_finished_before before) db.jobs },
  count_where (is_finished_before before) db.jobs,
)

unfoldable pub redact_job_payload : ℕ → ℕ → JobsDb → JobsDb
redact_job_payload now job_id db = record db {
  jobs =
      update_by row_id job_id (λ r. is_terminal_job_status r.status)
        (λ r. record r { payload_json = "{\"redacted\":true}"; updated_at = now }) db.jobs;
}
