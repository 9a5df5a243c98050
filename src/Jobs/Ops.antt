-- ===== src/Jobs/Ops.antt =====
-- The operations of lib/db/repositories/jobs.ts on the table of jobs, as steps at a time.
use extension_lab.Common.{Bool, List, Option, String, [], none, some, ℕ, ◌∷◌}
use extension_lab.Jobs.Claim.{ClaimInput, claim_next_job}
use extension_lab.Jobs.Queries.{NewJob, insert_job}
use extension_lab.Jobs.Row.{JobRow, JobsDb}
use extension_lab.Jobs.Updates.{
  complete_job, delete_finished_jobs_before, expire_job, fail_job, mark_cancelled,
  recover_orphaned_job, redact_job_payload, renew_lease, request_cancel, requeue_failed_job,
  schedule_retry,
}

pub data Op : Type 0 where
  insert : ℕ → NewJob → Op
  claim : ClaimInput → Op
  renew : ℕ → ℕ → ℕ → Op
  complete : ℕ → Option String → Op
  fail : ℕ → String → Option String → Op
  requeue : ℕ → Op
  retry : ℕ → ℕ → String → Option String → Op
  expire : ℕ → String → Op
  cancel : ℕ → Op
  mark : ℕ → Op
  recover : JobRow → Bool → Op
  delete_finished : ℕ → Op
  redact : ℕ → Op

-- An exception of INSERT leaves the table as it was.
abbrev inserted : JobsDb → Option (JobRow × JobsDb) → JobsDb
inserted db none = db
inserted db (some (r, db')) = db'

unfoldable pub apply : ℕ → Op → JobsDb → JobsDb
apply now (insert generated input) db = inserted db (insert_job now generated input db)
apply now (claim input) db = (claim_next_job now input db).0
apply now (renew id worker lease_ms) db = (renew_lease now id worker lease_ms db).0
apply now (complete id result) db = (complete_job now id result db).0
apply now (fail id code message) db = (fail_job now id code message db).0
apply now (requeue id) db = (requeue_failed_job now id db).0
apply now (retry id run_after code message) db = (schedule_retry now id run_after code message db).0
apply now (expire id code) db = (expire_job now id code db).0
apply now (cancel id) db = (request_cancel now id db).0
apply now (mark id) db = (mark_cancelled now id db).0
apply now (recover job retryable) db = (recover_orphaned_job now job retryable db).0
apply now (delete_finished before) db = (delete_finished_jobs_before before db).0
apply now (redact id) db = redact_job_payload now id db

-- A history: operations of any number of workers and web processes, in the order in which the
-- database serves them.
unfoldable pub run_ops : List (ℕ × Op) → JobsDb → JobsDb
unfolding apply
run_ops [] db = db
run_ops ((now, o) ∷ os) db = run_ops os (apply now o db)

abbrev pub empty_db : JobsDb
empty_db = record { jobs = []; job_events = []; next_event_id = 1 }
