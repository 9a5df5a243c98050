-- ===== src/Jobs/Recovering.antt =====
-- The recovery of jobs whose worker is gone (lib/db/repositories/jobs.ts).
use extension_lab.Common.{
  Bool, arith, false, holds, if◌then◌else◌, is_none, is_some, ltb, none, refl, some, true, ℕ, ◌&&◌,
  ◌<◌, ◌≡◌, ◌≤◌, ◌⊎◌,
}
use extension_lab.Jobs.Endings.{update_job_refused}
use extension_lab.Jobs.Row.{JobRow, JobsDb, failed, find_job, is_running, retrying, row_id, running}
use extension_lab.Jobs.Updates.{
  failed_over, held_by, orphan_failed, orphan_requeued, recover_orphaned_job, renew_lease, renewed,
  requeued,
}
use extension_lab.Sql.Defs.{IsKeyed, update_by}
use extension_lab.Sql.Laws.{find_by-update_by, update_by-IsKeyed}

module _ (now : ℕ) (job r : JobRow) (retryable : Bool) (db : JobsDb)
    (here : find_job job.id db.jobs ≡ some r) where
  requeued_found :
      find_job job.id
        (update_by row_id job.id (λ x. is_running x.status) (orphan_requeued now) db.jobs)
      ≡ some (if is_running r.status then orphan_requeued now r else r)
  requeued_found = ground (
    arith,
    find_by-update_by row_id job.id (λ x. is_running x.status) (orphan_requeued now) (λ x. refl)
        job.id db.jobs,
  )

  failed_found :
      find_job job.id
        (update_by row_id job.id (λ x. is_running x.status) (orphan_failed now) db.jobs)
      ≡ some (if is_running r.status then orphan_failed now r else r)
  failed_found = ground (
    arith,
    find_by-update_by row_id job.id (λ x. is_running x.status) (orphan_failed now) (λ x. refl)
        job.id db.jobs,
  )

  recovered-IsKeyed :
      IsKeyed row_id db.jobs → IsKeyed row_id (recover_orphaned_job now job retryable db).0.jobs
  unfolding recover_orphaned_job
  recovered-IsKeyed keyed = ground (
    arith,
    update_by-IsKeyed row_id job.id (λ x. is_running x.status) (orphan_requeued now) (λ x. refl)
        db.jobs keyed,
    update_by-IsKeyed row_id job.id (λ x. is_running x.status) (orphan_failed now) (λ x. refl)
        db.jobs keyed,
  )

  recovered_lost :
      (worker : ℕ)
      → r.status ≡ running
      → holds (held_by worker) (find_job job.id (recover_orphaned_job now job retryable db).0.jobs)
        ≡ false
  unfolding recover_orphaned_job
  recovered_lost worker active = ground (arith, requeued_found, failed_found)

  -- A worker whose running job was taken from it by recovery cannot renew its lease: the renewal,
  -- by any worker at any later time, reports no change and writes nothing.
  pub renew_after_recovery :
      (later lease_ms worker : ℕ)
      → IsKeyed row_id db.jobs
      → r.status ≡ running
      → renew_lease later job.id worker lease_ms (recover_orphaned_job now job retryable db).0
        ≡ ((recover_orphaned_job now job retryable db).0, false)
  unfolding renew_lease
  renew_after_recovery later lease_ms worker keyed active =
      update_job_refused (recover_orphaned_job now job retryable db).0 (recovered-IsKeyed keyed)
        job.id (held_by worker) (renewed later lease_ms) (recovered_lost worker active)

abbrev recovered_row : ℕ → JobRow → Bool → JobRow
recovered_row now job retryable =
    if retryable && ltb job.attempts job.max_attempts && is_none job.cancel_requested_at
    then orphan_requeued now job
    else orphan_failed now job

-- Recovery of a running job, read just before: it leaves the job without a worker and without a
-- lease, and puts it back in the queue exactly when the caller allows it, attempts are left and
-- no cancellation was requested; else the job fails.
recover_orphaned_job_lem :
    (now : ℕ) (job : JobRow) (retryable : Bool) (db : JobsDb)
    → find_job job.id db.jobs ≡ some job
    → job.status ≡ running
    → (s : JobRow) × (find_job job.id (recover_orphaned_job now job retryable db).0.jobs ≡ some s)
      × (s.worker_id ≡ none)
      × (s.lease_expires_at ≡ none)
      × (s.attempts ≡ job.attempts)
      × (((recover_orphaned_job now job retryable db).1 ≡ requeued)
            × (s.status ≡ retrying)
            × (s.run_after ≡ now)
            × (retryable ≡ true)
            × (job.attempts < job.max_attempts)
            × (job.cancel_requested_at ≡ none)
          ⊎ ((recover_orphaned_job now job retryable db).1 ≡ failed_over)
            × (s.status ≡ failed)
            × (s.finished_at ≡ some now)
            × ((retryable ≡ false)
                ⊎ (job.max_attempts ≤ job.attempts)
                ⊎ (is_some job.cancel_requested_at ≡ true)))
unfolding recover_orphaned_job
recover_orphaned_job_lem now job retryable db here active = (
  recovered_row now job retryable,
  ground (
    arith,
    requeued_found now job job retryable db here,
    failed_found now job job retryable db here,
  ),
  ground arith,
  ground arith,
  ground arith,
  ground arith,
)
