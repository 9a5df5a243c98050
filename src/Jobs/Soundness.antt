-- ===== src/Jobs/Soundness.antt =====
-- What holds of every row of the table of jobs after any history.
use extension_lab.Common.{
  All, Bool, List, [], arith, inl, inr, is_some, none, refl, true, ℕ, ◌∷◌, ◌≡◌, ◌≤◌,
}
use extension_lab.Jobs.Claim.{ClaimInput, claimed_row}
use extension_lab.Jobs.Ops.{
  Op, apply, cancel, claim, complete, delete_finished, empty_db, expire, fail, insert, mark,
  recover, redact, renew, requeue, retry, run_ops,
}
use extension_lab.Jobs.Queries.{NewJob, insert_job, new_row}
use extension_lab.Jobs.Row.{
  JobRow, JobsDb, cancelled, is_running, is_terminal_job_status, is_waiting, row_id,
}
use extension_lab.Jobs.Shapes.{claim_next_job_shape, recover_shape, request_cancel_shape}
use extension_lab.Jobs.Updates.{
  cancelled_row, complete_job, completed_row, delete_finished_jobs_before, expire_job, expired_row,
  fail_job, failed_row, flagged_row, held_by, is_finished_before, mark_cancelled, marked_row,
  orphan_failed, orphan_requeued, redact_job_payload, renew_lease, renewed, requeue_failed_job,
  requeued_row, retrying_row, schedule_retry,
}
use extension_lab.Sql.Defs.{IsKeyed, update_by}
use extension_lab.Sql.Laws.{delete_where-IsKeyed, insert_row-IsKeyed, update_by-IsKeyed}
use extension_lab.Sql.Order.{All-delete_where, All-insert_row, All-update_by}

-- A row in order: who holds it, and which of its times are set, in each status.
pub record IsSound (r : JobRow) : Type 0 where
  pub limit_positive : 1 ≤ r.max_attempts
  pub running_held : is_running r.status ≡ true → is_some r.worker_id ≡ true
  pub running_leased : is_running r.status ≡ true → is_some r.lease_expires_at ≡ true
  pub running_started : is_running r.status ≡ true → is_some r.started_at ≡ true
  pub running_attempted : is_running r.status ≡ true → 1 ≤ r.attempts
  pub lease_running : is_some r.lease_expires_at ≡ true → is_running r.status ≡ true
  pub waiting_free : is_waiting r.status ≡ true → r.worker_id ≡ none
  pub terminal_finished : is_terminal_job_status r.status ≡ true → is_some r.finished_at ≡ true
  pub cancelled_requested : r.status ≡ cancelled → is_some r.cancel_requested_at ≡ true

new_row-IsSound : (now generated : ℕ) (input : NewJob) → IsSound (new_row now generated input)
new_row-IsSound now generated input = ground arith

abbrev AllSound : JobsDb → Type 0
AllSound db = All IsSound db.jobs

module _ (now : ℕ) (db : JobsDb) (sound : AllSound db) where
  update_job-IsSound :
      (id : ℕ) (guard : JobRow → Bool) (f : JobRow → JobRow)
      → ((r : JobRow) → guard r ≡ true → IsSound r → IsSound (f r))
      → All IsSound (update_by row_id id guard f db.jobs)
  update_job-IsSound id guard f keep = All-update_by IsSound row_id id guard f keep db.jobs sound

  insert_job-IsSound :
      (generated : ℕ) (input : NewJob) → AllSound (apply now (insert generated input) db)
  unfolding apply insert_job
  insert_job-IsSound generated input = ground (
    arith,
    All-insert_row IsSound (new_row now generated input) db.jobs
        (new_row-IsSound now generated input) sound,
    sound,
  )

  claim-IsSound : (input : ClaimInput) → AllSound (apply now (claim input) db)
  unfolding apply
  claim-IsSound input = elim (claim_next_job_shape now input db) [
    | inl e ↦ rw e sound
    | inr (c, _, e) ↦
        rw e (update_job-IsSound c.id _ (claimed_row now input) (λ r g v. ground arith))
  ]

  cancel-IsSound : (id : ℕ) → AllSound (apply now (cancel id) db)
  unfolding apply
  cancel-IsSound id = elim (request_cancel_shape now id db) [
    | inl e ↦ rw e sound
    | inr (inl e) ↦ rw e (update_job-IsSound id _ (cancelled_row now) (λ r g v. ground arith))
    | inr (inr (_, _, _, e)) ↦
        rw e (update_job-IsSound id _ (flagged_row now) (λ r g v. ground arith))
  ]

  recover-IsSound :
      (job : JobRow) (retryable : Bool) → AllSound (apply now (recover job retryable) db)
  unfolding apply
  recover-IsSound job retryable = elim (recover_shape now job retryable db) [
    | inl e ↦ rw e (update_job-IsSound job.id _ (orphan_requeued now) (λ r g v. ground arith))
    | inr e ↦ rw e (update_job-IsSound job.id _ (orphan_failed now) (λ r g v. ground arith))
  ]

  pub apply-IsSound : (o : Op) → AllSound (apply now o db)
  unfolding apply renew_lease complete_job fail_job requeue_failed_job schedule_retry expire_job
      mark_cancelled delete_finished_jobs_before redact_job_payload
  apply-IsSound (insert generated input) = insert_job-IsSound generated input
  apply-IsSound (claim input) = claim-IsSound input
  apply-IsSound (renew id worker lease_ms) =
      update_job-IsSound id (held_by worker) (renewed now lease_ms) (λ r g v. ground arith)
  apply-IsSound (complete id result) =
      update_job-IsSound id _ (completed_row now result) (λ r g v. ground arith)
  apply-IsSound (fail id code message) =
      update_job-IsSound id _ (failed_row now code message) (λ r g v. ground arith)
  apply-IsSound (requeue id) = update_job-IsSound id _ (requeued_row now) (λ r g v. ground arith)
  apply-IsSound (retry id run_after code message) =
      update_job-IsSound id _ (retrying_row now run_after code message) (λ r g v. ground arith)
  apply-IsSound (expire id code) =
      update_job-IsSound id _ (expired_row now code) (λ r g v. ground arith)
  apply-IsSound (cancel id) = cancel-IsSound id
  apply-IsSound (mark id) = update_job-IsSound id _ (marked_row now) (λ r g v. ground arith)
  apply-IsSound (recover job retryable) = recover-IsSound job retryable
  apply-IsSound (delete_finished cutoff) =
      All-delete_where IsSound (is_finished_before cutoff) db.jobs sound
  apply-IsSound (redact id) = update_job-IsSound id _ _ (λ r g v. ground arith)

module _ (now : ℕ) (db : JobsDb) (keyed : IsKeyed row_id db.jobs) where
  update_job-IsKeyed :
      (id : ℕ) (guard : JobRow → Bool) (f : JobRow → JobRow)
      → ((r : JobRow) → (f r).id ≡ r.id)
      → IsKeyed row_id (update_by row_id id guard f db.jobs)
  update_job-IsKeyed id guard f same = update_by-IsKeyed row_id id guard f same db.jobs keyed

  -- No operation writes an identifier twice.
  pub apply-IsKeyed : (o : Op) → IsKeyed row_id (apply now o db).jobs
  unfolding apply renew_lease complete_job fail_job requeue_failed_job schedule_retry expire_job
      mark_cancelled delete_finished_jobs_before redact_job_payload insert_job
  apply-IsKeyed (insert generated input) =
      ground (arith, insert_row-IsKeyed row_id (new_row now generated input) db.jobs, keyed)
  apply-IsKeyed (claim input) = elim (claim_next_job_shape now input db) [
    | inl e ↦ rw e keyed
    | inr (c, _, e) ↦ rw e (update_job-IsKeyed c.id _ (claimed_row now input) (λ r. refl))
  ]
  apply-IsKeyed (renew id worker lease_ms) =
      update_job-IsKeyed id (held_by worker) (renewed now lease_ms) (λ r. refl)
  apply-IsKeyed (complete id result) =
      update_job-IsKeyed id _ (completed_row now result) (λ r. refl)
  apply-IsKeyed (fail id code message) =
      update_job-IsKeyed id _ (failed_row now code message) (λ r. refl)
  apply-IsKeyed (requeue id) = update_job-IsKeyed id _ (requeued_row now) (λ r. refl)
  apply-IsKeyed (retry id run_after code message) =
      update_job-IsKeyed id _ (retrying_row now run_after code message) (λ r. refl)
  apply-IsKeyed (expire id code) = update_job-IsKeyed id _ (expired_row now code) (λ r. refl)
  apply-IsKeyed (cancel id) = elim (request_cancel_shape now id db) [
    | inl e ↦ rw e keyed
    | inr (inl e) ↦ rw e (update_job-IsKeyed id _ (cancelled_row now) (λ r. refl))
    | inr (inr (_, _, _, e)) ↦ rw e (update_job-IsKeyed id _ (flagged_row now) (λ r. refl))
  ]
  apply-IsKeyed (mark id) = update_job-IsKeyed id _ (marked_row now) (λ r. refl)
  apply-IsKeyed (recover job retryable) = elim (recover_shape now job retryable db) [
    | inl e ↦ rw e (update_job-IsKeyed job.id _ (orphan_requeued now) (λ r. refl))
    | inr e ↦ rw e (update_job-IsKeyed job.id _ (orphan_failed now) (λ r. refl))
  ]
  apply-IsKeyed (delete_finished cutoff) =
      delete_where-IsKeyed row_id (is_finished_before cutoff) db.jobs keyed
  apply-IsKeyed (redact id) = update_job-IsKeyed id _ _ (λ r. refl)

run_ops-IsSound_from :
    (os : List (ℕ × Op)) (db : JobsDb)
    → IsKeyed row_id db.jobs × AllSound db
    → IsKeyed row_id (run_ops os db).jobs × AllSound (run_ops os db)
unfolding run_ops
run_ops-IsSound_from [] db v = v
run_ops-IsSound_from ((now, o) ∷ os) db v =
    run_ops-IsSound_from os (apply now o db)
      (apply-IsKeyed now db v.0 o, apply-IsSound now db v.1 o)

-- After any history of operations from an empty table, no identifier stands in two rows, and every
-- row is in order: a running job has a worker, a lease, a start time and an attempt, and no other
-- job has a lease; a waiting job has no worker; a job that ended has its finish time; a cancelled
-- job has its request time.
pub run_ops-IsSound :
    (os : List (ℕ × Op))
    → IsKeyed row_id (run_ops os empty_db).jobs × All IsSound (run_ops os empty_db).jobs
run_ops-IsSound os = run_ops-IsSound_from os empty_db (tt, tt)
