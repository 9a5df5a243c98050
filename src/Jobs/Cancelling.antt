-- ===== src/Jobs/Cancelling.antt =====
-- Requests to cancel a job (lib/db/repositories/jobs.ts).
use extension_lab.Common.{
  Option-cases, arith, false, if◌then◌else◌, inl, inr, none, refl, some, true, ℕ, ◌∙◌, ◌≡◌,
}
use extension_lab.Jobs.Row.{
  JobRow, JobStatus, JobsDb, cancelled, find_job, get_job_by_id, is_active_job_status, is_waiting,
  queued, retrying, row_id, running,
}
use extension_lab.Jobs.Updates.{
  cancelled_row, flagged_row, is_cancel_requested, request_cancel, request_cancel_row,
}
use extension_lab.Sql.Defs.{update_by}
use extension_lab.Sql.Laws.{find_by-update_by}

request_cancel_absent :
    (now id : ℕ) (db : JobsDb)
    → find_job id db.jobs ≡ none
    → request_cancel now id db ≡ (db, none, false)
unfolding request_cancel get_job_by_id
request_cancel_absent now id db e = rw (e, request_cancel)

request_cancel_at :
    (now id : ℕ) (db : JobsDb) (r : JobRow)
    → find_job id db.jobs ≡ some r
    → request_cancel now id db ≡ request_cancel_row now id r r.status db
unfolding request_cancel get_job_by_id
request_cancel_at now id db r e = rw (e, request_cancel)

module _ (now later id : ℕ) (db : JobsDb) (r : JobRow) (here : find_job id db.jobs ≡ some r) where
  cancelled_found :
      is_waiting r.status ≡ true
      → find_job id (update_by row_id id (λ x. is_waiting x.status) (cancelled_row now) db.jobs)
        ≡ some (cancelled_row now r)
  cancelled_found h = ground (
    arith,
    find_by-update_by row_id id (λ x. is_waiting x.status) (cancelled_row now) (λ x. refl) id
        db.jobs,
  )

  flagged_found :
      find_job id (update_by row_id id (λ x. true) (flagged_row now) db.jobs)
      ≡ some (flagged_row now r)
  flagged_found =
      ground
        (arith, find_by-update_by row_id id (λ x. true) (flagged_row now) (λ x. refl) id db.jobs)

  cancel_row_again :
      (s : JobStatus)
      → r.status ≡ s
      → request_cancel later id (request_cancel_row now id r s db).0
        ≡ ((request_cancel_row now id r s db).0, (request_cancel_row now id r s db).1, false)
  cancel_row_again queued e =
      request_cancel_at later id _ (cancelled_row now r) (cancelled_found (ground arith))
  cancel_row_again retrying e =
      request_cancel_at later id _ (cancelled_row now r) (cancelled_found (ground arith))
  cancel_row_again running e = elim (Option-cases r.cancel_requested_at) [
    | inl unset ↦ rw unset (request_cancel_at later id _ (flagged_row now r) flagged_found ∙ rw e)
    | inr (at, set) ↦ rw set (request_cancel_at later id db r here ∙ rw e (rw set))
  ]
  cancel_row_again _ e = request_cancel_at later id db r here ∙ rw e

-- A cancellation that is repeated changes nothing more and answers the same status.
pub request_cancel_idempotent :
    (now later id : ℕ) (db : JobsDb)
    → request_cancel later id (request_cancel now id db).0
      ≡ ((request_cancel now id db).0, (request_cancel now id db).1, false)
request_cancel_idempotent now later id db = elim (Option-cases (find_job id db.jobs)) [
  | inl e ↦ rw (request_cancel_absent now id db e) (request_cancel_absent later id db e)
  | inr (r, e) ↦
      rw (request_cancel_at now id db r e) (cancel_row_again now later id db r e r.status refl)
]

-- An active job is seen as cancelled after the request: a waiting one is cancelled at once and
-- leaves the queue, a running one stays with its worker and is flagged.
request_cancel_observed :
    (now id : ℕ) (db : JobsDb) (r : JobRow)
    → find_job id db.jobs ≡ some r
    → is_active_job_status r.status ≡ true
    → (is_cancel_requested id (request_cancel now id db).0 ≡ true)
      × ((request_cancel now id db).1 ≡ some (if is_waiting r.status then cancelled else running))
unfolding request_cancel is_cancel_requested get_job_by_id
request_cancel_observed now id db r here active =
    rw (here, request_cancel)
      (ground (
        arith,
        find_by-update_by row_id id (λ x. is_waiting x.status) (cancelled_row now) (λ x. refl) id
            db.jobs,
        find_by-update_by row_id id (λ x. true) (flagged_row now) (λ x. refl) id db.jobs,
      ))
