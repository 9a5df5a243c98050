-- ===== src/Jobs/Shapes.antt =====
-- The UPDATE that a claim, a cancellation and a recovery come down to, if they write at all.
use extension_lab.Common.{
  Bool, Bool-cases, Option-cases, arith, inl, inr, refl, some, true, ℕ, ◌≡◌, ◌⊎◌,
}
use extension_lab.Jobs.Claim.{
  ClaimInput, candidates, claim_next_job, claim_row, claimed_row, is_empty, pick_fair_candidate,
}
use extension_lab.Jobs.Row.{
  JobRow, JobStatus, JobsDb, find_job, get_job_by_id, is_running, is_waiting, queued, retrying,
  row_id, running,
}
use extension_lab.Jobs.Updates.{
  cancelled_row, flagged_row, orphan_failed, orphan_requeued, recover_orphaned_job, request_cancel,
  request_cancel_row,
}
use extension_lab.Sql.Defs.{update_by}

module _ (now : ℕ) (input : ClaimInput) (db : JobsDb) where
  -- The row that a claim updates is the one that pickFairCandidate chose.
  pub claim_next_job_shape :
      ((claim_next_job now input db).0.jobs ≡ db.jobs)
      ⊎ ((c : JobRow) × (pick_fair_candidate input.org_concurrency db (candidates now input db)
            ≡ some c)
          × ((claim_next_job now input db).0.jobs
              ≡ update_by row_id c.id (λ r. is_waiting r.status) (claimed_row now input) db.jobs))
  unfolding claim_next_job claim_row
  claim_next_job_shape = elim (Bool-cases (is_empty input.types)) [
    | inl e ↦ rw e (inl refl)
    | inr e ↦
        rw e
          (elim (Option-cases
            (pick_fair_candidate input.org_concurrency db (candidates now input db))) [
              | inl f ↦ rw (f, claim_next_job) (inl refl)
              | inr (c, f) ↦ rw (f, claim_next_job) (inr (c, refl, refl))
            ])
  ]

module _ (now id : ℕ) (db : JobsDb) where
  cancel_row_shape :
      (job : JobRow) (s : JobStatus)
      → ((request_cancel_row now id job s db).0.jobs ≡ db.jobs)
        ⊎ ((request_cancel_row now id job s db).0.jobs
            ≡ update_by row_id id (λ r. is_waiting r.status) (cancelled_row now) db.jobs)
        ⊎ ((s ≡ running)
            × ((request_cancel_row now id job s db).0.jobs
                ≡ update_by row_id id (λ r. true) (flagged_row now) db.jobs))
  cancel_row_shape job queued = inr (inl refl)
  cancel_row_shape job retrying = inr (inl refl)
  cancel_row_shape job running = ground arith
  cancel_row_shape job _ = inl refl

  -- A cancellation cancels a waiting row, or sets the flag of the row that it read as running.
  pub request_cancel_shape :
      ((request_cancel now id db).0.jobs ≡ db.jobs)
      ⊎ ((request_cancel now id db).0.jobs
          ≡ update_by row_id id (λ r. is_waiting r.status) (cancelled_row now) db.jobs)
      ⊎ ((job : JobRow) × (find_job id db.jobs ≡ some job)
          × (job.status ≡ running)
          × ((request_cancel now id db).0.jobs
              ≡ update_by row_id id (λ r. true) (flagged_row now) db.jobs))
  unfolding request_cancel get_job_by_id
  request_cancel_shape = elim (Option-cases (find_job id db.jobs)) [
    | inl e ↦ rw (e, request_cancel) (inl refl)
    | inr (job, e) ↦
        rw (e, request_cancel)
          (elim (cancel_row_shape job job.status) [
            | inl same ↦ inl same
            | inr (inl waiting) ↦ inr (inl waiting)
            | inr (inr (active, flag)) ↦ inr (inr (job, refl, active, flag))
          ])
  ]

module _ (now : ℕ) (job : JobRow) (retryable : Bool) (db : JobsDb) where
  pub recover_shape :
      ((recover_orphaned_job now job retryable db).0.jobs
        ≡ update_by row_id job.id (λ r. is_running r.status) (orphan_requeued now) db.jobs)
      ⊎ ((recover_orphaned_job now job retryable db).0.jobs
          ≡ update_by row_id job.id (λ r. is_running r.status) (orphan_failed now) db.jobs)
  unfolding recover_orphaned_job
  recover_shape = ground arith
