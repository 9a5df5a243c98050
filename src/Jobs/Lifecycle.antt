-- ===== src/Jobs/Lifecycle.antt =====
-- How one operation moves a job: the edges of the status diagram.
use mathlib.Core.Path.{subst}
use extension_lab.Common.{
  Bool, List, ap, arith, inl, inr, refl, some, sym, true, ℕ, ◌+◌, ◌∙◌, ◌≡◌, ◌⊎◌,
}
use extension_lab.Jobs.Claim.{ClaimInput, claimed_row}
use extension_lab.Jobs.Ops.{
  Op, apply, cancel, claim, complete, delete_finished, expire, fail, insert, mark, recover, redact,
  renew, requeue, retry,
}
use extension_lab.Jobs.Queries.{NewJob, insert_job, new_row}
use extension_lab.Jobs.Row.{
  JobRow, JobStatus, JobsDb, cancelled, completed, expired, failed, find_job, is_active_job_status,
  is_failed, is_running, is_waiting, queued, retrying, row_id, running,
}
use extension_lab.Jobs.Shapes.{claim_next_job_shape, recover_shape, request_cancel_shape}
use extension_lab.Jobs.Updates.{
  cancelled_row, complete_job, completed_row, delete_finished_jobs_before, expire_job, expired_row,
  fail_job, failed_row, flagged_row, held_by, is_finished_before, mark_cancelled, marked_row,
  orphan_failed, orphan_requeued, redact_job_payload, renew_lease, renewed, requeue_failed_job,
  requeued_row, retrying_row, schedule_retry,
}
use extension_lab.Sql.Defs.{IsKeyed, update_by}
use extension_lab.Sql.Laws.{find_by-delete, find_by-insert, find_by-update_by}

-- The edges of the diagram of statuses.
pub data Edge : JobStatus → JobStatus → Type 0 where
  stays : {s : JobStatus} → Edge s s
  starts : {s : JobStatus} → is_waiting s ≡ true → Edge s running
  completes : {s : JobStatus} → is_running s ≡ true → Edge s completed
  retries : {s : JobStatus} → is_running s ≡ true → Edge s retrying
  fails : {s : JobStatus} → is_active_job_status s ≡ true → Edge s failed
  cancels : {s : JobStatus} → is_active_job_status s ≡ true → Edge s cancelled
  expires : {s : JobStatus} → is_active_job_status s ≡ true → Edge s expired
  requeues : {s : JobStatus} → is_failed s ≡ true → Edge s queued

-- The number of attempts after an edge.
abbrev pub counted : {r s : JobStatus} → Edge r s → ℕ → ℕ
counted (starts g) n = n + 1
counted _ n = n

-- What an operation leaves of a job: its identity, and the number of attempts, which goes up by
-- one when it starts, and at no other edge.
pub record Moves (r s : JobRow) : Type 0 where
  pub edge : Edge r.status s.status
  pub type_kept : s.type ≡ r.type
  pub owner_kept : s.user_id ≡ r.user_id
  pub organization_kept : s.organization_id ≡ r.organization_id
  pub limit_kept : s.max_attempts ≡ r.max_attempts
  pub priority_kept : s.priority ≡ r.priority
  pub attempts_counted : s.attempts ≡ counted edge r.attempts

abbrev kept :
    {r s : JobRow}
    → (e : Edge r.status s.status) → s.type ≡ r.type
    → s.user_id ≡ r.user_id
    → s.organization_id ≡ r.organization_id
    → s.max_attempts ≡ r.max_attempts
    → s.priority ≡ r.priority
    → s.attempts ≡ counted e r.attempts
    → Moves r s
kept e t u o m p a = record {
  edge = e;
  type_kept = t;
  owner_kept = u;
  organization_kept = o;
  limit_kept = m;
  priority_kept = p;
  attempts_counted = a;
}

Moves-refl : (r : JobRow) → Moves r r
Moves-refl r = kept stays refl refl refl refl refl refl

running_active : (s : JobStatus) → is_running s ≡ true → is_active_job_status s ≡ true
running_active s h = ground arith

waiting_active : (s : JobStatus) → is_waiting s ≡ true → is_active_job_status s ≡ true
waiting_active s h = ground arith

updated_or_same :
    (j : ℕ) (t : List JobRow) (r s : JobRow)
    → find_job j t ≡ some r
    → (id : ℕ) (guard : JobRow → Bool) (f : JobRow → JobRow) → ((x : JobRow) → (f x).id ≡ x.id)
    → find_job j (update_by row_id id guard f t) ≡ some s
    → (s ≡ r) ⊎ ((guard r ≡ true) × (s ≡ f r))
updated_or_same j t r s before id guard f same after =
    ground (arith, find_by-update_by row_id id guard f same j t)

module _ (j : ℕ) (db : JobsDb) (r s : JobRow) (before : find_job j db.jobs ≡ some r) where
  update_job-Moves :
      (id : ℕ) (guard : JobRow → Bool) (f : JobRow → JobRow)
      → ((x : JobRow) → (f x).id ≡ x.id)
      → (guard r ≡ true → Moves r (f r))
      → find_job j (update_by row_id id guard f db.jobs) ≡ some s
      → Moves r s
  update_job-Moves id guard f same moves after =
      elim (updated_or_same j db.jobs r s before id guard f same after) [
        | inl e ↦ subst (Moves r) (sym e) (Moves-refl r)
        | inr (g, e) ↦ subst (Moves r) (sym e) (moves g)
      ]

  same-Moves : find_job j db.jobs ≡ some s → Moves r s
  same-Moves after = let e : r ≡ s = ground arith in subst (Moves r) e (Moves-refl r)

  insert_job-Moves :
      (now generated : ℕ) (input : NewJob)
      → find_job j (apply now (insert generated input) db).jobs ≡ some s
      → Moves r s
  unfolding apply insert_job
  insert_job-Moves now generated input after =
      same-Moves (ground (arith, find_by-insert row_id (new_row now generated input) j db.jobs))

  claim_next_job-Moves :
      (now : ℕ) (input : ClaimInput)
      → find_job j (apply now (claim input) db).jobs ≡ some s
      → Moves r s
  unfolding apply
  claim_next_job-Moves now input after = elim (claim_next_job_shape now input db) [
    | inl e ↦ same-Moves (ap (find_job j) (sym e) ∙ after)
    | inr (c, _, e) ↦
        update_job-Moves c.id _ (claimed_row now input) (λ x. refl)
          (λ g. record {
            edge = starts g;
            type_kept = refl;
            owner_kept = refl;
            organization_kept = refl;
            limit_kept = refl;
            priority_kept = refl;
            attempts_counted = refl;
          })
          (ap (find_job j) (sym e) ∙ after)
  ]

  request_cancel-Moves :
      (now id : ℕ) → find_job j (apply now (cancel id) db).jobs ≡ some s → Moves r s
  unfolding apply
  request_cancel-Moves now id after = elim (request_cancel_shape now id db) [
    | inl e ↦ same-Moves (ap (find_job j) (sym e) ∙ after)
    | inr (inl e) ↦
        update_job-Moves id _ (cancelled_row now) (λ x. refl)
          (λ g. kept (cancels (waiting_active _ g)) refl refl refl refl refl refl)
          (ap (find_job j) (sym e) ∙ after)
    | inr (inr (_, _, _, e)) ↦
        update_job-Moves id _ (flagged_row now) (λ x. refl)
          (λ g. kept stays refl refl refl refl refl refl) (ap (find_job j) (sym e) ∙ after)
  ]

  recover_orphaned_job-Moves :
      (now : ℕ) (job : JobRow) (retryable : Bool)
      → find_job j (apply now (recover job retryable) db).jobs ≡ some s
      → Moves r s
  unfolding apply
  recover_orphaned_job-Moves now job retryable after = elim (recover_shape now job retryable db) [
    | inl e ↦
        update_job-Moves job.id _ (orphan_requeued now) (λ x. refl)
          (λ g. kept (retries g) refl refl refl refl refl refl) (ap (find_job j) (sym e) ∙ after)
    | inr e ↦
        update_job-Moves job.id _ (orphan_failed now) (λ x. refl)
          (λ g. kept (fails (running_active _ g)) refl refl refl refl refl refl)
          (ap (find_job j) (sym e) ∙ after)
  ]

  -- Every operation, by any worker at any time, moves a job along an edge of the diagram or not at
  -- all, keeps its type, owner, limit and priority, and counts an attempt exactly when it starts it.
  pub apply-Moves :
      (now : ℕ) (o : Op)
      → IsKeyed row_id db.jobs
      → find_job j (apply now o db).jobs ≡ some s
      → Moves r s
  unfolding apply renew_lease complete_job fail_job requeue_failed_job schedule_retry expire_job
      mark_cancelled delete_finished_jobs_before redact_job_payload
  apply-Moves now (insert generated input) k after = insert_job-Moves now generated input after
  apply-Moves now (claim input) k after = claim_next_job-Moves now input after
  apply-Moves now (renew id worker lease_ms) k after =
      update_job-Moves id (held_by worker) (renewed now lease_ms) (λ x. refl)
        (λ g. kept stays refl refl refl refl refl refl) after
  apply-Moves now (complete id result) k after =
      update_job-Moves id _ (completed_row now result) (λ x. refl)
        (λ g. kept (completes g) refl refl refl refl refl refl) after
  apply-Moves now (fail id code message) k after =
      update_job-Moves id _ (failed_row now code message) (λ x. refl)
        (λ g. kept (fails g) refl refl refl refl refl refl) after
  apply-Moves now (requeue id) k after =
      update_job-Moves id _ (requeued_row now) (λ x. refl)
        (λ g. kept (requeues g) refl refl refl refl refl refl) after
  apply-Moves now (retry id run_after code message) k after =
      update_job-Moves id _ (retrying_row now run_after code message) (λ x. refl)
        (λ g. kept (retries g) refl refl refl refl refl refl) after
  apply-Moves now (expire id code) k after =
      update_job-Moves id _ (expired_row now code) (λ x. refl)
        (λ g. kept (expires g) refl refl refl refl refl refl) after
  apply-Moves now (cancel id) k after = request_cancel-Moves now id after
  apply-Moves now (mark id) k after =
      update_job-Moves id _ (marked_row now) (λ x. refl)
        (λ g. kept (cancels g) refl refl refl refl refl refl) after
  apply-Moves now (recover job retryable) k after =
      recover_orphaned_job-Moves now job retryable after
  apply-Moves now (delete_finished cutoff) k after =
      same-Moves (ground (arith, find_by-delete row_id (is_finished_before cutoff) j db.jobs k))
  apply-Moves now (redact id) k after =
      update_job-Moves id _ _ (λ x. refl) (λ g. kept stays refl refl refl refl refl refl) after
