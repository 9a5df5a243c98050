-- ===== src/Jobs/Histories.antt =====
-- Jobs that ended, over whole histories.
use mathlib.Core.Path.{subst}
use extension_lab.Common.{
  All, Bool, List, Option-cases, [], arith, false, inl, inr, is_some, refl, some, sym, true, ℕ, ◌∙◌,
  ◌∷◌, ◌≡◌, ◌≤◌,
}
use extension_lab.Jobs.Claim.{claimed_row}
use extension_lab.Jobs.Lifecycle.{
  Edge, Moves, apply-Moves, cancels, completes, counted, expires, fails, requeues, retries, starts,
  stays,
}
use extension_lab.Jobs.Ops.{
  Op, apply, cancel, claim, complete, delete_finished, expire, fail, insert, mark, recover, redact,
  renew, requeue, retry, run_ops,
}
use extension_lab.Jobs.Queries.{insert_job, new_row}
use extension_lab.Jobs.Row.{
  JobRow, JobStatus, JobsDb, cancelled, completed, expired, find_job, row_id, same_type,
}
use extension_lab.Jobs.Shapes.{claim_next_job_shape, recover_shape, request_cancel_shape}
use extension_lab.Jobs.Soundness.{apply-IsKeyed}
use extension_lab.Jobs.Updates.{
  cancelled_row, complete_job, completed_row, delete_finished_jobs_before, expire_job, expired_row,
  fail_job, failed_row, flagged_row, held_by, mark_cancelled, marked_row, orphan_failed,
  orphan_requeued, redact_job_payload, renew_lease, renewed, requeue_failed_job, requeued_row,
  retrying_row, schedule_retry,
}
use extension_lab.Sql.Defs.{IsKeyed, update_by}
use extension_lab.Sql.Laws.{find_by-insert, find_by-update_by}

-- Completed, cancelled and expired jobs are settled: no edge leaves their status. A failed job may
-- be requeued by an administrator.
abbrev pub is_settled : JobStatus → Bool
is_settled completed = true
is_settled cancelled = true
is_settled expired = true
is_settled _ = false

abbrev pub is_deletion : Op → Bool
is_deletion (delete_finished cutoff) = true
is_deletion _ = false

Edge-settled : {s t : JobStatus} → Edge s t → is_settled s ≡ true → t ≡ s
Edge-settled stays h = refl
Edge-settled (starts g) h = ground arith
Edge-settled (completes g) h = ground arith
Edge-settled (retries g) h = ground arith
Edge-settled (fails g) h = ground arith
Edge-settled (cancels g) h = ground arith
Edge-settled (expires g) h = ground arith
Edge-settled (requeues g) h = ground arith

-- Along an edge attempts are not lost, and a job that ended counts no more of them.
counted_more : {s t : JobStatus} (e : Edge s t) (n : ℕ) → n ≤ counted e n
counted_more stays n = omega arith
counted_more (starts g) n = omega arith
counted_more (completes g) n = omega arith
counted_more (retries g) n = omega arith
counted_more (fails g) n = omega arith
counted_more (cancels g) n = omega arith
counted_more (expires g) n = omega arith
counted_more (requeues g) n = omega arith

settled_counts : {s t : JobStatus} (e : Edge s t) (n : ℕ) → is_settled s ≡ true → counted e n ≡ n
settled_counts stays n h = refl
settled_counts (starts g) n h = ground arith
settled_counts (completes g) n h = refl
settled_counts (retries g) n h = refl
settled_counts (fails g) n h = refl
settled_counts (cancels g) n h = refl
settled_counts (expires g) n h = refl
settled_counts (requeues g) n h = refl

module _ (j : ℕ) (db : JobsDb) (r : JobRow) (before : find_job j db.jobs ≡ some r) where
  update_job_present :
      (id : ℕ) (guard : JobRow → Bool) (f : JobRow → JobRow)
      → ((x : JobRow) → (f x).id ≡ x.id)
      → is_some (find_job j (update_by row_id id guard f db.jobs)) ≡ true
  update_job_present id guard f same =
      ground (arith, find_by-update_by row_id id guard f same j db.jobs)

  -- Only a deletion takes a job out of the table.
  apply_present :
      (now : ℕ) (o : Op) → is_deletion o ≡ false → is_some (find_job j (apply now o db).jobs) ≡ true
  unfolding apply renew_lease complete_job fail_job requeue_failed_job schedule_retry expire_job
      mark_cancelled delete_finished_jobs_before redact_job_payload insert_job
  apply_present now (insert generated input) k =
      ground (arith, find_by-insert row_id (new_row now generated input) j db.jobs)
  apply_present now (claim input) k = elim (claim_next_job_shape now input db) [
    | inl e ↦ rw e (ground arith)
    | inr (c, _, e) ↦ rw e (update_job_present c.id _ (claimed_row now input) (λ x. refl))
  ]
  apply_present now (renew id worker lease_ms) k =
      update_job_present id (held_by worker) (renewed now lease_ms) (λ x. refl)
  apply_present now (complete id result) k =
      update_job_present id _ (completed_row now result) (λ x. refl)
  apply_present now (fail id code message) k =
      update_job_present id _ (failed_row now code message) (λ x. refl)
  apply_present now (requeue id) k = update_job_present id _ (requeued_row now) (λ x. refl)
  apply_present now (retry id run_after code message) k =
      update_job_present id _ (retrying_row now run_after code message) (λ x. refl)
  apply_present now (expire id code) k = update_job_present id _ (expired_row now code) (λ x. refl)
  apply_present now (cancel id) k = elim (request_cancel_shape now id db) [
    | inl e ↦ rw e (ground arith)
    | inr (inl e) ↦ rw e (update_job_present id _ (cancelled_row now) (λ x. refl))
    | inr (inr (_, _, _, e)) ↦ rw e (update_job_present id _ (flagged_row now) (λ x. refl))
  ]
  apply_present now (mark id) k = update_job_present id _ (marked_row now) (λ x. refl)
  apply_present now (recover job retryable) k = elim (recover_shape now job retryable db) [
    | inl e ↦ rw e (update_job_present job.id _ (orphan_requeued now) (λ x. refl))
    | inr e ↦ rw e (update_job_present job.id _ (orphan_failed now) (λ x. refl))
  ]
  apply_present now (delete_finished cutoff) k = ground arith
  apply_present now (redact id) k = update_job_present id _ _ (λ x. refl)

  -- One operation that deletes nothing finds the job again, moved along an edge.
  apply_found :
      (now : ℕ) (o : Op)
      → is_deletion o ≡ false
      → IsKeyed row_id db.jobs
      → (s : JobRow) × (find_job j (apply now o db).jobs ≡ some s) × Moves r s
  apply_found now o k keyed = elim (Option-cases (find_job j (apply now o db).jobs)) [
    | inl e ↦ absurd (ground (arith, apply_present now o k))
    | inr (s, e) ↦ (s, e, apply-Moves j db r s before now o keyed e)
  ]

abbrev pub DeletesNothing : List (ℕ × Op) → Type 0
DeletesNothing = All (λ step. is_deletion step.1 ≡ false)

-- Over any history without deletions, a job stays in the table, keeps its type, owner and limit, and
-- never loses an attempt.
pub run_ops_kept :
    (os : List (ℕ × Op)) (db : JobsDb) (j : ℕ) (r : JobRow)
    → IsKeyed row_id db.jobs
    → DeletesNothing os
    → find_job j db.jobs ≡ some r
    → (s : JobRow) × (find_job j (run_ops os db).jobs ≡ some s)
      × (s.type ≡ r.type)
      × (s.user_id ≡ r.user_id)
      × (s.max_attempts ≡ r.max_attempts)
      × (r.attempts ≤ s.attempts)
unfolding run_ops
run_ops_kept [] db j r keyed d e = (r, e, refl, refl, refl, omega arith)
run_ops_kept ((now, o) ∷ os) db j r keyed d e =
    let (s, f, m) = apply_found j db r e now o d.0 keyed in
    let (t, g, same_type, same_user, same_limit, more) =
      run_ops_kept os (apply now o db) j s (apply-IsKeyed now db keyed o) d.1 f in
    (
      t,
      g,
      same_type ∙ m.type_kept,
      same_user ∙ m.owner_kept,
      same_limit ∙ m.limit_kept,
      ground (arith, m.attempts_counted, counted_more m.edge r.attempts),
    )

-- A job that completed, was cancelled or expired keeps that status and its number of attempts for
-- good, over any history without deletions.
pub run_ops_settled :
    (os : List (ℕ × Op)) (db : JobsDb) (j : ℕ) (r : JobRow)
    → IsKeyed row_id db.jobs
    → DeletesNothing os
    → find_job j db.jobs ≡ some r
    → is_settled r.status ≡ true
    → (s : JobRow) × (find_job j (run_ops os db).jobs ≡ some s)
      × (s.status ≡ r.status)
      × (s.attempts ≡ r.attempts)
unfolding run_ops
run_ops_settled [] db j r keyed d e h = (r, e, refl, refl)
run_ops_settled ((now, o) ∷ os) db j r keyed d e h =
    let (s, f, m) = apply_found j db r e now o d.0 keyed in
    let still = Edge-settled m.edge h in
    let (t, g, status, attempts) =
      run_ops_settled os (apply now o db) j s (apply-IsKeyed now db keyed o) d.1 f
        (subst (λ x. is_settled x ≡ true) (sym still) h) in
    (t, g, status ∙ still, attempts ∙ m.attempts_counted ∙ settled_counts m.edge r.attempts h)
