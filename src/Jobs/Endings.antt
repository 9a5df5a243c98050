-- ===== src/Jobs/Endings.antt =====
-- How jobs end (lib/db/repositories/jobs.ts): one winner for each ending.
use extension_lab.Common.{
  Bool, Option, Option-cases, String, ap, arith, false, holds, inl, inr, refl, sym, true, ℕ, ◌∙◌,
  ◌≡◌,
}
use extension_lab.Jobs.Row.{JobRow, JobsDb, find_job, is_active_job_status, is_running, row_id}
use extension_lab.Jobs.Updates.{
  complete_job, completed_row, expire_job, expired_row, fail_job, failed_row, mark_cancelled,
  marked_row, update_job,
}
use extension_lab.Sql.Defs.{IsKeyed, changes_by}
use extension_lab.Sql.Laws.{changes_by_lem, find_by-update_by, update_by-IsKeyed, update_by-refused}

-- The calls that end an active job.
pub data Ending : Type 0 where
  by_completion : Option String → Ending
  by_failure : String → Option String → Ending
  by_expiry : String → Ending
  by_cancellation : Ending

unfoldable pub end_job : ℕ → ℕ → Ending → JobsDb → JobsDb × Bool
unfolding complete_job fail_job expire_job mark_cancelled
end_job now id (by_completion result) db = complete_job now id result db
end_job now id (by_failure code message) db = fail_job now id code message db
end_job now id (by_expiry code) db = expire_job now id code db
end_job now id by_cancellation db = mark_cancelled now id db

abbrev ending_guard : Ending → JobRow → Bool
ending_guard (by_completion result) r = is_running r.status
ending_guard _ r = is_active_job_status r.status

abbrev ended_row : ℕ → Ending → JobRow → JobRow
ended_row now (by_completion result) = completed_row now result
ended_row now (by_failure code message) = failed_row now code message
ended_row now (by_expiry code) = expired_row now code
ended_row now by_cancellation = marked_row now

end_job_update :
    (now id : ℕ) (e : Ending) (db : JobsDb)
    → end_job now id e db ≡ update_job id (ending_guard e) (ended_row now e) db
unfolding end_job
end_job_update now id (by_completion result) db = refl
end_job_update now id (by_failure code message) db = refl
end_job_update now id (by_expiry code) db = refl
end_job_update now id by_cancellation db = refl

ended_row-id : (now : ℕ) (e : Ending) (r : JobRow) → (ended_row now e r).id ≡ r.id
ended_row-id now (by_completion result) r = refl
ended_row-id now _ r = refl

ended_row-refuses :
    (now : ℕ) (e f : Ending) (r : JobRow) → ending_guard f (ended_row now e r) ≡ false
ended_row-refuses now e f r = ground arith

module _ (db : JobsDb) (keyed : IsKeyed row_id db.jobs) where
  pub update_job_refused :
      (id : ℕ) (guard : JobRow → Bool) (f : JobRow → JobRow)
      → holds guard (find_job id db.jobs) ≡ false
      → update_job id guard f db ≡ (db, false)
  update_job_refused id guard f h = ground (
    arith,
    update_by-refused row_id id guard f db.jobs keyed h,
    changes_by_lem row_id id guard db.jobs keyed,
  )

-- Of two calls that end the same job, by whichever workers, at most one succeeds: after the first
-- success the other reports no change and writes nothing.
pub end_job_once :
    (now later id : ℕ) (e f : Ending) (db : JobsDb)
    → IsKeyed row_id db.jobs
    → (end_job now id e db).1 ≡ true
    → end_job later id f (end_job now id e db).0 ≡ ((end_job now id e db).0, false)
end_job_once now later id e f db keyed h = elim (Option-cases (find_job id db.jobs)) [
  | inl absent ↦
      absurd (ground (arith, changes_by_lem row_id id (ending_guard e) db.jobs keyed, changed))
  | inr (r, here) ↦ rw (end_job_update now id e db) (
      end_job_update later id f _
      ∙ update_job_refused _
          (update_by-IsKeyed row_id id (ending_guard e) (ended_row now e) (ended_row-id now e)
            db.jobs keyed)
          id (ending_guard f) (ended_row later f)
          (ground (
            arith,
            changed,
            here,
            changes_by_lem row_id id (ending_guard e) db.jobs keyed,
            find_by-update_by row_id id (ending_guard e) (ended_row now e) (ended_row-id now e) id
                db.jobs,
            ended_row-refuses now e f r,
          )))
]
  where
    changed : changes_by row_id id (ending_guard e) db.jobs ≡ true
    changed = sym (ap (λ p. p.1) (end_job_update now id e db)) ∙ h
