-- ===== src/Jobs/Claim.antt =====
-- claimNextJob and pickFairCandidate of lib/db/repositories/jobs.ts.
use extension_lab.Common.{
  Bool, List, Option, [], coalesce, false, holds, if◌then◌else◌, includes, leb, ltb, max, min, none,
  not, some, take, true, ℕ, ◌&&◌, ◌+◌, ◌||◌, ◌∷◌,
}
use extension_lab.Jobs.Queries.{count_running_jobs_for_organization, runs_before}
use extension_lab.Jobs.Row.{
  JobRow, JobType, JobsDb, find_job, is_waiting, row_id, running, same_type,
}
use extension_lab.Sql.Defs.{changes_by, first, order_by, select_where, update_by}

pub record ClaimInput : Type 0 where
  pub worker_id : ℕ
  pub types : List JobType
  pub lease_ms : ℕ
  pub exclude_user_ids : List ℕ
  pub org_concurrency : Option (ℕ → ℕ)
  pub scan_limit : Option ℕ

unfoldable pub includes_type : List JobType → JobType → Bool
includes_type [] t = false
includes_type (x ∷ xs) t = same_type t x || includes_type xs t

-- status IN ('queued','retrying') AND run_after <= ? AND type IN (…)
-- AND (user_id IS NULL OR user_id NOT IN (…))
unfoldable pub is_claimable : ℕ → ClaimInput → JobRow → Bool
is_claimable now input r =
    is_waiting r.status
    && leb r.run_after now
    && includes_type input.types r.type
    && not (holds (includes input.exclude_user_ids) r.user_id)

-- Math.min(Math.max(input.scanLimit ?? 50, 1), 500)
unfoldable pub scan_limit : ClaimInput → ℕ
scan_limit input = min (max (coalesce input.scan_limit 50) 1) 500

unfoldable pub candidates : ℕ → ClaimInput → JobsDb → List JobRow
candidates now input db =
    take (scan_limit input) (order_by runs_before (select_where (is_claimable now input) db.jobs))

-- The loop of pickFairCandidate: `in_use` is its map `runningByOrg`.
unfoldable pub first_fair : (ℕ → ℕ) → (ℕ → ℕ) → List JobRow → Option JobRow
first_fair org_cap in_use [] = none
first_fair org_cap in_use (c ∷ cs) = elim c.organization_id [
  | none ↦ some c
  | some org ↦
      let rest = first_fair org_cap in_use cs in
      if ltb (in_use org) (max 1 (org_cap org)) then some c else rest
]

unfoldable pub pick_fair_candidate : Option (ℕ → ℕ) → JobsDb → List JobRow → Option JobRow
pick_fair_candidate none db cs = first cs
pick_fair_candidate (some org_cap) db cs =
    first_fair org_cap (λ org. count_running_jobs_for_organization org db) cs

abbrev pub claimed_row : ℕ → ClaimInput → JobRow → JobRow
claimed_row now input r = record r {
  status = running;
  worker_id = some input.worker_id;
  lease_expires_at = some (now + input.lease_ms);
  attempts = r.attempts + 1;
  started_at = some (coalesce r.started_at now);
  updated_at = now;
}

abbrev pub is_empty {ℓ} : {A : Type ℓ} → List A → Bool
is_empty [] = true
is_empty (x ∷ xs) = false

-- The UPDATE … RETURNING of claimNextJob at the candidate that was picked.
unfoldable pub claim_row : ℕ → ClaimInput → JobRow → JobsDb → JobsDb × Option JobRow
claim_row now input c db =
    let db' = record db {
      jobs = update_by row_id c.id (λ r. is_waiting r.status) (claimed_row now input) db.jobs;
    } in
    (
      db',
      if changes_by row_id c.id (λ r. is_waiting r.status) db.jobs
          then find_job c.id db'.jobs
          else none,
    )

unfoldable pub claim_next_job : ℕ → ClaimInput → JobsDb → JobsDb × Option JobRow
claim_next_job now input db =
    if is_empty input.types
    then (db, none)
    else elim (pick_fair_candidate input.org_concurrency db (candidates now input db)) [
      | none ↦ (db, none)
      | some c ↦ claim_row now input c db
    ]
