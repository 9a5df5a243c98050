-- ===== src/Jobs/Fairness.antt =====
-- The fairness caps of pickFairCandidate (lib/db/repositories/jobs.ts).
use extension_lab.Common.{Bool, ap, arith, max, some, sym, true, ℕ, ◌&&◌, ◌+◌, ◌∙◌, ◌≡◌, ◌≤◌}
use extension_lab.Jobs.Claim.{
  ClaimInput, candidates, claim_next_job, claimed_row, is_claimable, pick_fair_candidate,
}
use extension_lab.Jobs.Claiming.{
  Claimable, candidates-Claimable, claim_next_job-inversion, claim_row-Claimed, claimable_waiting,
  first_fair-picks, picked-Claimable,
}
use extension_lab.Jobs.Queries.{count_running_jobs_for_organization, is_own}
use extension_lab.Jobs.Row.{JobRow, JobsDb, is_running, is_waiting, row_id}
use extension_lab.Sql.Defs.{IsKeyed, count_where}
use extension_lab.Sql.Laws.{count_where-update_by}
use extension_lab.Sql.Order.{All-map}

abbrev running_of : ℕ → JobRow → Bool
running_of org r = is_own org r.organization_id && is_running r.status

-- Under fairness caps, the organization of the claimed job was below its cap (at least 1), and its
-- number of running jobs goes up by exactly one, so that it does not pass the cap.
pub claim_next_job_fair :
    (now : ℕ) (input : ClaimInput) (db db' : JobsDb) (job : JobRow) (org_cap : ℕ → ℕ) (org : ℕ)
    → IsKeyed row_id db.jobs
    → input.org_concurrency ≡ some org_cap
    → claim_next_job now input db ≡ (db', some job)
    → job.organization_id ≡ some org
    → (count_running_jobs_for_organization org db' ≡ count_running_jobs_for_organization org db + 1)
      × (count_running_jobs_for_organization org db' ≤ max 1 (org_cap org))
unfolding pick_fair_candidate count_running_jobs_for_organization
claim_next_job_fair now input db db' job org_cap org keyed capped e owner =
    let (c, picked, f) = claim_next_job-inversion now input db db' job e in
    let k =
      claim_row-Claimed now input db db' job keyed e c
        (picked-Claimable now input db keyed input.org_concurrency c picked) f in
    let waits = claimable_waiting now input c k.claimable in
    let pick =
      ap (λ caps. pick_fair_candidate caps db (candidates now input db)) (sym capped) ∙ picked in
    let (_, below) =
      first_fair-picks (λ r. is_claimable now input r ≡ true) org_cap _ (candidates now input db) c
        (All-map (Claimable now input db) (λ r. is_claimable now input r ≡ true) (λ r h. h.0) _
          (candidates-Claimable now input db keyed))
        pick in
    let counted =
      count_where-update_by row_id (running_of org) (λ r. is_waiting r.status)
        (claimed_row now input) c.id db.jobs c keyed k.taken waits in
    let written = ap (count_where (running_of org)) k.written in
    let same : c.organization_id ≡ some org =
      ap (λ r. r.organization_id) (sym k.returned) ∙ owner in
    ground arith
