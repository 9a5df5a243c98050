-- ===== src/Jobs/ClaimOrder.antt =====
-- Which job claimNextJob takes (lib/db/repositories/jobs.ts).
use extension_lab.Common.{
  List, Option, Option-cases, ap, arith, false, inl, inr, none, some, sym, ℕ, ◌&&◌, ◌<◌, ◌∙◌, ◌≡◌,
  ◌≢◌,
}
use extension_lab.Jobs.Claim.{
  ClaimInput, candidates, claim_next_job, is_claimable, is_empty, pick_fair_candidate, scan_limit,
}
use extension_lab.Jobs.Claiming.{
  Claimed-IsKeyed, claim_next_job-Claimed, claim_next_job-inversion, claim_row-Claimed,
  claim_row-ne-none, claimable_waiting, picked-Claimable, runs_before-IsRanking,
}
use extension_lab.Jobs.Queries.{runs_before}
use extension_lab.Jobs.Row.{JobRow, JobsDb, find_job, row_id, running}
use extension_lab.Sql.Defs.{IsKeyed, count_where, first, order_by, select_where}
use extension_lab.Sql.Order.{count_where-of_All, first-take, order_by-least, select_where-nil}

scan_limit_pos : (input : ClaimInput) → 0 < scan_limit input
unfolding scan_limit
scan_limit_pos input = omega arith

uncapped_first :
    (input : ClaimInput) (db : JobsDb) (cs : List JobRow) (o : Option JobRow)
    → input.org_concurrency ≡ none
    → pick_fair_candidate input.org_concurrency db cs ≡ o
    → first cs ≡ o
unfolding pick_fair_candidate
uncapped_first input db cs o uncapped picked =
    ap (λ caps. pick_fair_candidate caps db cs) (sym uncapped) ∙ picked

-- Without fairness caps a claim takes the job that the order of the queue puts first: no job that
-- the claim could have taken runs before the one that it returns.
pub claim_next_job_first :
    (now : ℕ) (input : ClaimInput) (db db' : JobsDb) (job : JobRow)
    → IsKeyed row_id db.jobs
    → input.org_concurrency ≡ none
    → claim_next_job now input db ≡ (db', some job)
    → count_where (λ r. is_claimable now input r && runs_before r job) db.jobs ≡ 0
unfolding runs_before candidates
claim_next_job_first now input db db' job keyed uncapped e =
    let (c, picked, f) = claim_next_job-inversion now input db db' job e in
    let sorted = order_by runs_before (select_where (is_claimable now input) db.jobs) in
    let head : first sorted ≡ some c =
      sym (first-take (scan_limit input) sorted (scan_limit_pos input))
      ∙ uncapped_first input db (candidates now input db) (some c) uncapped picked in
    let k =
      claim_row-Claimed now input db db' job keyed e c
        (picked-Claimable now input db keyed input.org_concurrency c picked) f in
    rw k.returned (
      count_where-of_All (is_claimable now input) (λ r. runs_before r c) db.jobs
        (order_by-least runs_before runs_before-IsRanking c _ head))

-- Without fairness caps a claim for some type comes back with nothing only if no job is claimable.
pub claim_next_job_complete :
    (now : ℕ) (input : ClaimInput) (db : JobsDb)
    → IsKeyed row_id db.jobs
    → is_empty input.types ≡ false
    → input.org_concurrency ≡ none
    → (claim_next_job now input db).1 ≡ none
    → count_where (is_claimable now input) db.jobs ≡ 0
unfolding claim_next_job candidates
claim_next_job_complete now input db keyed typed uncapped e =
    elim (Option-cases (pick_fair_candidate input.org_concurrency db (candidates now input db))) [
      | inl f ↦ select_where-nil runs_before (is_claimable now input) db.jobs (
          sym (first-take (scan_limit input) _ (scan_limit_pos input))
          ∙ uncapped_first input db (candidates now input db) none uncapped f)
      | inr (c, f) ↦ absurd (
          claim_row-ne-none now input db keyed c
            (picked-Claimable now input db keyed input.org_concurrency c f) (ground arith))
    ]

-- Two claims in a row, by any workers, never return the same job.
pub claim_next_job_twice :
    (now later : ℕ) (input other : ClaimInput) (db db' db'' : JobsDb) (job next : JobRow)
    → IsKeyed row_id db.jobs
    → claim_next_job now input db ≡ (db', some job)
    → claim_next_job later other db' ≡ (db'', some next)
    → job.id ≢ next.id
claim_next_job_twice now later input other db db' db'' job next keyed e f same =
    let (c, k) = claim_next_job-Claimed now input db db' job keyed e in
    let (d, l) =
      claim_next_job-Claimed later other db' db'' next
        (Claimed-IsKeyed now input db db' job c keyed k) f in
    let waits = claimable_waiting later other d l.claimable in
    let k_id : job.id ≡ c.id = ap row_id k.returned in
    let l_id : next.id ≡ d.id = ap row_id l.returned in
    let found : some job ≡ some d =
      sym k.stored ∙ ap (λ i. find_job i db'.jobs) (sym k_id ∙ same ∙ l_id) ∙ l.taken in
    let runs : job.status ≡ running = ap (λ r. r.status) k.returned in ground arith
