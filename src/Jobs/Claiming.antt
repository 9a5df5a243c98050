-- ===== src/Jobs/Claiming.antt =====
-- What claimNextJob of lib/db/repositories/jobs.ts returns and writes.
use extension_lab.Common.{
  All, Bool-cases, List, Option, Option-cases, [], ap, arith, false, holds, includes, inl, inr, ltb,
  max, none, not, refl, some, true, ℕ, ◌+◌, ◌∙◌, ◌∷◌, ◌≡◌, ◌≢◌, ◌≤◌,
}
use extension_lab.Jobs.Claim.{
  ClaimInput, candidates, claim_next_job, claim_row, claimed_row, first_fair, includes_type,
  is_claimable, is_empty, pick_fair_candidate, scan_limit,
}
use extension_lab.Jobs.Queries.{runs_before}
use extension_lab.Jobs.Row.{JobRow, JobsDb, find_job, is_waiting, row_id, running}
use extension_lab.Sql.Defs.{IsKeyed, update_by}
use extension_lab.Sql.Laws.{changes_by_lem, find_by-update_by, update_by-IsKeyed}
use extension_lab.Sql.Order.{
  All-found, All-map, All-order_by, All-select_where, All-take, IsRanking, first-holds,
}

pub runs_before-IsRanking : IsRanking runs_before
unfolding runs_before
runs_before-IsRanking = record {
  asymmetric = λ x y h. ground arith;
  tied = λ x y z h k. ground arith;
}

-- A candidate is a row of the table that the WHERE clause lets through.
abbrev pub Claimable : ℕ → ClaimInput → JobsDb → JobRow → Type 0
Claimable now input db r = (is_claimable now input r ≡ true) × (find_job r.id db.jobs ≡ some r)

-- An organization is below its cap, or there is none.
abbrev pub IsBelow : (ℕ → ℕ) → (ℕ → ℕ) → JobRow → Type 0
IsBelow org_cap in_use c =
    holds (λ org. not (ltb (in_use org) (max 1 (org_cap org)))) c.organization_id ≡ false

pub first_fair-picks :
    (P : JobRow → Type 0) (org_cap in_use : ℕ → ℕ) (cs : List JobRow) (c : JobRow)
    → All P cs
    → first_fair org_cap in_use cs ≡ some c
    → P c × IsBelow org_cap in_use c
unfolding first_fair
first_fair-picks P org_cap in_use [] c a e = ground arith
first_fair-picks P org_cap in_use (x ∷ cs) c a e =
    ground (arith, first_fair-picks P org_cap in_use cs c a.1)

module _ (now : ℕ) (input : ClaimInput) (db : JobsDb) (keyed : IsKeyed row_id db.jobs) where
  pub candidates-Claimable : All (Claimable now input db) (candidates now input db)
  unfolding candidates
  candidates-Claimable = All-take (Claimable now input db) (scan_limit input) _ (
      All-order_by (Claimable now input db) runs_before _ (
        All-select_where (Claimable now input db) (is_claimable now input) db.jobs (
          All-map (λ r. find_job r.id db.jobs ≡ some r)
            (λ r. is_claimable now input r ≡ true → Claimable now input db r) (λ r f h. (h, f))
            db.jobs (All-found row_id db.jobs keyed))))

  pub picked-Claimable :
      (o : Option (ℕ → ℕ)) (c : JobRow)
      → pick_fair_candidate o db (candidates now input db) ≡ some c
      → Claimable now input db c
  unfolding pick_fair_candidate
  picked-Claimable none c e =
      first-holds (Claimable now input db) (candidates now input db) c candidates-Claimable e
  picked-Claimable (some org_cap) c e =
      (first_fair-picks (Claimable now input db) org_cap _ (candidates now input db) c
        candidates-Claimable e).0

pub claim_next_job-inversion :
    (now : ℕ) (input : ClaimInput) (db db' : JobsDb) (job : JobRow)
    → claim_next_job now input db ≡ (db', some job)
    → (c : JobRow) × (pick_fair_candidate input.org_concurrency db (candidates now input db)
        ≡ some c)
      × (claim_row now input c db ≡ (db', some job))
unfolding claim_next_job
claim_next_job-inversion now input db db' job e = elim (Bool-cases (is_empty input.types)) [
  | inl t ↦ absurd (ground arith)
  | inr t ↦
      elim (Option-cases (pick_fair_candidate input.org_concurrency db (candidates now input db))) [
        | inl f ↦ absurd (ground arith)
        | inr (c, f) ↦ (c, f, ground arith)
      ]
]

pub claimable_waiting :
    (now : ℕ) (input : ClaimInput) (r : JobRow)
    → is_claimable now input r ≡ true
    → is_waiting r.status ≡ true
unfolding is_claimable
claimable_waiting now input r h = ground arith

-- What a claim that returns a job has done, in terms of the row that it took.
pub record Claimed (now : ℕ) (input : ClaimInput) (db db' : JobsDb) (job c : JobRow) : Type 0 where
  pub taken : find_job c.id db.jobs ≡ some c
  pub claimable : is_claimable now input c ≡ true
  pub returned : job ≡ claimed_row now input c
  pub stored : find_job c.id db'.jobs ≡ some job
  pub written :
      db'.jobs ≡ update_by row_id c.id (λ r. is_waiting r.status) (claimed_row now input) db.jobs
  pub others : (j : ℕ) → j ≢ c.id → find_job j db'.jobs ≡ find_job j db.jobs

pub claim_row-ne-none :
    (now : ℕ) (input : ClaimInput) (db : JobsDb)
    → IsKeyed row_id db.jobs
    → (c : JobRow) → Claimable now input db c
    → (claim_row now input c db).1 ≢ none
unfolding claim_row
claim_row-ne-none now input db keyed c (claimable, taken) =
    let waits = claimable_waiting now input c claimable in
    let found =
      find_by-update_by row_id c.id (λ r. is_waiting r.status) (claimed_row now input)
        (λ r. refl) in
    ground (
      arith,
      found c.id db.jobs,
      changes_by_lem row_id c.id (λ r. is_waiting r.status) db.jobs keyed,
    )

pub Claimed-IsKeyed :
    (now : ℕ) (input : ClaimInput) (db db' : JobsDb) (job c : JobRow)
    → IsKeyed row_id db.jobs
    → Claimed now input db db' job c
    → IsKeyed row_id db'.jobs
Claimed-IsKeyed now input db db' job c keyed k = rw k.written (
    update_by-IsKeyed row_id c.id (λ r. is_waiting r.status) (claimed_row now input) (λ r. refl)
      db.jobs keyed)

module _ (now : ℕ) (input : ClaimInput) (db db' : JobsDb) (job : JobRow)
    (keyed : IsKeyed row_id db.jobs) (e : claim_next_job now input db ≡ (db', some job)) where
  pub claim_row-Claimed :
      (c : JobRow)
      → Claimable now input db c
      → claim_row now input c db ≡ (db', some job)
      → Claimed now input db db' job c
  unfolding claim_row
  claim_row-Claimed c (claimable, taken) f =
      let written : db'.jobs
          ≡ update_by row_id c.id (λ r. is_waiting r.status) (claimed_row now input) db.jobs =
        ground arith in
      let waits = claimable_waiting now input c claimable in
      let found =
        find_by-update_by row_id c.id (λ r. is_waiting r.status) (claimed_row now input)
          (λ r. refl) in
      record {
        taken = taken;
        claimable = claimable;
        returned = ground (arith, found c.id db.jobs);
        stored = ground (arith, found c.id db.jobs);
        written = written;
        others = λ j ne. ap (find_job j) written ∙ ground (arith, found j db.jobs);
      }

  pub claim_next_job-Claimed : (c : JobRow) × Claimed now input db db' job c
  claim_next_job-Claimed =
      let (c, picked, f) = claim_next_job-inversion now input db db' job e in
      (
        c,
        claim_row-Claimed c (picked-Claimable now input db keyed input.org_concurrency c picked) f,
      )

  -- A job that a claim returns was waiting, due, of one of the types and of no excluded user; it is
  -- now stored as running under the worker, with a lease and one attempt more; no other job is
  -- touched.
  pub claim_next_job_lem :
      (c : JobRow) × Claimable now input db c
      × (c.run_after ≤ now)
      × (is_waiting c.status ≡ true)
      × (includes_type input.types c.type ≡ true)
      × (holds (includes input.exclude_user_ids) c.user_id ≡ false)
      × (find_job c.id db'.jobs ≡ some job)
      × (job.id ≡ c.id)
      × (job.status ≡ running)
      × (job.worker_id ≡ some input.worker_id)
      × (job.lease_expires_at ≡ some (now + input.lease_ms))
      × (job.attempts ≡ c.attempts + 1)
      × ((j : ℕ) → j ≢ c.id → find_job j db'.jobs ≡ find_job j db.jobs)
  unfolding is_claimable
  claim_next_job_lem =
      let (c, k) = claim_next_job-Claimed in
      let may = k.claimable in
      (
        c,
        (may, k.taken),
        ground arith,
        ground arith,
        ground arith,
        ground arith,
        k.stored,
        ap (λ r. r.id) k.returned,
        ap (λ r. r.status) k.returned,
        ap (λ r. r.worker_id) k.returned,
        ap (λ r. r.lease_expires_at) k.returned,
        ap (λ r. r.attempts) k.returned,
        k.others,
      )
