-- ===== src/Jobs/Queueing.antt =====
-- What enqueueJob, resolvePriority and queuePosition promise (lib/jobs/queue.ts,
-- lib/db/repositories/jobs.ts).
use extension_lab.Common.{
  Bool, Option, Option-cases, ap, arith, coalesce, false, inl, inr, ltb_ℤ, negsuc, none, pos, some,
  sym, true, ℕ, ℤ, ◌&&◌, ◌+◌, ◌<◌, ◌∙◌, ◌≡◌, ◌≤◌, ◌⊎◌,
}
use extension_lab.Jobs.Queries.{
  NewJob, append_job_event, count_active_jobs_for_user, count_queued_jobs,
  get_job_by_idempotency_key, insert_job, is_own, key_taken, new_row, queue_position, runs_before,
}
use extension_lab.Jobs.Queue.{
  EnqueueOptions, Enqueued, JobPriorityClass, QueueConfig, backpressure, by_class, clamp_priority,
  create_job, enqueue_input, enqueue_job, existing_job, ok, per_user_cap, resolve_priority,
}
use extension_lab.Jobs.Row.{
  JobRow, JobsDb, find_job, is_active_job_status, is_waiting, row_id, same_type,
}
use extension_lab.Jobs.Tests.{row}
use extension_lab.Sql.Defs.{count_where, find_where, insert_row}
use extension_lab.Sql.Laws.{count_where-insert, count_where-lt, find_where-insert}

clamp_priority_bounds :
    (base : ℤ)
    → (ltb_ℤ (clamp_priority base) (negsuc 99) ≡ false)
      × (ltb_ℤ (pos 100) (clamp_priority base) ≡ false)
unfolding clamp_priority
clamp_priority_bounds base = ground arith

-- A resolved priority never leaves the range from -100 to 100, whatever the class or the caller's
-- number is.
pub resolve_priority_bounds :
    (priority : Option ℤ) (class : Option JobPriorityClass) (config : QueueConfig)
    → (ltb_ℤ (resolve_priority priority class config) (negsuc 99) ≡ false)
      × (ltb_ℤ (pos 100) (resolve_priority priority class config) ≡ false)
unfolding resolve_priority
resolve_priority_bounds priority none config =
    clamp_priority_bounds (coalesce priority config.priority_normal)
resolve_priority_bounds priority (some c) config = clamp_priority_bounds (by_class config c)

abbrev ahead_of : JobRow → JobRow → Bool
ahead_of job r = same_type r.type job.type && is_waiting r.status && runs_before r job

runs_before_trans :
    (x y z : JobRow) → runs_before x y ≡ true → runs_before y z ≡ true → runs_before x z ≡ true
unfolding runs_before
runs_before_trans x y z h k = ground arith

runs_before_irrefl : (x : JobRow) → runs_before x x ≡ false
unfolding runs_before
runs_before_irrefl x = ground arith

module _ (db : JobsDb) (id : ℕ) (a : JobRow) (here : find_job id db.jobs ≡ some a)
    (waits : is_waiting a.status ≡ true) where
  -- The position of a waiting job is at least 1 and at most the number of waiting jobs of its type.
  pub queue_position_bounds :
      (p : ℕ) × (queue_position a db ≡ some p) × (1 ≤ p) × (p ≤ count_queued_jobs (some a.type) db)
  unfolding queue_position count_queued_jobs
  queue_position_bounds = (
    count_where (ahead_of a) db.jobs + 1,
    rw waits,
    omega arith,
    omega (
      arith,
      count_where-lt row_id (ahead_of a) (λ r. same_type r.type a.type && is_waiting r.status)
          (λ r h. ground arith) id db.jobs a here (ground (arith, runs_before_irrefl a))
          (ground arith),
    ),
  )

  -- Of two waiting jobs of a type, the one that runs before the other has the smaller position.
  pub queue_position_mono :
      (b : JobRow) (p q : ℕ)
      → is_waiting b.status ≡ true
      → a.type ≡ b.type
      → runs_before a b ≡ true
      → queue_position a db ≡ some p
      → queue_position b db ≡ some q
      → p < q
  unfolding queue_position
  queue_position_mono b p q waits' same before e f = ground (
    arith,
    count_where-lt row_id (ahead_of a) (ahead_of b) (λ r h. ground (arith, runs_before_trans r a b))
        id db.jobs a here (ground (arith, runs_before_irrefl a)) (ground arith),
  )

-- The work of `within` writes other tables: it leaves the jobs as they are.
abbrev pub KeepsJobs : (JobRow → JobsDb → Option JobsDb) → Type 0
KeepsJobs within = (job : JobRow) (db db' : JobsDb) → within job db ≡ some db' → db'.jobs ≡ db.jobs

-- What an enqueue that creates a job has done to the table.
abbrev Created : ℕ → ℕ → QueueConfig → EnqueueOptions → JobsDb → Enqueued → Type 0
Created now generated config options db out =
    (out.job ≡ new_row now generated (enqueue_input config options))
    × (out.db.jobs ≡ insert_row out.job db.jobs)
    × (key_taken options.idempotency_key db ≡ false)
    × (out.created ≡ true)

module _ (within : JobRow → JobsDb → Option JobsDb) (keeps : KeepsJobs within)
    (config : QueueConfig) (now generated : ℕ) (options : EnqueueOptions) (db : JobsDb)
    (out : Enqueued) where
  insert_job-inversion :
      (input : NewJob) (job : JobRow) (db' : JobsDb)
      → insert_job now generated input db ≡ some (job, db')
      → (job ≡ new_row now generated input)
        × (db'.jobs ≡ insert_row job db.jobs)
        × (key_taken input.idempotency_key db ≡ false)
  unfolding insert_job
  insert_job-inversion input job db' e = ground arith

  create_job-Created :
      create_job within config now generated options db ≡ ok out
      → Created now generated config options db out
  unfolding create_job append_job_event
  create_job-Created e =
      elim (Option-cases (insert_job now generated (enqueue_input config options) db)) [
        | inl f ↦ absurd (ground arith)
        | inr ((job, db'), f) ↦ elim (Option-cases (within job db')) [
          | inl g ↦ absurd (ground arith)
          | inr (db'', g) ↦
              let (row, written, free) =
                insert_job-inversion (enqueue_input config options) job db' f in
              let kept = keeps job db' db'' g in
              (ground arith, ground arith, ground arith, ground arith)
        ]
      ]

  -- An enqueue either finds a job with its key, and writes nothing, or passes the back-pressure
  -- checks and creates one.
  enqueue_job-inversion :
      enqueue_job within config now generated options db ≡ ok out
      → ((key : ℕ) × (options.idempotency_key ≡ some key)
          × (get_job_by_idempotency_key key db ≡ some out.job)
          × (out.db ≡ db)
          × (out.created ≡ false))
        ⊎ (backpressure config options db ≡ none) × Created now generated config options db out
  unfolding enqueue_job
  enqueue_job-inversion e = elim (Option-cases options.idempotency_key) [
    | inl u ↦ inr (passed (ground arith))
    | inr (key, u) ↦ elim (Option-cases (get_job_by_idempotency_key key db)) [
      | inl v ↦ inr (passed (ground arith))
      | inr (job, v) ↦ inl (key, u, ground arith, ground arith, ground arith)
    ]
  ]
    where
      passed :
          existing_job options db ≡ none
          → (backpressure config options db ≡ none) × Created now generated config options db out
      passed u = elim (Option-cases (backpressure config options db)) [
        | inl v ↦ (v, create_job-Created (ground arith))
        | inr (x, v) ↦ absurd (ground arith)
      ]

count_queued-new :
    (within : JobRow → JobsDb → Option JobsDb) (config : QueueConfig) (now generated : ℕ)
    (options : EnqueueOptions) (db : JobsDb) (out : Enqueued)
    → Created now generated config options db out
    → (count_queued_jobs none out.db ≡ count_queued_jobs none db + 1)
      × ((user : ℕ)
          → count_active_jobs_for_user user (some options.type) out.db
            ≤ count_active_jobs_for_user user (some options.type) db + 1)
unfolding count_queued_jobs count_active_jobs_for_user
count_queued-new within config now generated options db out (row, written, free, made) = (
  rw written
      (ground (arith, count_where-insert (λ r. true && is_waiting r.status) out.job db.jobs)),
  λ user. rw written (
      ground (
        arith,
        count_where-insert
            (λ r.
              is_own user r.user_id
              && same_type r.type options.type
              && is_active_job_status r.status)
            out.job db.jobs,
      )),
)

module _ (within : JobRow → JobsDb → Option JobsDb) (keeps : KeepsJobs within)
    (config : QueueConfig) (now generated : ℕ) (options : EnqueueOptions) (db : JobsDb)
    (out : Enqueued) (done : enqueue_job within config now generated options db ≡ ok out) where
  -- An enqueue with back-pressure that creates a job leaves at most `maxQueueLength` jobs waiting.
  pub enqueue_job_bounded :
      options.skip_backpressure ≡ false
      → out.created ≡ true
      → count_queued_jobs none out.db ≤ config.max_queue_length
  unfolding backpressure
  enqueue_job_bounded checked made =
      elim (enqueue_job-inversion within keeps config now generated options db out done) [
        | inl (key, u, v, w, x) ↦ absurd (ground arith)
        | inr (pass, c) ↦
            ground (arith, count_queued-new within config now generated options db out c)
      ]

  -- An enqueue with back-pressure that creates a job leaves its user at most the per-user cap of
  -- active jobs of its type.
  pub enqueue_job_user_bounded :
      (user : ℕ)
      → options.skip_backpressure ≡ false
      → out.created ≡ true
      → options.user_id ≡ some user
      → count_active_jobs_for_user user (some options.type) out.db ≤ per_user_cap config options
  unfolding backpressure
  enqueue_job_user_bounded user checked made own =
      elim (enqueue_job-inversion within keeps config now generated options db out done) [
        | inl (key, u, v, w, x) ↦ absurd (ground arith)
        | inr (pass, c) ↦
            ground (arith, (count_queued-new within config now generated options db out c).1 user)
      ]

  found_after :
      (key : ℕ)
      → options.idempotency_key ≡ some key
      → get_job_by_idempotency_key key out.db ≡ some out.job
  unfolding get_job_by_idempotency_key
  found_after key k =
      elim (enqueue_job-inversion within keeps config now generated options db out done) [
        | inl (other, u, v, w, x) ↦
            let same : other ≡ key = ground arith in
            ap (get_job_by_idempotency_key key) w
            ∙ ap (λ k. get_job_by_idempotency_key k db) (sym same)
            ∙ v
        | inr (pass, c) ↦
            ap (find_where (λ r. is_own key r.idempotency_key)) c.1
            ∙ ground (
              arith,
              find_where-insert (λ r. is_own key r.idempotency_key) out.job db.jobs,
              c.0,
              c.2,
            )
      ]

  -- An enqueue is idempotent: repeating it with the same key, at any later time and with any other
  -- options, creates nothing, writes nothing and answers the same job.
  pub enqueue_job_idempotent :
      (later other key : ℕ) (again : EnqueueOptions)
      → options.idempotency_key ≡ some key
      → again.idempotency_key ≡ some key
      → enqueue_job within config later other again out.db
        ≡ ok (record { db = out.db; job = out.job; created = false })
  unfolding enqueue_job
  enqueue_job_idempotent later other key again k l = let found = found_after key k in ground arith
