-- ===== src/Jobs/Queue.antt =====
-- enqueueJob, resolvePriority, cancelJob and isJobFinished of lib/jobs/queue.ts.
use extension_lab.Common.{
  Bool, Option, String, coalesce, false, holds, if◌then◌else◌, leb, max, max_ℤ, min_ℤ, negsuc, none,
  pos, some, true, ℕ, ℤ, ◌+◌,
}
use extension_lab.Jobs.Queries.{
  NewJob, append_job_event, count_active_jobs_for_user, count_queued_jobs,
  get_job_by_idempotency_key, insert_job,
}
use extension_lab.Jobs.Row.{
  JobRow, JobStatus, JobType, JobsDb, cancelled, get_job_by_id, is_terminal_job_status,
}
use extension_lab.Jobs.Updates.{request_cancel}

pub data JobPriorityClass : Type 0 where
  interactive enterprise ci normal : JobPriorityClass

-- The settings of lib/config/env.ts that the queue reads.
pub record QueueConfig : Type 0 where
  pub max_queue_length : ℕ
  pub max_queued_per_user : ℕ
  pub max_retries : ℕ
  pub priority_interactive : ℤ
  pub priority_enterprise : ℤ
  pub priority_ci : ℤ
  pub priority_normal : ℤ

abbrev pub by_class : QueueConfig → JobPriorityClass → ℤ
by_class c interactive = c.priority_interactive
by_class c enterprise = c.priority_enterprise
by_class c ci = c.priority_ci
by_class c normal = c.priority_normal

-- Math.max(-100, Math.min(100, Math.floor(base))), for a whole number `base`.
unfoldable pub clamp_priority : ℤ → ℤ
clamp_priority base = max_ℤ (negsuc 99) (min_ℤ (pos 100) base)

unfoldable pub resolve_priority : Option ℤ → Option JobPriorityClass → QueueConfig → ℤ
unfolding clamp_priority
resolve_priority priority none config = clamp_priority (coalesce priority config.priority_normal)
resolve_priority priority (some c) config = clamp_priority (by_class config c)

pub record EnqueueOptions : Type 0 where
  pub type : JobType
  pub user_id : Option ℕ
  pub organization_id : Option ℕ
  pub priority_class : Option JobPriorityClass
  pub payload : String
  pub max_attempts : Option ℕ
  pub priority : Option ℤ
  pub idempotency_key : Option ℕ
  pub resource_type : Option ℕ
  pub resource_id : Option ℕ
  pub run_after : Option ℕ
  pub skip_backpressure : Bool
  pub max_active_per_user : Option ℕ

-- What ends an enqueue: an AppError, or the exception of a broken constraint. Either rolls the
-- transaction back.
pub data EnqueueError : Type 0 where
  queue_full concurrency_limit constraint_failed : EnqueueError

pub record Enqueued : Type 0 where
  pub db : JobsDb
  pub job : JobRow
  pub created : Bool

pub data EnqueueResult : Type 0 where
  ok : Enqueued → EnqueueResult
  err : EnqueueError → EnqueueResult

abbrev pub per_user_cap : QueueConfig → EnqueueOptions → ℕ
per_user_cap config options =
    max (coalesce options.max_active_per_user 0) config.max_queued_per_user

-- The back-pressure checks; `none` lets the job in.
unfoldable pub backpressure : QueueConfig → EnqueueOptions → JobsDb → Option EnqueueError
backpressure config options db =
    if options.skip_backpressure
    then none
    else if leb config.max_queue_length (count_queued_jobs none db)
    then some queue_full
    else if holds
        (λ user.
          leb (per_user_cap config options)
            (count_active_jobs_for_user user (some options.type) db))
        options.user_id
    then some concurrency_limit
    else none

abbrev pub enqueue_input : QueueConfig → EnqueueOptions → NewJob
enqueue_input config options = record {
  id = none;
  type = options.type;
  user_id = options.user_id;
  organization_id = options.organization_id;
  payload = options.payload;
  max_attempts = coalesce options.max_attempts (config.max_retries + 1);
  priority = some (resolve_priority options.priority options.priority_class config);
  idempotency_key = options.idempotency_key;
  resource_type = options.resource_type;
  resource_id = options.resource_id;
  run_after = options.run_after;
}

-- `within` is the extra work of the same transaction; `none` is its exception.
unfoldable pub create_job :
    (JobRow → JobsDb → Option JobsDb)
    → QueueConfig
    → ℕ
    → ℕ
    → EnqueueOptions
    → JobsDb
    → EnqueueResult
unfolding insert_job append_job_event
create_job within config now generated options db =
    elim (insert_job now generated (enqueue_input config options) db) [
      | none ↦ err constraint_failed
      | some (job, db') ↦ elim (within job db') [
        | none ↦ err constraint_failed
        | some db'' ↦ ok (record {
          db =
              (append_job_event now job.id "state" (some "Queued")
                "{\"type\":\"state\",\"state\":\"queued\",\"stage\":\"Queued\"}" db'').0;
          job = job;
          created = true;
        })
      ]
    ]

-- `options.idempotencyKey ? getJobByIdempotencyKey(…) : undefined`
abbrev pub existing_job : EnqueueOptions → JobsDb → Option JobRow
existing_job options db = elim options.idempotency_key [
  | none ↦ none
  | some key ↦ get_job_by_idempotency_key key db
]

unfoldable pub enqueue_job :
    (JobRow → JobsDb → Option JobsDb)
    → QueueConfig
    → ℕ
    → ℕ
    → EnqueueOptions
    → JobsDb
    → EnqueueResult
enqueue_job within config now generated options db = elim (existing_job options db) [
  | some existing ↦ ok (record { db = db; job = existing; created = false })
  | none ↦ elim (backpressure config options db) [
    | some e ↦ err e
    | none ↦ create_job within config now generated options db
  ]
]

-- cancelJob: the request, and an event if it changed something.
abbrev cancel_event : Option JobStatus → Option String × String
cancel_event (some cancelled) =
    (some "Completed", "{\"type\":\"state\",\"state\":\"cancelled\",\"cancelRequested\":true}")
cancel_event other = (none, "{\"type\":\"state\",\"state\":\"stopping\",\"cancelRequested\":true}")

unfoldable pub cancel_job : ℕ → ℕ → JobsDb → JobsDb × Option JobStatus × Bool
unfolding request_cancel append_job_event
cancel_job now job_id db =
    let (db', status, changed) = request_cancel now job_id db in
    let (stage, payload) = cancel_event status in
    if changed
    then ((append_job_event now job_id "state" stage payload db').0, status, changed)
    else (db', status, changed)

unfoldable pub is_job_finished : ℕ → JobsDb → Bool
unfolding get_job_by_id
is_job_finished job_id db = elim (get_job_by_id job_id db) [
  | none ↦ true
  | some job ↦ is_terminal_job_status job.status
]
