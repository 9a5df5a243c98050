-- ===== src/Jobs/QueueTests.antt =====
-- The theorems on enqueueing and on delays at concrete inputs, and runs of the functions.
use extension_lab.Common.{Option, [], arith, false, none, pos, refl, some, true, ℕ, ◌∷◌, ◌≡◌, ◌≤◌}
use extension_lab.Jobs.Backoff.{IsJitter}
use extension_lab.Jobs.Queries.{
  count_active_jobs_for_user, count_queued_jobs, get_job_by_idempotency_key, new_row,
}
use extension_lab.Jobs.Queue.{
  EnqueueOptions, Enqueued, QueueConfig, backpressure, create_job, enqueue_input, enqueue_job, err,
  interactive, ok, queue_full,
}
use extension_lab.Jobs.Queueing.{KeepsJobs, enqueue_job_bounded}
use extension_lab.Jobs.Retry.{BackoffOptions, Classified, backoff_delay}
use extension_lab.Jobs.Row.{JobRow, JobsDb, automated_test, type_index}
use extension_lab.Jobs.Tests.{table}
use extension_lab.Sql.Defs.{count_where, find_by, find_where, insert_row}

abbrev config : QueueConfig
config = record {
  max_queue_length = 4;
  max_queued_per_user = 3;
  max_retries = 2;
  priority_interactive = pos 10;
  priority_enterprise = pos 8;
  priority_ci = pos 5;
  priority_normal = pos 0;
}

abbrev options : EnqueueOptions
options = record {
  type = automated_test;
  user_id = some 8;
  organization_id = none;
  priority_class = some interactive;
  payload = "{}";
  max_attempts = none;
  priority = none;
  idempotency_key = some 200;
  resource_type = none;
  resource_id = none;
  run_after = none;
  skip_backpressure = false;
  max_active_per_user = none;
}

abbrev no_extra_work : JobRow → JobsDb → Option JobsDb
no_extra_work job db = some db

no_extra_work-KeepsJobs : KeepsJobs no_extra_work
no_extra_work-KeepsJobs job db db' e = ground arith

abbrev new_job : JobRow
new_job = new_row 20 9 (enqueue_input config options)

abbrev out : Enqueued
out = record {
  db = record {
    jobs = insert_row new_job table.jobs;
    job_events =
        record {
          id = 1;
          job_id = 9;
          kind = "state";
          stage = some "Queued";
          payload = "{\"type\":\"state\",\"state\":\"queued\",\"stage\":\"Queued\"}";
          created_at = 20;
        }
        ∷ [];
    next_event_id = 2;
  };
  job = new_job;
  created = true;
}

enqueue_table : enqueue_job no_extra_work config 20 9 options table ≡ ok out
unfolding enqueue_job get_job_by_idempotency_key find_where backpressure count_queued_jobs
    count_where count_active_jobs_for_user type_index create_job find_by insert_row
enqueue_table = refl

-- A full queue refuses the job.
enqueue_full :
    enqueue_job no_extra_work (record config { max_queue_length = 2 }) 20 9 options table
    ≡ err queue_full
unfolding enqueue_job get_job_by_idempotency_key find_where backpressure count_queued_jobs
    count_where
enqueue_full = refl

enqueue_job_bounded_example : count_queued_jobs none out.db ≤ 4
enqueue_job_bounded_example =
    enqueue_job_bounded no_extra_work no_extra_work-KeepsJobs config 20 9 options table out
      enqueue_table refl refl

abbrev no_jitter : ℕ → ℕ
no_jitter n = 0

no_jitter-IsJitter : IsJitter no_jitter
no_jitter-IsJitter n = omega arith

abbrev no_options : BackoffOptions
no_options = record { base_ms = none; max_ms = none; jitter = none }

third_delay : backoff_delay no_jitter 3 no_options ≡ 4000
unfolding backoff_delay
third_delay = refl

abbrev unavailable : Classified
unavailable = record { code = "SANDBOX_UNAVAILABLE"; retryable = true; user_message = "…" }
