-- ===== src/Jobs/Row.antt =====
-- The rows of the tables `jobs` and `job_events` (lib/db/schema/types.ts), and the statuses of
-- lib/db/repositories/jobs.ts. Identifiers are compared for equality alone, and are numbers.
use extension_lab.Common.{Bool, List, Option, String, false, true, ℕ, ℤ, ◌==◌}
use extension_lab.Sql.Defs.{find_by}

pub data JobType : Type 0 where
  analysis automated_test report_generation artifact_cleanup email webhook_delivery : JobType
  org_export interactive_browser_start interactive_browser_stop : JobType
  interactive_browser_cleanup : JobType

-- The place of a type in JOB_TYPES.
unfoldable pub type_index : JobType → ℕ
type_index analysis = 0
type_index automated_test = 1
type_index report_generation = 2
type_index artifact_cleanup = 3
type_index email = 4
type_index webhook_delivery = 5
type_index org_export = 6
type_index interactive_browser_start = 7
type_index interactive_browser_stop = 8
type_index interactive_browser_cleanup = 9

abbrev pub same_type : JobType → JobType → Bool
same_type a b = type_index a == type_index b

pub data JobStatus : Type 0 where
  queued running retrying completed failed cancelled expired : JobStatus

-- TERMINAL_JOB_STATUSES
abbrev pub is_terminal_job_status : JobStatus → Bool
is_terminal_job_status completed = true
is_terminal_job_status failed = true
is_terminal_job_status cancelled = true
is_terminal_job_status expired = true
is_terminal_job_status _ = false

-- ACTIVE_JOB_STATUSES: status IN ('queued','running','retrying')
abbrev pub is_active_job_status : JobStatus → Bool
is_active_job_status queued = true
is_active_job_status running = true
is_active_job_status retrying = true
is_active_job_status _ = false

-- status IN ('queued','retrying')
abbrev pub is_waiting : JobStatus → Bool
is_waiting queued = true
is_waiting retrying = true
is_waiting _ = false

-- status = 'running'
abbrev pub is_running : JobStatus → Bool
is_running running = true
is_running _ = false

-- status = 'completed'
abbrev pub is_completed : JobStatus → Bool
is_completed completed = true
is_completed _ = false

-- status = 'cancelled'
abbrev pub is_cancelled : JobStatus → Bool
is_cancelled cancelled = true
is_cancelled _ = false

-- status = 'failed'
abbrev pub is_failed : JobStatus → Bool
is_failed failed = true
is_failed _ = false

pub record JobRow : Type 0 where
  pub id : ℕ
  pub type : JobType
  pub user_id : Option ℕ
  pub organization_id : Option ℕ
  pub status : JobStatus
  pub priority : ℤ
  pub attempts : ℕ
  pub max_attempts : ℕ
  pub payload_json : String
  pub result_json : Option String
  pub error_code : Option String
  pub error_message : Option String
  pub idempotency_key : Option ℕ
  pub resource_type : Option ℕ
  pub resource_id : Option ℕ
  pub worker_id : Option ℕ
  pub lease_expires_at : Option ℕ
  pub run_after : ℕ
  pub cancel_requested_at : Option ℕ
  pub created_at : ℕ
  pub updated_at : ℕ
  pub started_at : Option ℕ
  pub finished_at : Option ℕ

pub record JobEventRow : Type 0 where
  pub id : ℕ
  pub job_id : ℕ
  pub kind : String
  pub stage : Option String
  pub payload : String
  pub created_at : ℕ

-- The two tables, with the AUTOINCREMENT counter of the second.
pub record JobsDb : Type 0 where
  pub jobs : List JobRow
  pub job_events : List JobEventRow
  pub next_event_id : ℕ

abbrev pub row_id : JobRow → ℕ
row_id r = r.id

abbrev pub find_job : ℕ → List JobRow → Option JobRow
find_job = find_by row_id

-- getJobById
unfoldable pub get_job_by_id : ℕ → JobsDb → Option JobRow
get_job_by_id id db = find_job id db.jobs
