-- ===== src/Sessions/Row.antt =====
-- The rows of `interactive_browser_sessions` (lib/db/schema/types.ts) and the sets of statuses of
-- lib/db/repositories/browser-sessions.ts. Identifiers are compared for equality alone, and are
-- numbers.
use extension_lab.Common.{Bool, List, Option, String, [], false, true, ℕ, ◌==◌, ◌||◌, ◌∷◌}
use extension_lab.Sql.Defs.{find_by}

pub data SessionStatus : Type 0 where
  created queued starting ready active idle stopping stopped expired failed : SessionStatus

-- TERMINAL_SESSION_STATUSES
abbrev pub is_terminal_session_status : SessionStatus → Bool
is_terminal_session_status stopped = true
is_terminal_session_status expired = true
is_terminal_session_status failed = true
is_terminal_session_status _ = false

-- RUNTIME_SLOT_STATUSES (and LIVE_SESSION_STATUSES)
abbrev pub holds_slot : SessionStatus → Bool
holds_slot starting = true
holds_slot ready = true
holds_slot active = true
holds_slot idle = true
holds_slot stopping = true
holds_slot _ = false

-- ADMITTED_SESSION_STATUSES
abbrev pub is_admitted : SessionStatus → Bool
is_admitted queued = true
is_admitted s = holds_slot s

-- COMMANDABLE_SESSION_STATUSES
abbrev pub is_commandable : SessionStatus → Bool
is_commandable ready = true
is_commandable active = true
is_commandable idle = true
is_commandable _ = false

abbrev pub is_queued : SessionStatus → Bool
is_queued queued = true
is_queued _ = false

abbrev pub is_starting : SessionStatus → Bool
is_starting starting = true
is_starting _ = false

abbrev pub is_idle : SessionStatus → Bool
is_idle idle = true
is_idle _ = false

-- status IN ('READY','ACTIVE')
abbrev pub is_ready_or_active : SessionStatus → Bool
is_ready_or_active ready = true
is_ready_or_active active = true
is_ready_or_active _ = false

unfoldable pub status_index : SessionStatus → ℕ
status_index created = 0
status_index queued = 1
status_index starting = 2
status_index ready = 3
status_index active = 4
status_index idle = 5
status_index stopping = 6
status_index stopped = 7
status_index expired = 8
status_index failed = 9

-- status IN (…) with the list of a caller
unfoldable pub includes_status : List SessionStatus → SessionStatus → Bool
unfolding status_index
includes_status [] s = false
includes_status (x ∷ xs) s = status_index x == status_index s || includes_status xs s

pub record SessionRow : Type 0 where
  pub id : ℕ
  pub user_id : ℕ
  pub organization_id : Option ℕ
  pub extension_id : Option ℕ
  pub package_id : Option ℕ
  pub package_version : Option String
  pub package_sha256 : String
  pub browser : String
  pub browser_version : Option String
  pub status : SessionStatus
  pub state_reason : Option String
  pub stop_reason : Option String
  pub initial_url : Option String
  pub current_url : Option String
  pub viewport_width : ℕ
  pub viewport_height : ℕ
  pub popup_open : Bool
  pub popup_width : Option ℕ
  pub popup_height : Option ℕ
  pub artifact_count : ℕ
  pub extension_info_json : String
  pub runtime_json : String
  pub quota_reservation_id : Option ℕ
  pub job_id : Option ℕ
  pub request_id : Option ℕ
  pub created_at : ℕ
  pub updated_at : ℕ
  pub started_at : Option ℕ
  pub ready_at : Option ℕ
  pub last_activity_at : Option ℕ
  pub expires_at : ℕ
  pub stopped_at : Option ℕ

abbrev pub session_key : SessionRow → ℕ
session_key r = r.id

abbrev pub find_session : ℕ → List SessionRow → Option SessionRow
find_session = find_by session_key
