-- ===== src/Sessions/Updates.antt =====
-- insertSession, claimStartSlot, transitionSession and touchSessionActivity of
-- lib/db/repositories/browser-sessions.ts, and its lists. Each takes the time of `Date.now()`.
use extension_lab.Common.{
  Bool, List, Option, String, coalesce, false, holds, if◌then◌else◌, is_some, leb, ltb, none, not,
  some, true, ℕ, ◌&&◌, ◌+◌, ◌==◌,
}
use extension_lab.Sessions.Row.{
  SessionRow, SessionStatus, active, created, find_session, holds_slot, includes_status,
  is_admitted, is_idle, is_queued, is_ready_or_active, is_terminal_session_status, session_key,
  starting,
}
use extension_lab.Sql.Defs.{
  changes_by, count_where, delete_where, insert_row, select_where, update_by,
}

pub record NewSession : Type 0 where
  pub user_id : ℕ
  pub organization_id : Option ℕ
  pub extension_id : Option ℕ
  pub package_id : ℕ
  pub package_version : Option String
  pub package_sha256 : String
  pub browser : String
  pub viewport_width : ℕ
  pub viewport_height : ℕ
  pub initial_url : Option String
  pub extension_info_json : String
  pub quota_reservation_id : Option ℕ
  pub request_id : Option ℕ
  pub expires_at : ℕ

abbrev pub new_session : ℕ → ℕ → NewSession → SessionRow
new_session now id input = record {
  id = id;
  user_id = input.user_id;
  organization_id = input.organization_id;
  extension_id = input.extension_id;
  package_id = some input.package_id;
  package_version = input.package_version;
  package_sha256 = input.package_sha256;
  browser = input.browser;
  browser_version = none;
  status = created;
  state_reason = some "Session created.";
  stop_reason = none;
  initial_url = input.initial_url;
  current_url = none;
  viewport_width = input.viewport_width;
  viewport_height = input.viewport_height;
  popup_open = false;
  popup_width = none;
  popup_height = none;
  artifact_count = 0;
  extension_info_json = input.extension_info_json;
  runtime_json = "{}";
  quota_reservation_id = input.quota_reservation_id;
  job_id = none;
  request_id = input.request_id;
  created_at = now;
  updated_at = now;
  started_at = none;
  ready_at = none;
  last_activity_at = some now;
  expires_at = input.expires_at;
  stopped_at = none;
}

-- `none` is the exception of a broken PRIMARY KEY.
unfoldable pub insert_session :
    ℕ → ℕ → NewSession → List SessionRow → Option (SessionRow × List SessionRow)
insert_session now id input t =
    let row = new_session now id input in
    if is_some (find_session id t) then none else some (row, insert_row row t)

unfoldable pub get_owned_session : ℕ → ℕ → List SessionRow → Option SessionRow
get_owned_session user id t = elim (find_session id t) [
  | none ↦ none
  | some row ↦ if row.user_id == user then some row else none
]

-- The load that claimStartSlot counts: sessions with a runtime slot, but for one.
abbrev pub counts_for : (SessionRow → Bool) → ℕ → SessionRow → Bool
counts_for p id r = (holds_slot r.status && p r) && not (r.id == id)

unfoldable pub slots_used : (SessionRow → Bool) → ℕ → List SessionRow → ℕ
slots_used p id t = count_where (counts_for p id) t

abbrev pub of_user : ℕ → SessionRow → Bool
of_user user r = r.user_id == user

abbrev pub of_organization : ℕ → SessionRow → Bool
of_organization org r = holds (λ o. o == org) r.organization_id

pub record SlotLimits : Type 0 where
  pub global_limit : ℕ
  pub user_limit : ℕ
  pub org_limit : ℕ

pub data SlotResult : Type 0 where
  claimed : Option SessionRow → SlotResult
  capacity : SlotResult

abbrev pub starting_row : ℕ → SessionRow → SessionRow
starting_row now r = record r {
  status = starting;
  state_reason = some "Starting disposable browser.";
  started_at = some now;
  updated_at = now;
}

-- The checks of claimStartSlot on the queued row that was read.
unfoldable pub has_capacity : SlotLimits → SessionRow → List SessionRow → Bool
has_capacity limits row t =
    ltb (slots_used (λ r. true) row.id t) limits.global_limit
    && ltb (slots_used (of_user row.user_id) row.id t) limits.user_limit
    && not (
        holds (λ org. leb limits.org_limit (slots_used (of_organization org) row.id t))
          row.organization_id)

abbrev pub claim_slot_row :
    ℕ → SlotLimits → SessionRow → List SessionRow → List SessionRow × SlotResult
claim_slot_row now limits row t =
    let t' = update_by session_key row.id (λ r. is_queued r.status) (starting_row now) t in
    if not (is_queued row.status)
    then (t, claimed none)
    else if has_capacity limits row t
    then (t', claimed (find_session row.id t'))
    else (t, capacity)

unfoldable pub claim_start_slot :
    ℕ → ℕ → SlotLimits → List SessionRow → List SessionRow × SlotResult
claim_start_slot now session_id limits t = elim (find_session session_id t) [
  | none ↦ (t, claimed none)
  | some row ↦ claim_slot_row now limits row t
]

-- The optional fields of transitionSession; `none` is `undefined`, and leaves the column alone.
pub record TransitionFields : Type 0 where
  pub state_reason : Option String
  pub stop_reason : Option (Option String)
  pub browser_version : Option (Option String)
  pub current_url : Option (Option String)
  pub runtime_json : Option String
  pub job_id : Option (Option ℕ)
  pub popup_open : Option Bool
  pub popup_width : Option (Option ℕ)
  pub popup_height : Option (Option ℕ)
  pub artifact_count : Option ℕ
  pub viewport_width : Option ℕ
  pub viewport_height : Option ℕ
  pub stopped_at : Option (Option ℕ)
  pub ready_at : Option (Option ℕ)
  pub touch_activity : Bool

abbrev pub no_fields : TransitionFields
no_fields = record {
  state_reason = none;
  stop_reason = none;
  browser_version = none;
  current_url = none;
  runtime_json = none;
  job_id = none;
  popup_open = none;
  popup_width = none;
  popup_height = none;
  artifact_count = none;
  viewport_width = none;
  viewport_height = none;
  stopped_at = none;
  ready_at = none;
  touch_activity = false;
}

unfoldable pub transition_row : ℕ → SessionStatus → TransitionFields → SessionRow → SessionRow
transition_row now to f r = record r {
  status = to;
  updated_at = now;
  state_reason = if is_some f.state_reason then f.state_reason else r.state_reason;
  stop_reason = coalesce f.stop_reason r.stop_reason;
  browser_version = coalesce f.browser_version r.browser_version;
  current_url = coalesce f.current_url r.current_url;
  runtime_json = coalesce f.runtime_json r.runtime_json;
  job_id = coalesce f.job_id r.job_id;
  popup_open = coalesce f.popup_open r.popup_open;
  popup_width = coalesce f.popup_width r.popup_width;
  popup_height = coalesce f.popup_height r.popup_height;
  artifact_count = coalesce f.artifact_count r.artifact_count;
  viewport_width = coalesce f.viewport_width r.viewport_width;
  viewport_height = coalesce f.viewport_height r.viewport_height;
  stopped_at = coalesce f.stopped_at r.stopped_at;
  ready_at = coalesce f.ready_at r.ready_at;
  last_activity_at = if f.touch_activity then some now else r.last_activity_at;
}

unfoldable pub transition_session :
    ℕ
    → ℕ
    → List SessionStatus
    → SessionStatus
    → TransitionFields
    → List SessionRow
    → List SessionRow × Option SessionRow
transition_session now id from to fields t =
    let guard = λ (r : SessionRow). includes_status from r.status in
    let t' = update_by session_key id guard (transition_row now to fields) t in
    (t', if changes_by session_key id guard t then find_session id t' else none)

abbrev pub touched_row : ℕ → SessionRow → SessionRow
touched_row now r = record r {
  last_activity_at = some now;
  updated_at = now;
  status = if is_idle r.status then active else r.status;
}

unfoldable pub touch_session_activity : ℕ → ℕ → List SessionRow → List SessionRow
touch_session_activity now id t = update_by session_key id (λ r. true) (touched_row now) t

-- Not terminal, and past the hard deadline.
unfoldable pub list_expired_sessions : ℕ → List SessionRow → List SessionRow
list_expired_sessions now t =
    select_where (λ r. leb r.expires_at now && not (is_terminal_session_status r.status)) t

-- `last_activity_at <= now - idleMs`, with the subtraction carried over.
unfoldable pub list_idle_sessions : ℕ → ℕ → List SessionRow → List SessionRow
list_idle_sessions idle_ms now t =
    select_where
      (λ r. is_ready_or_active r.status && holds (λ at. leb (at + idle_ms) now) r.last_activity_at)
      t

-- `updated_at <= now - graceMs`
abbrev pub is_idle_expired : ℕ → ℕ → SessionRow → Bool
is_idle_expired grace_ms now r = is_idle r.status && leb (r.updated_at + grace_ms) now

unfoldable pub list_idle_expired_sessions : ℕ → ℕ → List SessionRow → List SessionRow
list_idle_expired_sessions grace_ms now t = select_where (is_idle_expired grace_ms now) t

unfoldable pub list_admitted_sessions : List SessionRow → List SessionRow
list_admitted_sessions t = select_where (λ r. is_admitted r.status) t

unfoldable pub delete_sessions_for_user : ℕ → List SessionRow → List SessionRow × ℕ
delete_sessions_for_user user t = (delete_where (of_user user) t, count_where (of_user user) t)
