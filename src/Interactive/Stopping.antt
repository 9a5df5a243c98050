-- ===== src/Interactive/Stopping.antt =====
-- destroyInteractiveSession, stopInteractiveSession, requireCommandableSession and keepaliveSession of
-- lib/interactive/service.ts. What `runtime_json` says of a container is a parameter.
use extension_lab.Common.{
  Bool, List, Option, String, [], false, if◌then◌else◌, is_some, none, some, true, ℕ, ◌&&◌, ◌∷◌,
}
use extension_lab.Billing.Quota.{release_reservation_for_resource}
use extension_lab.Interactive.World.{
  Result, World, browser_session_expired, browser_session_not_found, event_input, log_event,
  log_events, ok, session_not_ready, thrown,
}
use extension_lab.Jobs.Queue.{cancel_job}
use extension_lab.Sessions.Events.{SessionEventInput}
use extension_lab.Sessions.Row.{
  SessionRow, SessionStatus, active, created, find_session, idle, is_commandable,
  is_terminal_session_status, ready, starting, stopped, stopping,
}
use extension_lab.Sessions.Updates.{
  TransitionFields, get_owned_session, no_fields, touch_session_activity, transition_session,
}

-- A row as parseRuntimeInfo reads it: `none` if it has no runtime, else whether that names a container.
abbrev pub RuntimeOf : Type 0
RuntimeOf = SessionRow → Option Bool

pub record DestroyOptions : Type 0 where
  pub from : List SessionStatus
  pub to : SessionStatus
  pub stop_reason : String
  pub state_reason : String
  pub release_quota : Bool
  pub events : List SessionEventInput

abbrev pub ending_fields : ℕ → DestroyOptions → TransitionFields
ending_fields now o = record no_fields {
  state_reason = some o.state_reason;
  stop_reason = some (some o.stop_reason);
  stopped_at = some (some now);
}

abbrev pub has_container : Option Bool → Bool
has_container (some named) = named
has_container none = false

-- What follows a transition that was won: events, the container, the reservation. The driver's failure to
-- remove a container is only counted.
unfoldable pub clean_up : RuntimeOf → ℕ → SessionRow → DestroyOptions → World → World
clean_up runtime_of now row o w =
    let logged = log_events now row.id o.events w in
    let freed =
      if has_container (runtime_of row)
      then record logged { removed = row.id ∷ logged.removed }
      else logged in
    if o.release_quota && is_some row.quota_reservation_id
    then record freed { billing = (release_reservation_for_resource now row.id freed.billing).0 }
    else freed

unfoldable pub destroy_interactive_session :
    RuntimeOf → ℕ → SessionRow → DestroyOptions → World → World × Option SessionRow
destroy_interactive_session runtime_of now row o w =
    let moved = transition_session now row.id o.from o.to (ending_fields now o) w.sessions in
    let w' = clean_up runtime_of now row o (record w { sessions = moved.0 }) in
    elim moved.1 [
      | none ↦ (record w { sessions = moved.0 }, none)
      | some updated ↦ (w', find_session row.id w'.sessions)
    ]

abbrev pub live_statuses : List SessionStatus
live_statuses = SessionStatus.queued ∷ starting ∷ ready ∷ active ∷ idle ∷ stopping ∷ []

abbrev pub by_user : DestroyOptions
by_user = record {
  from = created ∷ live_statuses;
  to = stopped;
  stop_reason = "stopped_by_user";
  state_reason = "Session stopped by the user.";
  release_quota = true;
  events = event_input "session_stopped" "info" "Session stopped and resources cleaned up." ∷ [];
}

-- cancelJob of the start job, if there is one.
abbrev pub cancel_start : ℕ → Option ℕ → World → World
cancel_start now none w = w
cancel_start now (some job) w = record w { jobs = (cancel_job now job w.jobs).0 }

unfoldable pub stop_interactive_session :
    RuntimeOf → ℕ → ℕ → ℕ → World → Result (World × Option SessionRow)
stop_interactive_session runtime_of now user session w =
    elim (get_owned_session user session w.sessions) [
      | none ↦ thrown browser_session_not_found
      | some row ↦
          let told =
            log_event now row.id
              (event_input "session_stopping" "info" "Stopping the browser session.") w in
          let done =
            destroy_interactive_session runtime_of now row by_user
              (cancel_start now row.job_id told) in
          if is_terminal_session_status row.status
          then ok (w, some row)
          else ok (done.0, if is_some done.1 then done.1 else find_session session done.0.sessions)
    ]

abbrev pub is_expired : SessionStatus → Bool
is_expired SessionStatus.expired = true
is_expired _ = false

unfoldable pub require_commandable_session : ℕ → ℕ → World → Result SessionRow
require_commandable_session user session w = elim (get_owned_session user session w.sessions) [
  | none ↦ thrown browser_session_not_found
  | some row ↦
      if is_expired row.status
      then thrown browser_session_expired
      else if is_commandable row.status
      then ok row
      else thrown session_not_ready
]

unfoldable pub keepalive_session : ℕ → ℕ → ℕ → World → Result (World × Option SessionRow)
keepalive_session now user session w = elim (get_owned_session user session w.sessions) [
  | none ↦ thrown browser_session_not_found
  | some row ↦
      let t = touch_session_activity now row.id w.sessions in
      if is_terminal_session_status row.status
      then thrown browser_session_expired
      else ok (record w { sessions = t }, find_session row.id t)
]
