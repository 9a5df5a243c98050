-- ===== src/Interactive/Sweep.antt =====
-- runInteractiveSweep of lib/interactive/sweep.ts, its first four steps. Artifacts, stray containers and
-- temporary directories, which the other steps delete, are left out. The steps of the sweep await the
-- driver; here none of the other operations comes in between.
use text.Mathlib.Text.{◌==◌ as str_eq}
use extension_lab.Common.{
  Bool, List, Option, String, [], coalesce, false, holds, if◌then◌else◌, is_some, ltb, none, not,
  some, true, ℕ, ◌&&◌, ◌+◌, ◌||◌, ◌∷◌,
}
use extension_lab.Interactive.Stopping.{
  DestroyOptions, RuntimeOf, destroy_interactive_session, has_container, live_statuses,
}
use extension_lab.Interactive.World.{World, event_input, log_event}
use extension_lab.Jobs.Row.{get_job_by_id, is_completed, is_running, is_terminal_job_status}
use extension_lab.Sessions.Row.{
  SessionRow, SessionStatus, active, created, idle, is_commandable, is_queued, is_starting, ready,
}
use extension_lab.Sessions.Updates.{
  TransitionFields, list_admitted_sessions, list_expired_sessions, list_idle_expired_sessions,
  list_idle_sessions, no_fields, transition_session,
}

pub record SweepConfig : Type 0 where
  pub idle_timeout_ms : ℕ
  pub idle_grace_ms : ℕ

pub record SweepReport : Type 0 where
  pub idle_sessions : ℕ
  pub idle_expired_sessions : ℕ
  pub expired_sessions : ℕ
  pub failed_orphans : ℕ

-- Each step maps over the rows that its list gave at its start, with a counter of those that it won.
unfoldable pub sweep_each :
    (SessionRow → World → World × Bool) → List SessionRow → World → World × ℕ
sweep_each step [] w = (w, 0)
sweep_each step (r ∷ rs) w =
    let (w', won) = step r w in
    let (end, n) = sweep_each step rs w' in (end, (if won then 1 else 0) + n)

abbrev pub idle_fields : TransitionFields
idle_fields = record no_fields {
  state_reason = some "No recent activity. The session will expire if it stays idle.";
}

unfoldable pub make_idle : ℕ → SessionRow → World → World × Bool
make_idle now row w =
    let moved = transition_session now row.id (ready ∷ active ∷ []) idle idle_fields w.sessions in
    let w' = record w { sessions = moved.0 } in
    let logged =
      log_event now row.id
        (event_input "session_idle" "warning" "Session idle: no user activity for a while.") w' in
    if is_some moved.1 then (logged, true) else (w', false)

abbrev pub idle_out : DestroyOptions
idle_out = record {
  from = idle ∷ [];
  to = SessionStatus.expired;
  stop_reason = "idle_timeout";
  state_reason = "The session expired after being idle.";
  release_quota = true;
  events = event_input "session_expired" "warning" "Session expired: idle timeout reached." ∷ [];
}

abbrev pub outlived : DestroyOptions
outlived = record {
  from = created ∷ live_statuses;
  to = SessionStatus.expired;
  stop_reason = "max_lifetime";
  state_reason = "The session reached its maximum lifetime.";
  release_quota = true;
  events =
      event_input "session_expired" "warning" "Session expired: maximum lifetime reached." ∷ [];
}

unfoldable pub destroy_by : RuntimeOf → ℕ → DestroyOptions → SessionRow → World → World × Bool
destroy_by runtime_of now o row w =
    let (w', ended) = destroy_interactive_session runtime_of now row o w in (w', is_some ended)

pub data OrphanReason : Type 0 where
  start_limit_exhausted start_failed browser_crash start_abandoned : OrphanReason

-- The start job ended, and did not succeed.
unfoldable pub failed_start : World → SessionRow → Option OrphanReason
failed_start w row = elim row.job_id [
  | none ↦ none
  | some id ↦ elim (get_job_by_id id w.jobs) [
    | none ↦ none
    | some job ↦
        let limited = holds (λ code. str_eq code "BROWSER_SESSION_LIMIT") job.error_code in
        if is_terminal_job_status job.status && not (is_completed job.status)
        then some (if limited then start_limit_exhausted else start_failed)
        else none
  ]
]

-- `now - (started_at ?? created_at) > 5 minutes`, with the subtraction carried over.
abbrev pub is_abandoned : ℕ → SessionRow → Bool
is_abandoned now row = ltb (coalesce row.started_at row.created_at + 300000) now

abbrev pub or_reason : Option OrphanReason → Option OrphanReason → Option OrphanReason
or_reason none other = other
or_reason (some reason) other = some reason

-- The reason why a session is taken for an orphan, if it is; `is_running` is the driver's answer.
unfoldable pub orphan_reason :
    RuntimeOf → (SessionRow → Bool) → ℕ → World → SessionRow → Option OrphanReason
orphan_reason runtime_of is_running now w row =
    or_reason (if is_starting row.status || is_queued row.status then failed_start w row else none)
      (or_reason
        (if has_container (runtime_of row)
            && not (is_running row)
            && (is_commandable row.status || is_starting row.status)
          then some browser_crash
          else none)
        (if is_starting row.status && not (is_some (runtime_of row)) && is_abandoned now row
          then some start_abandoned
          else none))

abbrev pub reason_text : OrphanReason → String
reason_text start_limit_exhausted = "start_limit_exhausted"
reason_text start_failed = "start_failed"
reason_text browser_crash = "browser_crash"
reason_text start_abandoned = "start_abandoned"

abbrev pub reason_words : OrphanReason → String
reason_words start_limit_exhausted = "Session failed: start limit exhausted."
reason_words start_failed = "Session failed: start failed."
reason_words browser_crash = "Session failed: browser crash."
reason_words start_abandoned = "Session failed: start abandoned."

abbrev pub state_words : OrphanReason → String
state_words browser_crash = "The browser stopped unexpectedly."
state_words _ = "The session could not finish starting and was cleaned up."

abbrev pub orphaned : OrphanReason → DestroyOptions
orphaned reason = record {
  from = live_statuses;
  to = SessionStatus.failed;
  stop_reason = reason_text reason;
  state_reason = state_words reason;
  release_quota = true;
  events =
      event_input "runtime_error" "error" (reason_words reason)
      ∷ event_input "session_stopped" "warning" "Session ended after an infrastructure failure."
      ∷ [];
}

unfoldable pub fail_orphan : RuntimeOf → (SessionRow → Bool) → ℕ → SessionRow → World → World × Bool
fail_orphan runtime_of is_running now row w = elim (orphan_reason runtime_of is_running now w row) [
  | none ↦ (w, false)
  | some reason ↦ destroy_by runtime_of now (orphaned reason) row w
]

unfoldable pub run_interactive_sweep :
    RuntimeOf → (SessionRow → Bool) → SweepConfig → ℕ → World → World × SweepReport
run_interactive_sweep runtime_of is_running config now w =
    let (w1, n1) =
      sweep_each (make_idle now) (list_idle_sessions config.idle_timeout_ms now w.sessions) w in
    let (w2, n2) =
      sweep_each (destroy_by runtime_of now idle_out)
        (list_idle_expired_sessions config.idle_grace_ms now w1.sessions) w1 in
    let (w3, n3) =
      sweep_each (destroy_by runtime_of now outlived) (list_expired_sessions now w2.sessions) w2 in
    let (w4, n4) =
      sweep_each (fail_orphan runtime_of is_running now) (list_admitted_sessions w3.sessions) w3 in
    (
      w4,
      record {
        idle_sessions = n1;
        idle_expired_sessions = n2;
        expired_sessions = n3;
        failed_orphans = n4;
      },
    )
