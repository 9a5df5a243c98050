-- ===== src/Interactive/Stops.antt =====
-- What stopInteractiveSession of lib/interactive/service.ts promises.
use extension_lab.Common.{
  Bool-cases, List, Option, Option-cases, ap, arith, false, if◌then◌else◌, inl, inr, is_some, none,
  refl, some, true, ℕ, ◌∙◌, ◌≡◌,
}
use extension_lab.Interactive.Lifetimes.{every_live}
use extension_lab.Interactive.Stopping.{
  RuntimeOf, by_user, cancel_start, destroy_interactive_session, ending_fields,
  stop_interactive_session,
}
use extension_lab.Interactive.Sweeps.{destroy-sessions}
use extension_lab.Interactive.World.{World, event_input, log_event, ok}
use extension_lab.Sessions.Row.{
  SessionRow, find_session, is_terminal_session_status, session_key, stopped,
}
use extension_lab.Sessions.Transitions.{transition_found}
use extension_lab.Sessions.Updates.{get_owned_session, transition_row}
use extension_lab.Sql.Defs.{IsKeyed}
use extension_lab.Sql.Laws.{find_by-key}

owned_found :
    (user session : ℕ) (t : List SessionRow) (row : SessionRow)
    → get_owned_session user session t ≡ some row
    → (find_session session t ≡ some row) × (row.user_id ≡ user)
unfolding get_owned_session
owned_found user session t row h = elim (Option-cases (find_session session t)) [
  | inl e ↦ absurd (ground arith)
  | inr (r, e) ↦ (ground arith, ground arith)
]

cancel_start-sessions :
    (now : ℕ) (job : Option ℕ) (w : World) → (cancel_start now job w).sessions ≡ w.sessions
cancel_start-sessions now none w = refl
cancel_start-sessions now (some job) w = refl

module _ (runtime_of : RuntimeOf) (now user session : ℕ) (w : World) (row : SessionRow)
    (keyed : IsKeyed session_key w.sessions)
    (own : get_owned_session user session w.sessions ≡ some row) where
  abbrev told : World
  told =
      log_event now row.id (event_input "session_stopping" "info" "Stopping the browser session.") w

  abbrev stopped_world : World × Option SessionRow
  stopped_world =
      destroy_interactive_session runtime_of now row by_user (cancel_start now row.job_id told)

  stopped_found :
      is_terminal_session_status row.status ≡ false
      → find_session session stopped_world.0.sessions
        ≡ some (transition_row now stopped (ending_fields now by_user) row)
  unfolding log_event
  stopped_found live =
      let (here, mine) = owned_found user session w.sessions row own in
      let at = find_by-key session_key session w.sessions row here in
      let tables : (cancel_start now row.job_id told).sessions ≡ w.sessions =
        cancel_start-sessions now row.job_id told in
      let moved = destroy-sessions runtime_of now row by_user (cancel_start now row.job_id told) in
      ap (find_session session) moved
      ∙ ground (
        arith,
        tables,
        transition_found now row.id by_user.from stopped (ending_fields now by_user) w.sessions
            keyed session,
        every_live row.status,
      )

  -- A stop by the owner always ends the session: it succeeds, whatever the status was and whatever the
  -- driver does, and the session under its identifier is then in a terminal status and still of its
  -- owner; one that had ended is left as it was.
  pub stop_interactive_session_ends :
      (w' : World) × (r : Option SessionRow) × (s : SessionRow) × (stop_interactive_session
          runtime_of now user session w
        ≡ ok (w', r))
      × (find_session session w'.sessions ≡ some s)
      × (is_terminal_session_status s.status ≡ true)
      × (s.user_id ≡ user)
      × (is_terminal_session_status row.status ≡ true → s ≡ row)
  unfolding stop_interactive_session transition_row
  stop_interactive_session_ends =
      let (here, mine) = owned_found user session w.sessions row own in
      elim (Bool-cases (is_terminal_session_status row.status)) [
        | inl ended ↦ (
          w,
          some row,
          row,
          rw (own, stop_interactive_session, ended) refl,
          here,
          ended,
          mine,
          λ _. refl,
        )
        | inr live ↦ (
          stopped_world.0,
          if is_some stopped_world.1
              then stopped_world.1
              else find_session session stopped_world.0.sessions,
          transition_row now stopped (ending_fields now by_user) row,
          rw (own, stop_interactive_session, live) refl,
          stopped_found live,
          refl,
          mine,
          λ ended. absurd (ground arith),
        )
      ]
