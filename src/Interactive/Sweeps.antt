-- ===== src/Interactive/Sweeps.antt =====
-- The steps of the sweep (lib/interactive/sweep.ts) and the destruction of a session
-- (lib/interactive/service.ts), as transitions of sessions.
use extension_lab.Common.{Bool, List, Option-cases, [], arith, inl, inr, refl, true, ℕ, ◌∷◌, ◌≡◌}
use extension_lab.Interactive.Moves.{Moved, Moved-trans, is_live_from, move, still}
use extension_lab.Interactive.Stopping.{
  DestroyOptions, RuntimeOf, clean_up, destroy_interactive_session, ending_fields,
}
use extension_lab.Interactive.Sweep.{
  destroy_by, fail_orphan, idle_fields, make_idle, orphan_reason, orphaned, sweep_each,
}
use extension_lab.Interactive.World.{World, log_event, log_events}
use extension_lab.Jobs.Row.{is_running}
use extension_lab.Sessions.Events.{SessionEventInput}
use extension_lab.Sessions.Row.{
  SessionRow, SessionStatus, active, idle, includes_status, is_terminal_session_status, ready,
}
use extension_lab.Sessions.Updates.{transition_session}

pub log_events-sessions :
    (now session : ℕ) (is : List SessionEventInput) (w : World)
    → (log_events now session is w).sessions ≡ w.sessions
unfolding log_events log_event
log_events-sessions now session [] w = refl
log_events-sessions now session (i ∷ is) w =
    log_events-sessions now session is (log_event now session i w)

clean_up-sessions :
    (runtime_of : RuntimeOf) (now : ℕ) (row : SessionRow) (o : DestroyOptions) (w : World)
    → (clean_up runtime_of now row o w).sessions ≡ w.sessions
unfolding clean_up
clean_up-sessions runtime_of now row o w = ground (arith, log_events-sessions now row.id o.events w)

module _ (runtime_of : RuntimeOf) (now : ℕ) (row : SessionRow) (o : DestroyOptions)
    (w : World) where
  pub destroy-sessions :
      (destroy_interactive_session runtime_of now row o w).0.sessions
      ≡ (transition_session now row.id o.from o.to (ending_fields now o) w.sessions).0
  unfolding destroy_interactive_session
  destroy-sessions =
      let moved = transition_session now row.id o.from o.to (ending_fields now o) w.sessions in
      ground (arith, clean_up-sessions runtime_of now row o (record w { sessions = moved.0 }))

  pub destroy-Moved :
      {only : SessionStatus → Bool}
      → is_live_from o.from ≡ true
      → only o.to ≡ true
      → Moved now only w.sessions (destroy_interactive_session runtime_of now row o w).0.sessions
  destroy-Moved l p = move still row.id o.from o.to (ending_fields now o) l p destroy-sessions

  pub destroy_by-Moved :
      {only : SessionStatus → Bool}
      → is_live_from o.from ≡ true
      → only o.to ≡ true
      → Moved now only w.sessions (destroy_by runtime_of now o row w).0.sessions
  unfolding destroy_by
  destroy_by-Moved l p = destroy-Moved l p

abbrev pub anything : SessionStatus → Bool
anything s = true

pub make_idle-Moved :
    (now : ℕ) (row : SessionRow) (w : World)
    → Moved now anything w.sessions (make_idle now row w).0.sessions
unfolding make_idle log_event includes_status
make_idle-Moved now row w =
    move still row.id (ready ∷ active ∷ []) idle idle_fields (refl) refl (ground arith)

pub fail_orphan-Moved :
    (runtime_of : RuntimeOf) (is_running : SessionRow → Bool) (now : ℕ) (row : SessionRow)
    (w : World)
    → Moved now is_terminal_session_status w.sessions
        (fail_orphan runtime_of is_running now row w).0.sessions
unfolding fail_orphan includes_status
fail_orphan-Moved runtime_of is_running now row w =
    elim (Option-cases (orphan_reason runtime_of is_running now w row)) [
      | inl e ↦ rw (e, fail_orphan) still
      | inr (reason, e) ↦
          rw (e, fail_orphan) (destroy_by-Moved runtime_of now row (orphaned reason) w refl refl)
    ]

pub sweep_each-Moved :
    {now : ℕ} {only : SessionStatus → Bool} (step : SessionRow → World → World × Bool)
    → ((r : SessionRow) (w : World) → Moved now only w.sessions (step r w).0.sessions)
    → (rs : List SessionRow) (w : World)
    → Moved now only w.sessions (sweep_each step rs w).0.sessions
unfolding sweep_each
sweep_each-Moved step each [] w = still
sweep_each-Moved step each (r ∷ rs) w =
    Moved-trans (each r w) (sweep_each-Moved step each rs (step r w).0)
