-- ===== src/Sessions/Histories.antt =====
-- Sessions that ended, over whole histories of operations.
use mathlib.Core.Path.{subst}
use extension_lab.Common.{
  All, Bool, List, Option, [], ap, arith, false, if◌then◌else◌, inl, inr, none, not, refl, some,
  sym, true, ℕ, ◌&&◌, ◌==◌, ◌∙◌, ◌∷◌, ◌≡◌,
}
use extension_lab.Sessions.Row.{
  SessionRow, SessionStatus, expired, failed, find_session, includes_status, is_queued,
  is_terminal_session_status, session_key, stopped,
}
use extension_lab.Sessions.Slots.{claim_start_slot_shape}
use extension_lab.Sessions.Transitions.{transition-IsKeyed, transition_found}
use extension_lab.Sessions.Updates.{
  NewSession, SlotLimits, TransitionFields, claim_start_slot, insert_session, new_session,
  starting_row, touch_session_activity, touched_row, transition_session,
}
use extension_lab.Sql.Defs.{IsKeyed}
use extension_lab.Sql.Laws.{
  find_by-insert, find_by-update_by, insert_row-IsKeyed, update_by-IsKeyed,
}

-- The operations on a session that the service, the worker and the sweeps make.
pub data SessionOp : Type 0 where
  create : ℕ → NewSession → SessionOp
  start : ℕ → SlotLimits → SessionOp
  move : ℕ → List SessionStatus → SessionStatus → TransitionFields → SessionOp
  touch : ℕ → SessionOp

abbrev created_or : List SessionRow → Option (SessionRow × List SessionRow) → List SessionRow
created_or t none = t
created_or t (some (r, t')) = t'

unfoldable pub apply_session : ℕ → SessionOp → List SessionRow → List SessionRow
apply_session now (create id input) t = created_or t (insert_session now id input t)
apply_session now (start id limits) t = (claim_start_slot now id limits t).0
apply_session now (move id from to fields) t = (transition_session now id from to fields t).0
apply_session now (touch id) t = touch_session_activity now id t

unfoldable pub run_sessions : List (ℕ × SessionOp) → List SessionRow → List SessionRow
unfolding apply_session
run_sessions [] t = t
run_sessions ((now, o) ∷ os) t = run_sessions os (apply_session now o t)

-- A transition that expects no terminal status.
abbrev pub expects_live : SessionOp → Bool
expects_live (move id from to fields) =
    not (includes_status from stopped)
    && not (includes_status from expired)
    && not (includes_status from failed)
expects_live _ = true

abbrev pub ExpectsLive : List (ℕ × SessionOp) → Type 0
ExpectsLive = All (λ step. expects_live step.1 ≡ true)

terminal_refused :
    (from : List SessionStatus) (s : SessionStatus)
    → (not (includes_status from stopped)
        && not (includes_status from expired)
        && not (includes_status from failed))
      ≡ true
    → is_terminal_session_status s ≡ true
    → includes_status from s ≡ false
terminal_refused from stopped h k = ground arith
terminal_refused from expired h k = ground arith
terminal_refused from failed h k = ground arith
terminal_refused from _ h k = ground arith

module _ (now j : ℕ) (t : List SessionRow) (r : SessionRow) (keyed : IsKeyed session_key t)
    (here : find_session j t ≡ some r) (ended : is_terminal_session_status r.status ≡ true) where
  -- One operation leaves an ended session as it is, but for its activity.
  apply_terminal :
      (o : SessionOp)
      → expects_live o ≡ true
      → (s : SessionRow) × (find_session j (apply_session now o t) ≡ some s)
        × (s.status ≡ r.status)
        × (s.stopped_at ≡ r.stopped_at)
        × (s.stop_reason ≡ r.stop_reason)
  unfolding apply_session insert_session touch_session_activity
  apply_terminal (create id input) l = (
    r,
    ground (arith, find_by-insert session_key (new_session now id input) j t),
    refl,
    refl,
    refl,
  )
  apply_terminal (start id limits) l = elim (claim_start_slot_shape now limits t id) [
    | inl e ↦ (r, ap (find_session j) e ∙ here, refl, refl, refl)
    | inr (row, e) ↦ (
      r,
      ap (find_session j) e
          ∙ ground (
            arith,
            find_by-update_by session_key row.id (λ x. is_queued x.status) (starting_row now)
                (λ x. refl) j t,
          ),
      refl,
      refl,
      refl,
    )
  ]
  apply_terminal (move id from to fields) l = (
    r,
    ground (
      arith,
      transition_found now id from to fields t keyed j,
      terminal_refused from r.status l ended,
    ),
    refl,
    refl,
    refl,
  )
  apply_terminal (touch id) l = (
    if id == j then touched_row now r else r,
    ground (arith, find_by-update_by session_key id (λ x. true) (touched_row now) (λ x. refl) j t),
    ground arith,
    ground arith,
    ground arith,
  )

module _ (now : ℕ) (t : List SessionRow) (keyed : IsKeyed session_key t) where
  apply_session-IsKeyed : (o : SessionOp) → IsKeyed session_key (apply_session now o t)
  unfolding apply_session insert_session touch_session_activity
  apply_session-IsKeyed (create id input) =
      ground (arith, insert_row-IsKeyed session_key (new_session now id input) t)
  apply_session-IsKeyed (start id limits) = elim (claim_start_slot_shape now limits t id) [
    | inl e ↦ rw e keyed
    | inr (row, e) ↦ rw e (
        update_by-IsKeyed session_key row.id (λ x. is_queued x.status) (starting_row now)
          (λ x. refl) t keyed)
  ]
  apply_session-IsKeyed (move id from to fields) = transition-IsKeyed now id from to fields t keyed
  apply_session-IsKeyed (touch id) =
      update_by-IsKeyed session_key id (λ x. true) (touched_row now) (λ x. refl) t keyed

-- A session that stopped, expired or failed never comes back: over any history of creations, start
-- claims, activity and transitions that expect no terminal status, it keeps its status, its stop
-- time and its reason.
pub run_sessions_terminal :
    (os : List (ℕ × SessionOp)) (t : List SessionRow) (j : ℕ) (r : SessionRow)
    → IsKeyed session_key t
    → ExpectsLive os
    → find_session j t ≡ some r
    → is_terminal_session_status r.status ≡ true
    → (s : SessionRow) × (find_session j (run_sessions os t) ≡ some s)
      × (s.status ≡ r.status)
      × (s.stopped_at ≡ r.stopped_at)
      × (s.stop_reason ≡ r.stop_reason)
unfolding run_sessions
run_sessions_terminal [] t j r keyed l here ended = (r, here, refl, refl, refl)
run_sessions_terminal ((now, o) ∷ os) t j r keyed l here ended =
    let (s, found, status, at, reason) = apply_terminal now j t r keyed here ended o l.0 in
    let (u, found', status', at', reason') =
      run_sessions_terminal os (apply_session now o t) j s (apply_session-IsKeyed now t keyed o) l.1
        found (subst (λ x. is_terminal_session_status x ≡ true) (sym status) ended) in
    (u, found', status' ∙ status, at' ∙ at, reason' ∙ reason)
