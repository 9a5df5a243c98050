-- ===== src/Sessions/Transitions.antt =====
-- Compare-and-set on the status of a session (lib/db/repositories/browser-sessions.ts).
use mathlib.Core.Path.{subst}
use mathlib.Core.Option
use extension_lab.Common.{
  Bool-cases, List, Option-cases, ap, arith, false, holds, if◌then◌else◌, inl, inr, leb, none, refl,
  some, sym, true, ℕ, ◌+◌, ◌==◌, ◌∙◌, ◌≡◌, ◌⊎◌,
}
use extension_lab.Sessions.Row.{
  SessionRow, SessionStatus, find_session, idle, includes_status, session_key,
}
use extension_lab.Sessions.Updates.{
  TransitionFields, is_idle_expired, transition_row, transition_session,
}
use extension_lab.Sql.Defs.{IsKeyed}
use extension_lab.Sql.Laws.{changes_by_lem, find_by-update_by, update_by-IsKeyed, update_by-refused}

transition_row-key :
    (now : ℕ) (to : SessionStatus) (f : TransitionFields) (r : SessionRow)
    → (transition_row now to f r).id ≡ r.id
unfolding transition_row
transition_row-key now to f r = refl

transition_row-status :
    (now : ℕ) (to : SessionStatus) (f : TransitionFields) (r : SessionRow)
    → (transition_row now to f r).status ≡ to
unfolding transition_row
transition_row-status now to f r = refl

module _ (now id : ℕ) (from : List SessionStatus) (to : SessionStatus) (fields : TransitionFields)
    (t : List SessionRow) (keyed : IsKeyed session_key t) where
  pub transition_found :
      (j : ℕ)
      → find_session j (transition_session now id from to fields t).0 ≡ (
          if id == j
          then Option.map
              (λ r. if includes_status from r.status then transition_row now to fields r else r)
              (find_session j t)
          else find_session j t)
  unfolding transition_session
  transition_found j =
      find_by-update_by session_key id (λ r. includes_status from r.status)
        (transition_row now to fields) (transition_row-key now to fields) j t

  pub transition-IsKeyed : IsKeyed session_key (transition_session now id from to fields t).0
  unfolding transition_session
  transition-IsKeyed =
      update_by-IsKeyed session_key id (λ r. includes_status from r.status)
        (transition_row now to fields) (transition_row-key now to fields) t keyed

  transition_refused :
      holds (λ r. includes_status from r.status) (find_session id t) ≡ false
      → transition_session now id from to fields t ≡ (t, none)
  unfolding transition_session
  transition_refused h = ground (
    arith,
    update_by-refused session_key id (λ r. includes_status from r.status)
        (transition_row now to fields) t keyed h,
    changes_by_lem session_key id (λ r. includes_status from r.status) t keyed,
  )

  -- A transition of a session whose status is expected writes and returns the new row; of any other
  -- session, or of none, it writes nothing and returns nothing.
  pub transition_session_lem :
      ((r : SessionRow) × (find_session id t ≡ some r)
        × (includes_status from r.status ≡ true)
        × ((transition_session now id from to fields t).1 ≡ some (transition_row now to fields r))
        × (find_session id (transition_session now id from to fields t).0
            ≡ some (transition_row now to fields r)))
      ⊎ (holds (λ r. includes_status from r.status) (find_session id t) ≡ false)
        × (transition_session now id from to fields t ≡ (t, none))
  unfolding transition_session
  transition_session_lem = elim (Option-cases (find_session id t)) [
    | inl e ↦ inr (ground arith, transition_refused (ground arith))
    | inr (r, e) ↦ elim (Bool-cases (includes_status from r.status)) [
      | inl h ↦ inl (
        r,
        e,
        h,
        ground (
          arith,
          transition_found id,
          changes_by_lem session_key id (λ x. includes_status from x.status) t keyed,
        ),
        ground (arith, transition_found id),
      )
      | inr h ↦ inr (ground arith, transition_refused (ground arith))
    ]
  ]

  -- What a transition that returned a row has found and written.
  pub transition_won :
      (s : SessionRow)
      → (transition_session now id from to fields t).1 ≡ some s
      → (r : SessionRow) × (find_session id t ≡ some r)
        × (s ≡ transition_row now to fields r)
        × (find_session id (transition_session now id from to fields t).0 ≡ some s)
  transition_won s won = elim transition_session_lem [
    | inl (r, e, h, ret, found) ↦ (r, e, ground arith, ground arith)
    | inr (h, e) ↦ absurd (ground arith)
  ]

-- Two parties that try to move a session out of an expected status never both win: after a
-- transition that returned a row, another one that does not expect the new status returns nothing
-- and writes nothing.
transition_session_once :
    (now later id : ℕ) (from other : List SessionStatus) (to next : SessionStatus)
    (fields more : TransitionFields) (t : List SessionRow) (s : SessionRow)
    → IsKeyed session_key t
    → includes_status other to ≡ false
    → (transition_session now id from to fields t).1 ≡ some s
    → transition_session later id other next more (transition_session now id from to fields t).0
      ≡ ((transition_session now id from to fields t).0, none)
transition_session_once now later id from other to next fields more t s keyed apart won =
    let (r, e, f, found) = transition_won now id from to fields t keyed s won in
    let moved : s.status ≡ to = ap (λ x. x.status) f ∙ transition_row-status now to fields r in
    let refused : includes_status other s.status ≡ false =
      subst (λ x. includes_status other x ≡ false) (sym moved) apart in
    transition_refused later id other next more (transition_session now id from to fields t).0
      (transition-IsKeyed now id from to fields t keyed)
      (ap (holds (λ x. includes_status other x.status)) found ∙ refused)

-- A session that was just set IDLE by the sweep expires of idleness exactly from the grace window
-- after that moment on, whatever its last activity was.
pub idle_grace :
    (now later id grace_ms : ℕ) (from : List SessionStatus) (fields : TransitionFields)
    (t : List SessionRow) (s : SessionRow)
    → IsKeyed session_key t
    → (transition_session now id from idle fields t).1 ≡ some s
    → is_idle_expired grace_ms later s ≡ leb (now + grace_ms) later
unfolding transition_row
idle_grace now later id grace_ms from fields t s keyed won =
    let (r, e, f, found) = transition_won now id from idle fields t keyed s won in
    ap (is_idle_expired grace_ms later) f
