-- ===== src/Interactive/Moves.antt =====
-- What a list of transitions does to sessions (lib/db/repositories/browser-sessions.ts), as the sweep and the
-- stop of lib/interactive make them.
use extension_lab.Common.{
  Bool, Bool-cases, List, Option-cases, ap, arith, false, inl, inr, leb, not, some, sym, true, ℕ,
  ◌&&◌, ◌==◌, ◌∙◌, ◌≡◌,
}
use extension_lab.Sessions.Row.{
  SessionRow, SessionStatus, find_session, includes_status, is_terminal_session_status, session_key,
  stopped,
}
use extension_lab.Sessions.Transitions.{transition-IsKeyed, transition_found}
use extension_lab.Sessions.Updates.{TransitionFields, transition_row, transition_session}
use extension_lab.Sql.Defs.{IsKeyed}

-- No terminal status is expected.
abbrev pub is_live_from : List SessionStatus → Bool
is_live_from from =
    not (includes_status from stopped)
    && not (includes_status from SessionStatus.expired)
    && not (includes_status from SessionStatus.failed)

-- Sessions that differ by transitions out of live statuses, to statuses that pass a test.
pub data Moved (now : ℕ) (only : SessionStatus → Bool) (t : List SessionRow)
    : List SessionRow → Type 0 where
  still : Moved now only t t
  move :
      {u : List SessionRow} {v : List SessionRow}
      → Moved now only t u
      → (id : ℕ) (from : List SessionStatus) (to : SessionStatus) (fields : TransitionFields)
      → is_live_from from ≡ true
      → only to ≡ true
      → v ≡ (transition_session now id from to fields u).0
      → Moved now only t v

abbrev pub is_overdue : ℕ → SessionRow → Bool
is_overdue now r = leb r.expires_at now && not (is_terminal_session_status r.status)

pub Moved-trans :
    {now : ℕ} {only : SessionStatus → Bool} {t u v : List SessionRow}
    → Moved now only t u
    → Moved now only u v
    → Moved now only t v
Moved-trans a still = a
Moved-trans a (move b id from to fields l o e) = move (Moved-trans a b) id from to fields l o e

pub Moved-IsKeyed :
    {now : ℕ} {only : SessionStatus → Bool} {t u : List SessionRow}
    → Moved now only t u
    → IsKeyed session_key t
    → IsKeyed session_key u
Moved-IsKeyed still k = k
Moved-IsKeyed (move {u} b id from to fields l o e) k =
    rw e (transition-IsKeyed _ id from to fields u (Moved-IsKeyed b k))

pub refused_terminal :
    (from : List SessionStatus) (s : SessionStatus)
    → is_live_from from ≡ true
    → is_terminal_session_status s ≡ true
    → includes_status from s ≡ false
refused_terminal from stopped h k = ground arith
refused_terminal from SessionStatus.expired h k = ground arith
refused_terminal from SessionStatus.failed h k = ground arith
refused_terminal from _ h k = ground arith

-- A session that has ended is left as it is.
pub Moved-terminal :
    {now : ℕ} {only : SessionStatus → Bool} {t u : List SessionRow}
    → Moved now only t u
    → IsKeyed session_key t
    → (j : ℕ) (r : SessionRow) → find_session j t ≡ some r
    → is_terminal_session_status r.status ≡ true
    → find_session j u ≡ some r
Moved-terminal still k j r here ended = here
Moved-terminal {now} (move {u} b id from to fields l o e) k j r here ended = rw e (
    ground (
      arith,
      Moved-terminal b k j r here ended,
      transition_found now id from to fields u (Moved-IsKeyed b k) j,
      refused_terminal from r.status l ended,
    ))

-- One transition into a terminal status makes no session overdue.
overdue_before :
    (now id : ℕ) (from : List SessionStatus) (to : SessionStatus) (fields : TransitionFields)
    (u : List SessionRow)
    → IsKeyed session_key u
    → is_terminal_session_status to ≡ true
    → (j : ℕ) (s : SessionRow)
    → find_session j (transition_session now id from to fields u).0 ≡ some s
    → is_overdue now s ≡ true
    → find_session j u ≡ some s
unfolding transition_row
overdue_before now id from to fields u k o j s there late = elim (Option-cases (find_session j u)) [
  | inl e ↦ absurd (ground (arith, transition_found now id from to fields u k j))
  | inr (r, e) ↦ elim (Bool-cases (id == j && includes_status from r.status)) [
    | inl h ↦
        let s_is : s ≡ transition_row now to fields r =
          ground (arith, transition_found now id from to fields u k j) in
        absurd (ground arith)
    | inr h ↦ ground (arith, transition_found now id from to fields u k j)
  ]
]

-- No session becomes overdue, and one that still is has not changed.
pub Moved-overdue :
    {now : ℕ} {t u : List SessionRow}
    → Moved now is_terminal_session_status t u
    → IsKeyed session_key t
    → (j : ℕ) (s : SessionRow) → find_session j u ≡ some s
    → is_overdue now s ≡ true
    → find_session j t ≡ some s
Moved-overdue still k j s there late = there
Moved-overdue {now} (move {u} b id from to fields l o e) k j s there late =
    Moved-overdue b k j s
      (overdue_before now id from to fields u (Moved-IsKeyed b k) o j s
        (ap (find_session j) (sym e) ∙ there) late)
      late
