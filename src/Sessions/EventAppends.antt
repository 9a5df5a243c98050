-- ===== src/Sessions/EventAppends.antt =====
-- Appends to the event log of a session (lib/db/repositories/browser-sessions.ts).
use mathlib.Core.Path.{subst}
use native.Mathlib.Decide.{ℕ_discrete}
use extension_lab.Common.{
  Bool-cases, List, [], ap, arith, inl, inr, is_none, leb, refl, sym, ℕ, ◌+◌, ◌∙◌, ◌∷◌, ◌≡◌, ◌≢◌,
}
use extension_lab.Sessions.EventBounds.{
  IsBounded, appended, max_seq-own, next_own, own_events, own_events-delete_other,
  own_events-delete_own, own_events-insert_other, own_events-insert_own, top_seq,
}
use extension_lab.Sessions.Events.{
  EventRow, SessionEventInput, append_session_event, event_row, max_seq, max_session_events,
}
use extension_lab.Sessions.Row.{SessionRow, find_session}
use extension_lab.Sql.Defs.{delete_where, insert_row, select_where}

module _ (now generated session : ℕ) (input : SessionEventInput) (t : List EventRow) where
  appended_own : IsBounded session t → IsBounded session (appended now generated session input t)
  appended_own k =
      let r = event_row now generated session input t in
      let own = own_events-insert_own session r t refl in
      let logged = insert_row r t in
      let newest : max_seq session logged ≡ top_seq (insert_row r (own_events session t)) =
        max_seq-own session logged ∙ ap top_seq own in
      let kept = own_events-delete_own session (max_seq session logged) logged in
      let same : own_events session (appended now generated session input t)
          ≡ delete_where
              (λ e.
                leb (e.seq + max_session_events) (top_seq (insert_row r (own_events session t))))
              (insert_row r (own_events session t)) =
        kept ∙ rw (newest, own) refl in
      let (b, least, counts, few) =
        next_own k.oldest (own_events session t) r k.oldest_pos k.gapless k.bounded
          (ap (λ x. x + 1) (max_seq-own session t)) in
      record { oldest = b; oldest_pos = least; gapless = rw same counts; bounded = rw same few }

  appended_other :
      (other : ℕ)
      → session ≢ other
      → IsBounded other t
      → IsBounded other (appended now generated session input t)
  appended_other other apart k =
      let r = event_row now generated session input t in
      let logged = insert_row r t in
      let same : own_events other (appended now generated session input t) ≡ own_events other t =
        own_events-delete_other session other (max_seq session logged) logged apart
        ∙ own_events-insert_other other r t apart in
      record {
        oldest = k.oldest;
        oldest_pos = k.oldest_pos;
        gapless = rw same k.gapless;
        bounded = rw same k.bounded;
      }

  -- Appending an event keeps the log of every session, this one's and the others', in order: the
  -- numbers of its events count up by one, and there are at most MAX_SESSION_EVENTS of them.
  pub append_session_event-IsBounded :
      (sessions : List SessionRow) (any : ℕ)
      → IsBounded any t
      → IsBounded any (append_session_event now generated session input sessions t).0
  unfolding append_session_event
  append_session_event-IsBounded sessions any k =
      elim (Bool-cases (is_none (find_session session sessions))) [
        | inl missing ↦ rw missing k
        | inr present ↦ elim (ℕ_discrete session any) [
          | yes same ↦ rw present (
              subst (λ i. IsBounded i (appended now generated session input t)) same
                (appended_own (subst (λ i. IsBounded i t) (sym same) k)))
          | no apart ↦ rw present (appended_other any apart k)
        ]
      ]

-- The log that a run of appends leaves, each with its time, identifier and session.
unfoldable pub append_all :
    List SessionRow → List (ℕ × ℕ × ℕ × SessionEventInput) → List EventRow → List EventRow
append_all sessions [] t = t
append_all sessions ((now, generated, session, input) ∷ es) t =
    append_all sessions es (append_session_event now generated session input sessions t).0

append_all-grow :
    (sessions : List SessionRow) (es : List (ℕ × ℕ × ℕ × SessionEventInput)) (any : ℕ)
    (t : List EventRow)
    → IsBounded any t
    → IsBounded any (append_all sessions es t)
unfolding append_all
append_all-grow sessions [] any t k = k
append_all-grow sessions ((now, generated, session, input) ∷ es) any t k =
    append_all-grow sessions es any (append_session_event now generated session input sessions t).0
      (append_session_event-IsBounded now generated session input t sessions any k)

-- However many events are appended, for whichever sessions, to an empty log: the log of each
-- session is in order.
pub append_all-IsBounded :
    (sessions : List SessionRow) (es : List (ℕ × ℕ × ℕ × SessionEventInput)) (any : ℕ)
    → IsBounded any (append_all sessions es [])
unfolding own_events select_where
append_all-IsBounded sessions es any =
    append_all-grow sessions es any []
      (record { oldest = 1; oldest_pos = omega arith; gapless = tt; bounded = omega arith })
