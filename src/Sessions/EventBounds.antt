-- ===== src/Sessions/EventBounds.antt =====
-- The log of a session stays bounded and gapless (lib/db/repositories/browser-sessions.ts).
use extension_lab.Common.{
  Bool-cases, List, [], arith, inl, inr, leb, length, max, refl, ℕ, ◌+◌, ◌<◌, ◌∷◌, ◌≡◌, ◌≢◌, ◌≤◌,
}
use extension_lab.Sessions.Events.{
  EventRow, SessionEventInput, event_row, is_overflow, max_seq, max_session_events, of_session,
}
use extension_lab.Sql.Defs.{delete_where, insert_row, select_where}

-- The events of one session, in the order of the table.
unfoldable pub own_events : ℕ → List EventRow → List EventRow
own_events session t = select_where (of_session session) t

-- Sequence numbers that count up by one from the first.
abbrev pub CountsFrom : ℕ → List EventRow → Type 0
CountsFrom a [] = Unit {0}
CountsFrom a (e ∷ es) = (e.seq ≡ a) × CountsFrom (a + 1) es

-- The log of a session is in order: its numbers count up by one, from 1 or more, and there are at
-- most MAX_SESSION_EVENTS of them.
pub record IsBounded (session : ℕ) (t : List EventRow) : Type 0 where
  pub oldest : ℕ
  pub oldest_pos : 1 ≤ oldest
  pub gapless : CountsFrom oldest (own_events session t)
  pub bounded : length (own_events session t) ≤ max_session_events

pub own_events-insert_own :
    (session : ℕ) (r : EventRow) (t : List EventRow)
    → r.session_id ≡ session
    → own_events session (insert_row r t) ≡ insert_row r (own_events session t)
unfolding own_events select_where insert_row
own_events-insert_own session r [] h = ground arith
own_events-insert_own session r (e ∷ t) h = ground (arith, own_events-insert_own session r t)

pub own_events-insert_other :
    (session : ℕ) (r : EventRow) (t : List EventRow)
    → r.session_id ≢ session
    → own_events session (insert_row r t) ≡ own_events session t
unfolding own_events select_where insert_row
own_events-insert_other session r [] h = ground arith
own_events-insert_other session r (e ∷ t) h = ground (arith, own_events-insert_other session r t)

pub own_events-delete_own :
    (session newest : ℕ) (t : List EventRow)
    → own_events session (delete_where (is_overflow session newest) t)
      ≡ delete_where (λ e. leb (e.seq + max_session_events) newest) (own_events session t)
unfolding own_events select_where delete_where
own_events-delete_own session newest [] = refl
own_events-delete_own session newest (e ∷ t) =
    ground (arith, own_events-delete_own session newest t)

pub own_events-delete_other :
    (session other newest : ℕ) (t : List EventRow)
    → session ≢ other
    → own_events other (delete_where (is_overflow session newest) t) ≡ own_events other t
unfolding own_events select_where delete_where
own_events-delete_other session other newest [] h = refl
own_events-delete_other session other newest (e ∷ t) h =
    ground (arith, own_events-delete_other session other newest t)

-- MAX(seq) over the session's own events.
unfoldable pub top_seq : List EventRow → ℕ
top_seq [] = 0
top_seq (e ∷ es) = max e.seq (top_seq es)

pub max_seq-own :
    (session : ℕ) (t : List EventRow) → max_seq session t ≡ top_seq (own_events session t)
unfolding max_seq own_events select_where top_seq
max_seq-own session [] = refl
max_seq-own session (e ∷ t) = ground (arith, max_seq-own session t)

top_seq-CountsFrom :
    (a : ℕ) (es : List EventRow)
    → 1 ≤ a
    → CountsFrom a es
    → es ≢ []
    → top_seq es + 1 ≡ a + length es
unfolding top_seq
top_seq-CountsFrom a [] p c ne = absurd (ne refl)
top_seq-CountsFrom a (e ∷ []) p c ne = ground arith
top_seq-CountsFrom a (e ∷ f ∷ es) p c ne =
    ground (arith, top_seq-CountsFrom (a + 1) (f ∷ es) (omega arith) c.1 (λ n. cc))

CountsFrom-insert :
    (a : ℕ) (es : List EventRow) (r : EventRow)
    → CountsFrom a es
    → r.seq ≡ a + length es
    → CountsFrom a (insert_row r es)
unfolding insert_row
CountsFrom-insert a [] r c h = (omega arith, tt)
CountsFrom-insert a (e ∷ es) r c h = (c.0, CountsFrom-insert (a + 1) es r c.1 (omega arith))

length-insert_row : (es : List EventRow) (r : EventRow) → length (insert_row r es) ≡ length es + 1
unfolding insert_row
length-insert_row [] r = refl
length-insert_row (e ∷ es) r = omega (arith, length-insert_row es r)

-- Events newer than the cut are all kept.
delete_none :
    (a newest : ℕ) (es : List EventRow)
    → CountsFrom a es
    → newest < a + max_session_events
    → delete_where (λ e. leb (e.seq + max_session_events) newest) es ≡ es
unfolding delete_where
delete_none a newest [] c h = refl
delete_none a newest (e ∷ es) c h = ground (arith, delete_none (a + 1) newest es c.1)

-- A list that counts up, and is at most one over the bound, counts up within it once it is cut.
trim :
    (a newest : ℕ) (es : List EventRow)
    → 1 ≤ a
    → CountsFrom a es
    → newest + 1 ≡ a + length es
    → length es ≤ max_session_events + 1
    → (b : ℕ) × (1 ≤ b)
      × CountsFrom b (delete_where (λ e. leb (e.seq + max_session_events) newest) es)
      × (length (delete_where (λ e. leb (e.seq + max_session_events) newest) es)
          ≤ max_session_events)
unfolding delete_where
trim a newest [] p c n l = (a, p, tt, omega arith)
trim a newest (e ∷ es) p c n l = elim (Bool-cases (leb (e.seq + max_session_events) newest)) [
  | inl old ↦
      let same = delete_none (a + 1) newest es c.1 (omega arith) in
      (a + 1, omega arith, rw (old, same) c.1, rw (old, same) (omega arith))
  | inr young ↦
      let same = delete_none a newest (e ∷ es) c (ground arith) in
      (a, p, rw same c, rw same (ground arith))
]

pub next_own :
    (a : ℕ) (es : List EventRow) (r : EventRow)
    → 1 ≤ a
    → CountsFrom a es
    → length es ≤ max_session_events
    → r.seq ≡ top_seq es + 1
    → (b : ℕ) × (1 ≤ b)
      × CountsFrom b (
          delete_where
            (λ e. leb (e.seq + max_session_events) (top_seq (insert_row r es)))
            (insert_row r es))
      × (length (
            delete_where
              (λ e. leb (e.seq + max_session_events) (top_seq (insert_row r es)))
              (insert_row r es))
          ≤ max_session_events)
unfolding top_seq insert_row
next_own a [] r p c l h =
    trim 1 (max r.seq 0) (r ∷ []) (omega arith) (omega arith, tt) (ground arith) (omega arith)
next_own a (e ∷ es) r p c l h =
    let top = top_seq-CountsFrom a (e ∷ es) p c (λ n. cc) in
    let more = CountsFrom-insert a (e ∷ es) r c (omega arith) in
    let size = length-insert_row (e ∷ es) r in
    trim a (top_seq (insert_row r (e ∷ es))) (insert_row r (e ∷ es)) p more
      (ground (arith, top_seq-CountsFrom a (insert_row r (e ∷ es)) p more (λ n. cc))) (omega arith)

abbrev pub appended : ℕ → ℕ → ℕ → SessionEventInput → List EventRow → List EventRow
appended now generated session input t =
    let logged = insert_row (event_row now generated session input t) t in
    delete_where (is_overflow session (max_seq session logged)) logged
