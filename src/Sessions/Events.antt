-- ===== src/Sessions/Events.antt =====
-- appendSessionEvent and listSessionEvents of lib/db/repositories/browser-sessions.ts: a bounded log
-- for each session. A message is the list of its UTF-16 units.
use extension_lab.Common.{
  Bool, List, Option, String, [], coalesce, if◌then◌else◌, is_none, leb, ltb, max, none, take, ℕ,
  ◌&&◌, ◌+◌, ◌==◌, ◌∷◌,
}
use extension_lab.Sessions.Row.{SessionRow, find_session}
use extension_lab.Sql.Defs.{delete_where, find_where, insert_row, order_by, select_where}

pub record EventRow : Type 0 where
  pub id : ℕ
  pub session_id : ℕ
  pub seq : ℕ
  pub type : String
  pub level : String
  pub message : List ℕ
  pub metadata_json : String
  pub created_at : ℕ

pub record SessionEventInput : Type 0 where
  pub type : String
  pub level : Option String
  pub message : List ℕ
  pub metadata : Option String

abbrev pub max_session_events : ℕ
max_session_events = 120

-- SELECT COALESCE(MAX(seq), 0) … WHERE session_id = ?
unfoldable pub max_seq : ℕ → List EventRow → ℕ
max_seq session [] = 0
max_seq session (e ∷ t) =
    let rest = max_seq session t in if e.session_id == session then max e.seq rest else rest

abbrev pub of_session : ℕ → EventRow → Bool
of_session session e = e.session_id == session

abbrev pub event_row : ℕ → ℕ → ℕ → SessionEventInput → List EventRow → EventRow
event_row now generated session input t = record {
  id = generated;
  session_id = session;
  seq = max_seq session t + 1;
  type = input.type;
  level = coalesce input.level "info";
  message = take 2000 input.message;
  metadata_json = coalesce input.metadata "{}";
  created_at = now;
}

-- DELETE … WHERE session_id = ? AND seq <= MAX(seq) - MAX_SESSION_EVENTS
abbrev pub is_overflow : ℕ → ℕ → EventRow → Bool
is_overflow session newest e = of_session session e && leb (e.seq + max_session_events) newest

-- `generated` is the identifier of `generateDbId("ise")`; without the session nothing is written.
unfoldable pub append_session_event :
    ℕ
    → ℕ
    → ℕ
    → SessionEventInput
    → List SessionRow
    → List EventRow
    → List EventRow × Option EventRow
append_session_event now generated session input sessions t =
    if is_none (find_session session sessions)
    then (t, none)
    else let logged = insert_row (event_row now generated session input t) t in
      let kept = delete_where (is_overflow session (max_seq session logged)) logged in
      (kept, find_where (λ e. e.id == generated) kept)

unfoldable pub list_session_events : ℕ → ℕ → ℕ → List EventRow → List EventRow
list_session_events session after_seq limit t = take limit (
    order_by (λ a b. ltb a.seq b.seq)
      (select_where (λ e. of_session session e && ltb after_seq e.seq) t))
