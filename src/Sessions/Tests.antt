-- ===== src/Sessions/Tests.antt =====
-- The theorems on the interactive sessions at concrete inputs.
use extension_lab.Common.{List, [], false, map, none, refl, some, true, ℕ, ◌∷◌, ◌≡◌, ◌⊎◌}
use extension_lab.Sessions.EventAppends.{append_all, append_all-IsBounded}
use extension_lab.Sessions.EventBounds.{IsBounded}
use extension_lab.Sessions.Events.{
  EventRow, SessionEventInput, append_session_event, list_session_events, max_seq,
}
use extension_lab.Sessions.Histories.{
  ExpectsLive, SessionOp, move, run_sessions, run_sessions_terminal, start, touch,
}
use extension_lab.Sessions.Row.{
  SessionRow, SessionStatus, active, find_session, idle, includes_status, queued, ready,
  session_key, status_index, stopped, stopping,
}
use extension_lab.Sessions.Slots.{Fits, claim_start_slot_within}
use extension_lab.Sessions.Updates.{
  SlotLimits, capacity, claim_start_slot, claimed, has_capacity, no_fields, of_organization,
  of_user, slots_used, starting_row, transition_row, transition_session,
}
use extension_lab.Sql.Defs.{
  IsKeyed, changes_by, count_where, delete_where, find_by, find_where, insert_row, order_by,
  select_where, update_by,
}

abbrev row : ℕ → SessionStatus → SessionRow
row id status = record {
  id = id;
  user_id = 7;
  organization_id = some 3;
  extension_id = none;
  package_id = some 9;
  package_version = none;
  package_sha256 = "aa";
  browser = "chromium";
  browser_version = none;
  status = status;
  state_reason = none;
  stop_reason = none;
  initial_url = none;
  current_url = none;
  viewport_width = 1280;
  viewport_height = 720;
  popup_open = false;
  popup_width = none;
  popup_height = none;
  artifact_count = 0;
  extension_info_json = "{}";
  runtime_json = "{}";
  quota_reservation_id = none;
  job_id = none;
  request_id = none;
  created_at = 5;
  updated_at = 5;
  started_at = none;
  ready_at = none;
  last_activity_at = some 5;
  expires_at = 100;
  stopped_at = none;
}

-- A session that waits, one that is ready and one that stopped.
abbrev table : List SessionRow
table = row 1 queued ∷ row 2 ready ∷ row 3 stopped ∷ []

table-IsKeyed : IsKeyed session_key table
unfolding find_by
table-IsKeyed = (refl, (refl, (refl, tt)))

abbrev limits : SlotLimits
limits = record { global_limit = 4; user_limit = 2; org_limit = 2 }

starts : claim_start_slot 20 1 limits table ≡ (
  starting_row 20 (row 1 queued) ∷ row 2 ready ∷ row 3 stopped ∷ [],
  claimed (some (starting_row 20 (row 1 queued))),
)
unfolding claim_start_slot find_by has_capacity slots_used count_where update_by status_index
starts = refl

-- One session more would exceed the limit of the user.
full :
    claim_start_slot 20 1 (record { global_limit = 4; user_limit = 1; org_limit = 2 }) table
    ≡ (table, capacity)
unfolding claim_start_slot find_by has_capacity slots_used count_where update_by
full = refl

claim_start_slot_within_example :
    (r : SessionRow) × (find_session 1 table ≡ some r)
    × (r.status ≡ queued)
    × (starting_row 20 (row 1 queued) ≡ starting_row 20 r)
    × (find_session r.id (starting_row 20 (row 1 queued) ∷ row 2 ready ∷ row 3 stopped ∷ [])
        ≡ some (starting_row 20 (row 1 queued)))
    × Fits table (starting_row 20 (row 1 queued) ∷ row 2 ready ∷ row 3 stopped ∷ []) (λ x. true) 4
    × Fits table
        (starting_row 20 (row 1 queued) ∷ row 2 ready ∷ row 3 stopped ∷ [])
        (of_user r.user_id)
        2
    × ((r.organization_id ≡ none)
        ⊎ ((org : ℕ) × (r.organization_id ≡ some org)
            × Fits table
                (starting_row 20 (row 1 queued) ∷ row 2 ready ∷ row 3 stopped ∷ [])
                (of_organization org)
                2))
claim_start_slot_within_example =
    claim_start_slot_within 20 1 limits table
      (starting_row 20 (row 1 queued) ∷ row 2 ready ∷ row 3 stopped ∷ [])
      (starting_row 20 (row 1 queued)) table-IsKeyed starts

abbrev live : List SessionStatus
live = ready ∷ active ∷ []

moved :
    (transition_session 20 2 live idle no_fields table).1
    ≡ some (transition_row 20 idle no_fields (row 2 ready))
unfolding transition_session find_by update_by changes_by includes_status transition_row count_where
moved = refl

apart : includes_status live idle ≡ false
unfolding includes_status
apart = refl

abbrev history : List (ℕ × SessionOp)
history =
    (20, touch 3)
    ∷ (21, start 3 limits)
    ∷ (22, start 1 limits)
    ∷ (23, move 3 live stopping no_fields)
    ∷ []

history-ExpectsLive : ExpectsLive history
unfolding includes_status
history-ExpectsLive = (refl, (refl, (refl, (refl, tt))))

third : find_session 3 table ≡ some (row 3 stopped)
unfolding find_by
third = refl

run_sessions_terminal_example :
    (s : SessionRow) × (find_session 3 (run_sessions history table) ≡ some s)
    × (s.status ≡ stopped)
    × (s.stopped_at ≡ none)
    × (s.stop_reason ≡ none)
run_sessions_terminal_example =
    run_sessions_terminal history table 3 (row 3 stopped) table-IsKeyed history-ExpectsLive third
      refl

abbrev note : SessionEventInput
note = record { type = "SESSION"; level = none; message = 72 ∷ 105 ∷ []; metadata = none }

abbrev notes : List (ℕ × ℕ × ℕ × SessionEventInput)
notes = (20, 500, 1, note) ∷ (21, 501, 2, note) ∷ (22, 502, 1, note) ∷ []

append_all-IsBounded_example : IsBounded 1 (append_all table notes [])
append_all-IsBounded_example = append_all-IsBounded table notes 1

logged :
    map (λ (e : EventRow). e.seq) (list_session_events 1 0 10 (append_all table notes []))
    ≡ 1 ∷ 2 ∷ []
unfolding append_all append_session_event list_session_events order_by select_where delete_where
    insert_row find_where find_by max_seq
logged = refl
