-- ===== src/Interactive/Tests.antt =====
-- The theorems on the interactive service at concrete inputs.
use extension_lab.Common.{
  Bool, Option, [], false, none, pos, refl, some, true, ℕ, ◌+◌, ◌<◌, ◌∷◌, ◌≡◌, ◌⊎◌,
}
use extension_lab.Billing.Catalog.{default_plan}
use extension_lab.Billing.Effective.{get_usage_period, resolve_effective_plan}
use extension_lab.Billing.Entitlements.{
  BillingConfig, can_run_tests, can_use_interactive_browser, count_open_reservations_in_period,
  count_usage_in_period, get_effective_plan, get_quota_usage, limit_for, quota_check,
}
use extension_lab.Billing.Plans.{business, pro}
use extension_lab.Billing.Quota.{find_reservation, reservation_verdict, reserve_quota}
use extension_lab.Billing.Subscriptions.{get_current_subscription}
use extension_lab.Interactive.Created.{Backed, IsCreated, create_interactive_session_lem}
use extension_lab.Interactive.Lifetimes.{
  run_interactive_sweep_expires, run_interactive_sweep_terminal,
}
use extension_lab.Interactive.Starting.{
  CreateSessionInput, InteractiveConfig, create_in_transaction, create_interactive_session,
  get_owned_package, initial_url_of, max_minutes, safe_url, validate_viewport, whole, within_bounds,
}
use extension_lab.Interactive.Stopping.{
  RuntimeOf, clean_up, destroy_interactive_session, stop_interactive_session,
}
use extension_lab.Interactive.Stops.{stop_interactive_session_ends}
use extension_lab.Interactive.Sweep.{
  SweepConfig, destroy_by, fail_orphan, failed_start, make_idle, orphan_reason,
  run_interactive_sweep, sweep_each,
}
use extension_lab.Interactive.World.{Result, World, log_event, log_events, ok, thrown}
use extension_lab.Sessions.Row.{
  SessionRow, SessionStatus, active, find_session, includes_status, is_terminal_session_status,
  ready, session_key, status_index, stopped,
}
use extension_lab.Sessions.Updates.{
  get_owned_session, insert_session, list_admitted_sessions, list_expired_sessions,
  list_idle_expired_sessions, list_idle_sessions, transition_row, transition_session,
}
use extension_lab.Sql.Defs.{
  IsKeyed, changes_by, count_where, find_by, find_where, insert_row, order_by, select_where,
  update_by, update_where,
}

abbrev row : ℕ → SessionStatus → ℕ → SessionRow
row id status deadline = record {
  id = id;
  user_id = 7;
  organization_id = none;
  extension_id = none;
  package_id = some 9;
  package_version = none;
  package_sha256 = "aa";
  browser = "chromium";
  browser_version = none;
  status = status;
  state_reason = none;
  stop_reason = none;
  initial_url = none;
  current_url = none;
  viewport_width = 1280;
  viewport_height = 720;
  popup_open = false;
  popup_width = none;
  popup_height = none;
  artifact_count = 0;
  extension_info_json = "{}";
  runtime_json = "{}";
  quota_reservation_id = none;
  job_id = none;
  request_id = none;
  created_at = 5;
  updated_at = 5;
  started_at = none;
  ready_at = none;
  last_activity_at = some 5;
  expires_at = deadline;
  stopped_at = none;
}

-- One session past its deadline, one within it, one that ended.
abbrev w : World
w = record {
  sessions = row 1 active 100 ∷ row 2 ready 9000000 ∷ row 3 stopped 50 ∷ [];
  events = [];
  billing = record { subscriptions = []; usage_events = []; reservations = [] };
  jobs = record { jobs = []; job_events = []; next_event_id = 1 };
  packages =
      record {
        id = 9;
        user_id = 7;
        organization_id = none;
        extension_id = none;
        version = none;
        sha256 = "aa";
        is_stored = true;
      }
      ∷ [];
  removed = [];
  next_id = 40;
}

keyed : IsKeyed session_key w.sessions
unfolding find_by find_where
keyed = (refl, (refl, (refl, tt)))

abbrev contained : RuntimeOf
contained r = some true

abbrev all_running : SessionRow → Bool
all_running r = true

abbrev limits : SweepConfig
limits = record { idle_timeout_ms = 600000; idle_grace_ms = 300000 }

abbrev swept : World
swept = (run_interactive_sweep contained all_running limits 1000 w).0

second_stays : find_session 2 swept.sessions ≡ some (row 2 ready 9000000)
unfolding run_interactive_sweep sweep_each make_idle destroy_by destroy_interactive_session clean_up
    fail_orphan orphan_reason failed_start log_events log_event list_idle_sessions
    list_idle_expired_sessions list_expired_sessions list_admitted_sessions select_where
    transition_session transition_row includes_status status_index update_by update_where changes_by
    count_where find_by find_where
second_stays = refl

first_removed : swept.removed ≡ 1 ∷ []
unfolding run_interactive_sweep sweep_each make_idle destroy_by destroy_interactive_session clean_up
    fail_orphan orphan_reason failed_start log_events log_event list_idle_sessions
    list_idle_expired_sessions list_expired_sessions list_admitted_sessions select_where
    transition_session transition_row includes_status status_index update_by update_where changes_by
    count_where find_by find_where
first_removed = refl

run_interactive_sweep_expires_example : (is_terminal_session_status ready ≡ true) ⊎ (1000 < 9000000)
run_interactive_sweep_expires_example =
    run_interactive_sweep_expires contained all_running limits 1000 w keyed 2 (row 2 ready 9000000)
      second_stays

third_here : find_session 3 w.sessions ≡ some (row 3 stopped 50)
unfolding find_by find_where
third_here = refl

run_interactive_sweep_terminal_example : find_session 3 swept.sessions ≡ some (row 3 stopped 50)
run_interactive_sweep_terminal_example =
    run_interactive_sweep_terminal contained all_running limits 1000 w keyed 3 (row 3 stopped 50)
      third_here refl

own_second : get_owned_session 7 2 w.sessions ≡ some (row 2 ready 9000000)
unfolding get_owned_session find_by find_where
own_second = refl

stop_interactive_session_ends_example :
    (w' : World) × (r : Option SessionRow) × (s : SessionRow) × (stop_interactive_session contained
        1000 7 2 w
      ≡ ok (w', r))
    × (find_session 2 w'.sessions ≡ some s)
    × (is_terminal_session_status s.status ≡ true)
    × (s.user_id ≡ 7)
    × (is_terminal_session_status ready ≡ true → s ≡ row 2 ready 9000000)
stop_interactive_session_ends_example =
    stop_interactive_session_ends contained 1000 7 2 w (row 2 ready 9000000) keyed own_second

abbrev deployment : InteractiveConfig
deployment = record {
  enabled = true;
  maintenance_mode = false;
  max_session_minutes = 30;
  viewport_min_width = 320;
  viewport_max_width = 1920;
  viewport_min_height = 240;
  viewport_max_height = 1200;
}

abbrev plans : BillingConfig
plans = record {
  catalog = record {
    free_plan = default_plan business;
    pro_plan = default_plan pro;
    business_plan = default_plan business;
  };
  grace_days = 2;
  month = λ now. (0, 1000000);
}

abbrev request : CreateSessionInput
request = record {
  package_id = 9;
  initial_url = some (104 ∷ 105 ∷ []);
  viewport_width = none;
  viewport_height = some (whole (pos 600));
  request_id = none;
}

abbrev asked : Result (World × SessionRow)
asked = create_interactive_session deployment plans 1000 7 "{}" request w

abbrev made : World × SessionRow
made = elim asked [ ok p ↦ p | thrown e ↦ (w, row 0 SessionStatus.failed 0) ]

succeeds : asked ≡ ok made
unfolding create_interactive_session validate_viewport within_bounds max_minutes get_owned_package
    initial_url_of safe_url create_in_transaction reserve_quota reservation_verdict can_run_tests
    can_use_interactive_browser quota_check get_quota_usage get_effective_plan
    resolve_effective_plan get_current_subscription order_by select_where get_usage_period limit_for
    count_usage_in_period count_open_reservations_in_period count_where find_reservation find_where
    find_by insert_row insert_session default_plan
succeeds = refl

create_interactive_session_lem_example :
    IsCreated deployment 1000 7 made.1
    × (find_session made.1.id made.0.sessions ≡ some made.1)
    × (made.1.quota_reservation_id ≡ some (w.next_id + 1))
    × Backed made.0 made.1.id (w.next_id + 1)
create_interactive_session_lem_example =
    create_interactive_session_lem deployment plans 1000 7 "{}" request w made.0 made.1 succeeds
