-- ===== src/Interactive/Starting.antt =====
-- createInteractiveSession and startInteractiveSession of lib/interactive/service.ts, and validateViewport of
-- lib/interactive/limits.ts.
use extension_lab.Common.{
  Bool, List, Option, String, [], coalesce, if◌then◌else◌, length, ltb, max, min, negsuc, none, not,
  pos, some, ℕ, ℤ, ◌&&◌, ◌*◌, ◌+◌, ◌==◌, ◌||◌, ◌∷◌,
}
use extension_lab.Billing.Entitlements.{
  BillingConfig, BillingDb, EntitlementResult, allowed, can_use_interactive_browser,
  get_effective_plan, plan_denied, quota_denied,
}
use extension_lab.Billing.Plans.{interactive_browser}
use extension_lab.Billing.Quota.{reserve_quota}
use extension_lab.Interactive.World.{
  PackageRow, Result, World, browser_session_not_found, browser_unavailable, conflict, event_input,
  invalid_input, log_event, ok, payment_required, quota_exceeded, session_not_ready, thrown,
  unsafe_url,
}
use extension_lab.Sessions.Row.{
  SessionRow, SessionStatus, created, is_commandable, is_queued, is_starting,
  is_terminal_session_status,
}
use extension_lab.Sessions.Updates.{
  NewSession, get_owned_session, insert_session, no_fields, transition_session,
}
use extension_lab.Sql.Defs.{find_where}

pub record InteractiveConfig : Type 0 where
  pub enabled : Bool
  pub maintenance_mode : Bool
  pub max_session_minutes : ℕ
  pub viewport_min_width : ℕ
  pub viewport_max_width : ℕ
  pub viewport_min_height : ℕ
  pub viewport_max_height : ℕ

-- A number of the request: Number.isInteger tells the two apart.
pub data Dimension : Type 0 where
  whole : ℤ → Dimension
  fractional : Dimension

-- The value, if it is whole and within the bounds.
unfoldable pub within_bounds : ℕ → ℕ → Dimension → Option ℕ
within_bounds low high fractional = none
within_bounds low high (whole (negsuc n)) = none
within_bounds low high (whole (pos n)) = if ltb n low || ltb high n then none else some n

unfoldable pub validate_viewport : InteractiveConfig → Dimension → Dimension → Option (ℕ × ℕ)
validate_viewport config width height =
    elim (within_bounds config.viewport_min_width config.viewport_max_width width) [
      | none ↦ none
      | some w ↦ elim (within_bounds config.viewport_min_height config.viewport_max_height height) [
        | none ↦ none
        | some h ↦ some (w, h)
      ]
    ]

-- safeUrl: the `url` of its result, which it never sets.
unfoldable pub safe_url : List ℕ → Result (Option String)
safe_url value = if ltb 2048 (length value) then thrown unsafe_url else ok none

-- An empty URL is none.
unfoldable pub initial_url_of : Option (List ℕ) → Result (Option String)
initial_url_of none = ok none
initial_url_of (some []) = ok none
initial_url_of (some (c ∷ cs)) = safe_url (c ∷ cs)

pub record CreateSessionInput : Type 0 where
  pub package_id : ℕ
  pub initial_url : Option (List ℕ)
  pub viewport_width : Option Dimension
  pub viewport_height : Option Dimension
  pub request_id : Option ℕ

abbrev pub is_owned_package : ℕ → ℕ → PackageRow → Bool
is_owned_package user id p = p.id == id && p.user_id == user && p.is_stored

unfoldable pub get_owned_package : ℕ → ℕ → List PackageRow → Option PackageRow
get_owned_package user id t = find_where (is_owned_package user id) t

-- canUseInteractiveBrowser, with the error that a denial is turned into.
abbrev pub entitled : EntitlementResult → Result (Unit {0})
entitled allowed = ok tt
entitled (quota_denied plan) = thrown quota_exceeded
entitled (plan_denied plan) = thrown payment_required

unfoldable pub max_minutes : InteractiveConfig → BillingConfig → ℕ → ℕ → BillingDb → ℕ
max_minutes config billing now user db = max 1 (
    min (get_effective_plan billing now user db).plan.interactive_browser_max_minutes
      config.max_session_minutes)

-- The row that insertSession is given; `info` is the snapshot of the extension's metadata.
abbrev pub session_input :
    CreateSessionInput → ℕ → PackageRow → Option String → ℕ × ℕ → String → ℕ → ℕ → NewSession
session_input input user pkg url viewport info reservation expires_at = record {
  user_id = user;
  organization_id = pkg.organization_id;
  extension_id = pkg.extension_id;
  package_id = pkg.id;
  package_version = pkg.version;
  package_sha256 = pkg.sha256;
  browser = "chromium";
  viewport_width = viewport.0;
  viewport_height = viewport.1;
  initial_url = url;
  extension_info_json = info;
  quota_reservation_id = some reservation;
  request_id = input.request_id;
  expires_at = expires_at;
}

-- The transaction: the reservation, the row and its first event. A reservation takes the identifier after
-- that of the session. Any exception rolls all of it back.
unfoldable pub create_in_transaction :
    BillingConfig → ℕ → ℕ → (ℕ → NewSession) → World → Result (World × SessionRow)
create_in_transaction billing now user session_of w =
    let id = w.next_id in
    elim (reserve_quota billing now (id + 1) user interactive_browser (some id) none w.billing) [
      | none ↦ thrown quota_exceeded
      | some db ↦ elim (insert_session now id (session_of (id + 1)) w.sessions) [
        | none ↦ thrown conflict
        | some (row, t) ↦ ok (
          log_event now id
              (event_input "session_created" "info" "Interactive browser session created.")
              (record w { sessions = t; billing = db; next_id = id + 2 }),
          row,
        )
      ]
    ]

-- The checks of createInteractiveSession, in their order.
unfoldable pub create_interactive_session :
    InteractiveConfig
    → BillingConfig
    → ℕ
    → ℕ
    → String
    → CreateSessionInput
    → World
    → Result (World × SessionRow)
create_interactive_session config billing now user info input w =
    let viewport =
      validate_viewport config (coalesce input.viewport_width (whole (pos 1280)))
        (coalesce input.viewport_height (whole (pos 800))) in
    let expires_at = now + max_minutes config billing now user w.billing * 60000 in
    if not config.enabled || config.maintenance_mode
    then thrown browser_unavailable
    else elim (get_owned_package user input.package_id w.packages) [
      | none ↦ thrown browser_session_not_found
      | some pkg ↦ elim (initial_url_of input.initial_url) [
        | thrown e ↦ thrown e
        | ok url ↦ elim viewport [
          | none ↦ thrown invalid_input
          | some size ↦ elim (entitled (can_use_interactive_browser billing now user w.billing)) [
            | thrown e ↦ thrown e
            | ok _ ↦
                create_in_transaction billing now user
                  (λ reservation. session_input input user pkg url size info reservation expires_at)
                  w
          ]
        ]
      ]
    ]

-- `enqueue` gives the state after the start job was enqueued, and the identifier of the job.
unfoldable pub start_interactive_session :
    (World → World × ℕ) → ℕ → ℕ → ℕ → World → Result (World × SessionRow)
start_interactive_session enqueue now user session w =
    elim (get_owned_session user session w.sessions) [
      | none ↦ thrown browser_session_not_found
      | some row ↦
          let moved =
            transition_session now row.id (created ∷ []) SessionStatus.queued
              (record no_fields {
                state_reason = some "Waiting for a browser slot.";
                job_id = some none;
              })
              w.sessions in
          if is_queued row.status || is_starting row.status || is_commandable row.status
          then ok (w, row)
          else if is_terminal_session_status row.status
          then thrown session_not_ready
          else elim moved.1 [
            | none ↦ thrown conflict
            | some updated ↦
                let (w', job) = enqueue (record w { sessions = moved.0 }) in
                let joined =
                  transition_session now updated.id (SessionStatus.queued ∷ []) SessionStatus.queued
                    (record no_fields { job_id = some (some job) }) w'.sessions in
                ok (
                  log_event now row.id
                      (event_input "session_queued" "info"
                        "Session queued; waiting for a browser slot.")
                      (record w' { sessions = joined.0 }),
                  coalesce joined.1 updated,
                )
          ]
    ]
