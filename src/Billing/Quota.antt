-- ===== src/Billing/Quota.antt =====
-- Quota reservations (lib/db/repositories/quota.ts).
use extension_lab.Common.{
  Bool, Option, false, holds, if◌then◌else◌, is_some, ltb, none, not, some, true, ℕ, ◌&&◌, ◌==◌,
}
use extension_lab.Billing.Entitlements.{
  BillingConfig, BillingDb, EntitlementResult, QuotaReservationRow, UsageEventRow, allowed,
  can_analyze, can_run_tests, can_use_ai, is_settled_none,
}
use extension_lab.Billing.Plans.{UsageKind, ai_request, analysis, interactive_browser, test_run}
use extension_lab.Sql.Defs.{
  count_where, delete_where, find_where, first, insert_row, order_by, select_where, update_where,
}

unfoldable pub find_reservation : ℕ → BillingDb → Option QuotaReservationRow
find_reservation id db = find_where (λ r. r.id == id) db.reservations

abbrev pub is_allowed : EntitlementResult → Bool
is_allowed allowed = true
is_allowed _ = false

-- The verdict that reserveQuota asks for: it has no case for interactive sessions.
unfoldable pub reservation_verdict :
    BillingConfig → ℕ → ℕ → UsageKind → BillingDb → EntitlementResult
reservation_verdict config now user analysis db = can_analyze config now user db
reservation_verdict config now user ai_request db = can_use_ai config now user db
reservation_verdict config now user test_run db = can_run_tests config now user db
reservation_verdict config now user interactive_browser db = can_run_tests config now user db

abbrev pub new_reservation : ℕ → ℕ → ℕ → UsageKind → Option ℕ → Option ℕ → QuotaReservationRow
new_reservation now id user kind resource job = record {
  id = id;
  user_id = user;
  kind = kind;
  resource_id = resource;
  job_id = job;
  created_at = now;
  consumed_at = none;
  released_at = none;
}

-- `none` is QuotaExceededError or the exception of the PRIMARY KEY.
unfoldable pub reserve_quota :
    BillingConfig → ℕ → ℕ → ℕ → UsageKind → Option ℕ → Option ℕ → BillingDb → Option BillingDb
reserve_quota config now id user kind resource job db =
    if not (is_allowed (reservation_verdict config now user kind db))
    then none
    else if is_some (find_reservation id db)
    then none
    else some (record db {
      reservations = insert_row (new_reservation now id user kind resource job) db.reservations;
    })

abbrev pub is_unsettled : ℕ → QuotaReservationRow → Bool
is_unsettled id r = r.id == id && is_settled_none r

abbrev pub consumed : ℕ → QuotaReservationRow → QuotaReservationRow
consumed now r = record r { consumed_at = some now }

abbrev pub released : ℕ → QuotaReservationRow → QuotaReservationRow
released now r = record r { released_at = some now }

abbrev pub usage_event : ℕ → ℕ → QuotaReservationRow → UsageEventRow
usage_event now id r = record { id = id; user_id = r.user_id; kind = r.kind; created_at = now }

-- `event_id` is the fresh identifier of recordUsage.
unfoldable pub consume_reservation : ℕ → ℕ → ℕ → BillingDb → BillingDb × Bool
consume_reservation now event_id id db = elim (find_reservation id db) [
  | none ↦ (db, false)
  | some r ↦
      if is_settled_none r
      then (
        record db {
          reservations = update_where (is_unsettled id) (consumed now) db.reservations;
          usage_events = insert_row (usage_event now event_id r) db.usage_events;
        },
        true,
      )
      else (db, false)
]

unfoldable pub release_reservation : ℕ → ℕ → BillingDb → BillingDb × Bool
release_reservation now id db = (
  record db { reservations = update_where (is_unsettled id) (released now) db.reservations },
  ltb 0 (count_where (is_unsettled id) db.reservations),
)

-- ORDER BY created_at DESC LIMIT 1
unfoldable pub find_reservation_for_resource : ℕ → BillingDb → Option QuotaReservationRow
find_reservation_for_resource resource db = first (
    order_by (λ a b. ltb b.created_at a.created_at)
      (select_where (λ r. holds (λ x. x == resource) r.resource_id) db.reservations))

unfoldable pub release_reservation_for_resource : ℕ → ℕ → BillingDb → BillingDb × Bool
release_reservation_for_resource now resource db =
    elim (find_reservation_for_resource resource db) [
      | none ↦ (db, false)
      | some r ↦ release_reservation now r.id db
    ]

unfoldable pub consume_reservation_for_resource : ℕ → ℕ → ℕ → BillingDb → BillingDb × Bool
consume_reservation_for_resource now event_id resource db =
    elim (find_reservation_for_resource resource db) [
      | none ↦ (db, false)
      | some r ↦ consume_reservation now event_id r.id db
    ]

-- `active` tells of a job that it is queued, running or retrying.
abbrev pub is_dangling : (ℕ → Bool) → ℕ → QuotaReservationRow → Bool
is_dangling active older_than r =
    is_settled_none r && ltb r.created_at older_than && not (holds active r.job_id)

unfoldable pub release_dangling_reservations : (ℕ → Bool) → ℕ → ℕ → BillingDb → BillingDb × ℕ
release_dangling_reservations active now older_than db = (
  record db {
    reservations = update_where (is_dangling active older_than) (released now) db.reservations;
  },
  count_where (is_dangling active older_than) db.reservations,
)

abbrev pub is_old : ℕ → QuotaReservationRow → Bool
is_old before r = ltb r.created_at before && not (is_settled_none r)

unfoldable pub delete_old_reservations : ℕ → BillingDb → BillingDb × ℕ
delete_old_reservations before db = (
  record db { reservations = delete_where (is_old before) db.reservations },
  count_where (is_old before) db.reservations,
)
