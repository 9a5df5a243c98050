-- ===== src/Billing/QuotaBounds.antt =====
-- Reservations stay within the limit (lib/db/repositories/quota.ts).
use extension_lab.Common.{Option, arith, some, true, ℕ, ◌+◌, ◌<◌, ◌≡◌, ◌≤◌}
use extension_lab.Billing.Effective.{UsagePeriod}
use extension_lab.Billing.Entitlements.{
  BillingConfig, BillingDb, QuotaUsage, can_analyze, can_run_tests, can_use_ai,
  count_open_reservations_in_period, count_usage_in_period, get_quota_usage, is_reserved,
  quota_check,
}
use extension_lab.Billing.Plans.{UsageKind, ai_request, analysis, interactive_browser, test_run}
use extension_lab.Billing.Quota.{is_allowed, new_reservation, reservation_verdict, reserve_quota}
use extension_lab.Sql.Defs.{insert_row}
use extension_lab.Sql.Laws.{count_where-insert}

-- The units of a kind that a user has in a period: those used and those reserved.
unfoldable pub units : ℕ → UsageKind → UsagePeriod → BillingDb → ℕ
unfolding count_usage_in_period count_open_reservations_in_period
units user kind p db =
    count_usage_in_period user kind p db + count_open_reservations_in_period user kind p db

-- The kind whose quota a reservation of a kind is checked against.
abbrev pub checked_kind : UsageKind → UsageKind
checked_kind analysis = analysis
checked_kind ai_request = ai_request
checked_kind test_run = test_run
checked_kind interactive_browser = test_run

-- The usage that the checks read.
abbrev pub usage_of : BillingConfig → ℕ → ℕ → UsageKind → BillingDb → QuotaUsage
usage_of = get_quota_usage

pub allowed-room :
    (config : BillingConfig) (now user : ℕ) (kind : UsageKind) (db : BillingDb)
    → is_allowed (reservation_verdict config now user kind db) ≡ true
    → let u = get_quota_usage config now user (checked_kind kind) db in
      units user (checked_kind kind) u.period db < u.limit
unfolding reservation_verdict can_analyze can_use_ai can_run_tests quota_check get_quota_usage units
allowed-room config now user analysis db h = ground arith
allowed-room config now user test_run db h = ground arith
allowed-room config now user ai_request db h = ground arith
allowed-room config now user interactive_browser db h = ground arith

-- A granted reservation stays within the limit of the kind that it was checked against: the units of
-- that kind, with it, are at most the limit in the period in which the check counted.
pub reserve_quota_bounded :
    (config : BillingConfig) (now id user : ℕ) (kind : UsageKind) (resource job : Option ℕ)
    (db db' : BillingDb)
    → reserve_quota config now id user kind resource job db ≡ some db'
    → let u = get_quota_usage config now user (checked_kind kind) db in
      units user (checked_kind kind) u.period db' ≤ u.limit
unfolding reserve_quota units
reserve_quota_bounded config now id user kind resource job db db' h =
    let u = get_quota_usage config now user (checked_kind kind) db in
    let r = new_reservation now id user kind resource job in
    let verdict : is_allowed (reservation_verdict config now user kind db) ≡ true = ground arith in
    let written : some db' ≡ some (record db { reservations = insert_row r db.reservations }) =
      ground arith in
    let room = allowed-room config now user kind db verdict in
    let more =
      count_where-insert (is_reserved user (checked_kind kind) u.period) r db.reservations in
    ground arith
